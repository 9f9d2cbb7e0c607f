-- ===== src/Ignore/Credentials.antt =====
-- What no setting can bring into the sync, and what a pattern with one star takes too much.
use vaultsyncforagents.Prelude.{
  ℕ, some, ◌≤◌, ◌≡◌, refl, ap, true, false, [], ◌∷◌, ◌++◌, Str, ◌==◌, arith, Bool-cases, inl, inr,
  codes, length, drop, nat_eq, nat_eq_iff, length-append,
}
use vaultsyncforagents.Prelude.Failure.{ok}
use vaultsyncforagents.Prelude.Strings.{split_on, index_of, last_index_of, starts_with, ends_with}
use vaultsyncforagents.Platform.{Platform}
use vaultsyncforagents.Paths.{is_windows_unsafe_path, normalize_vault_path, slash, root}
use vaultsyncforagents.Ignore.{
  IgnoreSettings, star, segment_match, match_wild, find_middles, segment_at, last_is,
  obsidian_ignored, lower_ignored, is_ignored,
}

-- The settings file of a plugin is never synchronised, whatever the settings say: a path of at
-- least four segments below `.obsidian/plugins` that ends in `data.json`, in any case, is ignored.
pub is_ignored_credentials :
    (u : Platform) (settings : IgnoreSettings) (path normalized : Str)
    → let segments = split_on slash (u.to_lower (drop 1 normalized)) in
      normalize_vault_path u path ≡ ok normalized
      → segment_at 0 segments (codes ".obsidian") ≡ true
      → segment_at 1 segments (codes "plugins") ≡ true
      → last_is segments (codes "data.json") ≡ true
      → 4 ≤ length segments
      → normalized == root ≡ false
      → is_ignored u path settings ≡ ok true
unfolding is_ignored
is_ignored_credentials u settings path normalized canonical first second last long not_root =
    let segments = split_on slash (u.to_lower (drop 1 normalized)) in
    let kept : obsidian_ignored settings (u.to_lower (drop 1 normalized)) segments ≡ true =
      rw (obsidian_ignored, second, last) (ground (arith, long)) in
    let ignored : lower_ignored u settings (u.to_lower (drop 1 normalized)) segments ≡ true =
      rw (lower_ignored, first, kept) (ground arith) in
    elim (Bool-cases (is_windows_unsafe_path u path)) [
      | inl unsafe ↦ rw unsafe refl
      | inr safe ↦ rw (safe, canonical, not_root, ignored) refl
    ]

too_short : (c d : ℕ) (gap : Str) → ¬ ((c ∷ []) ≡ c ∷ (gap ++ (d ∷ [])))
too_short c d gap h =
    let e : 1 ≡ length (c ∷ (gap ++ (d ∷ []))) = ap length h in
    absurd (omega (arith, e, length-append gap (d ∷ [])))

index_of-overlap : (c : ℕ) → nat_eq c star ≡ false → index_of star (c ∷ star ∷ c ∷ []) ≡ some 1
unfolding index_of
index_of-overlap c other = ground (arith, other)

last_index_of-overlap :
    (c : ℕ) → nat_eq c star ≡ false → last_index_of star (c ∷ star ∷ c ∷ []) ≡ some 1
unfolding last_index_of
last_index_of-overlap c other = ground (arith, other)

-- A pattern of one star between two equal letters takes the name that is that letter alone, as the
-- text before the star and the text after it may overlap, although no text between them makes it up.
pub segment_match_overlap :
    (c : ℕ)
    → nat_eq c star ≡ false
    → (segment_match (c ∷ star ∷ c ∷ []) (c ∷ []) ≡ true)
      × ((gap : Str) → ¬ ((c ∷ []) ≡ c ∷ (gap ++ (c ∷ []))))
unfolding segment_match match_wild find_middles starts_with ends_with split_on
segment_match_overlap c other =
    let same : nat_eq c c ≡ true = (nat_eq_iff c c).1 refl in
    (
      rw (segment_match, index_of-overlap c other, last_index_of-overlap c other, match_wild)
          (rw same refl),
      too_short c c,
    )
