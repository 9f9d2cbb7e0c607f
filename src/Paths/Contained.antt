-- ===== src/Paths/Contained.antt =====
-- The segments of the paths that `normalizeVaultPath` of packages/core/src/paths.ts returns.
use vaultsyncforagents.Prelude.{
  ℕ, ◌≡◌, refl, sym, ◌∙◌, false, ◌||◌, List, [], ◌∷◌, Str, ◌==◌, nat_eq, All, arith, Bool-cases,
  inl, inr,
}
use mathlib.Core.List.{reverse}
use vaultsyncforagents.Prelude.Failure.{
  Result, ok, err, >>=-eq-ok, if-eq-ok, ok_injective, subst_ok, invalid_path, ◌>>=◌,
}
use vaultsyncforagents.Prelude.Strings.{includes, split_on, cons_head, replace_all, starts_with}
use vaultsyncforagents.Platform.{Platform}
use vaultsyncforagents.Paths.{
  slash, backslash, dot_segment, dot_dot_segment, is_windows_unsafe_segment, push_segment,
  push_segments, render, normalize_vault_path, has_drive_letter,
}

-- A segment that a normalised path may have: the canonical form of a name without a slash that is
-- not empty, not `.` and not `..`, and that Windows takes.
pub record IsProper (u : Platform) (segment : Str) : Type 0 where
  pub raw : Str
  pub canonical : segment ≡ u.nfc raw
  pub one_segment : includes slash raw ≡ false
  pub not_empty : raw == [] ≡ false
  pub not_dot : raw == dot_segment ≡ false
  pub not_dot_dot : raw == dot_dot_segment ≡ false
  pub safe : is_windows_unsafe_segment u raw ≡ false

abbrev WithoutSlash : Str → Type 0
WithoutSlash s = includes slash s ≡ false

cons_head-WithoutSlash :
    (x : ℕ) (parts : List Str)
    → nat_eq x slash ≡ false
    → All WithoutSlash parts
    → All WithoutSlash (cons_head x parts)
unfolding includes
cons_head-WithoutSlash x [] other all = (ground arith, tt)
cons_head-WithoutSlash x (s ∷ parts) other (h, all) = (ground arith, all)

split_on-WithoutSlash : (s : Str) → All WithoutSlash (split_on slash s)
unfolding split_on includes
split_on-WithoutSlash [] = (refl, tt)
split_on-WithoutSlash (x ∷ s) = elim (Bool-cases (nat_eq x slash)) [
  | inl at ↦ rw at (refl, split_on-WithoutSlash s)
  | inr other ↦ rw other (cons_head-WithoutSlash x _ other (split_on-WithoutSlash s))
]

module _ (u : Platform) where
  push_segment-IsProper :
      (segment : Str) (stack later : List Str)
      → WithoutSlash segment
      → All (IsProper u) stack
      → push_segment u segment stack ≡ ok later
      → All (IsProper u) later
  unfolding push_segment
  push_segment-IsProper segment stack later whole all h =
      elim (if-eq-ok (segment == [] || segment == dot_segment) _ _ h) [
        | inl (skipped, e) ↦ subst_ok (All (IsProper u)) stack later e all
        | inr (name, rest) ↦ elim (if-eq-ok (segment == dot_dot_segment) _ _ rest) [
          | inl (up, e) ↦ popped stack later all e
          | inr (not_up, more) ↦ elim (if-eq-ok (is_windows_unsafe_segment u segment) _ _ more) [
            | inl (bad, e) ↦ cc
            | inr (fine, e) ↦ subst_ok (All (IsProper u)) (u.nfc segment ∷ stack) later e (
              record {
                raw = segment;
                canonical = refl;
                one_segment = whole;
                not_empty = ground (arith, name);
                not_dot = ground (arith, name);
                not_dot_dot = not_up;
                safe = fine;
              },
              all,
            )
          ]
        ]
      ]
    where
      popped :
          (stack later : List Str)
          → All (IsProper u) stack
          → ◌≡◌ {A = Result (List Str)}
              (elim stack [ [] ↦ err invalid_path | top ∷ below ↦ ok below ])
              (ok later)
          → All (IsProper u) later
      popped [] later all e = cc
      popped (top ∷ below) later (p, all) e = subst_ok (All (IsProper u)) below later e all

  chained :
      (m : Result (List Str)) (rest : List Str)
      → ◌≡◌ {A = Result (List Str)}
          (elim m [ ok stack ↦ push_segments u rest stack | err e ↦ err e ])
          (m >>= push_segments u rest)
  chained (ok stack) rest = refl
  chained (err e) rest = refl

  push_segments-IsProper :
      (segments stack later : List Str)
      → All WithoutSlash segments
      → All (IsProper u) stack
      → push_segments u segments stack ≡ ok later
      → All (IsProper u) later
  unfolding push_segments
  push_segments-IsProper [] stack later whole all h = subst_ok (All (IsProper u)) stack later h all
  push_segments-IsProper (segment ∷ rest) stack later (w, whole) all h =
      let (middle, step, more) =
        >>=-eq-ok (push_segment u segment stack) (push_segments u rest)
          (sym (chained (push_segment u segment stack) rest) ∙ h) in
      push_segments-IsProper rest middle later whole
        (push_segment-IsProper segment stack middle w all step) more

-- A path that the normalisation returns is the slash of the root and then proper segments, joined by
-- slashes: no segment is empty, `.` or `..` before its canonical form is taken, or has a name that
-- Windows reserves.
pub normalize_vault_path-IsProper :
    (u : Platform) (input path : Str)
    → normalize_vault_path u input ≡ ok path
    → (stack : List Str) × (path ≡ render u (reverse stack)) × All (IsProper u) stack
unfolding normalize_vault_path
normalize_vault_path-IsProper u input path h = elim (if-eq-ok (includes 0 input) _ _ h) [
  | inl (nul, e) ↦ cc
  | inr (a, h₁) ↦ elim (if-eq-ok (has_drive_letter input) _ _ h₁) [
    | inl (drive, e) ↦ cc
    | inr (b, h₂) ↦ elim (if-eq-ok (starts_with input (backslash ∷ backslash ∷ [])) _ _ h₂) [
      | inl (unc, e) ↦ cc
      | inr (c, h₃) ↦
          elim (if-eq-ok (starts_with (replace_all backslash slash input) (slash ∷ slash ∷ [])) _ _
            h₃) [
              | inl (unc, e) ↦ cc
              | inr (d, h₄) ↦
                  let (stack, pushed, rendered) =
                    >>=-eq-ok
                      (push_segments u (split_on slash (replace_all backslash slash input)) []) _
                      h₄ in
                  (
                    stack,
                    sym (ok_injective _ _ rendered),
                    push_segments-IsProper u _ [] stack
                        (split_on-WithoutSlash (replace_all backslash slash input)) tt pushed,
                  )
            ]
    ]
  ]
]
