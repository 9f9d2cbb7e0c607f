-- ===== src/Ignore.antt =====
-- The vault's ignore rules: packages/core/src/ignore.ts.
pub mod Globs
pub mod Credentials
use vaultsyncforagents.Prelude.{
  ℕ, zero, suc, ◌+◌, ◌-◌, Bool, true, false, not, ◌&&◌, ◌||◌, Option, none, some, List, [], ◌∷◌,
  Str, ◌==◌, codes, if◌then◌else◌, length, take, drop, any, leb, nat_eq,
}
use vaultsyncforagents.Prelude.Failure.{Result, ok, err, ◌>>=◌}
use vaultsyncforagents.Prelude.Strings.{
  split_on, includes, starts_with, ends_with, index_of, last_index_of, drop_while, trim,
}
use vaultsyncforagents.Platform.{Platform}
use vaultsyncforagents.Paths.{is_windows_unsafe_path, normalize_vault_path, slash, root}

pub record IgnoreSettings : Type 0 where
  pub obsidian_sync : Bool
  pub extra_ignores : List Str

abbrev pub always_ignored_segments : List Str
always_ignored_segments =
    codes ".trash" ∷ codes ".ds_store" ∷ codes ".vaultsyncforagents" ∷ codes "thumbs.db" ∷ []

abbrev pub obsidian_volatile_files : List Str
obsidian_volatile_files =
    codes ".obsidian/workspace.json" ∷ codes ".obsidian/workspace-mobile.json" ∷ []

abbrev pub star : ℕ
star = 42

-- A compiled extra-ignore pattern.
pub record CompiledPattern : Type 0 where
  pub segments : List Str
  pub anchored : Bool

-- The loop that cuts slashes at the end.
unfoldable pub strip_end : Str → Str
strip_end [] = []
strip_end (c ∷ s) = let rest = strip_end s in if rest == [] && nat_eq c slash then [] else c ∷ rest

unfoldable pub compile_extra_ignore : Platform → Str → Option CompiledPattern
unfolding strip_end drop_while trim includes split_on
compile_extra_ignore u pattern =
    let cleaned = strip_end (drop_while (λ c. nat_eq c slash) (u.to_lower (trim pattern))) in
    if cleaned == []
    then none
    else some (record { segments = split_on slash cleaned; anchored = includes slash cleaned })

-- `segment.indexOf(middle)`, and with a position to start from.
unfoldable pub find_from_start : Str → Str → Option ℕ
find_from_start middle [] = if starts_with [] middle then some 0 else none
find_from_start middle (c ∷ s) =
    let later = find_from_start middle s in
    if starts_with (c ∷ s) middle
    then some 0
    else elim later [ none ↦ none | some i ↦ some (suc i) ]

unfoldable pub find_from : Str → ℕ → Str → Option ℕ
unfolding find_from_start
find_from middle index segment = elim (find_from_start middle (drop index segment)) [
  | none ↦ none
  | some i ↦ some (index + i)
]

-- The loop over the literal runs between the first star and the last.
unfoldable pub find_middles : ℕ → List Str → Str → Bool
unfolding find_from
find_middles index [] segment = true
find_middles index (middle ∷ middles) segment = elim (find_from middle index segment) [
  | none ↦ false
  | some found ↦ find_middles (found + length middle) middles segment
]

-- `parts.slice(1, -1)`.
abbrev pub inner_parts : List Str → List Str
inner_parts parts = take (length parts - 2) (drop 1 parts)

unfoldable pub match_wild : Str → Str → ℕ → ℕ → Bool
unfolding starts_with ends_with split_on find_middles
match_wild pattern segment first last =
    if not (starts_with segment (take first pattern))
    then false
    else if not (ends_with segment (drop (last + 1) pattern))
    then false
    else find_middles first
        (inner_parts (split_on star (take (last + 1 - first) (drop first pattern)))) segment

-- One segment: literal text with stars.
unfoldable pub segment_match : Str → Str → Bool
unfolding index_of last_index_of match_wild
segment_match pattern segment = elim (index_of star pattern) [
  | none ↦ pattern == segment
  | some first ↦ elim (last_index_of star pattern) [
    | none ↦ pattern == segment
    | some last ↦ match_wild pattern segment first last
  ]
]

abbrev pub double_star : Str
double_star = star ∷ star ∷ []

-- The rest of a pattern against what is left after any number of segments.
unfoldable pub any_suffix : (List Str → Bool) → List Str → Bool
any_suffix match [] = match []
any_suffix match (segment ∷ path) = match (segment ∷ path) || any_suffix match path

abbrev pub match_head : Str → List Str → (List Str → Bool) → Bool
match_head head [] match = false
match_head head (segment ∷ path) match = if segment_match head segment then match path else false

unfoldable pub segments_match : List Str → List Str → Bool
unfolding any_suffix
segments_match [] [] = true
segments_match [] (segment ∷ path) = false
segments_match (head ∷ rest) path =
    if head == double_star
    then any_suffix (segments_match rest) path
    else match_head head path (segments_match rest)

-- The starts of a bare name: every segment, but not the end of the path.
unfoldable pub any_start : (List Str → Bool) → List Str → Bool
any_start match [] = false
any_start match (segment ∷ path) = match (segment ∷ path) || any_start match path

unfoldable pub matches_segments : CompiledPattern → List Str → Bool
unfolding segments_match any_start
matches_segments pattern path =
    if pattern.anchored
    then segments_match pattern.segments path
    else any_start (segments_match pattern.segments) path

abbrev pub is_one_of : List Str → Str → Bool
is_one_of names name = any (λ known. known == name) names

abbrev pub segment_at : ℕ → List Str → Str → Bool
segment_at i [] name = false
segment_at zero (segment ∷ path) name = segment == name
segment_at (suc i) (segment ∷ path) name = segment_at i path name

abbrev pub last_is : List Str → Str → Bool
last_is [] name = false
last_is (segment ∷ []) name = segment == name
last_is (segment ∷ next ∷ path) name = last_is (next ∷ path) name

-- What is ignored below `.obsidian`.
unfoldable pub obsidian_ignored : IgnoreSettings → Str → List Str → Bool
obsidian_ignored settings lower segments =
    if not settings.obsidian_sync
    then true
    else if is_one_of obsidian_volatile_files lower
    then true
    else if segment_at 1 segments (codes "cache")
    then true
    else segment_at 1 segments (codes "plugins")
      && (leb 4 (length segments) && last_is segments (codes "data.json"))

unfoldable pub matches_extra : Platform → List Str → List Str → Bool
unfolding compile_extra_ignore matches_segments
matches_extra u [] segments = false
matches_extra u (pattern ∷ patterns) segments = elim (compile_extra_ignore u pattern) [
  | none ↦ matches_extra u patterns segments
  | some compiled ↦ matches_segments compiled segments || matches_extra u patterns segments
]

-- A canonical path, lowered and without its first slash.
unfoldable pub lower_ignored : Platform → IgnoreSettings → Str → List Str → Bool
unfolding obsidian_ignored matches_extra
lower_ignored u settings lower segments =
    if any (is_one_of always_ignored_segments) segments
    then true
    else if segment_at 0 segments (codes ".obsidian") && obsidian_ignored settings lower segments
    then true
    else matches_extra u settings.extra_ignores segments

unfoldable pub is_ignored : Platform → Str → IgnoreSettings → Result Bool
unfolding lower_ignored split_on
is_ignored u vault_path settings = if is_windows_unsafe_path u vault_path then ok true else do
  normalized ← normalize_vault_path u vault_path
  let lower = u.to_lower (drop 1 normalized)
  ok (if normalized == root then false else lower_ignored u settings lower (split_on slash lower))
