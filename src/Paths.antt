-- ===== src/Paths.antt =====
-- Vault paths: packages/core/src/paths.ts.
pub mod Contained
use mathlib.Core.List.{reverse}
use vaultsyncforagents.Prelude.{
  ℕ, ◌+◌, ◌-◌, Bool, true, false, not, ◌&&◌, ◌||◌, Option, none, some, List, [], ◌∷◌, ◌++◌, Str,
  codes, ◌==◌, ltb, leb, nat_eq, length, take, drop, any, if◌then◌else◌,
}
use vaultsyncforagents.Prelude.Failure.{Result, ok, err, invalid_path, ◌>>=◌}
use vaultsyncforagents.Prelude.Strings.{
  split_on, join_with, includes, starts_with, ends_with, index_of, last_index_of, replace_all,
}
use vaultsyncforagents.Platform.{Platform}

abbrev pub slash : ℕ
slash = b'/'

abbrev pub backslash : ℕ
backslash = 92

abbrev pub root : Str
root = slash ∷ []

-- `/^[a-zA-Z]:/`
unfoldable pub has_drive_letter : Str → Bool
has_drive_letter [] = false
has_drive_letter (x ∷ []) = false
has_drive_letter (x ∷ y ∷ s) =
    ((leb b'a' x && leb x b'z') || (leb b'A' x && leb x b'Z')) && nat_eq y b':'

unfoldable pub windows_reserved_base_names : List Str
windows_reserved_base_names =
    codes "con"
    ∷ codes "prn"
    ∷ codes "aux"
    ∷ codes "nul"
    ∷ codes "com1"
    ∷ codes "com2"
    ∷ codes "com3"
    ∷ codes "com4"
    ∷ codes "com5"
    ∷ codes "com6"
    ∷ codes "com7"
    ∷ codes "com8"
    ∷ codes "com9"
    ∷ codes "lpt1"
    ∷ codes "lpt2"
    ∷ codes "lpt3"
    ∷ codes "lpt4"
    ∷ codes "lpt5"
    ∷ codes "lpt6"
    ∷ codes "lpt7"
    ∷ codes "lpt8"
    ∷ codes "lpt9"
    ∷ []

-- The text up to the first dot.
abbrev before_dot : Str → Option ℕ → Str
before_dot s none = s
before_dot s (some i) = take i s

abbrev pub dot_segment : Str
dot_segment = b'.' ∷ []

abbrev pub dot_dot_segment : Str
dot_dot_segment = b'.' ∷ b'.' ∷ []

module _ (u : Platform) where
  unfoldable pub is_windows_unsafe_segment : Str → Bool
  unfolding windows_reserved_base_names ends_with index_of
  is_windows_unsafe_segment segment =
      if segment == dot_segment || segment == dot_dot_segment
      then false
      else if ends_with segment (b'.' ∷ []) || ends_with segment (b' ' ∷ [])
      then true
      else any (λ name. u.to_lower (before_dot segment (index_of b'.' segment)) == name)
          windows_reserved_base_names

  unfoldable pub is_windows_unsafe_path : Str → Bool
  unfolding split_on is_windows_unsafe_segment
  is_windows_unsafe_path path = any is_windows_unsafe_segment (split_on slash path)

  -- One round of the loop over the segments; the stack holds the kept segments, last first.
  unfoldable pub push_segment : Str → List Str → Result (List Str)
  push_segment segment stack =
      if segment == [] || segment == dot_segment
      then ok stack
      else if segment == dot_dot_segment
      then elim stack [ [] ↦ err invalid_path | top ∷ below ↦ ok below ]
      else if is_windows_unsafe_segment segment
      then err invalid_path
      else ok (u.nfc segment ∷ stack)

  unfoldable pub push_segments : List Str → List Str → Result (List Str)
  push_segments [] stack = ok stack
  push_segments (segment ∷ rest) stack = elim (push_segment segment stack) [
    | ok stack' ↦ push_segments rest stack'
    | err e ↦ err e
  ]

  -- `segments.length === 0 ? '/' : '/' + segments.join('/')`
  unfoldable pub render : List Str → Str
  render segments = slash ∷ join_with slash segments

  unfoldable pub normalize_vault_path : Str → Result Str
  unfolding push_segments push_segment is_windows_unsafe_segment render has_drive_letter
  normalize_vault_path input =
      if includes 0 input
      then err invalid_path
      else if has_drive_letter input
      then err invalid_path
      else if starts_with input (backslash ∷ backslash ∷ [])
      then err invalid_path
      else let converted = replace_all backslash slash input in
        if starts_with converted (slash ∷ slash ∷ [])
        then err invalid_path
        else do stack ← push_segments (split_on slash converted) []; ok (render (reverse stack))

  -- `normalized.slice(0, normalized.lastIndexOf('/'))`; a slice to -1 drops the last unit.
  abbrev cut_at : Str → Option ℕ → Str
  cut_at s none = take (length s - 1) s
  cut_at s (some i) = if nat_eq i 0 then root else take i s

  abbrev after_index : Str → Option ℕ → Str
  after_index s none = s
  after_index s (some i) = drop (i + 1) s

  unfoldable pub parent_path : Str → Result Str
  parent_path path = do
    normalized ← normalize_vault_path path
    if normalized == root then ok root else ok (cut_at normalized (last_index_of slash normalized))

  unfoldable pub basename : Str → Result Str
  basename path = do
    normalized ← normalize_vault_path path
    if normalized == root
        then ok []
        else ok (after_index normalized (last_index_of slash normalized))

  abbrev join_base : Str → Str
  join_base combined = if combined == root then [] else combined

  join_parts : Str → List Str → Result Str
  join_parts combined [] = ok combined
  join_parts combined (part ∷ rest) =
      if starts_with (replace_all backslash slash part) root
      then err invalid_path
      else join_parts (join_base combined ++ (slash ∷ replace_all backslash slash part)) rest

  unfoldable pub join_path : Str → List Str → Result Str
  unfolding join_parts
  join_path base parts = do
    normalized ← normalize_vault_path base
    combined ← join_parts normalized parts
    normalize_vault_path combined

  unfoldable pub is_nfc_path : Str → Bool
  is_nfc_path path = u.nfc path == path

  unfoldable pub fold_key_for_path : Str → Str
  fold_key_for_path path = u.to_lower (u.nfc path)

unfoldable pub is_strictly_beneath : Str → Str → Bool
is_strictly_beneath child ancestor =
    if ancestor == root
    then not (child == root)
    else ltb (length ancestor) (length child) && starts_with child (ancestor ++ root)
