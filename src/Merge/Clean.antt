-- ===== src/Merge/Clean.antt =====
-- The lines of the text that `mergeText3` returns.
use vaultsyncforagents.Prelude.{
  ℕ, zero, suc, ◌-◌, ◌≤◌, ◌≡◌, refl, sym, true, Option, none, some, List, [], ◌∷◌, ◌++◌, Str,
  eq_iff, length, take, drop, get_elem?, or_default, arith, Bool-cases, Option-cases, inl, inr, ap,
}
use native.Mathlib.Nat.{not-suc-le-zero}
use vaultsyncforagents.Prelude.Strings.{join_with}
use vaultsyncforagents.Merge.{
  newline, split_lines, regions_equal, slice, Anchor, resolve_gap, push_gap, cons_line, merge_from,
  is_too_large, merge_lines, merge_text3, joined,
}
use vaultsyncforagents.Merge.Anchors.{AreAnchors, anchors-AreAnchors}

-- The merged lines of a region that one side at most has changed, or both alike.
pub data IsRegion (base ours theirs merged : List Str) : Type 0 where
  from_theirs : ours ≡ base → merged ≡ theirs → IsRegion base ours theirs merged
  from_ours : theirs ≡ base → merged ≡ ours → IsRegion base ours theirs merged
  from_both : ours ≡ theirs → merged ≡ ours → IsRegion base ours theirs merged

-- Regions between lines that all three have and the merge keeps.
pub data IsMerged : List Str → List Str → List Str → List Str → Type 0 where
  last :
      {base ours theirs merged : List Str}
      → IsRegion base ours theirs merged
      → IsMerged base ours theirs merged
  anchored :
      {base ours theirs merged base' ours' theirs' merged' : List Str} (line : Str)
      → IsRegion base ours theirs merged
      → IsMerged base' ours' theirs' merged'
      → IsMerged
          (base ++ (line ∷ base'))
          (ours ++ (line ∷ ours'))
          (theirs ++ (line ∷ theirs'))
          (merged ++ (line ∷ merged'))

pub regions_equal_iff : (a b : List Str) → regions_equal a b ≡ true → a ≡ b
unfolding regions_equal
regions_equal_iff [] [] h = refl
regions_equal_iff [] (y ∷ b) h = cc
regions_equal_iff (x ∷ a) [] h = cc
regions_equal_iff (x ∷ a) (y ∷ b) h = ground (arith, eq_iff x y, regions_equal_iff a b)

resolve_gap-IsRegion :
    (base ours theirs merged : List Str)
    → resolve_gap base ours theirs ≡ some merged
    → IsRegion base ours theirs merged
unfolding resolve_gap
resolve_gap-IsRegion base ours theirs merged h = elim (Bool-cases (regions_equal ours base)) [
  | inl same ↦
      from_theirs (regions_equal_iff ours base same) (ground (arith, regions_equal_iff theirs base))
  | inr differ ↦ elim (Bool-cases (regions_equal theirs base)) [
    | inl same' ↦ from_ours (regions_equal_iff theirs base same') (ground arith)
    | inr differ' ↦ elim (Bool-cases (regions_equal ours theirs)) [
      | inl alike ↦ from_both (regions_equal_iff ours theirs alike) (ground arith)
      | inr clash ↦ ground arith
    ]
  ]
]

-- What is left of a list is its part up to a place, the element there, and what is left then.
pub drop-slice :
    (n p : ℕ) (lines : List Str) (x : Str)
    → n ≤ p
    → get_elem? lines p ≡ some x
    → drop n lines ≡ slice n p lines ++ (x ∷ drop (suc p) lines)
drop-slice n p [] x le h = cc
drop-slice zero zero (y ∷ lines) x le h = cc
drop-slice zero (suc p) (y ∷ lines) x le h =
    let all : suc p - 0 ≡ suc p = omega arith in
    let fewer : p - 0 ≡ p = omega arith in
    let rest : lines ≡ take p lines ++ (x ∷ drop (suc p) lines) =
      rw fewer at (drop-slice zero p lines x (omega arith) h) in
    rw all (ap (λ l. y ∷ l) rest)
drop-slice (suc n) zero (y ∷ lines) x le h = elim (not-suc-le-zero le) [ ]
drop-slice (suc n) (suc p) (y ∷ lines) x le h =
    let shift : suc p - suc n ≡ p - n = omega arith in
    rw shift (drop-slice n p lines x (omega arith) h)

take_all : (lines : List Str) → take (length lines) lines ≡ lines
take_all [] = refl
take_all (x ∷ lines) = rw (take_all lines)

pub slice_to_end : (n : ℕ) (lines : List Str) → slice n (length lines) lines ≡ drop n lines
slice_to_end zero lines =
    let all : length lines - 0 ≡ length lines = omega arith in rw all (take_all lines)
slice_to_end (suc n) [] = let nothing_left : 0 - suc n ≡ 0 = omega arith in rw nothing_left refl
slice_to_end (suc n) (x ∷ lines) =
    let shift : suc (length lines) - suc n ≡ length lines - n = omega arith in
    rw shift (slice_to_end n lines)

push_gap-eq-some :
    (gap later : Option (List Str)) (out : List Str)
    → push_gap gap later ≡ some out
    → (region rest : List Str) × (gap ≡ some region) × (later ≡ some rest) × (region ++ rest ≡ out)
push_gap-eq-some none later out h = cc
push_gap-eq-some (some region) none out h = cc
push_gap-eq-some (some region) (some rest) out h = (region, rest, refl, refl, cc)

cons_line-eq-some :
    (line : Option Str) (later : Option (List Str)) (out : List Str)
    → cons_line line later ≡ some out
    → (rest : List Str) × (later ≡ some rest) × (or_default line [] ∷ rest ≡ out)
cons_line-eq-some line none out h = cc
cons_line-eq-some line (some rest) out h = (rest, refl, cc)

module _ (base ours theirs : List Str) where
  merge_from-IsMerged :
      (anchors : List Anchor) (b o t : ℕ) (out : List Str)
      → AreAnchors base ours theirs b o t anchors
      → merge_from base ours theirs anchors b o t ≡ some out
      → IsMerged (drop b base) (drop o ours) (drop t theirs) out
  unfolding merge_from
  merge_from-IsMerged [] b o t out fit h = last (
      resolve_gap-IsRegion _ _ _ out
        (rw (slice_to_end b base, slice_to_end o ours, slice_to_end t theirs) at h))
  merge_from-IsMerged (anchor ∷ anchors) b o t out (on_ours, on_theirs, fit) h =
      let (region, kept, gap, rest_ok, joins) = push_gap-eq-some _ _ out h in
      let (rest, later, line) = cons_line-eq-some (get_elem? base anchor.base_at) _ kept rest_ok in
      let tail =
        merge_from-IsMerged anchors (suc anchor.base_at) (suc anchor.ours_at) (suc anchor.theirs_at)
          rest fit later in
      let merged : region ++ (on_ours.line ∷ rest) ≡ out = cc (on_ours.here, line, joins) in
      rw
        (
          drop-slice b anchor.base_at base on_ours.line on_ours.from on_ours.here,
          drop-slice o anchor.ours_at ours on_ours.line on_ours.to on_ours.there,
          drop-slice t anchor.theirs_at theirs on_ours.line on_theirs.to
              (cc (on_theirs.there, on_theirs.here, on_ours.here)),
          sym merged,
        )
        (anchored on_ours.line (resolve_gap-IsRegion _ _ _ region gap) tail)

merge_lines-IsMerged :
    (base ours theirs out : List Str)
    → merge_lines base ours theirs ≡ some out
    → IsMerged base ours theirs out
unfolding merge_lines
merge_lines-IsMerged base ours theirs out h = elim (Bool-cases (is_too_large base ours theirs)) [
  | inl large ↦ cc (rw large at h)
  | inr fits ↦
      merge_from-IsMerged base ours theirs _ 0 0 0 out (anchors-AreAnchors base ours theirs)
        (rw fits at h)
]

joined-IsMerged :
    (base ours theirs : List Str) (merged : Str)
    → joined (merge_lines base ours theirs) ≡ some merged
    → (lines : List Str) × (merged ≡ join_with newline lines) × IsMerged base ours theirs lines
joined-IsMerged base ours theirs merged h = elim (Option-cases (merge_lines base ours theirs)) [
  | inl refused ↦ cc (rw refused at h)
  | inr (lines, e) ↦ (lines, cc (rw e at h), merge_lines-IsMerged base ours theirs lines e)
]

-- A merge that returns a text: its lines are those of the three texts region by region, between
-- lines that all three share in order. Every region is the other side's where one side has left
-- the base alone, or the change that both sides made alike.
pub merge_text3-IsMerged :
    (base ours theirs merged : Str)
    → merge_text3 base ours theirs ≡ some merged
    → (lines : List Str) × (merged ≡ join_with newline lines)
      × IsMerged (split_lines base) (split_lines ours) (split_lines theirs) lines
unfolding merge_text3 merge_lines
merge_text3-IsMerged base ours theirs merged h =
    joined-IsMerged (split_lines base) (split_lines ours) (split_lines theirs) merged h
