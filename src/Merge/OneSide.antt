-- ===== src/Merge/OneSide.antt =====
-- `mergeText3` where one of the two sides is the base itself.
use vaultsyncforagents.Prelude.{
  ℕ, zero, suc, ◌+◌, ◌≤◌, ◌<◌, ◌≡◌, refl, sym, ◌∙◌, false, some, List, [], ◌∷◌, Str, eq_refl,
  length, drop, get_elem?, nat_eq, nat_eq_iff, All, arith, Bool-cases, Option-cases, inl, inr, ap,
}
use native.Mathlib.Nat.{not-suc-le-zero}
use vaultsyncforagents.Prelude.Strings.{split_on, join_with, cons_head}
use vaultsyncforagents.Merge.{
  newline, split_lines, walk, lcs_table, lcs_pairs, matched, Anchor, anchors_from, resolve_gap,
  merge_from, is_too_large, merge_lines, merge_text3,
}
use vaultsyncforagents.Merge.Anchors.{
  AreAnchors, anchors-AreAnchors, walk-IsAligned, matched-IsMatch,
}
use vaultsyncforagents.Merge.Clean.{regions_equal_iff, drop-slice, slice_to_end}
use vaultsyncforagents.Merge.Symmetry.{regions_equal_refl}

-- Joining the lines that a text was split into gives the text back.
join_with-cons_head :
    (c x : ℕ) (s : Str) (rest : List Str)
    → join_with c (cons_head x (s ∷ rest)) ≡ x ∷ join_with c (s ∷ rest)
unfolding join_with
join_with-cons_head c x s [] = refl
join_with-cons_head c x s (t ∷ rest) = refl

split_on_cons : (c : ℕ) (s : Str) → (t : Str) × (rest : List Str) × (split_on c s ≡ t ∷ rest)
unfolding split_on
split_on_cons c [] = ([], [], refl)
split_on_cons c (x ∷ s) =
    let (t, rest, e) = split_on_cons c s in
    elim (Bool-cases (nat_eq x c)) [
      | inl at ↦ ([], split_on c s, rw at refl)
      | inr other ↦ (x ∷ t, rest, rw (other, e) refl)
    ]

join_with-split_on : (c : ℕ) (s : Str) → join_with c (split_on c s) ≡ s
unfolding split_on join_with
join_with-split_on c [] = refl
join_with-split_on c (x ∷ s) =
    let (t, rest, e) = split_on_cons c s in
    let joins : join_with c (t ∷ rest) ≡ s = rw e at (join_with-split_on c s) in
    elim (Bool-cases (nat_eq x c)) [
      | inl at ↦
          let same : x ≡ c = (nat_eq_iff x c).0 at in rw (at, e, same) (ap (λ r. c ∷ r) joins)
      | inr other ↦ rw (other, e) (join_with-cons_head c x t rest ∙ ap (λ r. x ∷ r) joins)
    ]

pub join_with-split_lines : (s : Str) → join_with newline (split_lines s) ≡ s
unfolding split_lines join_with
join_with-split_lines [] = refl
join_with-split_lines (c ∷ s) = join_with-split_on newline (c ∷ s)

get_elem?_lt :
    (lines : List Str) (i : ℕ) → i < length lines → (x : Str) × (get_elem? lines i ≡ some x)
get_elem?_lt [] i lt = elim (not-suc-le-zero lt) [ ]
get_elem?_lt (x ∷ lines) zero lt = (x, refl)
get_elem?_lt (x ∷ lines) (suc i) lt = get_elem?_lt lines i (omega arith)

-- The walk over a text and itself pairs every line with itself.
walk_self_step :
    (lines : List Str) (table : List (List ℕ)) (rounds k : ℕ) (x : Str)
    → get_elem? lines k ≡ some x
    → walk lines lines table (suc rounds) k k
      ≡ (k, k) ∷ walk lines lines table rounds (suc k) (suc k)
unfolding walk
walk_self_step lines table rounds k x at = rw (walk, at, at, eq_refl x) refl

walk_self :
    (lines : List Str) (table : List (List ℕ)) (rounds k i : ℕ)
    → length lines ≤ k + rounds
    → k ≤ i
    → i < length lines
    → matched (walk lines lines table rounds k k) i ≡ some i
unfolding matched
walk_self lines table zero k i le from lt = absurd (omega arith)
walk_self lines table (suc rounds) k i le from lt =
    let rest = walk lines lines table rounds (suc k) (suc k) in
    let (x, at) = get_elem?_lt lines k (omega arith) in
    let step = walk_self_step lines table rounds k x at in
    elim (Bool-cases (nat_eq k i)) [
      | inr before ↦
          let found : matched rest i ≡ some i =
            walk_self lines table rounds (suc k) i (omega arith) (ground (arith, before)) lt in
          rw (step, matched, found) refl
      | inl same ↦
          let e : k ≡ i = (nat_eq_iff k i).0 same in
          elim (Option-cases (matched rest i)) [
            | inl alone ↦ rw (step, matched, alone, same) (ap some e)
            | inr (q, later) ↦
                let m =
                  matched-IsMatch lines lines (suc k) (suc k) rest i q
                    (walk-IsAligned lines lines table rounds (suc k) (suc k)) later in
                absurd (omega (arith, m.from))
          ]
    ]

lcs_pairs_self :
    (lines : List Str) (i : ℕ) → i < length lines → matched (lcs_pairs lines lines) i ≡ some i
unfolding lcs_pairs
lcs_pairs_self lines i lt =
    walk_self lines (lcs_table lines lines) (length lines + length lines) 0 i (omega arith)
      (omega arith) lt

-- An anchor that stands at the same place on the base and on theirs.
abbrev IsDiagonal : Anchor → Type 0
IsDiagonal anchor = anchor.theirs_at ≡ anchor.base_at

anchors_from-IsDiagonal :
    (base : List Str) (to_ours : List (ℕ × ℕ)) (count i : ℕ)
    → i + count ≤ length base
    → All IsDiagonal (anchors_from to_ours (lcs_pairs base base) count i)
unfolding anchors_from
anchors_from-IsDiagonal base to_ours zero i le = tt
anchors_from-IsDiagonal base to_ours (suc count) i le =
    let rest = anchors_from-IsDiagonal base to_ours count (suc i) (omega arith) in
    let self = lcs_pairs_self base i (omega arith) in
    elim (Option-cases (matched to_ours i)) [
      | inl alone ↦ rw (anchors_from, alone) rest
      | inr (q, e) ↦ rw (anchors_from, e, self) (refl, rest)
    ]

resolve_gap_one_side : (base ours : List Str) → resolve_gap base ours base ≡ some ours
unfolding resolve_gap
resolve_gap_one_side base ours =
    ground (arith, regions_equal_refl base, regions_equal_iff ours base)

merge_from_one_side :
    (base ours : List Str) (anchors : List Anchor) (b o : ℕ)
    → AreAnchors base ours base b o b anchors
    → All IsDiagonal anchors
    → merge_from base ours base anchors b o b ≡ some (drop o ours)
unfolding merge_from
merge_from_one_side base ours [] b o fit diagonal =
    resolve_gap_one_side _ _ ∙ ap some (slice_to_end o ours)
merge_from_one_side base ours (anchor ∷ anchors) b o (on_ours, on_theirs, fit) (same, diagonal) =
    let fits : AreAnchors base ours base (suc anchor.base_at) (suc anchor.ours_at)
        (suc anchor.base_at) anchors =
      rw same at fit in
    let rest =
      merge_from_one_side base ours anchors (suc anchor.base_at) (suc anchor.ours_at) fits
        diagonal in
    rw (same, resolve_gap_one_side, rest, on_ours.here)
      (ap some (sym (drop-slice o anchor.ours_at ours on_ours.line on_ours.to on_ours.there)))

merge_lines_one_side :
    (base ours : List Str)
    → is_too_large base ours base ≡ false
    → merge_lines base ours base ≡ some ours
unfolding merge_lines
merge_lines_one_side base ours small = rw small (
    merge_from_one_side base ours
      (anchors_from (lcs_pairs base ours) (lcs_pairs base base) (length base) 0) 0 0
      (anchors-AreAnchors base ours base)
      (anchors_from-IsDiagonal base (lcs_pairs base ours) (length base) 0 (omega arith)))

-- Within the bounds on lines and cells, a merge in which theirs is the base itself succeeds, and
-- gives ours, unit by unit.
pub merge_text3_one_side :
    (base ours : Str)
    → is_too_large (split_lines base) (split_lines ours) (split_lines base) ≡ false
    → merge_text3 base ours base ≡ some ours
unfolding merge_text3
merge_text3_one_side base ours small =
    rw (merge_lines_one_side (split_lines base) (split_lines ours) small)
      (ap some (join_with-split_lines ours))
