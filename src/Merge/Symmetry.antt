-- ===== src/Merge/Symmetry.antt =====
-- `mergeText3` with its two sides exchanged.
use vaultsyncforagents.Prelude.{
  ℕ, zero, suc, ◌+◌, ◌*◌, ◌≡◌, refl, true, List, [], ◌∷◌, Str, eq_iff, length, map, arith,
  Bool-cases, Option-cases, inl, inr,
}
use vaultsyncforagents.Merge.{
  split_lines, regions_equal, lcs_pairs, matched, Anchor, anchors_from, resolve_gap, merge_from,
  is_too_large, merge_lines, merge_text3,
}
use vaultsyncforagents.Merge.Clean.{regions_equal_iff}

pub regions_equal_refl : (a : List Str) → regions_equal a a ≡ true
unfolding regions_equal
regions_equal_refl [] = refl
regions_equal_refl (x ∷ a) = ground (arith, eq_iff x x, regions_equal_refl a)

regions_equal_comm : (a b : List Str) → regions_equal a b ≡ regions_equal b a
unfolding regions_equal
regions_equal_comm [] [] = refl
regions_equal_comm [] (y ∷ b) = refl
regions_equal_comm (x ∷ a) [] = refl
regions_equal_comm (x ∷ a) (y ∷ b) = ground (arith, eq_iff x y, eq_iff y x, regions_equal_comm a b)

resolve_gap_comm :
    (base ours theirs : List Str) → resolve_gap base ours theirs ≡ resolve_gap base theirs ours
unfolding resolve_gap
resolve_gap_comm base ours theirs = elim (Bool-cases (regions_equal ours theirs)) [
  | inl same ↦ let e : ours ≡ theirs = regions_equal_iff ours theirs same in cc
  | inr differ ↦ ground (arith, regions_equal_comm ours theirs)
]

abbrev swap : Anchor → Anchor
swap anchor = record {
  base_at = anchor.base_at;
  ours_at = anchor.theirs_at;
  theirs_at = anchor.ours_at;
}

anchors_from-swap :
    (ours theirs : List (ℕ × ℕ)) (count i : ℕ)
    → anchors_from theirs ours count i ≡ map swap (anchors_from ours theirs count i)
unfolding anchors_from
anchors_from-swap ours theirs zero i = refl
anchors_from-swap ours theirs (suc count) i = elim (Option-cases (matched ours i)) [
  | inl alone ↦ elim (Option-cases (matched theirs i)) [
    | inl alone' ↦ rw (anchors_from, alone, alone') (anchors_from-swap ours theirs count (suc i))
    | inr (q', e') ↦ rw (anchors_from, alone, e') (anchors_from-swap ours theirs count (suc i))
  ]
  | inr (q, e) ↦ elim (Option-cases (matched theirs i)) [
    | inl alone' ↦ rw (anchors_from, e, alone') (anchors_from-swap ours theirs count (suc i))
    | inr (q', e') ↦ rw (anchors_from, e, e', anchors_from-swap ours theirs count (suc i)) refl
  ]
]

module _ (base ours theirs : List Str) where
  merge_from-swap :
      (anchors : List Anchor) (b o t : ℕ)
      → merge_from base theirs ours (map swap anchors) b t o
        ≡ merge_from base ours theirs anchors b o t
  unfolding merge_from
  merge_from-swap [] b o t = resolve_gap_comm _ _ _
  merge_from-swap (anchor ∷ anchors) b o t =
      rw
        (
          merge_from-swap anchors (suc anchor.base_at) (suc anchor.ours_at) (suc anchor.theirs_at),
          resolve_gap_comm,
        )
        refl

  is_too_large_comm : is_too_large base ours theirs ≡ is_too_large base theirs ours
  unfolding is_too_large
  is_too_large_comm =
      let sum : length base * (length ours + 1) + length base * (length theirs + 1)
          ≡ length base * (length theirs + 1) + length base * (length ours + 1) =
        omega arith in
      rw sum (ground arith)

merge_lines_comm :
    (base ours theirs : List Str) → merge_lines base ours theirs ≡ merge_lines base theirs ours
unfolding merge_lines
merge_lines_comm base ours theirs = cc (
  is_too_large_comm base ours theirs,
  merge_from-swap base ours theirs
      (anchors_from (lcs_pairs base ours) (lcs_pairs base theirs) (length base) 0) 0 0 0,
  anchors_from-swap (lcs_pairs base ours) (lcs_pairs base theirs) (length base) 0,
)

-- Merging ours with theirs and theirs with ours gives the same text, or both are refused.
pub merge_text3_comm :
    (base ours theirs : Str) → merge_text3 base ours theirs ≡ merge_text3 base theirs ours
unfolding merge_text3
merge_text3_comm base ours theirs =
    rw (merge_lines_comm (split_lines base) (split_lines ours) (split_lines theirs)) refl
