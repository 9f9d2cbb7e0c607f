-- ===== src/Resolve/Hoist.antt =====
-- The order of the pushes of a plan: `hoistFoldPairedDeletes` of packages/core/src/resolve.ts.
use vaultsyncforagents.Prelude.{
  ℕ, zero, suc, ◌≡◌, ◌≤◌, refl, Bool, true, false, not, ◌&&◌, Option, none, some, List, [], ◌∷◌,
  Str, ◌==◌, eq_iff, length, arith, All, All-Perm, All-map, length-Perm, Pairwise, Pairwise-Perm,
  Option-cases, Bool-cases, inl, inr, Permᴰ,
}
use native.Mathlib.Nat.{not-suc-le-zero}
use mathlib.Core.List.Permᴰ as Permᴰ
use vaultsyncforagents.Platform.{Platform}
use vaultsyncforagents.Paths.{fold_key_for_path}
use vaultsyncforagents.Resolve.Ops.{PushOp}
use vaultsyncforagents.Resolve.Order.{
  push_path, is_push_delete, take_delete, hoist_from, hoist_fold_paired_deletes,
}

module _ (u : Platform) where
  abbrev key_of : PushOp → Str
  key_of op = fold_key_for_path u (push_path op)

  abbrev deletes_at : Str → PushOp → Bool
  deletes_at key op = is_push_delete op && key_of op == key

  -- Two operations that are not deletes of paths with one fold key.
  abbrev pub Apart : PushOp → PushOp → Type 0
  Apart a b = (is_push_delete a && deletes_at (key_of a) b) ≡ false

  -- The first of the two is a delete, or the second is not a delete of a path with its fold key.
  abbrev pub InOrder : PushOp → PushOp → Type 0
  InOrder a b = (not (is_push_delete a) && deletes_at (key_of a) b) ≡ false

  Apart-flip : (a b : PushOp) → Apart a b → Apart b a
  Apart-flip a b h = ground (arith, eq_iff (key_of a) (key_of b), eq_iff (key_of b) (key_of a))

  -- What is taken out of the pushes.
  abbrev Taken : Str → List PushOp → Option (PushOp × List PushOp) → Type 0
  Taken key pushes none = All (λ op. deletes_at key op ≡ false) pushes
  Taken key pushes (some (d, others)) = Permᴰ pushes (d ∷ others) × (deletes_at key d ≡ true)

  take_delete-Taken :
      (key : Str) (pushes : List PushOp) → Taken key pushes (take_delete u key pushes)
  unfolding take_delete
  take_delete-Taken key [] = tt
  take_delete-Taken key (op ∷ rest) = elim (Bool-cases (deletes_at key op)) [
    | inl hit ↦ elim (Option-cases (take_delete u key rest)) [
      | inl e ↦ rw (e, hit) (Permᴰ.refl (op ∷ rest), hit)
      | inr ((d, others), e) ↦ rw (e, hit) (Permᴰ.refl (op ∷ rest), hit)
    ]
    | inr miss ↦ elim (Option-cases (take_delete u key rest)) [
      | inl e ↦ rw (e, miss) (miss, rw e at (take_delete-Taken key rest))
      | inr ((d, others), e) ↦
          let (same, at_key) : Taken key rest (some (d, others)) =
            rw e at (take_delete-Taken key rest) in
          rw (e, miss) (Permᴰ.trans (Permᴰ.cons refl same) (Permᴰ.swap refl refl), at_key)
    ]
  ]

  hoist_from-Perm : (rounds : ℕ) (pushes : List PushOp) → Permᴰ pushes (hoist_from u rounds pushes)
  unfolding hoist_from
  hoist_from-Perm zero pushes = Permᴰ.refl pushes
  hoist_from-Perm (suc rounds) [] = Permᴰ.nil
  hoist_from-Perm (suc rounds) (op ∷ rest) = elim (Bool-cases (is_push_delete op)) [
    | inl deletes ↦ rw (hoist_from, deletes) (Permᴰ.cons refl (hoist_from-Perm rounds rest))
    | inr writes ↦ elim (Option-cases (take_delete u (key_of op) rest)) [
      | inl e ↦ rw (hoist_from, writes, e) (Permᴰ.cons refl (hoist_from-Perm rounds rest))
      | inr ((d, others), e) ↦
          let (same, at_key) : Taken (key_of op) rest (some (d, others)) =
            rw e at (take_delete-Taken (key_of op) rest) in
          rw (hoist_from, writes, e)
            (Permᴰ.trans (Permᴰ.cons refl same) (
              Permᴰ.trans (Permᴰ.swap refl refl)
                (Permᴰ.cons refl (Permᴰ.cons refl (hoist_from-Perm rounds others)))))
    ]
  ]

  -- The pushes after the hoist are the pushes before it, in another order: none is lost or doubled.
  pub hoist_fold_paired_deletes-Perm :
      (pushes : List PushOp) → Permᴰ pushes (hoist_fold_paired_deletes u pushes)
  unfolding hoist_fold_paired_deletes
  hoist_fold_paired_deletes-Perm pushes = hoist_from-Perm (length pushes) pushes

  no_delete_left :
      (op : PushOp) (rest : List PushOp) (rounds : ℕ)
      → All (λ b. deletes_at (key_of op) b ≡ false) rest
      → All (InOrder op) (hoist_from u rounds rest)
  no_delete_left op rest rounds clear =
      All-map _ (λ b (h : deletes_at (key_of op) b ≡ false). ground (arith, h)) _
        (All-Perm _ rest _ (hoist_from-Perm rounds rest) clear)

  deletes_first :
      (op : PushOp) (rest : List PushOp) → is_push_delete op ≡ true → All (InOrder op) rest
  deletes_first op [] h = tt
  deletes_first op (b ∷ rest) h = (rw h refl, deletes_first op rest h)

  hoist_from-InOrder :
      (rounds : ℕ) (pushes : List PushOp)
      → length pushes ≤ rounds
      → Pairwise Apart pushes
      → Pairwise InOrder (hoist_from u rounds pushes)
  unfolding hoist_from
  hoist_from-InOrder zero [] le apart = tt
  hoist_from-InOrder zero (op ∷ rest) le apart = elim (not-suc-le-zero le) [ ]
  hoist_from-InOrder (suc rounds) [] le apart = tt
  hoist_from-InOrder (suc rounds) (op ∷ rest) le (alone, apart) =
      elim (Bool-cases (is_push_delete op)) [
        | inl deletes ↦
            rw (hoist_from, deletes)
              (deletes_first op _ deletes, hoist_from-InOrder rounds rest (omega arith) apart)
        | inr writes ↦ elim (Option-cases (take_delete u (key_of op) rest)) [
          | inl e ↦
              rw (hoist_from, writes, e)
                (
                  no_delete_left op rest rounds (rw e at (take_delete-Taken (key_of op) rest)),
                  hoist_from-InOrder rounds rest (omega arith) apart,
                )
          | inr ((d, others), e) ↦
              let (same, at_key) : Taken (key_of op) rest (some (d, others)) =
                rw e at (take_delete-Taken (key_of op) rest) in
              let (single, others_apart) =
                Pairwise-Perm Apart Apart-flip rest (d ∷ others) same apart in
              let clear =
                All-map (Apart d) {Q = λ b. deletes_at (key_of op) b ≡ false}
                  (λ b h. ground (
                    arith,
                    h,
                    at_key,
                    eq_iff (key_of d) (key_of op),
                    eq_iff (key_of b) (key_of d),
                    eq_iff (key_of b) (key_of op),
                  ))
                  others single in
              rw (hoist_from, writes, e)
                (
                  deletes_first d (op ∷ hoist_from u rounds others) (ground arith),
                  (
                    no_delete_left op others rounds clear,
                    hoist_from-InOrder rounds others (omega (arith, le, length-Perm same))
                        others_apart,
                  ),
                )
        ]
      ]

  -- When no two deletes of the pushes have targets with one fold key, then after the hoist no delete comes after a write or a rename with the fold key of its target.
  pub hoist_fold_paired_deletes-InOrder :
      (pushes : List PushOp)
      → Pairwise Apart pushes
      → Pairwise InOrder (hoist_fold_paired_deletes u pushes)
  unfolding hoist_fold_paired_deletes
  hoist_fold_paired_deletes-InOrder pushes apart =
      hoist_from-InOrder (length pushes) pushes (omega arith) apart
