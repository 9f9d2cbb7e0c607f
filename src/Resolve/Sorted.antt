-- ===== src/Resolve/Sorted.antt =====
-- The sorting that ends `computeSyncPlan` in packages/core/src/resolve.ts.
use vaultsyncforagents.Prelude.{
  ◌≡◌, refl, sym, false, List, [], ◌∷◌, Str, str_lt, str_lt_asymm, str_lt_trans, str_lt_total,
  arith, All-Perm, All-map, Pairwise, Permᴰ, Bool-cases, inl, inr,
}
use mathlib.Core.List.Permᴰ as Permᴰ
use vaultsyncforagents.Platform.{Platform}
use vaultsyncforagents.Resolve.Ops.{LocalChanges, Progress, ConflictOp}
use vaultsyncforagents.Resolve.Order.{Sign, compare_strings, goes_after, insert_stable, sort}
use vaultsyncforagents.Resolve.Plan.{plan_of}
use vaultsyncforagents.Resolve.Hoist.{hoist_fold_paired_deletes-Perm}

module _ {ℓ} {A : Type ℓ} (compare : A → A → Sign) where
  insert_stable-Perm : (a : A) (rest : List A) → Permᴰ (a ∷ rest) (insert_stable compare a rest)
  unfolding insert_stable
  insert_stable-Perm a [] = Permᴰ.refl (a ∷ [])
  insert_stable-Perm a (b ∷ rest) = elim (Bool-cases (goes_after (compare a b))) [
    | inl behind ↦
        rw (insert_stable, behind)
          (Permᴰ.trans (Permᴰ.swap refl refl) (Permᴰ.cons refl (insert_stable-Perm a rest)))
    | inr here ↦ rw (insert_stable, here) (Permᴰ.refl (a ∷ b ∷ rest))
  ]

  pub sort-Perm : (list : List A) → Permᴰ list (sort compare list)
  unfolding sort
  sort-Perm [] = Permᴰ.nil
  sort-Perm (a ∷ rest) =
      Permᴰ.trans (Permᴰ.cons refl (sort-Perm rest)) (insert_stable-Perm a (sort compare rest))

-- The paths of a sorted list never decrease, by code units.
module _ {ℓ} {A : Type ℓ} (path : A → Str) where
  abbrev pub by_path : A → A → Sign
  by_path a b = compare_strings (path a) (path b)

  abbrev pub NotAfter : A → A → Type 0
  NotAfter a b = str_lt (path b) (path a) ≡ false

  NotAfter-trans : (a b c : A) → NotAfter a b → NotAfter b c → NotAfter a c
  NotAfter-trans a b c ab bc = elim (Bool-cases (str_lt (path c) (path a))) [
    | inr later ↦ later
    | inl less ↦ elim (Bool-cases (str_lt (path a) (path b))) [
      | inl before_b ↦ ground (arith, str_lt_trans (path c) (path a) (path b) less before_b, bc)
      | inr level ↦
          let e : path a ≡ path b = str_lt_total (path a) (path b) level ab in rw (sym e) at bc
    ]
  ]

  insert_stable-Pairwise :
      (a : A) (rest : List A)
      → Pairwise NotAfter rest
      → Pairwise NotAfter (insert_stable by_path a rest)
  unfolding insert_stable compare_strings
  insert_stable-Pairwise a [] sorted = (tt, tt)
  insert_stable-Pairwise a (b ∷ rest) (first, sorted) =
      elim (Bool-cases (goes_after (by_path a b))) [
        | inl behind ↦
            rw (insert_stable, behind)
              (
                All-Perm (NotAfter b) _ _ (insert_stable-Perm by_path a rest)
                    (ground (arith, behind, str_lt_asymm (path b) (path a)), first),
                insert_stable-Pairwise a rest sorted,
              )
        | inr here ↦
            let ab : NotAfter a b = ground (arith, here, str_lt_asymm (path a) (path b)) in
            rw (insert_stable, here)
              (
                (
                  ab,
                  All-map (NotAfter b) {Q = NotAfter a} (λ c bc. NotAfter-trans a b c ab bc) rest
                      first,
                ),
                (first, sorted),
              )
      ]

  sort-Pairwise : (list : List A) → Pairwise NotAfter (sort by_path list)
  unfolding sort
  sort-Pairwise [] = tt
  sort-Pairwise (a ∷ rest) = insert_stable-Pairwise a _ (sort-Pairwise rest)

-- The plan holds the operations that the phases have collected, each as often, in another order,
-- and the folders of the scan; its conflicts and its folders stand in the order of their paths, by
-- code units.
pub plan_of-Perm :
    (u : Platform) (changes : LocalChanges) (p : Progress)
    → Permᴰ p.pushes (plan_of u changes p).pushes
      × Permᴰ p.pulls (plan_of u changes p).pulls
      × Permᴰ p.conflicts (plan_of u changes p).conflicts
      × Permᴰ changes.empty_folders (plan_of u changes p).folder_pushes
      × Pairwise (NotAfter (λ (c : ConflictOp). c.path)) (plan_of u changes p).conflicts
      × Pairwise (NotAfter (λ (s : Str). s)) (plan_of u changes p).folder_pushes
unfolding plan_of
plan_of-Perm u changes p = (
  Permᴰ.trans (sort-Perm _ p.pushes) (hoist_fold_paired_deletes-Perm u _),
  sort-Perm _ p.pulls,
  sort-Perm _ p.conflicts,
  sort-Perm _ changes.empty_folders,
  sort-Pairwise (λ (c : ConflictOp). c.path) p.conflicts,
  sort-Pairwise (λ (s : Str). s) changes.empty_folders,
)
