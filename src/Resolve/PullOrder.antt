-- ===== src/Resolve/PullOrder.antt =====
-- The order of the pulls of a plan: `comparePullOps` of packages/core/src/resolve.ts.
use vaultsyncforagents.Prelude.{
  ◌≡◌, ◌≢◌, true, false, [], ◌∷◌, eq_iff, str_lt, str_lt_asymm, str_lt_irrefl, str_lt_total,
  str_lt_trans, eq_refl, arith,
}
use vaultsyncforagents.Platform.{Platform}
use vaultsyncforagents.Resolve.Ops.{PullOp}
use vaultsyncforagents.Resolve.Order.{
  before, after, compare_strings, sort, insert_stable, pull_path, compare_pull_ops, is_pull_delete,
}

module _ (u : Platform) where
  by_path :
      (a b : PullOp)
      → str_lt (pull_path a) (pull_path b) ≡ true
      → u.to_lower (pull_path a) ≢ u.to_lower (pull_path b)
      → compare_pull_ops u a b ≡ before
  unfolding compare_pull_ops compare_strings
  by_path a b less differ =
      ground (arith, less, differ, eq_iff (u.to_lower (pull_path a)) (u.to_lower (pull_path b)))

  -- Of two operations at paths that differ but have the same lower case, the delete sorts before
  -- the write, whichever is asked for first.
  compare_pull_ops-delete_first :
      (write delete : PullOp)
      → is_pull_delete write ≡ false
      → is_pull_delete delete ≡ true
      → pull_path write ≢ pull_path delete
      → u.to_lower (pull_path write) ≡ u.to_lower (pull_path delete)
      → (compare_pull_ops u write delete ≡ after) × (compare_pull_ops u delete write ≡ before)
  unfolding compare_pull_ops compare_strings
  compare_pull_ops-delete_first write delete w d differ lower =
      let total = str_lt_total (pull_path write) (pull_path delete) in
      ground (
        arith,
        eq_refl (u.to_lower (pull_path write)),
        eq_iff (u.to_lower (pull_path write)) (u.to_lower (pull_path delete)),
        eq_iff (u.to_lower (pull_path delete)) (u.to_lower (pull_path write)),
        total,
        str_lt_asymm (pull_path write) (pull_path delete),
      )

  -- A write and a delete at paths with the same lower case, the write's the smaller one, and an
  -- operation whose path lies between theirs and has another lower case: the delete compares
  -- before the write, and yet sorting the three in the order of their paths keeps the write first.
  pub sort-write_before_delete :
      (write other delete : PullOp)
      → is_pull_delete write ≡ false
      → is_pull_delete delete ≡ true
      → u.to_lower (pull_path write) ≡ u.to_lower (pull_path delete)
      → u.to_lower (pull_path other) ≢ u.to_lower (pull_path delete)
      → str_lt (pull_path write) (pull_path other) ≡ true
      → str_lt (pull_path other) (pull_path delete) ≡ true
      → (compare_pull_ops u delete write ≡ before)
        × (sort (compare_pull_ops u) (write ∷ other ∷ delete ∷ []) ≡ write ∷ other ∷ delete ∷ [])
  unfolding sort insert_stable
  sort-write_before_delete write other delete w d lower apart first second =
      let between = by_path write other first (λ e. apart (cc)) in
      let beyond = by_path other delete second apart in
      let distinct : pull_path write ≢ pull_path delete =
        λ (e : pull_path write ≡ pull_path delete).
          let less =
            str_lt_trans (pull_path write) (pull_path other) (pull_path delete) first second in
          cc (rw e at less, str_lt_irrefl (pull_path delete)) in
      (
        (compare_pull_ops-delete_first write delete w d distinct lower).1,
        ground (arith, between, beyond),
      )
