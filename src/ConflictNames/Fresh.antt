-- ===== src/ConflictNames/Fresh.antt =====
-- What the search for a free copy name returns, and when it gives up.
use vaultsyncforagents.Prelude.{
  ℕ, zero, suc, ◌+◌, ◌-◌, ◌≤◌, ◌<◌, ◌≡◌, refl, inl, inr, Bool, true, false, Str, arith, Bool-cases,
}
use vaultsyncforagents.Prelude.Failure.{Result, ok, err, plain, >>=-eq-ok}
use vaultsyncforagents.Platform.{Platform}
use vaultsyncforagents.ConflictNames.{
  CopyName, copy_name, first_free, base_candidate, numbered_candidate, conflict_copy_path,
  max_collision_suffix,
}

-- The names in the order in which they are tried: without a number, then from ` 2` on.
abbrev pub candidate_at : CopyName → ℕ → Str
candidate_at p zero = base_candidate p
candidate_at p (suc k) = numbered_candidate p (k + 2)

-- Every name from the `k`-th on, as many as `rounds`, is taken.
abbrev pub AllTaken : (Str → Bool) → CopyName → ℕ → Type 0
AllTaken exists p rounds = (k : ℕ) → k < rounds → exists (candidate_at p k) ≡ true

module _ (exists : Str → Bool) (p : CopyName) where
  -- The search, begun at the `k`-th name.
  abbrev search_from : ℕ → ℕ → Result Str
  search_from rounds k = first_free exists p rounds (k + 2) (candidate_at p k)

  first_free_ok :
      (rounds k : ℕ) (q : Str)
      → search_from rounds k ≡ ok q
      → (i : ℕ) × (i < k + rounds)
        × (q ≡ candidate_at p i)
        × (exists q ≡ false)
        × ((j : ℕ) → k ≤ j → j < i → exists (candidate_at p j) ≡ true)
  unfolding first_free
  first_free_ok zero k q h = cc
  first_free_ok (suc rounds) k q h = elim (Bool-cases (exists (candidate_at p k))) [
    | inl taken ↦
        let (i, bound, e, free, before) = first_free_ok rounds (suc k) q (ground arith) in
        (i, omega arith, e, free, λ j le lt. ground (arith, before j))
    | inr free ↦ (k, omega arith, ground arith, ground arith, λ j le lt. absurd (omega arith))
  ]

  first_free_err :
      (rounds k : ℕ)
      → ((j : ℕ) → k ≤ j → j < k + rounds → exists (candidate_at p j) ≡ true)
      → search_from rounds k ≡ err plain
  unfolding first_free
  first_free_err zero k h = refl
  first_free_err (suc rounds) k h =
      let taken : exists (candidate_at p k) ≡ true = h k (omega arith) (omega arith) in
      let rest : search_from rounds (suc k) ≡ err plain =
        first_free_err rounds (suc k) (λ j le lt. h j (omega arith) (omega arith)) in
      ground arith

module _ (u : Platform) (path device_name : Str) (now : ℕ) (exists : Str → Bool) where
  -- A copy path that is returned is the first free one of the 998 names that are tried: it does
  -- not exist, and every name before it does.
  pub conflict_copy_path_ok :
      (p : CopyName) (q : Str)
      → copy_name u path device_name now ≡ ok p
      → conflict_copy_path u path device_name now exists ≡ ok q
      → (i : ℕ) × (i < max_collision_suffix - 1)
        × (q ≡ candidate_at p i)
        × (exists q ≡ false)
        × AllTaken exists p i
  unfolding conflict_copy_path
  conflict_copy_path_ok p q named h =
      let (i, bound, e, free, before) =
        first_free_ok exists p (max_collision_suffix - 1) 0 q (ground arith) in
      (i, bound, e, free, λ j lt. before j (omega arith) lt)

  -- The search gives up, with a bare `Error`, as soon as those 998 names are taken: the name with
  -- the number 999 is not tried.
  pub conflict_copy_path_err :
      (p : CopyName)
      → copy_name u path device_name now ≡ ok p
      → AllTaken exists p (max_collision_suffix - 1)
      → conflict_copy_path u path device_name now exists ≡ err plain
  unfolding conflict_copy_path
  conflict_copy_path_err p named taken =
      let gone : first_free exists p (max_collision_suffix - 1) 2 (base_candidate p) ≡ err plain =
        first_free_err exists p (max_collision_suffix - 1) 0 (λ j le lt. taken j lt) in
      ground arith

  pub conflict_copy_path-fresh :
      (q : Str) → conflict_copy_path u path device_name now exists ≡ ok q → exists q ≡ false
  unfolding conflict_copy_path
  conflict_copy_path-fresh q h =
      let (p, named, rest) = >>=-eq-ok (copy_name u path device_name now) _ h in
      (first_free_ok exists p (max_collision_suffix - 1) 0 q rest).3
