-- ===== src/Resolve/Order.antt =====
-- The orders in which the operations of a plan stand.
use vaultsyncforagents.Prelude.{
  ℕ, zero, suc, Bool, true, false, not, ◌&&◌, Option, none, some, List, [], ◌∷◌, Str, ◌==◌, str_lt,
  length, if◌then◌else◌,
}
use vaultsyncforagents.Platform.{Platform}
use vaultsyncforagents.Paths.{fold_key_for_path}
use vaultsyncforagents.Resolve.Ops.{
  PushOp, push_file, push_rename, PullOp, pull_file_op, pull_rename_op, is_deleting,
}

-- The sign that a comparator returns.
pub data Sign : Type 0 where
  before same after : Sign

unfoldable pub compare_strings : Str → Str → Sign
compare_strings a b = if str_lt a b then before else if str_lt b a then after else same

abbrev pub goes_after : Sign → Bool
goes_after after = true
goes_after _ = false

-- `Array.prototype.sort`, which is stable: an element goes behind those that do not compare
-- after it.
module _ {ℓ} {A : Type ℓ} (compare : A → A → Sign) where
  unfoldable pub insert_stable : A → List A → List A
  insert_stable a [] = a ∷ []
  insert_stable a (b ∷ rest) =
      let later = insert_stable a rest in
      if goes_after (compare a b) then b ∷ later else a ∷ b ∷ rest

  unfoldable pub sort : List A → List A
  unfolding insert_stable
  sort [] = []
  sort (a ∷ rest) = insert_stable a (sort rest)

unfoldable pub push_path : PushOp → Str
push_path (push_file op) = op.path
push_path (push_rename op) = op.to_path

unfoldable pub pull_path : PullOp → Str
pull_path (pull_file_op op) = op.path
pull_path (pull_rename_op op) = op.to_path

abbrev pub is_push_delete : PushOp → Bool
is_push_delete (push_file op) = is_deleting op.kind
is_push_delete (push_rename op) = false

abbrev pub is_pull_delete : PullOp → Bool
is_pull_delete (pull_file_op op) = is_deleting op.kind
is_pull_delete (pull_rename_op op) = false

abbrev is_same : Sign → Bool
is_same same = true
is_same _ = false

module _ (u : Platform) where
  unfoldable pub compare_pull_ops : PullOp → PullOp → Sign
  unfolding compare_strings pull_path
  compare_pull_ops a b =
      let by_exact = compare_strings (pull_path a) (pull_path b) in
      if is_same by_exact
      then same
      else if not (u.to_lower (pull_path a) == u.to_lower (pull_path b))
      then by_exact
      else if is_pull_delete a && not (is_pull_delete b)
      then before
      else if not (is_pull_delete a) && is_pull_delete b
      then after
      else by_exact

  -- The first later delete whose target folds to the key, taken out of the list.
  unfoldable pub take_delete : Str → List PushOp → Option (PushOp × List PushOp)
  take_delete key [] = none
  take_delete key (op ∷ rest) = elim (take_delete key rest) [
    | none ↦
        if is_push_delete op && fold_key_for_path u (push_path op) == key
        then some (op, rest)
        else none
    | some (found, others) ↦
        if is_push_delete op && fold_key_for_path u (push_path op) == key
        then some (op, rest)
        else some (found, op ∷ others)
  ]

  -- The loop from one position on: the hoisted delete and then the operation are passed over. A
  -- round passes one operation at least of those that were there, so their number bounds the
  -- rounds.
  unfoldable pub hoist_from : ℕ → List PushOp → List PushOp
  hoist_from zero pushes = pushes
  hoist_from (suc rounds) [] = []
  hoist_from (suc rounds) (op ∷ rest) = elim (is_push_delete op) [
    | true ↦ op ∷ hoist_from rounds rest
    | false ↦ elim (take_delete (fold_key_for_path u (push_path op)) rest) [
      | none ↦ op ∷ hoist_from rounds rest
      | some (deletion, others) ↦ deletion ∷ op ∷ hoist_from rounds others
    ]
  ]

  unfoldable pub hoist_fold_paired_deletes : List PushOp → List PushOp
  unfolding hoist_from take_delete push_path
  hoist_fold_paired_deletes pushes = hoist_from (length pushes) pushes
