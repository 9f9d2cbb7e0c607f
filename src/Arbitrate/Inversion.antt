-- ===== src/Arbitrate/Inversion.antt =====
-- From a run of `arbitrateCommit` to the branch that it took.
use vaultsyncforagents.Prelude.{ℕ, ◌≡◌, refl, true, Option, none, some, Str, Bool-cases, inl, inr}
use vaultsyncforagents.Prelude.Dict.{Dict, lookup}
use vaultsyncforagents.Prelude.Failure.{ok, >>=-eq-ok, subst_ok}
use vaultsyncforagents.Types.{Version, is_rename}
use vaultsyncforagents.Platform.{Platform}
use vaultsyncforagents.Arbitrate.State.{
  ArbitrationFileState, ArbitrationState, ArbitrationCommit, ArbitrationVerdict, is_just,
}
use vaultsyncforagents.Arbitrate.Commit.{
  find_parent, lose_to_head, displace_head, incoming_wins, move_wins, arbitrate_path, move_onto,
  arbitrate_rename, arbitrate_kind, arbitrate_commit,
}
use vaultsyncforagents.Arbitrate.Branches.{
  Branch, created, advanced, displaced, stood, moved, moved_over, move_lost, preserved-Settled,
}

module _ (u : Platform) (device_id : Str) (now : ℕ) (devices : Dict Str) (st : ArbitrationState)
    (commit : ArbitrationCommit) (parent : Option Version) (result : ArbitrationVerdict) where
  abbrev IsBranch : Type 0
  IsBranch = Branch u device_id now devices st commit parent result

  path_known :
      (target : ArbitrationFileState)
      → lookup commit.path st.files ≡ some target
      → arbitrate_path u device_id now devices st commit parent (some target) ≡ ok result
      → IsBranch
  unfolding arbitrate_path displace_head lose_to_head
  path_known target at h = elim (Bool-cases (is_just target.head.id commit.parent_version)) [
    | inl built_on ↦
        subst_ok (Branch u device_id now devices st commit parent) _ result (rw built_on at h)
          (advanced target at built_on)
    | inr stale ↦ elim (Bool-cases (incoming_wins u device_id now devices parent target)) [
      | inl wins ↦ displaced target at stale wins (
          preserved-Settled u device_id now devices _ _ _ commit.path result
            (rw (stale, wins) at h))
      | inr loses ↦ stood target at stale loses (
          preserved-Settled u device_id now devices _ _ _ commit.path result
            (rw (stale, loses) at h))
    ]
  ]

  path_Branch :
      (target : Option ArbitrationFileState)
      → lookup commit.path st.files ≡ target
      → arbitrate_path u device_id now devices st commit parent target ≡ ok result
      → IsBranch
  unfolding arbitrate_path
  path_Branch none at h =
      subst_ok (Branch u device_id now devices st commit parent) _ result h (created at)
  path_Branch (some target) at h = path_known target at h

  onto_Branch :
      (from : Str) (source : ArbitrationFileState) (occupant : Option ArbitrationFileState)
      → is_rename commit.kind ≡ true
      → commit.from_path ≡ some from
      → lookup from st.files ≡ some source
      → is_just source.head.id commit.parent_version ≡ true
      → lookup commit.path st.files ≡ occupant
      → move_onto u device_id now devices st commit parent source occupant ≡ ok result
      → IsBranch
  unfolding move_onto lose_to_head
  onto_Branch from source none renames named known built at h =
      subst_ok (Branch u device_id now devices st commit parent) _ result h
        (moved from source renames named known built at)
  onto_Branch from source (some occupant) renames named known built at h =
      elim (Bool-cases (move_wins u device_id now devices source occupant)) [
        | inl wins ↦
            moved_over from source occupant renames named known built at wins
              (preserved-Settled u device_id now devices _ _ _ commit.path result (rw wins at h))
        | inr loses ↦
            subst_ok (Branch u device_id now devices st commit parent) _ result (rw loses at h)
              (move_lost from source occupant renames named known built at loses)
      ]

  source_Branch :
      (from : Str) (source : Option ArbitrationFileState)
      → is_rename commit.kind ≡ true
      → commit.from_path ≡ some from
      → lookup from st.files ≡ source
      → arbitrate_rename u device_id now devices st commit parent source ≡ ok result
      → IsBranch
  unfolding arbitrate_rename
  source_Branch from none renames named known h = path_Branch _ refl h
  source_Branch from (some source) renames named known h =
      elim (Bool-cases (is_just source.head.id commit.parent_version)) [
        | inl built ↦ onto_Branch from source _ renames named known built refl (rw built at h)
        | inr stale ↦ path_Branch _ refl (rw stale at h)
      ]

  kind_Branch :
      (from : Option Str)
      → is_rename commit.kind ≡ true
      → commit.from_path ≡ from
      → arbitrate_kind u device_id now devices st commit parent from ≡ ok result
      → IsBranch
  unfolding arbitrate_kind
  kind_Branch none renames named h = cc
  kind_Branch (some from) renames named h = source_Branch from _ renames named refl h

-- A successful run found the named parent, and took one of the branches with it.
pub record Arbitrated (u : Platform) (device_id : Str) (now : ℕ) (devices : Dict Str)
    (st : ArbitrationState) (commit : ArbitrationCommit) (result : ArbitrationVerdict)
    : Type 0 where
  pub parent : Option Version
  pub parent_found : find_parent st commit.parent_version ≡ ok parent
  pub branch : Branch u device_id now devices st commit parent result

module _ (u : Platform) (device_id : Str) (now : ℕ) (devices : Dict Str) (st : ArbitrationState)
    (commit : ArbitrationCommit) (result : ArbitrationVerdict) where
  pub arbitrate_commit-Arbitrated :
      arbitrate_commit u device_id now devices st commit ≡ ok result
      → Arbitrated u device_id now devices st commit result
  unfolding arbitrate_commit
  arbitrate_commit-Arbitrated h =
      let (parent, found, rest) = >>=-eq-ok (find_parent st commit.parent_version) _ h in
      record {
        parent = parent;
        parent_found = found;
        branch = elim (Bool-cases (is_rename commit.kind)) [
          | inl renames ↦
              kind_Branch u device_id now devices st commit parent result _ renames refl
                (rw renames at rest)
          | inr stays ↦
              path_Branch u device_id now devices st commit parent result _ refl (rw stays at rest)
        ];
      }
