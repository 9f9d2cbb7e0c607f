-- ===== src/Snapshots.antt =====
-- Vault snapshots and their restore: packages/core/src/server/snapshots.ts, and the loop of
-- `handleSnapshotRestore` in packages/core/src/inmemory-server.ts that applies a plan.
pub mod Items
pub mod SortedPaths
pub mod Restore
use vaultsyncforagents.Prelude.{
  ℕ, ◌≡◌, Bool, true, false, not, ◌&&◌, ◌||◌, Option, none, some, List, [], ◌∷◌, ◌++◌, Str, ◌==◌,
  str_lt, nat_eq, if◌then◌else◌,
}
use vaultsyncforagents.Prelude.Dict.{Dict, lookup, keys}
use vaultsyncforagents.Prelude.Failure.{Result, ok, err, protocol, ◌>>=◌}
use vaultsyncforagents.Types.{VersionKind, delete, restore}
use vaultsyncforagents.Platform.{Platform}
use vaultsyncforagents.Arbitrate.{
  ArbitrationFileState, ArbitrationState, ArbitrationCommit, ArbitrationVerdict, Verdict, applied,
  conflict, arbitrate_commit,
}

-- One path's captured head.
pub record SnapshotHeadRecord : Type 0 where
  pub version : Str
  pub hash : Str
  pub size : ℕ
  pub deleted : Bool
  pub kind : VersionKind
  pub is_folder : Bool

unfoldable pub head_record : ArbitrationFileState → SnapshotHeadRecord
head_record file = record {
  version = file.head.id;
  hash = file.head.hash;
  size = file.head.size;
  deleted = file.deleted;
  kind = file.head.kind;
  is_folder = file.is_folder;
}

unfoldable pub snapshot_heads_of : Dict ArbitrationFileState → Dict SnapshotHeadRecord
unfolding head_record
snapshot_heads_of [] = []
snapshot_heads_of ((path, file) ∷ rest) = (path, head_record file) ∷ snapshot_heads_of rest

pub record SnapshotRestoreItem : Type 0 where
  pub path : Str
  pub commit : ArbitrationCommit
  pub tombstone : Bool

-- `[...new Set(paths)].sort()`: in the order of code units, each path once.
unfoldable pub insert_sorted : Str → List Str → List Str
insert_sorted p [] = p ∷ []
insert_sorted p (q ∷ rest) =
    let later = insert_sorted p rest in
    if p == q then q ∷ rest else if str_lt p q then p ∷ q ∷ rest else q ∷ later

unfoldable pub sorted_set : List Str → List Str
sorted_set [] = []
sorted_set (p ∷ rest) = insert_sorted p (sorted_set rest)

-- `a === b` on flags.
abbrev pub same_flag : Bool → Bool → Bool
same_flag true b = b
same_flag false b = not b

unfoldable pub matches_snapshot : ArbitrationFileState → SnapshotHeadRecord → Bool
matches_snapshot current snap =
    same_flag current.deleted snap.deleted
    && ((current.deleted || (current.head.hash == snap.hash && nat_eq current.head.size snap.size))
        && same_flag current.is_folder snap.is_folder)

abbrev pub restore_item :
    Str → Option Str → Str → ℕ → VersionKind → Bool → Bool → SnapshotRestoreItem
restore_item path parent_version hash size kind is_folder tombstone = record {
  path = path;
  commit = record {
    path = path;
    parent_version = parent_version;
    hash = hash;
    size = size;
    kind = kind;
    from_path = none;
    is_folder = is_folder;
  };
  tombstone = tombstone;
}

-- The item for one path, from its snapshot record and its current row.
unfoldable pub plan_item :
    Str → Option SnapshotHeadRecord → Option ArbitrationFileState → Option SnapshotRestoreItem
plan_item path none none = none
plan_item path none (some current) =
    if current.deleted
    then none
    else some (
        restore_item path (some current.head.id) current.head.hash current.head.size delete false
          true)
plan_item path (some snap) none =
    if snap.deleted
    then none
    else some (restore_item path none snap.hash snap.size restore snap.is_folder false)
plan_item path (some snap) (some current) =
    if matches_snapshot current snap
    then none
    else if snap.deleted
    then some
        (restore_item path (some current.head.id) snap.hash snap.size delete snap.is_folder true)
    else some
        (restore_item path (some current.head.id) snap.hash snap.size restore snap.is_folder false)

abbrev pub with_item :
    Option SnapshotRestoreItem → List SnapshotRestoreItem → List SnapshotRestoreItem
with_item none items = items
with_item (some item) items = item ∷ items

unfoldable pub plan_paths :
    Dict ArbitrationFileState → Dict SnapshotHeadRecord → List Str → List SnapshotRestoreItem
plan_paths files heads [] = []
plan_paths files heads (path ∷ rest) =
    with_item (plan_item path (lookup path heads) (lookup path files)) (plan_paths files heads rest)

unfoldable pub plan_snapshot_restore :
    ArbitrationState → Dict SnapshotHeadRecord → List SnapshotRestoreItem
plan_snapshot_restore st heads =
    plan_paths st.files heads (sorted_set (keys heads ++ keys st.files))

-- The loop that commits the plan: a verdict that is not `applied` is a protocol error.
module _ (u : Platform) (device_id : Str) (now : ℕ) where
  abbrev require_applied : ArbitrationVerdict → Verdict → Result ArbitrationState
  require_applied verdict applied = ok verdict.state
  require_applied verdict conflict = err protocol

  unfoldable pub restore_step : ArbitrationState → SnapshotRestoreItem → Result ArbitrationState
  restore_step st item = do
    verdict ← arbitrate_commit u device_id now [] st item.commit
    require_applied verdict verdict.outcome.result

  unfoldable pub restore_all : ArbitrationState → List SnapshotRestoreItem → Result ArbitrationState
  restore_all st [] = ok st
  restore_all st (item ∷ rest) = elim (restore_step st item) [
    | ok st' ↦ restore_all st' rest
    | err e ↦ err e
  ]
