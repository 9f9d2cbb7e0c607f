-- ===== src/Resolve/Ops.antt =====
-- The inputs, the operations and the plan of a reconciliation: the types of
-- packages/core/src/resolve.ts, and the buckets of packages/core/src/scan.ts that it reads.
use vaultsyncforagents.Prelude.{ℕ, Bool, true, false, Option, none, some, List, Str, is_some}
use vaultsyncforagents.Types.{LogicalClock}
use vaultsyncforagents.LocalIndex.{LocalIndex, LocalIndexEntry}

-- A `ManifestEntry`; its `mtime` is not read here.
pub record RemoteFile : Type 0 where
  pub path : Str
  pub version : Str
  pub hash : Str
  pub size : ℕ
  pub deleted : Bool
  pub clock : LogicalClock
  pub is_folder : Bool

pub record ScanCandidate : Type 0 where
  pub path : Str
  pub hash : Str
  pub size : ℕ

pub record DeletedCandidate : Type 0 where
  pub path : Str
  pub hash : Str
  pub size : ℕ
  pub version_id : Str

pub record RenameCandidate : Type 0 where
  pub from : Str
  pub to : Str
  pub hash : Str
  pub size : ℕ

pub record FolderDeletionCandidate : Type 0 where
  pub path : Str
  pub version_id : Str

-- The buckets of a scan that the reconciliation reads.
pub record LocalChanges : Type 0 where
  pub added : List ScanCandidate
  pub modified : List ScanCandidate
  pub deleted : List DeletedCandidate
  pub renamed : List RenameCandidate
  pub empty_folders : List Str
  pub folder_deletions : List FolderDeletionCandidate

pub record SyncPlanInput : Type 0 where
  pub local_changes : LocalChanges
  pub index : LocalIndex
  pub manifest : List RemoteFile
  pub this_device_id : Str
  pub this_device_name : Str
  pub now : ℕ

pub data ConflictReason : Type 0 where
  concurrent_edit add_vs_add delete_vs_edit rename_race : ConflictReason

-- The kinds of the operations; `copying` is 'conflictCopy'.
pub data OpKind : Type 0 where
  adding editing deleting restoring copying : OpKind

abbrev pub is_deleting : OpKind → Bool
is_deleting deleting = true
is_deleting _ = false

pub record PushFileOp : Type 0 where
  pub kind : OpKind
  pub path : Str
  pub parent_version : Option Str
  pub hash : Str
  pub size : ℕ
  pub is_folder : Bool

pub record PushRenameOp : Type 0 where
  pub from_path : Str
  pub to_path : Str
  pub parent_version : Option Str
  pub hash : Str
  pub size : ℕ

pub data PushOp : Type 0 where
  push_file : PushFileOp → PushOp
  push_rename : PushRenameOp → PushOp

pub record PullFileOp : Type 0 where
  pub kind : OpKind
  pub path : Str
  pub hash : Str
  pub size : ℕ
  pub version : Str
  pub clock : LogicalClock
  pub deleted : Bool
  pub is_folder : Bool

pub record PullRenameOp : Type 0 where
  pub from_path : Str
  pub to_path : Str
  pub hash : Str
  pub size : ℕ
  pub version : Str
  pub clock : LogicalClock
  pub is_folder : Bool

pub data PullOp : Type 0 where
  pull_file_op : PullFileOp → PullOp
  pull_rename_op : PullRenameOp → PullOp

pub data Winner : Type 0 where
  local_side remote_side : Winner

pub data LoserContent : Type 0 where
  local_content remote_content no_content : LoserContent

pub record RemoteSummary : Type 0 where
  pub version : Str
  pub hash : Str
  pub size : ℕ
  pub deleted : Bool
  pub clock : LogicalClock

pub record ConflictOp : Type 0 where
  pub path : Str
  pub reason : ConflictReason
  pub winner : Winner
  pub loser_content : LoserContent
  pub conflict_copy_path : Option Str
  pub remote : RemoteSummary
  pub local_clock : LogicalClock

pub record SyncPlan : Type 0 where
  pub pushes : List PushOp
  pub pulls : List PullOp
  pub conflicts : List ConflictOp
  pub folder_pushes : List Str

pub record LocalCandidate : Type 0 where
  pub path : Str
  pub kind : OpKind
  pub hash : Str
  pub size : ℕ
  pub is_folder : Bool

-- The accumulators that the phases push onto; the plan's lists before they are sorted.
pub record Progress : Type 0 where
  pub pushes : List PushOp
  pub pulls : List PullOp
  pub conflicts : List ConflictOp
  pub consumed : List Str

-- `entry?.versionId ?? null`, `entry?.deletedAt !== undefined` and `entry?.clock`.
abbrev pub version_of_entry : Option LocalIndexEntry → Option Str
version_of_entry none = none
version_of_entry (some e) = some e.version_id

abbrev pub is_tombstoned : Option LocalIndexEntry → Bool
is_tombstoned none = false
is_tombstoned (some e) = is_some e.deleted_at

abbrev pub clock_of_entry : Option LocalIndexEntry → Option LogicalClock
clock_of_entry none = none
clock_of_entry (some e) = some e.clock

abbrev pub hash_of_entry : Option LocalIndexEntry → Str → Str
hash_of_entry none h = h
hash_of_entry (some e) h = e.hash

abbrev pub size_of_entry : Option LocalIndexEntry → ℕ → ℕ
size_of_entry none n = n
size_of_entry (some e) n = e.size
