-- ===== src/Authority/Messages.antt =====
-- The messages of packages/core/src/protocol.ts that the authority reads and sends.
use vaultsyncforagents.Prelude.{ℕ, Bool, Option, Str}
use vaultsyncforagents.Prelude.Dict.{Dict}
use vaultsyncforagents.Types.{VersionKind, LogicalClock, VaultSettings}
use vaultsyncforagents.Arbitrate.{ChangePayload, ConflictWinner, LoserDisposition}

pub record ManifestEntry : Type 0 where
  pub path : Str
  pub version : Str
  pub hash : Str
  pub size : ℕ
  pub deleted : Bool
  pub clock : LogicalClock
  pub is_folder : Bool
  pub mtime : ℕ

pub record HelloMessage : Type 0 where
  pub token : Str
  pub protocol_version : ℕ
  pub cursor : ℕ

pub record CommitMessage : Type 0 where
  pub path : Str
  pub parent_version : Option Str
  pub hash : Str
  pub size : ℕ
  pub kind : VersionKind
  pub inline : Option Str
  pub from_path : Option Str
  pub is_folder : Bool

-- `unexpected` is a message whose type the server does not handle.
pub data ClientMessage : Type 0 where
  hello : HelloMessage → ClientMessage
  get_manifest : Option ℕ → ClientMessage
  commit_message : CommitMessage → ClientMessage
  ping : Option ℕ → ClientMessage
  put_blob : Str → Str → ClientMessage
  get_blob : Str → ClientMessage
  snapshot_create : Option Str → ClientMessage
  snapshot_restore : Str → ClientMessage
  unexpected : ClientMessage

pub record HelloAckMessage : Type 0 where
  pub device_id : Str
  pub vault_name : Str
  pub settings : VaultSettings
  pub next_token : Option Str
  pub oldest_retained_seq : ℕ

pub record ChangeMessage : Type 0 where
  pub seq : ℕ
  pub payload : ChangePayload

pub record SnapshotCreateAckMessage : Type 0 where
  pub id : Str
  pub name : Str
  pub ts : ℕ
  pub seq : ℕ
  pub file_count : ℕ

pub record SnapshotRestoreAckMessage : Type 0 where
  pub id : Str
  pub restored : ℕ
  pub tombstoned : ℕ
  pub seq : ℕ

pub data ServerErrorCode : Type 0 where
  unauthorized revoked_device not_found protocol_error path_collision : ServerErrorCode

pub data ServerMessage : Type 0 where
  hello_ack : HelloAckMessage → ServerMessage
  manifest_of : Dict ManifestEntry → ℕ → ServerMessage
  commit_ack : Str → LogicalClock → ℕ → ServerMessage
  conflict_reply : ConflictWinner → LoserDisposition → Option ℕ → ServerMessage
  change : ChangeMessage → ServerMessage
  device_seen : Str → ℕ → ServerMessage
  blob_ack : Str → ServerMessage
  blob_content : Str → Str → ServerMessage
  error_reply : ServerErrorCode → ServerMessage
  pong : Option ℕ → ServerMessage
  snapshot_create_ack : SnapshotCreateAckMessage → ServerMessage
  snapshot_restore_ack : SnapshotRestoreAckMessage → ServerMessage
