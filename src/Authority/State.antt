-- ===== src/Authority/State.antt =====
-- The state of `InMemorySyncServer` in packages/core/src/inmemory-server.ts, what a handler sends,
-- and the plumbing that the handlers share.
use vaultsyncforagents.Prelude.{
  ℕ, ◌+◌, Bool, true, false, not, ◌&&◌, Option, none, some, List, [], ◌∷◌, ◌++◌, Str, ◌==◌,
  if◌then◌else◌, codes, ltb,
}
use vaultsyncforagents.Prelude.Dict.{Dict, lookup, insert, erase}
use vaultsyncforagents.Types.{VaultSettings, is_rename}
use vaultsyncforagents.Wire.{Bytes}
use vaultsyncforagents.Arbitrate.{ArbitrationState, ChangePayload, empty_arbitration_state}
use vaultsyncforagents.Snapshots.{SnapshotHeadRecord}
use vaultsyncforagents.Authority.Messages.{
  CommitMessage, ChangeMessage, ServerMessage, ServerErrorCode, unauthorized, revoked_device,
  not_found, protocol_error, path_collision, error_reply,
}

pub data DeviceType : Type 0 where
  desktop mobile daemon cli : DeviceType

pub record RegisteredDevice : Type 0 where
  pub device_id : Str
  pub name : Str
  pub kind : DeviceType
  pub token : Str
  pub prev_token : Option Str
  pub prev_token_expires_at : ℕ
  pub token_issued_at : ℕ
  pub revoked : Bool
  pub last_seen : ℕ

-- A server-side transport: the token it was dialled with, the device that it speaks for, and whether
-- it is open. The source drops a closed one from its map.
pub record Connection : Type 0 where
  pub token : Str
  pub device_id : Option Str
  pub is_open : Bool

pub record StoredSnapshot : Type 0 where
  pub id : Str
  pub name : Str
  pub ts : ℕ
  pub device_id : Str
  pub seq : ℕ
  pub heads : Dict SnapshotHeadRecord

-- The remainder of a message whose handler awaits, in the queue behind those before it.
pub data Job : Type 0 where
  blob_job : Str → Str → Str → Job
  commit_job : Str → CommitMessage → Job

pub record Server : Type 0 where
  pub devices : Dict RegisteredDevice
  pub tokens : Dict Str
  pub state : ArbitrationState
  pub blobs : Dict Bytes
  pub head_seq : Dict ℕ
  pub log : List ChangeMessage
  pub seq : ℕ
  pub snapshots : List StoredSnapshot
  pub connections : Dict Connection
  pub rotation_counter : ℕ
  pub queue : List Job

pub record ServerOptions : Type 0 where
  pub vault_name : Str
  pub settings : VaultSettings
  pub token_rotation_ms : ℕ
  pub token_rotation_grace_ms : ℕ

abbrev pub empty_server : Server
empty_server = record {
  devices = [];
  tokens = [];
  state = empty_arbitration_state;
  blobs = [];
  head_seq = [];
  log = [];
  seq = 0;
  snapshots = [];
  connections = [];
  rotation_counter = 0;
  queue = [];
}

pub data Effect : Type 0 where
  send : Str → ServerMessage → Effect
  close : Str → Effect

-- What a handler leaves and what it sends, in order.
abbrev pub Outcome : Type 0
Outcome = Server × List Effect

unfoldable pub register : Server → Str → Str → DeviceType → Server
register s device_id name kind =
    let token = codes "tok-" ++ device_id in
    record s {
      devices =
          insert device_id
            (record {
              device_id = device_id;
              name = name;
              kind = kind;
              token = token;
              prev_token = none;
              prev_token_expires_at = 0;
              token_issued_at = 0;
              revoked = false;
              last_seen = 0;
            })
            s.devices;
      tokens = insert token device_id s.tokens;
    }

unfoldable pub revoke : Server → Str → Server
revoke s device_id = elim (lookup device_id s.devices) [
  | none ↦ s
  | some device ↦ record s {
    devices = insert device_id (record device { revoked = true }) s.devices;
  }
]

unfoldable pub connect_pair : Server → Str → Str → Server
connect_pair s transport token = record s {
  connections =
      insert transport (record { token = token; device_id = none; is_open = true }) s.connections;
}

unfoldable pub disconnect : Server → Str → Server
disconnect s transport = elim (lookup transport s.connections) [
  | none ↦ s
  | some connection ↦ record s {
    connections = insert transport (record connection { is_open = false }) s.connections;
  }
]

unfoldable pub open_connection : Server → Str → Option Connection
open_connection s transport = elim (lookup transport s.connections) [
  | none ↦ none
  | some connection ↦ if connection.is_open then some connection else none
]

unfoldable pub send_open : (Str → Bool) → ServerMessage → Dict Connection → List Effect
send_open p message [] = []
send_open p message ((transport, connection) ∷ rest) =
    let later = send_open p message rest in
    if p transport && connection.is_open then send transport message ∷ later else later

unfoldable pub broadcast_others : Server → Str → ServerMessage → List Effect
unfolding send_open
broadcast_others s sender message = send_open (λ t. not (t == sender)) message s.connections

unfoldable pub broadcast_all : Server → ServerMessage → List Effect
unfolding send_open
broadcast_all s message = send_open (λ t. true) message s.connections

abbrev pub closes : ServerErrorCode → Bool
closes unauthorized = true
closes revoked_device = true
closes not_found = false
closes protocol_error = false
closes path_collision = false

unfoldable pub fail : Server → Str → ServerErrorCode → Outcome
unfolding disconnect
fail s transport code =
    if closes code
    then (disconnect s transport, send transport (error_reply code) ∷ close transport ∷ [])
    else (s, send transport (error_reply code) ∷ [])

-- `makeChange`: the head's number is the change's, and a rename's source has none.
abbrev pub source_dropped : ChangePayload → Option Str → Dict ℕ → Dict ℕ
source_dropped payload none head_seq = head_seq
source_dropped payload (some from) head_seq =
    if is_rename payload.kind then erase from head_seq else head_seq

abbrev pub next_change : Server → ChangePayload → ChangeMessage
next_change s payload = record { seq = s.seq + 1; payload = payload }

-- `record`: the next number, and an entry in the log.
unfoldable pub record_change : Server → ChangePayload → Server
record_change s payload = record s {
  seq = s.seq + 1;
  head_seq = source_dropped payload payload.from_path (insert payload.path (s.seq + 1) s.head_seq);
  log = s.log ++ next_change s payload ∷ [];
}

-- The pruning of the log from its front.
unfoldable pub prune_log : ℕ → List ChangeMessage → List ChangeMessage
prune_log before_seq [] = []
prune_log before_seq (entry ∷ log) =
    let rest = prune_log before_seq log in if ltb entry.seq before_seq then rest else entry ∷ log

unfoldable pub prune_events : Server → ℕ → Server
unfolding prune_log
prune_events s before_seq = record s { log = prune_log before_seq s.log }
