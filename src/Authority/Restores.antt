-- ===== src/Authority/Restores.antt =====
-- `handleSnapshotCreate` and `handleSnapshotRestore`.
use vaultsyncforagents.Prelude.{
  ℕ, ◌+◌, Bool, true, false, Option, none, some, List, [], ◌∷◌, ◌++◌, Str, ◌==◌, length, or_default,
  if◌then◌else◌,
}
use vaultsyncforagents.Prelude.Dict.{size}
use vaultsyncforagents.Prelude.Failure.{ok, err}
use vaultsyncforagents.Platform.{Platform}
use vaultsyncforagents.Decimal.{decimal}
use vaultsyncforagents.Arbitrate.{ArbitrationVerdict, applied, conflict, arbitrate_commit}
use vaultsyncforagents.Snapshots.{SnapshotRestoreItem, snapshot_heads_of, plan_snapshot_restore}
use vaultsyncforagents.Authority.Messages.{
  ChangeMessage, not_found, protocol_error, snapshot_create_ack, snapshot_restore_ack, change,
}
use vaultsyncforagents.Authority.State.{
  StoredSnapshot, Server, Effect, send, Outcome, fail, record_change, next_change, broadcast_others,
}

unfoldable pub snapshot_of : Server → Str → Option Str → ℕ → StoredSnapshot
snapshot_of s device_id name now = record {
  id = b's' ∷ decimal (length s.snapshots + 1);
  name = or_default name [];
  ts = now;
  device_id = device_id;
  seq = s.seq;
  heads = snapshot_heads_of s.state.files;
}

unfoldable pub handle_snapshot_create : Server → Str → Str → Option Str → ℕ → Outcome
unfolding snapshot_of
handle_snapshot_create s transport device_id name now =
    let snapshot = snapshot_of s device_id name now in
    (
      record s { snapshots = s.snapshots ++ snapshot ∷ [] },
      send transport (
            snapshot_create_ack (record {
              id = snapshot.id;
              name = snapshot.name;
              ts = snapshot.ts;
              seq = snapshot.seq;
              file_count = size snapshot.heads;
            }))
          ∷ [],
    )

-- The server and the counters of the loop, and the changes that it has recorded.
pub record RestoreRun : Type 0 where
  pub server : Server
  pub changes : List ChangeMessage
  pub restored : ℕ
  pub tombstoned : ℕ
  pub last_seq : ℕ

unfoldable pub count_item : RestoreRun → SnapshotRestoreItem → ArbitrationVerdict → RestoreRun
count_item run item verdict =
    let server = record (run.server) { state = verdict.state } in
    record {
      server = record_change server verdict.outcome.broadcast;
      changes = run.changes ++ next_change server verdict.outcome.broadcast ∷ [];
      restored = if item.tombstone then run.restored else run.restored + 1;
      tombstoned = if item.tombstone then run.tombstoned + 1 else run.tombstoned;
      last_seq = (next_change server verdict.outcome.broadcast).seq;
    }

module _ (u : Platform) (device_id : Str) (now : ℕ) where
  -- The rounds of the loop, and whether it came to its end: an error or a verdict that is not
  -- `applied` is thrown, with the rounds before it done.
  unfoldable pub restore_loop : RestoreRun → List SnapshotRestoreItem → RestoreRun × Bool
  unfolding count_item
  restore_loop run [] = (run, true)
  restore_loop run (item ∷ items) =
      elim (arbitrate_commit u device_id now [] run.server.state item.commit) [
        | err _ ↦ (run, false)
        | ok verdict ↦ elim verdict.outcome.result [
          | conflict ↦ (run, false)
          | applied ↦ restore_loop (count_item run item verdict) items
        ]
      ]

  abbrev pub start_run : Server → RestoreRun
  start_run s = record { server = s; changes = []; restored = 0; tombstoned = 0; last_seq = s.seq }

unfoldable pub find_snapshot : List StoredSnapshot → Str → Option StoredSnapshot
find_snapshot [] id = none
find_snapshot (snapshot ∷ rest) id =
    let later = find_snapshot rest id in if snapshot.id == id then some snapshot else later

unfoldable pub send_all : Server → Str → List ChangeMessage → List Effect
unfolding broadcast_others
send_all s transport [] = []
send_all s transport (entry ∷ entries) =
    broadcast_others s transport (change entry) ++ send_all s transport entries

unfoldable pub finish_restore : Str → Str → RestoreRun × Bool → Outcome
unfolding send_all
finish_restore transport id (run, false) = fail run.server transport protocol_error
finish_restore transport id (run, true) = (
  run.server,
  send transport (
        snapshot_restore_ack (record {
          id = id;
          restored = run.restored;
          tombstoned = run.tombstoned;
          seq = run.last_seq;
        }))
      ∷ send_all run.server transport run.changes,
)

unfoldable pub handle_snapshot_restore : Platform → Server → Str → Str → Str → ℕ → Outcome
unfolding find_snapshot restore_loop finish_restore
handle_snapshot_restore u s transport device_id id now = elim (find_snapshot s.snapshots id) [
  | none ↦ fail s transport not_found
  | some snapshot ↦ finish_restore transport id (
      restore_loop u device_id now (start_run u device_id now s)
        (plan_snapshot_restore s.state snapshot.heads))
]
