-- ===== src/Authority/Restoring.antt =====
-- The restore of a snapshot as the authority runs it, over the loop on plain states.
use vaultsyncforagents.Prelude.{
  ℕ, ◌+◌, ◌≡◌, refl, sym, ap, true, some, List, [], ◌∷◌, Str, arith, subst, Bool-cases, inl, inr,
}
use vaultsyncforagents.Prelude.Dict.{lookup}
use vaultsyncforagents.Prelude.Failure.{Result, ok, err}
use vaultsyncforagents.Platform.{Platform}
use vaultsyncforagents.Wire.{Crypto}
use vaultsyncforagents.Arbitrate.{
  ArbitrationState, ArbitrationVerdict, Verdict, applied, conflict, arbitrate_commit,
}
use vaultsyncforagents.Arbitrate.WellFormed.{IsWellFormed, empty-IsWellFormed}
use vaultsyncforagents.Arbitrate.Extends.{arbitrate_commit-Extends}
use vaultsyncforagents.Snapshots.{SnapshotRestoreItem, restore_all, restore_step}
use vaultsyncforagents.Snapshots.Items.{live_row, live_head}
use vaultsyncforagents.Snapshots.Restore.{restore_reaches_snapshot}
use vaultsyncforagents.Authority.Messages.{
  CommitMessage, SnapshotRestoreAckMessage, snapshot_restore_ack,
}
use vaultsyncforagents.Authority.State.{
  StoredSnapshot, Server, ServerOptions, Effect, send, record_change, prune_events, empty_server,
}
use vaultsyncforagents.Authority.Commits.{adopted, adopt, commit_of, device_names}
use vaultsyncforagents.Authority.Restores.{
  RestoreRun, count_item, restore_loop, start_run, find_snapshot, finish_restore,
  handle_snapshot_restore, send_all,
}
use vaultsyncforagents.Authority.Changes.{
  Change, unchanged, stored, captured, committed, restored, pruned, Changes, done, next,
}
use vaultsyncforagents.Authority.CatchUp.{state-recorded}
use vaultsyncforagents.Authority.Steps.{Reach, Reach-Changes}

module _ (u : Platform) (crypto : Crypto) (IsAllowed : CommitMessage → Type 0) where
  Change-IsWellFormed :
      {s later : Server}
      → Change u crypto IsAllowed s later
      → IsWellFormed s.state
      → IsWellFormed later.state
  unfolding adopted adopt prune_events record_change
  Change-IsWellFormed (unchanged e) w = subst IsWellFormed (sym (ap (λ v. v.state) e)) w
  Change-IsWellFormed (stored hash bytes h) w = w
  Change-IsWellFormed (captured snapshot h) w = w
  Change-IsWellFormed {s} (committed device_id message now claim verdict _ _ _ _ ran) w =
      rw state-recorded
        (arbitrate_commit-Extends u device_id now (device_names s.devices) s.state
          (commit_of message) verdict w ran).well_formed
  Change-IsWellFormed {s} (restored device_id id now snapshot item verdict _ _ ran _) w =
      (arbitrate_commit-Extends u device_id now [] s.state item.commit verdict w ran).well_formed
  Change-IsWellFormed (pruned before_seq) w = w

  Changes-IsWellFormed :
      {s later : Server}
      → Changes u crypto IsAllowed s later
      → IsWellFormed s.state
      → IsWellFormed later.state
  Changes-IsWellFormed done w = w
  Changes-IsWellFormed (next cs c) w = Change-IsWellFormed c (Changes-IsWellFormed cs w)

module _ (u : Platform) (device_id : Str) (now : ℕ) where
  -- A loop on states that succeeds is one on servers that comes to its end.
  record EndsAt (run : RestoreRun) (items : List SnapshotRestoreItem) (st : ArbitrationState)
      : Type 0 where
    final : RestoreRun
    ran : restore_loop u device_id now run items ≡ (final, true)
    state : final.server.state ≡ st
    counted :
        final.restored + final.tombstoned + run.server.seq
        ≡ run.restored + run.tombstoned + final.server.seq

  count_item-counted :
      (run : RestoreRun) (item : SnapshotRestoreItem) (verdict : ArbitrationVerdict)
      → (count_item run item verdict).restored
          + (count_item run item verdict).tombstoned
          + run.server.seq
        ≡ run.restored + run.tombstoned + (count_item run item verdict).server.seq
  unfolding count_item record_change
  count_item-counted run item verdict = elim (Bool-cases item.tombstone) [
    | inl gone ↦ rw gone (omega arith)
    | inr kept ↦ rw kept (omega arith)
  ]

  restore_loop-EndsAt :
      (run : RestoreRun) (items : List SnapshotRestoreItem) (st : ArbitrationState)
      → restore_all u device_id now run.server.state items ≡ ok st
      → EndsAt run items st
  unfolding restore_all restore_step restore_loop count_item record_change
  restore_loop-EndsAt run [] st h = record {
    final = run;
    ran = refl;
    state = cc;
    counted = omega arith;
  }
  restore_loop-EndsAt run (item ∷ items) st h =
      go (arbitrate_commit u device_id now [] run.server.state item.commit) refl
        (λ later h'. restore_loop-EndsAt later items st h')
    where
      Ih : Type 0
      Ih =
          (later : RestoreRun)
          → restore_all u device_id now later.server.state items ≡ ok st
          → EndsAt later items st

      after :
          (verdict : ArbitrationVerdict) (result : Verdict)
          → verdict.outcome.result ≡ result
          → arbitrate_commit u device_id now [] run.server.state item.commit ≡ ok verdict
          → Ih
          → EndsAt run (item ∷ items) st
      after verdict conflict is ran ih = cc (rw (restore_all, restore_step, ran, is) at h)
      after verdict applied is ran ih =
          let i = ih (count_item run item verdict) (rw (restore_all, restore_step, ran, is) at h) in
          record {
            final = i.final;
            ran = rw (restore_loop, ran, is) i.ran;
            state = i.state;
            counted = omega (arith, i.counted, count_item-counted run item verdict);
          }

      go :
          (r : Result ArbitrationVerdict)
          → arbitrate_commit u device_id now [] run.server.state item.commit ≡ r
          → Ih
          → EndsAt run (item ∷ items) st
      go (err e) ran ih = cc (rw (restore_all, restore_step, ran) at h)
      go (ok verdict) ran ih = after verdict verdict.outcome.result refl ran ih

-- In every state that the server reaches, restoring a snapshot that it holds is acknowledged, never
-- refused: afterwards each path holds what the snapshot recorded, and the numbers of restored and
-- tombstoned paths add up to the changes that the log has gained.
pub handle_snapshot_restore-acks :
    (u : Platform) (crypto : Crypto) (options : ServerOptions) (IsAllowed : CommitMessage → Type 0)
    {s : Server} (transport device_id id : Str) (now : ℕ) (snapshot : StoredSnapshot)
    → Reach u crypto options IsAllowed empty_server s
    → find_snapshot s.snapshots id ≡ some snapshot
    → (later : Server) × (effects : List Effect) × (ack : SnapshotRestoreAckMessage)
      × (handle_snapshot_restore u s transport device_id id now
          ≡ (later, send transport (snapshot_restore_ack ack) ∷ effects))
      × ((q : Str) → live_row (lookup q later.state.files) ≡ live_head (lookup q snapshot.heads))
      × (ack.restored + ack.tombstoned + s.seq ≡ later.seq)
unfolding handle_snapshot_restore finish_restore
handle_snapshot_restore-acks u crypto options IsAllowed {s} transport device_id id now snapshot r
      found =
    let w =
      Changes-IsWellFormed u crypto IsAllowed (Reach-Changes u crypto options IsAllowed r)
        empty-IsWellFormed in
    let (st, ran, _, reached) = restore_reaches_snapshot u device_id now s.state snapshot.heads w in
    let i = restore_loop-EndsAt u device_id now (start_run u device_id now s) _ st ran in
    (
      i.final.server,
      send_all i.final.server transport i.final.changes,
      record {
        id = id;
        restored = i.final.restored;
        tombstoned = i.final.tombstoned;
        seq = i.final.last_seq;
      },
      rw (handle_snapshot_restore, found, i.ran) refl,
      λ q. rw i.state (reached q),
      omega (arith, i.counted),
    )
