-- ===== src/Authority/Steps.antt =====
-- The steps of the server, and the changes that each is made of.
use vaultsyncforagents.Prelude.{
  ℕ, ◌≡◌, refl, ap, Bool, nat_eq, if◌then◌else◌, true, false, Option, none, some, List, [], ◌∷◌,
  Str, ◌==◌, eq_iff, All, not, ◌||◌, Bool-cases, Option-cases, inl, inr,
}
use vaultsyncforagents.Prelude.Dict.{lookup, has}
use vaultsyncforagents.Prelude.Failure.{Result, ok, err}
use vaultsyncforagents.Platform.{Platform}
use vaultsyncforagents.Wire.{Bytes, Crypto, sha256_hex, base64_to_bytes}
use vaultsyncforagents.Arbitrate.{
  ArbitrationVerdict, Verdict, Violation, applied, conflict, path_safety_violation,
  arbitrate_commit,
}
use vaultsyncforagents.Snapshots.{SnapshotRestoreItem, plan_snapshot_restore}
use vaultsyncforagents.Authority.Messages.{
  ClientMessage, HelloMessage, CommitMessage, ServerErrorCode, hello, get_manifest, commit_message,
  ping, put_blob, get_blob, snapshot_create, snapshot_restore, unexpected, not_found,
  protocol_error,
}
use vaultsyncforagents.Authority.State.{
  RegisteredDevice, DeviceType, Connection, StoredSnapshot, Job, blob_job, commit_job, Server,
  ServerOptions, record_change, Outcome, fail, closes, open_connection, register, revoke,
  connect_pair, disconnect, prune_events,
}
use vaultsyncforagents.Authority.Hello.{
  handle_hello, hello_in_grace, hello_as, finish_hello, must_rotate, rotate, protocol_version,
}
use vaultsyncforagents.Authority.Content.{
  ContentClaim, no_bytes, verified, refused, verify_commit_content, handle_get_manifest,
  handle_get_blob, handle_put_blob, store_blob,
}
use vaultsyncforagents.Authority.Commits.{
  touch, commit_of, device_names, admit, settle_claim, handle_commit,
}
use vaultsyncforagents.Authority.Restores.{
  RestoreRun, count_item, restore_loop, start_run, find_snapshot, finish_restore,
  handle_snapshot_restore, handle_snapshot_create, snapshot_of,
}
use vaultsyncforagents.Authority.Session.{
  device_at, handle_authenticated, authenticate, dispatch, handle, perform, run_job,
}
use vaultsyncforagents.Authority.Changes.{
  vault, IsPlanned, plan_paths-IsPlanned, is_accepted, unchanged, stored, captured, committed,
  restored, pruned, Changes, done, Changes-one, Changes-trans,
}

vault-disconnect : (s : Server) (transport : Str) → vault (disconnect s transport) ≡ vault s
unfolding disconnect
vault-disconnect s transport = elim (Option-cases (lookup transport s.connections)) [
  | inl absent ↦ rw (disconnect, absent)
  | inr present ↦ rw (disconnect, present.1)
]

vault-if :
    (b : Bool) (x y : Outcome) (s : Server)
    → vault x.0 ≡ vault s
    → vault y.0 ≡ vault s
    → vault (if b then x else y).0 ≡ vault s
vault-if true x y s hx hy = hx
vault-if false x y s hx hy = hy

vault-fail :
    (s : Server) (transport : Str) (code : ServerErrorCode)
    → vault (fail s transport code).0 ≡ vault s
unfolding fail
vault-fail s transport code = elim (Bool-cases (closes code)) [
  | inl ends ↦ rw ends (vault-disconnect s transport)
  | inr goes_on ↦ rw goes_on
]

vault-revoke : (s : Server) (device_id : Str) → vault (revoke s device_id) ≡ vault s
unfolding revoke
vault-revoke s device_id = elim (Option-cases (lookup device_id s.devices)) [
  | inl absent ↦ rw (revoke, absent)
  | inr present ↦ rw (revoke, present.1)
]

vault-touch : (s : Server) (device_id : Str) (now : ℕ) → vault (touch s device_id now) ≡ vault s
unfolding touch
vault-touch s device_id now = elim (Option-cases (lookup device_id s.devices)) [
  | inl absent ↦ rw (touch, absent)
  | inr present ↦ rw (touch, present.1)
]

module _ (options : ServerOptions) (transport : Str) (connection : Connection)
    (message : HelloMessage) (now : ℕ) where
  vault-hello_in_grace :
      (s : Server) (device : Option RegisteredDevice)
      → vault (hello_in_grace options transport connection message now s device).0 ≡ vault s
  unfolding hello_in_grace finish_hello
  vault-hello_in_grace s none = vault-fail s transport _
  vault-hello_in_grace s (some device) = refl

  vault-hello_as :
      (s : Server) (device : Option RegisteredDevice)
      → vault (hello_as options transport connection message now s device).0 ≡ vault s
  unfolding hello_as finish_hello rotate
  vault-hello_as s none = vault-fail s transport _
  vault-hello_as s (some device) = vault-if device.revoked _ _ s (vault-fail s transport _) (
      vault-if (not (nat_eq message.protocol_version protocol_version)) _ _ s
        (vault-fail s transport _) (vault-if (must_rotate options device now) _ _ s refl refl))

  vault-handle_hello :
      (s : Server) → vault (handle_hello options transport connection message now s).0 ≡ vault s
  unfolding handle_hello
  vault-handle_hello s =
      elim (Bool-cases
        (not (message.token == connection.token) || not (has message.token s.tokens))) [
          | inl other ↦ rw other (vault-hello_in_grace s _)
          | inr current ↦ rw current (vault-hello_as s _)
        ]

-- A step of the server, with what it sends. `IsAllowed` restricts the commits that are run.
module _ (u : Platform) (crypto : Crypto) (options : ServerOptions)
    (IsAllowed : CommitMessage → Type 0) where
  abbrev IsAllowedJob : Job → Type 0
  IsAllowedJob (blob_job transport hash content) = Unit
  IsAllowedJob (commit_job transport message) = IsAllowed message

  pub data Step (s : Server) : Outcome → Type 0 where
    registers :
        (device_id name : Str) (kind : DeviceType) → Step s (register s device_id name kind, [])
    revokes : (device_id : Str) → Step s (revoke s device_id, [])
    connects :
        (transport token : Str)
        → lookup transport s.connections ≡ none
        → Step s (connect_pair s transport token, [])
    disconnects : (transport : Str) → Step s (disconnect s transport, [])
    receives :
        (transport : Str) (message : ClientMessage) (now : ℕ)
        → Step s (handle u crypto options s transport message now)
    runs :
        (job : Job) (rest : List Job) (now : ℕ)
        → s.queue ≡ job ∷ rest
        → IsAllowedJob job
        → Step s (run_job u crypto options (record s { queue = rest }) job now)
    prunes : (before_seq : ℕ) → Step s (prune_events s before_seq, [])

  -- The servers that some steps lead to.
  pub data Reach (s : Server) : Server → Type 0 where
    here : Reach s s
    step :
        {middle : Server} {outcome : Outcome}
        → Reach s middle
        → Step middle outcome
        → Reach s outcome.0

  abbrev Chain : Server → Server → Type 0
  Chain = Changes u crypto IsAllowed

  quiet : {s later : Server} → vault later ≡ vault s → Chain s later
  quiet e = Changes-one u crypto IsAllowed (unchanged e)

  Chain-store_blob :
      (s : Server) (transport hash : Str) (bytes : Bytes)
      → Chain s (store_blob crypto s transport hash bytes).0
  unfolding store_blob
  Chain-store_blob s transport hash bytes = elim (Bool-cases (sha256_hex crypto bytes == hash)) [
    | inl same ↦ rw same (
        Changes-one u crypto IsAllowed
          (stored hash bytes ((eq_iff (sha256_hex crypto bytes) hash).0 same)))
    | inr differ ↦ rw differ (quiet (vault-fail s transport _))
  ]

  Chain-put_blob :
      (s : Server) (transport hash content : Str)
      → Chain s (handle_put_blob crypto s transport hash content).0
  unfolding handle_put_blob
  Chain-put_blob s transport hash content = go (base64_to_bytes crypto content) refl
    where
      go :
          (r : Result Bytes)
          → base64_to_bytes crypto content ≡ r
          → Chain s (handle_put_blob crypto s transport hash content).0
      go (err e) h = rw (handle_put_blob, h) (quiet (vault-fail s transport _))
      go (ok bytes) h = rw (handle_put_blob, h) (Chain-store_blob s transport hash bytes)

  Chain-admit :
      (s : Server) (transport device_id : Str) (message : CommitMessage) (now : ℕ)
      (claim : ContentClaim)
      → IsAllowed message
      → verify_commit_content crypto s.blobs message ≡ claim
      → is_accepted claim ≡ true
      → Chain s (admit u crypto transport device_id message now s claim).0
  unfolding admit
  Chain-admit s transport device_id message now claim allowed checked accepted =
      go (path_safety_violation u s.state.files message.path message.from_path) refl
        (arbitrate_commit u device_id now (device_names s.devices) s.state (commit_of message)) refl
    where
      go :
          (v : Option Violation)
          → path_safety_violation u s.state.files message.path message.from_path ≡ v
          → (r : Result ArbitrationVerdict)
          → arbitrate_commit u device_id now (device_names s.devices) s.state (commit_of message)
            ≡ r
          → Chain s (admit u crypto transport device_id message now s claim).0
      go (some violation) gate r ran = rw (admit, gate) (quiet (vault-fail s transport _))
      go none gate (err e) ran = rw (admit, gate, ran) (quiet (vault-fail s transport _))
      go none gate (ok verdict) ran =
          rw (admit, gate, ran)
            (Changes-one u crypto IsAllowed
              (committed device_id message now claim verdict allowed checked accepted gate ran))

  Chain-settle_claim :
      (s : Server) (transport device_id : Str) (message : CommitMessage) (now : ℕ)
      (claim : ContentClaim)
      → IsAllowed message
      → verify_commit_content crypto s.blobs message ≡ claim
      → Chain s (settle_claim u crypto transport device_id message now s claim).0
  unfolding settle_claim
  Chain-settle_claim s transport device_id message now (refused code) allowed checked =
      quiet (vault-fail s transport code)
  Chain-settle_claim s transport device_id message now no_bytes allowed checked =
      Chain-admit s transport device_id message now no_bytes allowed checked refl
  Chain-settle_claim s transport device_id message now (verified bytes) allowed checked =
      Chain-admit s transport device_id message now (verified bytes) allowed checked refl

  Chain-commit :
      (s : Server) (transport device_id : Str) (message : CommitMessage) (now : ℕ)
      → IsAllowed message
      → Chain s (handle_commit u crypto transport device_id message now s).0
  unfolding handle_commit
  Chain-commit s transport device_id message now allowed =
      let e = vault-touch s device_id now in
      Changes-trans u crypto IsAllowed (quiet e) (
        Chain-settle_claim (touch s device_id now) transport device_id message now
          (verify_commit_content crypto s.blobs message) allowed
          (ap (λ v. verify_commit_content crypto v.blobs message) e))

  Chain-run_job :
      (s : Server) (job : Job) (now : ℕ)
      → IsAllowedJob job
      → Chain s (run_job u crypto options s job now).0
  unfolding run_job perform
  Chain-run_job s (blob_job transport hash content) now allowed =
      Chain-put_blob s transport hash content
  Chain-run_job s (commit_job transport message) now allowed =
      Chain-commit s transport (device_at s transport) message now allowed

  Chain-restore_loop :
      (device_id id : Str) (now : ℕ) (snapshot : StoredSnapshot) (run : RestoreRun)
      (items : List SnapshotRestoreItem)
      → find_snapshot run.server.snapshots id ≡ some snapshot
      → All (IsPlanned snapshot.heads) items
      → Chain run.server (restore_loop u device_id now run items).0.server
  unfolding restore_loop count_item record_change
  Chain-restore_loop device_id id now snapshot run [] found all = done
  Chain-restore_loop device_id id now snapshot run (item ∷ items) found (planned, all) =
      go (arbitrate_commit u device_id now [] run.server.state item.commit) refl
        (λ later found'. Chain-restore_loop device_id id now snapshot later items found' all)
    where
      Ih : Type 0
      Ih =
          (later : RestoreRun)
          → find_snapshot later.server.snapshots id ≡ some snapshot
          → Chain later.server (restore_loop u device_id now later items).0.server

      after :
          (verdict : ArbitrationVerdict) (result : Verdict)
          → verdict.outcome.result ≡ result
          → arbitrate_commit u device_id now [] run.server.state item.commit ≡ ok verdict
          → Ih
          → Chain run.server (restore_loop u device_id now run (item ∷ items)).0.server
      after verdict conflict is ran ih = rw (restore_loop, ran, is) done
      after verdict applied is ran ih =
          rw (restore_loop, ran, is)
            (Changes-trans u crypto IsAllowed
              (Changes-one u crypto IsAllowed
                (restored device_id id now snapshot item verdict found planned ran is))
              (ih (count_item run item verdict) found))

      go :
          (r : Result ArbitrationVerdict)
          → arbitrate_commit u device_id now [] run.server.state item.commit ≡ r
          → Ih
          → Chain run.server (restore_loop u device_id now run (item ∷ items)).0.server
      go (err e) ran ih = rw (restore_loop, ran) done
      go (ok verdict) ran ih = after verdict verdict.outcome.result refl ran ih

  Chain-finish_restore :
      (s : Server) (transport id : Str) (run : RestoreRun × Bool)
      → Chain s run.0.server
      → Chain s (finish_restore transport id run).0
  unfolding finish_restore
  Chain-finish_restore s transport id (run, true) c = c
  Chain-finish_restore s transport id (run, false) c =
      Changes-trans u crypto IsAllowed c (quiet (vault-fail run.server transport _))

  Chain-snapshot_restore :
      (s : Server) (transport device_id id : Str) (now : ℕ)
      → Chain s (handle_snapshot_restore u s transport device_id id now).0
  unfolding handle_snapshot_restore plan_snapshot_restore
  Chain-snapshot_restore s transport device_id id now =
      elim (Option-cases (find_snapshot s.snapshots id)) [
        | inl absent ↦ rw (handle_snapshot_restore, absent) (quiet (vault-fail s transport _))
        | inr present ↦
            rw (handle_snapshot_restore, present.1)
              (Chain-finish_restore s transport id _ (
                Chain-restore_loop device_id id now present.0 (start_run u device_id now s) _
                  present.1 (planned s present.0)))
      ]
    where
      planned :
          (s : Server) (snapshot : StoredSnapshot)
          → All (IsPlanned snapshot.heads) (plan_snapshot_restore s.state snapshot.heads)
      planned s snapshot = (plan_paths-IsPlanned s.state.files snapshot.heads _)

  Chain-authenticated :
      (s : Server) (transport device_id : Str) (message : ClientMessage) (now : ℕ)
      → Chain s (handle_authenticated u crypto options s transport device_id message now).0
  unfolding handle_authenticated handle_get_manifest handle_get_blob handle_snapshot_create
      snapshot_of
  Chain-authenticated s transport device_id (get_manifest since) now = done
  Chain-authenticated s transport device_id (put_blob hash content) now = quiet refl
  Chain-authenticated s transport device_id (get_blob hash) now =
      elim (Option-cases (lookup hash s.blobs)) [
        | inl absent ↦ rw (handle_get_blob, absent) (quiet (vault-fail s transport not_found))
        | inr present ↦ rw (handle_get_blob, present.1) done
      ]
  Chain-authenticated s transport device_id (commit_message message) now = quiet refl
  Chain-authenticated s transport device_id (snapshot_create name) now =
      Changes-one u crypto IsAllowed (captured (snapshot_of s device_id name now) refl)
  Chain-authenticated s transport device_id (snapshot_restore id) now =
      Chain-snapshot_restore s transport device_id id now
  Chain-authenticated s transport device_id (hello message) now =
      quiet (vault-fail s transport protocol_error)
  Chain-authenticated s transport device_id (ping ts) now =
      quiet (vault-fail s transport protocol_error)
  Chain-authenticated s transport device_id unexpected now =
      quiet (vault-fail s transport protocol_error)

  Chain-authenticate :
      (s : Server) (transport : Str) (connection : Connection) (message : ClientMessage) (now : ℕ)
      → Chain s (authenticate u crypto options s transport connection message now).0
  unfolding authenticate
  Chain-authenticate s transport connection message now = elim (Option-cases connection.device_id) [
    | inl unknown ↦ rw (authenticate, unknown) (quiet (vault-fail s transport _))
    | inr known ↦ rw (authenticate, known.1) (Chain-authenticated s transport known.0 message now)
  ]

  Chain-dispatch :
      (s : Server) (transport : Str) (connection : Connection) (message : ClientMessage) (now : ℕ)
      → Chain s (dispatch u crypto options s transport connection message now).0
  unfolding dispatch
  Chain-dispatch s transport connection (hello message) now =
      quiet (vault-handle_hello options transport connection message now s)
  Chain-dispatch s transport connection (ping ts) now = done
  Chain-dispatch s transport connection (get_manifest since) now =
      Chain-authenticate s transport connection (get_manifest since) now
  Chain-dispatch s transport connection (commit_message message) now =
      Chain-authenticate s transport connection (commit_message message) now
  Chain-dispatch s transport connection (put_blob hash content) now =
      Chain-authenticate s transport connection (put_blob hash content) now
  Chain-dispatch s transport connection (get_blob hash) now =
      Chain-authenticate s transport connection (get_blob hash) now
  Chain-dispatch s transport connection (snapshot_create name) now =
      Chain-authenticate s transport connection (snapshot_create name) now
  Chain-dispatch s transport connection (snapshot_restore id) now =
      Chain-authenticate s transport connection (snapshot_restore id) now
  Chain-dispatch s transport connection unexpected now =
      Chain-authenticate s transport connection unexpected now

  Chain-handle :
      (s : Server) (transport : Str) (message : ClientMessage) (now : ℕ)
      → Chain s (handle u crypto options s transport message now).0
  unfolding handle
  Chain-handle s transport message now = elim (Option-cases (open_connection s transport)) [
    | inl closed ↦ rw (handle, closed) done
    | inr is_open ↦ rw (handle, is_open.1) (Chain-dispatch s transport is_open.0 message now)
  ]

  -- Every step of the server is a chain of changes of the vault.
  pub Step-Changes :
      {s : Server} {outcome : Outcome} → Step s outcome → Changes u crypto IsAllowed s outcome.0
  unfolding register connect_pair
  Step-Changes (registers device_id name kind) = quiet refl
  Step-Changes {s} (revokes device_id) = quiet (vault-revoke s device_id)
  Step-Changes (connects transport token fresh) = quiet refl
  Step-Changes {s} (disconnects transport) = quiet (vault-disconnect s transport)
  Step-Changes {s} (receives transport message now) = Chain-handle s transport message now
  Step-Changes {s} (runs job rest now queued allowed) =
      Changes-trans u crypto IsAllowed (quiet refl)
        (Chain-run_job (record s { queue = rest }) job now allowed)
  Step-Changes (prunes before_seq) = Changes-one u crypto IsAllowed (pruned before_seq)

  pub Reach-Changes : {s later : Server} → Reach s later → Changes u crypto IsAllowed s later
  Reach-Changes here = done
  Reach-Changes (step r t) = Changes-trans u crypto IsAllowed (Reach-Changes r) (Step-Changes t)
