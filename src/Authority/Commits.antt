-- ===== src/Authority/Commits.antt =====
-- `handleCommit`.
use vaultsyncforagents.Prelude.{
  ℕ, ◌+◌, Bool, true, false, ◌||◌, Option, none, some, List, [], ◌∷◌, ◌++◌, Str, ◌==◌,
}
use vaultsyncforagents.Prelude.Dict.{Dict, lookup, insert}
use vaultsyncforagents.Prelude.Failure.{ok, err}
use vaultsyncforagents.Platform.{Platform}
use vaultsyncforagents.Wire.{Bytes, Crypto}
use vaultsyncforagents.Arbitrate.{
  ArbitrationCommit, ArbitrationVerdict, ArbitrationOutcome, ChangePayload, Verdict, applied,
  conflict, Violation, protocol_violation, path_collides, path_safety_violation, arbitrate_commit,
}
use vaultsyncforagents.Authority.Messages.{
  CommitMessage, ServerMessage, ServerErrorCode, protocol_error, path_collision, commit_ack,
  conflict_reply, change,
}
use vaultsyncforagents.Authority.State.{
  RegisteredDevice, Server, Effect, send, Outcome, fail, record_change, next_change,
  broadcast_others, broadcast_all,
}
use vaultsyncforagents.Authority.Content.{
  ContentClaim, no_bytes, verified, refused, verify_commit_content,
}

unfoldable pub commit_of : CommitMessage → ArbitrationCommit
commit_of message = record {
  path = message.path;
  parent_version = message.parent_version;
  hash = message.hash;
  size = message.size;
  kind = message.kind;
  from_path = message.from_path;
  is_folder = message.is_folder;
}

unfoldable pub device_names : Dict RegisteredDevice → Dict Str
device_names [] = []
device_names ((device_id, device) ∷ devices) = (device_id, device.name) ∷ device_names devices

unfoldable pub touch : Server → Str → ℕ → Server
touch s device_id now = elim (lookup device_id s.devices) [
  | none ↦ s
  | some device ↦ record s {
    devices = insert device_id (record device { last_seen = now }) s.devices;
  }
]

abbrev pub code_of : Violation → ServerErrorCode
code_of protocol_violation = protocol_error
code_of path_collides = path_collision

abbrev pub is_applied : Verdict → Bool
is_applied applied = true
is_applied conflict = false

-- Whether the head has changed, as far as the handler can tell.
abbrev pub head_changed : ArbitrationOutcome → Str → Bool
head_changed outcome device_id =
    is_applied outcome.result || outcome.winner.version.device_id == device_id

abbrev pub with_blob : Str → ContentClaim → Dict Bytes → Dict Bytes
with_blob hash no_bytes blobs = blobs
with_blob hash (verified bytes) blobs = insert hash bytes blobs
with_blob hash (refused _) blobs = blobs

-- The state of the verdict and the content of the commit.
unfoldable pub adopt : Server → CommitMessage → ContentClaim → ArbitrationVerdict → Server
adopt s message claim verdict = record s {
  state = verdict.state;
  blobs = with_blob message.hash claim s.blobs;
}

abbrev pub record_if : Bool → Server → ChangePayload → Server
record_if false s payload = s
record_if true s payload = record_change s payload

abbrev pub record_copy : Server → Option ChangePayload → Server
record_copy s none = s
record_copy s (some payload) = record_change s payload

-- The state after the verdict, with its changes recorded.
unfoldable pub adopted : Server → Str → CommitMessage → ContentClaim → ArbitrationVerdict → Server
unfolding adopt record_change
adopted s device_id message claim verdict =
    record_copy
      (record_if (head_changed verdict.outcome device_id) (adopt s message claim verdict)
        verdict.outcome.broadcast)
      verdict.outcome.conflict_copy

module _ (transport device_id : Str) where
  -- The winner's number: its change's, or that of its standing head.
  abbrev pub winner_seq : Bool → ℕ → Option ℕ → Option ℕ
  winner_seq true recorded standing = some recorded
  winner_seq false recorded standing = standing

  -- The reply; `before` is the number that the primary change would have followed.
  unfoldable pub commit_reply : Server → ℕ → ArbitrationOutcome → Verdict → ServerMessage
  commit_reply after before outcome applied =
      commit_ack outcome.new_version_id outcome.clock (before + 1)
  commit_reply after before outcome conflict =
      conflict_reply outcome.winner outcome.loser_disposition (
        winner_seq (head_changed outcome device_id) (before + 1)
          (lookup outcome.winner.version.path after.head_seq))

  abbrev pub primary_effects : Bool → Server → ChangePayload → List Effect
  primary_effects false s payload = []
  primary_effects true s payload = broadcast_others s transport (change (next_change s payload))

  abbrev pub copy_effects : Server → Option ChangePayload → List Effect
  copy_effects s none = []
  copy_effects s (some payload) = broadcast_all s (change (next_change s payload))

  unfoldable pub commit_effects : Server → Server → ArbitrationOutcome → List Effect
  unfolding commit_reply broadcast_others broadcast_all record_change
  commit_effects before after outcome =
      send transport (commit_reply after before.seq outcome outcome.result)
        ∷ primary_effects (head_changed outcome device_id) before outcome.broadcast
      ++ copy_effects (record_if (head_changed outcome device_id) before outcome.broadcast)
          outcome.conflict_copy

module _ (u : Platform) (crypto : Crypto) (transport device_id : Str) (message : CommitMessage)
    (now : ℕ) where
  -- A commit whose content is accounted for: the gate, then the arbitration.
  unfoldable pub admit : Server → ContentClaim → Outcome
  unfolding adopted commit_effects
  admit s claim = elim (path_safety_violation u s.state.files message.path message.from_path) [
    | some violation ↦ fail s transport (code_of violation)
    | none ↦
        elim (arbitrate_commit u device_id now (device_names s.devices) s.state
          (commit_of message)) [
            | err _ ↦ fail s transport protocol_error
            | ok verdict ↦
                let after = adopted s device_id message claim verdict in
                (after, commit_effects transport device_id s after verdict.outcome)
          ]
  ]

  unfoldable pub settle_claim : Server → ContentClaim → Outcome
  settle_claim s (refused code) = fail s transport code
  settle_claim s no_bytes = admit s no_bytes
  settle_claim s (verified bytes) = admit s (verified bytes)

  unfoldable pub handle_commit : Server → Outcome
  unfolding touch
  handle_commit s =
      settle_claim (touch s device_id now) (verify_commit_content crypto s.blobs message)
