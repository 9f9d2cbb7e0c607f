-- ===== src/Tests/Serving.antt =====
-- A session of two devices with the authority, and the theorems about the authority at it.
use vaultsyncforagents.Prelude.{
  ℕ, ◌+◌, ◌≡◌, refl, false, none, some, List, [], ◌∷◌, Str, codes, arith, ◌==◌, str_lt, ◌⊎◌,
}
use vaultsyncforagents.Prelude.Dict.{lookup, insert, erase}
use vaultsyncforagents.Prelude.Failure.{ok}
use vaultsyncforagents.Types.{VaultSettings, edit}
use vaultsyncforagents.Platform.{ascii}
use vaultsyncforagents.Wire.{Bytes, Crypto, sha256_hex, to_hex, base64_to_bytes, bytes_to_base64}
use vaultsyncforagents.Wire.Base64.{base64_to_bytes-bytes_to_base64}
use vaultsyncforagents.Decimal.{decimal}
use vaultsyncforagents.Clock.{next_clock}
use vaultsyncforagents.Paths.{is_nfc_path, fold_key_for_path}
use vaultsyncforagents.Arbitrate.{
  ArbitrationFileState, path_safety_violation, any_collides, collides, arbitrate_commit,
  find_parent, arbitrate_path, fast_path, install, outcome_of, version_of, mint_id, version_id,
  payload_of,
}
use vaultsyncforagents.Snapshots.{snapshot_heads_of, head_record}
use vaultsyncforagents.Authority.{
  Server, ServerOptions, HelloMessage, CommitMessage, ClientMessage, desktop, hello, commit_message,
  snapshot_create, snapshot_restore_ack, SnapshotRestoreAckMessage, StoredSnapshot, Effect,
  handle_snapshot_restore, find_snapshot, blob_content, send, register, connect_pair, empty_server,
  handle, run_job, commit_job, open_connection, dispatch, handle_hello, hello_as, hello_in_grace,
  finish_hello, must_rotate, authenticate, handle_authenticated, perform, handle_commit, touch,
  settle_claim, admit, adopted, adopt, record_change, verify_commit_content, check_content,
  check_inline, device_at, commit_of, device_names, commit_effects, commit_reply,
  handle_snapshot_create, snapshot_of, handle_get_blob, manifest_entry, manifest_entries, catch_up,
}
use vaultsyncforagents.Authority.Steps.{Reach, here, step, registers, connects, receives, runs}
use vaultsyncforagents.Authority.Changes.{vault}
use vaultsyncforagents.Authority.Numbers.{IsNumbered, Reach-IsNumbered}
use vaultsyncforagents.Authority.Blobs.{HasContent, Reach-HasContent, handle_get_blob-live}
use vaultsyncforagents.Authority.Follow.{
  heads_of, row_head, follow_all, recorded, arbitrate_commit-Follows,
}
use vaultsyncforagents.Authority.History.{payloads_of}
use vaultsyncforagents.Authority.CatchUp.{IsProper, catch_up-reaches}
use vaultsyncforagents.Snapshots.Items.{live_row, live_head}
use vaultsyncforagents.Authority.Restoring.{handle_snapshot_restore-acks}
use vaultsyncforagents.Authority.Delta.{manifest_entries_complete}
use vaultsyncforagents.Tests.Vault.{note, rival, first_run, second_run, run_on, simulate, row_at}
use vaultsyncforagents.Tests.Arbitration.{first_run-IsWellFormed}

-- A digest and an encoding that leave texts alone.
abbrev plain_crypto : Crypto
plain_crypto = record { digest = λ bytes. bytes; atob = λ s. some s; btoa = λ s. s }

abbrev no_settings : VaultSettings
no_settings = record { obsidian_sync = false; display_name = []; extra_ignores = [] }

abbrev plain_options : ServerOptions
plain_options = record {
  vault_name = [];
  settings = no_settings;
  token_rotation_ms = 0;
  token_rotation_grace_ms = 0;
}

abbrev wire : Str
wire = codes "t1"

abbrev greeting : HelloMessage
greeting = record { token = codes "tok-a"; protocol_version = 1; cursor = 0 }

abbrev upload : CommitMessage
upload = record {
  path = codes "/n.md";
  parent_version = none;
  hash = codes "4142";
  size = 2;
  kind = edit;
  inline = some (codes "AB");
  from_path = none;
  is_folder = false;
}

-- A message on the connection, and the remainder of its handler.
unfoldable receive : Server → ClientMessage → ℕ → Server
unfolding lookup insert erase ◌==◌ handle open_connection dispatch handle_hello hello_as
    hello_in_grace finish_hello must_rotate authenticate handle_authenticated handle_snapshot_create
    snapshot_of snapshot_heads_of head_record decimal
receive s message now = (handle ascii plain_crypto plain_options s wire message now).0

unfoldable complete : Server → CommitMessage → ℕ → Server
unfolding lookup insert erase ◌==◌ str_lt run_job perform handle_commit touch settle_claim admit
    adopted adopt record_change verify_commit_content check_content check_inline base64_to_bytes
    sha256_hex to_hex device_at commit_of device_names path_safety_violation any_collides collides
    is_nfc_path fold_key_for_path arbitrate_commit find_parent arbitrate_path fast_path install
    outcome_of version_of mint_id version_id payload_of next_clock decimal ascii commit_effects
    commit_reply
complete s message now =
    (run_job ascii plain_crypto plain_options (record s { queue = [] }) (commit_job wire message)
      now).0

unfoldable opened : Server
unfolding register connect_pair
opened =
    connect_pair (register empty_server (codes "a") (codes "laptop") desktop) wire (codes "tok-a")

unfoldable greeted : Server
unfolding opened receive
greeted = receive opened (hello greeting) 1

unfoldable first_asked : Server
unfolding greeted receive
first_asked = receive greeted (commit_message upload) 2

unfoldable first_served : Server
unfolding first_asked complete
first_served = complete first_asked upload 3

-- The note is written again, on its first version.
abbrev rewrite_of_note : CommitMessage
rewrite_of_note = record upload {
  parent_version = some (codes "v1");
  hash = codes "4344";
  inline = some (codes "CD");
}

unfoldable second_asked : Server
unfolding first_served receive
second_asked = receive first_served (commit_message rewrite_of_note) 4

unfoldable second_served : Server
unfolding second_asked complete
second_served = complete second_asked rewrite_of_note 5

unfoldable captured_server : Server
unfolding first_served receive
captured_server = receive first_served (snapshot_create none) 6

abbrev Reaches : Server → Server → Type 0
Reaches = Reach ascii plain_crypto plain_options IsProper

greeted-Reach : Reaches empty_server greeted
unfolding greeted opened receive
greeted-Reach =
    step
      (step (step here (registers (codes "a") (codes "laptop") desktop))
        (connects wire (codes "tok-a") refl))
      (receives wire (hello greeting) 1)

first_served-Reach : Reaches empty_server first_served
unfolding first_served first_asked receive complete
first_served-Reach =
    step (step greeted-Reach (receives wire (commit_message upload) 2))
      (runs (commit_job wire upload) [] 3 refl refl)

second_served-Reach : Reaches first_served second_served
unfolding second_served second_asked receive complete
second_served-Reach =
    step (step here (receives wire (commit_message rewrite_of_note) 4))
      (runs (commit_job wire rewrite_of_note) [] 5 refl refl)

captured_server-Reach : Reaches empty_server captured_server
unfolding captured_server receive
captured_server-Reach = step first_served-Reach (receives wire (snapshot_create none) 6)

unfoldable first_row : ArbitrationFileState
unfolding row_at first_served
first_row = row_at (codes "/n.md") first_served.state

unfoldable second_row : ArbitrationFileState
unfolding row_at second_served
second_row = row_at (codes "/n.md") second_served.state

Reach-IsNumbered_example : IsNumbered (vault first_served)
Reach-IsNumbered_example =
    Reach-IsNumbered ascii plain_crypto plain_options IsProper first_served-Reach

Reach-HasContent_example : HasContent plain_crypto (vault captured_server)
Reach-HasContent_example =
    Reach-HasContent ascii plain_crypto plain_options IsProper captured_server-Reach

handle_get_blob-live_example :
    (bytes : Bytes) × (sha256_hex plain_crypto bytes ≡ first_row.head.hash)
    × (handle_get_blob plain_crypto first_served wire first_row.head.hash ≡ (
      first_served,
      send wire (blob_content first_row.head.hash (bytes_to_base64 plain_crypto bytes)) ∷ [],
    ))
unfolding first_row
handle_get_blob-live_example =
    handle_get_blob-live ascii plain_crypto plain_options IsProper wire (codes "/n.md") first_row
      first_served-Reach refl refl refl

catch_up-reaches_example :
    follow_all
      (heads_of first_served.state)
      (payloads_of (catch_up first_served.seq second_served.log))
      (codes "/n.md")
    ≡ heads_of second_served.state (codes "/n.md")
unfolding second_served
catch_up-reaches_example =
    catch_up-reaches ascii plain_crypto plain_options (codes "/n.md") first_served-Reach
      second_served-Reach (omega arith) (omega arith)

manifest_entries_complete_example :
    (heads_of first_served.state (codes "/n.md") ≡ some (row_head second_row))
    ⊎ (lookup (codes "/n.md") (
          manifest_entries second_served.head_seq (some first_served.seq) second_served.state.files)
        ≡ some (manifest_entry (codes "/n.md") second_row))
unfolding second_row
manifest_entries_complete_example =
    manifest_entries_complete ascii plain_crypto plain_options (codes "/n.md") second_row
      first_served-Reach second_served-Reach refl

arbitrate_commit-Follows_example :
    follow_all (heads_of first_run.state) (recorded second_run.outcome (codes "b")) note
    ≡ heads_of second_run.state note
unfolding second_run first_run run_on simulate
arbitrate_commit-Follows_example =
    arbitrate_commit-Follows ascii (codes "b") 0 [] first_run.state rival second_run
      first_run-IsWellFormed refl refl note

base64_to_bytes-bytes_to_base64_example :
    base64_to_bytes plain_crypto (bytes_to_base64 plain_crypto (0 ∷ 255 ∷ [])) ≡ ok (0 ∷ 255 ∷ [])
base64_to_bytes-bytes_to_base64_example =
    base64_to_bytes-bytes_to_base64 plain_crypto (0 ∷ 255 ∷ []) (λ binary all. refl)
      ((omega arith, (omega arith, tt)))

unfoldable taken_snapshot : StoredSnapshot
unfolding captured_server
taken_snapshot = elim captured_server.snapshots [
  | [] ↦ record { id = []; name = []; ts = 0; device_id = []; seq = 0; heads = [] }
  | snapshot ∷ rest ↦ snapshot
]

handle_snapshot_restore-acks_example :
    (later : Server) × (effects : List Effect) × (ack : SnapshotRestoreAckMessage)
    × (handle_snapshot_restore ascii captured_server wire (codes "a") (codes "s1") 7
        ≡ (later, send wire (snapshot_restore_ack ack) ∷ effects))
    × ((q : Str)
        → live_row (lookup q later.state.files) ≡ live_head (lookup q taken_snapshot.heads))
    × (ack.restored + ack.tombstoned + captured_server.seq ≡ later.seq)
unfolding taken_snapshot find_snapshot
handle_snapshot_restore-acks_example =
    handle_snapshot_restore-acks ascii plain_crypto plain_options IsProper wire (codes "a")
      (codes "s1") 7 taken_snapshot captured_server-Reach refl
