-- ===== src/Authority/Content.antt =====
-- The manifest, the blobs and the check of a commit's content.
use vaultsyncforagents.Prelude.{
  ℕ, Bool, false, not, ◌||◌, Option, none, some, [], ◌∷◌, Str, ◌==◌, if◌then◌else◌, ltb, nat_eq,
  or_default, length,
}
use vaultsyncforagents.Prelude.Dict.{Dict, lookup, insert, has}
use vaultsyncforagents.Prelude.Failure.{ok, err}
use vaultsyncforagents.Types.{is_delete}
use vaultsyncforagents.Wire.{
  Bytes, Crypto, sha256_hex, bytes_to_base64, base64_to_bytes, inline_content_max_bytes,
}
use vaultsyncforagents.Arbitrate.{ArbitrationFileState}
use vaultsyncforagents.Authority.Messages.{
  ManifestEntry, CommitMessage, ServerErrorCode, not_found, protocol_error, manifest_of, blob_ack,
  blob_content,
}
use vaultsyncforagents.Authority.State.{Server, send, Outcome, fail}

unfoldable pub manifest_entry : Str → ArbitrationFileState → ManifestEntry
manifest_entry path file = record {
  path = path;
  version = file.head.id;
  hash = file.head.hash;
  size = file.head.size;
  deleted = file.deleted;
  clock = file.head.clock;
  is_folder = file.is_folder;
  mtime = file.head.ts;
}

-- Whether a delta leaves the path out: its head is not newer than the cursor.
abbrev pub is_old : Dict ℕ → Option ℕ → Str → Bool
is_old head_seq none path = false
is_old head_seq (some since) path = not (ltb since (or_default (lookup path head_seq) 0))

unfoldable pub manifest_entries : Dict ℕ → Option ℕ → Dict ArbitrationFileState → Dict ManifestEntry
unfolding manifest_entry
manifest_entries head_seq since [] = []
manifest_entries head_seq since ((path, file) ∷ files) =
    let rest = manifest_entries head_seq since files in
    if is_old head_seq since path then rest else (path, manifest_entry path file) ∷ rest

unfoldable pub handle_get_manifest : Server → Str → Option ℕ → Outcome
unfolding manifest_entries
handle_get_manifest s transport since =
    (s, send transport (manifest_of (manifest_entries s.head_seq since s.state.files) s.seq) ∷ [])

unfoldable pub handle_get_blob : Crypto → Server → Str → Str → Outcome
handle_get_blob crypto s transport hash = elim (lookup hash s.blobs) [
  | none ↦ fail s transport not_found
  | some bytes ↦ (s, send transport (blob_content hash (bytes_to_base64 crypto bytes)) ∷ [])
]

unfoldable pub store_blob : Crypto → Server → Str → Str → Bytes → Outcome
store_blob crypto s transport hash bytes =
    if sha256_hex crypto bytes == hash
    then (record s { blobs = insert hash bytes s.blobs }, send transport (blob_ack hash) ∷ [])
    else fail s transport protocol_error

unfoldable pub handle_put_blob : Crypto → Server → Str → Str → Str → Outcome
handle_put_blob crypto s transport hash content = elim (base64_to_bytes crypto content) [
  | err _ ↦ fail s transport protocol_error
  | ok bytes ↦ store_blob crypto s transport hash bytes
]

-- What a commit's content claim comes to: nothing to store, bytes to store, or a refusal.
pub data ContentClaim : Type 0 where
  no_bytes : ContentClaim
  verified : Bytes → ContentClaim
  refused : ServerErrorCode → ContentClaim

unfoldable pub check_inline : Crypto → CommitMessage → Bytes → ContentClaim
check_inline crypto message bytes =
    if ltb inline_content_max_bytes (length bytes)
    then refused protocol_error
    else if not (nat_eq (length bytes) message.size)
    then refused protocol_error
    else if sha256_hex crypto bytes == message.hash
    then verified bytes
    else refused protocol_error

-- Content that is inline, or must have been uploaded before.
unfoldable pub check_content : Crypto → Dict Bytes → CommitMessage → Option Str → ContentClaim
unfolding check_inline
check_content crypto blobs message none =
    if has message.hash blobs then no_bytes else refused not_found
check_content crypto blobs message (some inline) = elim (base64_to_bytes crypto inline) [
  | err _ ↦ refused protocol_error
  | ok bytes ↦ check_inline crypto message bytes
]

unfoldable pub verify_commit_content : Crypto → Dict Bytes → CommitMessage → ContentClaim
verify_commit_content crypto blobs message =
    if is_delete message.kind || message.is_folder
    then no_bytes
    else check_content crypto blobs message message.inline
