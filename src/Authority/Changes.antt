-- ===== src/Authority/Changes.antt =====
-- What the handlers do to the vault itself, as opposed to its sessions: a chain of few kinds of
-- change, over which the invariants of the other modules go by induction.
use vaultsyncforagents.Prelude.{
  ℕ, ◌≡◌, Bool, true, false, none, some, List, [], ◌∷◌, ◌++◌, Str, All, Option-cases, inl, inr,
  if◌then◌else◌,
}
use vaultsyncforagents.Prelude.Dict.{Dict, lookup, insert}
use vaultsyncforagents.Prelude.Failure.{ok}
use vaultsyncforagents.Types.{is_delete, is_rename}
use vaultsyncforagents.Platform.{Platform}
use vaultsyncforagents.Wire.{Bytes, Crypto, sha256_hex}
use vaultsyncforagents.Arbitrate.{
  ArbitrationFileState, ArbitrationState, ArbitrationVerdict, applied, path_safety_violation,
  arbitrate_commit,
}
use vaultsyncforagents.Snapshots.{
  SnapshotHeadRecord, SnapshotRestoreItem, snapshot_heads_of, plan_item, plan_paths,
}
use vaultsyncforagents.Snapshots.Items.{live_head, plan_item-IsItem}
use vaultsyncforagents.Authority.Messages.{CommitMessage, ChangeMessage}
use vaultsyncforagents.Authority.State.{StoredSnapshot, Server, record_change, prune_events}
use vaultsyncforagents.Authority.Content.{ContentClaim, refused, verify_commit_content}
use vaultsyncforagents.Authority.Commits.{commit_of, device_names, adopted}
use vaultsyncforagents.Authority.Restores.{find_snapshot}

-- What the sessions share.
pub record Vault : Type 0 where
  pub state : ArbitrationState
  pub blobs : Dict Bytes
  pub head_seq : Dict ℕ
  pub log : List ChangeMessage
  pub seq : ℕ
  pub snapshots : List StoredSnapshot

abbrev pub vault : Server → Vault
vault s = record {
  state = s.state;
  blobs = s.blobs;
  head_seq = s.head_seq;
  log = s.log;
  seq = s.seq;
  snapshots = s.snapshots;
}

abbrev pub is_accepted : ContentClaim → Bool
is_accepted (refused code) = false
is_accepted _ = true

-- What a round of a restore asks for: a tombstone, or what the snapshot holds somewhere.
pub record IsPlanned (heads : Dict SnapshotHeadRecord) (item : SnapshotRestoreItem) : Type 0 where
  pub stays : is_rename item.commit.kind ≡ false
  pub path : Str
  pub reaches : live_head (lookup path heads) ≡ (
      if is_delete item.commit.kind
      then none
      else some (record {
        hash = item.commit.hash;
        size = item.commit.size;
        is_folder = item.commit.is_folder;
      }))

pub plan_paths-IsPlanned :
    (files : Dict ArbitrationFileState) (heads : Dict SnapshotHeadRecord) (paths : List Str)
    → All (IsPlanned heads) (plan_paths files heads paths)
unfolding plan_paths
plan_paths-IsPlanned files heads [] = tt
plan_paths-IsPlanned files heads (path ∷ paths) =
    elim (Option-cases (plan_item path (lookup path heads) (lookup path files))) [
      | inl skipped ↦ rw skipped (plan_paths-IsPlanned files heads paths)
      | inr planned ↦
          let i =
            plan_item-IsItem path (lookup path heads) (lookup path files) planned.0 planned.1 in
          rw planned.1 (
            (
              record { stays = i.stays; path = path; reaches = i.reaches },
              plan_paths-IsPlanned files heads paths,
            ))
    ]

-- `IsAllowed` restricts the commits that arrive, for what holds of some commits only.
module _ (u : Platform) (crypto : Crypto) (IsAllowed : CommitMessage → Type 0) where
  pub data Change (s : Server) : Server → Type 0 where
    unchanged : {later : Server} → vault later ≡ vault s → Change s later
    stored :
        (hash : Str) (bytes : Bytes)
        → sha256_hex crypto bytes ≡ hash
        → Change s (record s { blobs = insert hash bytes s.blobs })
    captured :
        (snapshot : StoredSnapshot)
        → snapshot.heads ≡ snapshot_heads_of s.state.files
        → Change s (record s { snapshots = s.snapshots ++ snapshot ∷ [] })
    committed :
        (device_id : Str) (message : CommitMessage) (now : ℕ) (claim : ContentClaim)
        (verdict : ArbitrationVerdict)
        → IsAllowed message
        → verify_commit_content crypto s.blobs message ≡ claim
        → is_accepted claim ≡ true
        → path_safety_violation u s.state.files message.path message.from_path ≡ none
        → arbitrate_commit u device_id now (device_names s.devices) s.state (commit_of message)
          ≡ ok verdict
        → Change s (adopted s device_id message claim verdict)
    restored :
        (device_id id : Str) (now : ℕ) (snapshot : StoredSnapshot) (item : SnapshotRestoreItem)
        (verdict : ArbitrationVerdict)
        → find_snapshot s.snapshots id ≡ some snapshot
        → IsPlanned snapshot.heads item
        → arbitrate_commit u device_id now [] s.state item.commit ≡ ok verdict
        → verdict.outcome.result ≡ applied
        → Change s (record_change (record s { state = verdict.state }) verdict.outcome.broadcast)
    pruned : (before_seq : ℕ) → Change s (prune_events s before_seq)

  pub data Changes (s : Server) : Server → Type 0 where
    done : Changes s s
    next : {middle later : Server} → Changes s middle → Change middle later → Changes s later

  pub Changes-one : {s later : Server} → Change s later → Changes s later
  Changes-one c = next done c

  pub Changes-trans :
      {s middle later : Server} → Changes s middle → Changes middle later → Changes s later
  Changes-trans cs done = cs
  Changes-trans cs (next ds d) = next (Changes-trans cs ds) d
