-- ===== src/Resolve/Contested.antt =====
-- The resolution of one path that both sides changed, and the helpers of the phases.
use vaultsyncforagents.Prelude.{
  ℕ, Bool, false, not, ◌&&◌, ◌||◌, Option, none, some, [], ◌∷◌, ◌++◌, Str, ◌==◌, is_some,
  if◌then◌else◌,
}
use vaultsyncforagents.Prelude.Dict.{Dict, has}
use vaultsyncforagents.Prelude.Failure.{Result, ok, ◌>>=◌}
use vaultsyncforagents.Types.{LogicalClock}
use vaultsyncforagents.Clock.{compare_clocks, next_clock, is_positive}
use vaultsyncforagents.Platform.{Platform}
use vaultsyncforagents.ConflictNames.{conflict_copy_path}
use vaultsyncforagents.LocalIndex.{LocalIndex, LocalIndexEntry}
use vaultsyncforagents.Resolve.Ops.{
  RemoteFile, LocalCandidate, Progress, PushOp, push_file, PullOp, pull_file_op, OpKind, adding,
  editing, deleting, restoring, copying, is_deleting, ConflictOp, ConflictReason, concurrent_edit,
  add_vs_add, delete_vs_edit, RemoteSummary, Winner, local_side, remote_side, LoserContent,
  local_content, remote_content, no_content, version_of_entry, clock_of_entry, hash_of_entry,
  size_of_entry,
}

unfoldable pub pull_file : OpKind → Str → RemoteFile → PullOp
pull_file kind path remote = pull_file_op (record {
  kind = kind;
  path = path;
  hash = remote.hash;
  size = remote.size;
  version = remote.version;
  clock = remote.clock;
  deleted = remote.deleted;
  is_folder = remote.is_folder;
})

unfoldable pub remote_summary : RemoteFile → RemoteSummary
remote_summary remote = record {
  version = remote.version;
  hash = remote.hash;
  size = remote.size;
  deleted = remote.deleted;
  clock = remote.clock;
}

-- Whether the remote head differs from what the index records.
unfoldable pub remote_entry_changed : Option LocalIndexEntry → RemoteFile → Bool
remote_entry_changed none remote = not remote.deleted
remote_entry_changed (some entry) remote = not (remote.version == entry.version_id)

-- Appending to the accumulators.
unfoldable pub with_push : Progress → PushOp → Progress
with_push p op = record p { pushes = p.pushes ++ (op ∷ []) }

unfoldable pub with_pull : Progress → PullOp → Progress
with_pull p op = record p { pulls = p.pulls ++ (op ∷ []) }

unfoldable pub with_conflict : Progress → ConflictOp → Progress
with_conflict p op = record p { conflicts = p.conflicts ++ (op ∷ []) }

-- A push of a candidate's content, or of a deletion with what the index knows of its content.
unfoldable pub content_push : Str → Option LocalIndexEntry → LocalCandidate → PushOp
content_push path entry local = push_file (record {
  kind = local.kind;
  path = path;
  parent_version = version_of_entry entry;
  hash = local.hash;
  size = local.size;
  is_folder = false;
})

unfoldable pub delete_push : Str → Option LocalIndexEntry → LocalCandidate → PushOp
delete_push path entry local = push_file (record {
  kind = deleting;
  path = path;
  parent_version = version_of_entry entry;
  hash = hash_of_entry entry local.hash;
  size = size_of_entry entry local.size;
  is_folder = local.is_folder;
})

unfoldable pub push_local : Progress → LocalCandidate → Option LocalIndexEntry → Progress
push_local p candidate entry =
    if is_deleting candidate.kind
    then with_push p (delete_push candidate.path entry candidate)
    else with_push p (content_push candidate.path entry candidate)

-- How remote content is materialised over an entry.
unfoldable pub pull_kind : Option LocalIndexEntry → OpKind
pull_kind none = adding
pull_kind (some entry) = if is_some entry.deleted_at then restoring else editing

unfoldable pub conflict_reason :
    Option LocalIndexEntry → RemoteFile → LocalCandidate → ConflictReason
conflict_reason entry remote local =
    if is_deleting local.kind || remote.deleted
    then delete_vs_edit
    else if not (is_some entry)
    then add_vs_add
    else concurrent_edit

module _ (u : Platform) (index : LocalIndex) (manifest : Dict RemoteFile) (this_device_id : Str)
    (this_device_name : Str) (now : ℕ) where
  unfoldable pub path_exists : Str → Bool
  path_exists path = has path index || has path manifest

  -- The tentative clock of the local side, and whether the remote head beats it. At equal clocks
  -- the local side is taken to win.
  unfoldable pub local_clock : Option LocalIndexEntry → LogicalClock
  local_clock entry = next_clock (clock_of_entry entry) this_device_id

  unfoldable pub remote_wins : Option LocalIndexEntry → RemoteFile → Bool
  unfolding local_clock
  remote_wins entry remote = is_positive (compare_clocks remote.clock (local_clock entry))

  unfoldable pub conflict_of :
      Str
      → Option LocalIndexEntry
      → RemoteFile
      → LocalCandidate
      → Winner
      → LoserContent
      → Option Str
      → ConflictOp
  unfolding conflict_reason remote_summary local_clock
  conflict_of path entry remote local winner loser_content copy_path = record {
    path = path;
    reason = conflict_reason entry remote local;
    winner = winner;
    loser_content = loser_content;
    conflict_copy_path = copy_path;
    remote = remote_summary remote;
    local_clock = local_clock entry;
  }

  -- The push that preserves losing local content, built on the winning remote head.
  unfoldable pub copy_push : Str → LocalCandidate → RemoteFile → PushOp
  copy_push copy_path local remote = push_file (record {
    kind = copying;
    path = copy_path;
    parent_version = some remote.version;
    hash = local.hash;
    size = local.size;
    is_folder = false;
  })

  unfoldable pub push_conflict_copy :
      Progress → Str → LocalCandidate → RemoteFile → Result (Option Str × Progress)
  unfolding copy_push with_push
  push_conflict_copy p path local remote = if local.hash == remote.hash then ok (none, p) else do
    copy_path ← conflict_copy_path u path this_device_name now path_exists
    ok (some copy_path, with_push p (copy_push copy_path local remote))

  -- The remote side wins over local content: pull it, keep the local content, and report.
  unfoldable pub concede :
      Progress
      → Str
      → Option LocalIndexEntry
      → RemoteFile
      → LocalCandidate
      → OpKind
      → Result Progress
  concede p path entry remote local kind = do
    (copy_path, q) ← push_conflict_copy (with_pull p (pull_file kind path remote)) path local remote
    ok (with_conflict q (conflict_of path entry remote local remote_side local_content copy_path))

  unfoldable pub resolve_contested_path :
      Progress → Str → Option LocalIndexEntry → RemoteFile → LocalCandidate → Result Progress
  resolve_contested_path p path entry remote local =
      if is_deleting local.kind && remote.deleted
      then ok (with_pull p (pull_file deleting path remote))
      else if is_deleting local.kind
      then if remote_wins entry remote
        then ok (
            with_conflict (with_pull p (pull_file editing path remote))
              (conflict_of path entry remote local remote_side no_content none))
        else ok (
            with_conflict (with_push p (delete_push path entry local))
              (conflict_of path entry remote local local_side remote_content none))
      else if remote.deleted
      then if remote_wins entry remote
        then concede p path entry remote local deleting
        else ok (
            with_conflict (with_push p (content_push path entry local))
              (conflict_of path entry remote local local_side no_content none))
      else if local.hash == remote.hash
      then ok (with_pull p (pull_file (pull_kind entry) path remote))
      else if remote_wins entry remote
      then concede p path entry remote local (pull_kind entry)
      else ok (
          with_conflict (with_push p (content_push path entry local))
            (conflict_of path entry remote local local_side remote_content none))
