-- ===== src/Resolve/Moves.antt =====
-- Phase A of `computeSyncPlan`: the local renames.
use vaultsyncforagents.Prelude.{
  ℕ, Bool, true, false, not, ◌&&◌, Option, none, some, [], Str, is_some, if◌then◌else◌,
}
use vaultsyncforagents.Prelude.Dict.{Dict, lookup}
use vaultsyncforagents.Prelude.Failure.{Result, ok}
use vaultsyncforagents.Types.{LogicalClock}
use vaultsyncforagents.Clock.{compare_clocks, next_clock, is_positive}
use vaultsyncforagents.Platform.{Platform}
use vaultsyncforagents.LocalIndex.{LocalIndex, LocalIndexEntry}
use vaultsyncforagents.Resolve.Ops.{
  RemoteFile, LocalCandidate, RenameCandidate, Progress, PushOp, push_file, push_rename, PullOp,
  adding, editing, deleting, restoring, ConflictOp, rename_race, Winner, local_side, remote_side,
  LoserContent, local_content, remote_content, version_of_entry, is_tombstoned, clock_of_entry,
  hash_of_entry, size_of_entry,
}
use vaultsyncforagents.Resolve.Contested.{
  pull_file, remote_summary, remote_entry_changed, with_push, with_pull, with_conflict, push_local,
  resolve_contested_path,
}

abbrev or_remote {ℓ} : {A : Type ℓ} → (RemoteFile → A) → Option RemoteFile → A → A
or_remote field none d = d
or_remote field (some r) d = field r

abbrev or_zero_clock : Option LogicalClock → LogicalClock
or_zero_clock none = record { counter = 0; device_id = [] }
or_zero_clock (some c) = c

module _ (u : Platform) (index : LocalIndex) (manifest : Dict RemoteFile) (this_device_id : Str)
    (this_device_name : Str) (now : ℕ) where
  abbrev contested :
      Progress → Str → Option LocalIndexEntry → RemoteFile → LocalCandidate → Result Progress
  contested = resolve_contested_path u index manifest this_device_id this_device_name now

  -- Phase A: local renames.
  unfoldable pub from_changed : Option LocalIndexEntry → Option RemoteFile → Bool
  from_changed entry none = not (is_tombstoned entry)
  from_changed entry (some remote) = remote_entry_changed entry remote

  unfoldable pub to_changed : Option LocalIndexEntry → Option RemoteFile → Bool
  to_changed entry none = false
  to_changed entry (some remote) = remote_entry_changed entry remote

  unfoldable pub rename_push : RenameCandidate → Option LocalIndexEntry → PushOp
  rename_push rename index_from = push_rename (record {
    from_path = rename.from;
    to_path = rename.to;
    parent_version = version_of_entry index_from;
    hash = rename.hash;
    size = rename.size;
  })

  unfoldable pub rename_conflict :
      RenameCandidate → Option LocalIndexEntry → RemoteFile → Winner → LoserContent → ConflictOp
  rename_conflict rename index_from remote winner loser_content = record {
    path = rename.from;
    reason = rename_race;
    winner = winner;
    loser_content = loser_content;
    conflict_copy_path = none;
    remote = remote_summary remote;
    local_clock = next_clock (clock_of_entry index_from) this_device_id;
  }

  -- The old path's own deletion, when the remote side has nothing new there.
  unfoldable pub drop_from : Progress → RenameCandidate → Option LocalIndexEntry → Progress
  drop_from p rename none = p
  drop_from p rename (some entry) =
      if is_some entry.deleted_at
      then p
      else with_push p (
          push_file (record {
            kind = deleting;
            path = rename.from;
            parent_version = some entry.version_id;
            hash = entry.hash;
            size = entry.size;
            is_folder = false;
          }))

  -- The remote deletion of the old path stands.
  unfoldable pub pull_from_delete :
      RenameCandidate → Option LocalIndexEntry → Option RemoteFile → PullOp
  pull_from_delete rename entry remote = pull_file deleting rename.from (record {
    path = rename.from;
    version = or_remote (λ r. r.version) remote [];
    hash = or_remote (λ r. r.hash) remote (hash_of_entry entry rename.hash);
    size = or_remote (λ r. r.size) remote (size_of_entry entry rename.size);
    deleted = true;
    clock = or_remote (λ r. r.clock) remote (or_zero_clock (clock_of_entry entry));
    is_folder = false;
  })

  unfoldable pub renamed_candidate : RenameCandidate → Option LocalIndexEntry → LocalCandidate
  renamed_candidate rename index_to = record {
    path = rename.to;
    kind = if is_tombstoned index_to then restoring else adding;
    hash = rename.hash;
    size = rename.size;
    is_folder = false;
  }

  -- The `to` side of a contested rename.
  unfoldable pub place_to :
      Progress → RenameCandidate → Option LocalIndexEntry → Option RemoteFile → Result Progress
  unfolding renamed_candidate
  place_to p rename index_to none = ok (push_local p (renamed_candidate rename index_to) index_to)
  place_to p rename index_to (some remote) =
      if not (remote_entry_changed index_to remote)
      then ok (push_local p (renamed_candidate rename index_to) index_to)
      else contested p rename.to index_to remote (renamed_candidate rename index_to)

  -- The `from` side, where the remote side has edited the old path.
  unfoldable pub race_from :
      Progress
      → RenameCandidate
      → Option LocalIndexEntry
      → Option LocalIndexEntry
      → RemoteFile
      → Option RemoteFile
      → Result Progress
  race_from p rename index_from index_to remote_from remote_to =
      if is_positive
        (compare_clocks remote_from.clock (next_clock (clock_of_entry index_from) this_device_id))
      then place_to
          (with_conflict (with_pull p (pull_file editing rename.from remote_from))
            (rename_conflict rename index_from remote_from remote_side local_content))
          rename index_to remote_to
      else ok (
          with_conflict (with_push p (rename_push rename index_from))
            (rename_conflict rename index_from remote_from local_side remote_content))

  unfoldable pub move_from :
      Progress
      → RenameCandidate
      → Option LocalIndexEntry
      → Option LocalIndexEntry
      → Option RemoteFile
      → Option RemoteFile
      → Result Progress
  move_from p rename index_from index_to none remote_to =
      place_to (with_pull p (pull_from_delete rename index_from none)) rename index_to remote_to
  move_from p rename index_from index_to (some remote_from) remote_to =
      if remote_from.deleted
      then place_to (with_pull p (pull_from_delete rename index_from (some remote_from))) rename
          index_to remote_to
      else race_from p rename index_from index_to remote_from remote_to

  unfoldable pub rename_step : Progress → RenameCandidate → Result Progress
  rename_step p rename =
      let index_from = lookup rename.from index in
      let index_to = lookup rename.to index in
      let remote_from = lookup rename.from manifest in
      let remote_to = lookup rename.to manifest in
      if not (from_changed index_from remote_from) && not (to_changed index_to remote_to)
      then ok (with_push p (rename_push rename index_from))
      else if not (from_changed index_from remote_from)
      then place_to (drop_from p rename index_from) rename index_to remote_to
      else move_from p rename index_from index_to remote_from remote_to
