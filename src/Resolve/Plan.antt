-- ===== src/Resolve/Plan.antt =====
-- The phases B to D of `computeSyncPlan`, and the plan.
use vaultsyncforagents.Prelude.{
  ℕ, Bool, true, false, not, ◌&&◌, ◌||◌, Option, none, some, List, [], ◌∷◌, ◌++◌, Str, ◌==◌, map,
  is_some, filter, any, if◌then◌else◌,
}
use vaultsyncforagents.Prelude.Dict.{Dict, lookup, has, keys, insert}
use vaultsyncforagents.Prelude.Failure.{Result, ok, err, ◌>>=◌}
use vaultsyncforagents.Platform.{Platform}
use vaultsyncforagents.Paths.{parent_path}
use vaultsyncforagents.LocalIndex.{LocalIndex, LocalIndexEntry}
use vaultsyncforagents.Resolve.Ops.{
  RemoteFile, LocalCandidate, LocalChanges, ScanCandidate, DeletedCandidate,
  FolderDeletionCandidate, SyncPlanInput, SyncPlan, Progress, pull_rename_op, OpKind, adding,
  editing, deleting, restoring, is_tombstoned,
}
use vaultsyncforagents.Resolve.Order.{
  compare_strings, sort, push_path, compare_pull_ops, hoist_fold_paired_deletes,
}
use vaultsyncforagents.Resolve.Contested.{
  pull_file, remote_entry_changed, with_pull, push_local, resolve_contested_path,
}
use vaultsyncforagents.Resolve.Moves.{rename_step}

-- `set.has(path)`.
unfoldable pub contains : List Str → Str → Bool
contains paths path = any (λ p. p == path) paths

-- A loop that may throw.
unfoldable pub fold_ok {ℓ κ} :
    {S : Type ℓ} {A : Type κ} → (S → A → Result S) → S → List A → Result S
fold_ok f s [] = ok s
fold_ok f s (a ∷ rest) = elim (f s a) [ ok s' ↦ fold_ok f s' rest | err e ↦ err e ]

unfoldable pub with_consumed : Progress → Str → Progress
with_consumed p path = record p { consumed = path ∷ p.consumed }

-- A live file entry.
abbrev pub is_live_file : Option LocalIndexEntry → Bool
is_live_file none = false
is_live_file (some entry) = not (is_some entry.deleted_at) && not entry.is_folder

abbrev is_known_live : Option LocalIndexEntry → Bool
is_known_live none = false
is_known_live (some entry) = not (is_some entry.deleted_at)

module _ (u : Platform) (index : LocalIndex) (manifest : Dict RemoteFile) (sorted : List RemoteFile)
    (local_paths : List Str) where
  -- Phase B: remote renames, found by content hash, a target in the same directory preferred.
  unfoldable pub same_dir : Str → Str → Result Bool
  same_dir a b = do
    parent_a ← parent_path u a
    parent_b ← parent_path u b
    ok (parent_a == parent_b)

  unfoldable pub is_target : Progress → LocalIndexEntry → RemoteFile → Bool
  is_target p entry candidate =
      not candidate.deleted
      && (not (contains local_paths candidate.path || contains p.consumed candidate.path)
          && (not (is_known_live (lookup candidate.path index)) && candidate.hash == entry.hash))

  abbrev prefer : RemoteFile → Bool → Option (RemoteFile × Bool) → Option (RemoteFile × Bool)
  prefer candidate in_dir none = some (candidate, in_dir)
  prefer candidate in_dir (some (best, best_in_dir)) =
      if in_dir && not best_in_dir then some (candidate, true) else some (best, best_in_dir)

  unfoldable pub best_step :
      Progress
      → Str
      → LocalIndexEntry
      → Option (RemoteFile × Bool)
      → RemoteFile
      → Result (Option (RemoteFile × Bool))
  best_step p from entry best candidate =
      if not (is_target p entry candidate)
      then ok best
      else do in_dir ← same_dir candidate.path from; ok (prefer candidate in_dir best)

  abbrev migrate : Progress → Str → LocalIndexEntry → Option (RemoteFile × Bool) → Progress
  migrate p from entry (some (best, _)) =
      with_consumed
        (with_consumed
          (with_pull p (
            pull_rename_op (record {
              from_path = from;
              to_path = best.path;
              hash = best.hash;
              size = best.size;
              version = best.version;
              clock = best.clock;
              is_folder = false;
            })))
          from)
        best.path
  migrate p from entry none =
      with_consumed
        (with_pull p (
          pull_file deleting from (record {
            path = from;
            version = [];
            hash = entry.hash;
            size = entry.size;
            deleted = true;
            clock = entry.clock;
            is_folder = false;
          })))
        from

  abbrev migrated_entry : Progress → Str → Option LocalIndexEntry → Result Progress
  migrated_entry p from none = ok p
  migrated_entry p from (some entry) = do
    best ← fold_ok (best_step p from entry) none sorted
    ok (migrate p from entry best)

  unfoldable pub migration_step : Progress → Str → Result Progress
  unfolding fold_ok best_step is_target same_dir
  migration_step p from =
      if contains local_paths from || contains p.consumed from
      then ok p
      else if has from manifest
      then ok p
      else migrated_entry p from (lookup from index)

  -- Phase C: the remaining remote-only changes.
  abbrev pull_changed : Progress → RemoteFile → Option LocalIndexEntry → Progress
  pull_changed p remote none =
      if not remote.deleted
      then with_consumed (with_pull p (pull_file adding remote.path remote)) remote.path
      else p
  pull_changed p remote (some entry) =
      with_consumed
        (with_pull p (
          pull_file
            (if remote.deleted
              then deleting
              else if is_some entry.deleted_at
              then restoring
              else editing)
            remote.path remote))
        remote.path

  unfoldable pub remote_step : Progress → RemoteFile → Progress
  unfolding remote_entry_changed
  remote_step p remote =
      if contains local_paths remote.path || contains p.consumed remote.path
      then p
      else if not (remote_entry_changed (lookup remote.path index) remote)
      then p
      else pull_changed p remote (lookup remote.path index)

  unfoldable pub remote_steps : Progress → List RemoteFile → Progress
  remote_steps p [] = p
  remote_steps p (remote ∷ rest) = remote_steps (remote_step p remote) rest

-- Phase D: the local candidates.
unfoldable pub candidate_of : OpKind → ScanCandidate → LocalCandidate
candidate_of kind c = record {
  path = c.path;
  kind = kind;
  hash = c.hash;
  size = c.size;
  is_folder = false;
}

unfoldable pub candidate_of_deleted : DeletedCandidate → LocalCandidate
candidate_of_deleted d = record {
  path = d.path;
  kind = deleting;
  hash = d.hash;
  size = d.size;
  is_folder = false;
}

unfoldable pub candidate_of_folder : FolderDeletionCandidate → LocalCandidate
candidate_of_folder f = record {
  path = f.path;
  kind = deleting;
  hash = [];
  size = 0;
  is_folder = true;
}

unfoldable pub local_candidates : LocalIndex → LocalChanges → List LocalCandidate
unfolding candidate_of candidate_of_deleted candidate_of_folder
local_candidates index changes =
    map (candidate_of adding) changes.added
    ++ (map
          (λ c. candidate_of (if is_tombstoned (lookup c.path index) then restoring else editing) c)
          changes.modified
        ++ (map candidate_of_deleted changes.deleted
            ++ map candidate_of_folder changes.folder_deletions))

-- Every path on which the local side diverged.
unfoldable pub local_paths_of : LocalChanges → List Str
local_paths_of changes =
    map (λ c. c.path) changes.added
    ++ (map (λ c. c.path) changes.modified
        ++ (map (λ d. d.path) changes.deleted
            ++ (map (λ r. r.from) changes.renamed
                ++ (map (λ r. r.to) changes.renamed
                    ++ map (λ f. f.path) changes.folder_deletions))))

unfoldable pub manifest_by_path : List RemoteFile → Dict RemoteFile → Dict RemoteFile
manifest_by_path [] m = m
manifest_by_path (entry ∷ rest) m = manifest_by_path rest (insert entry.path entry m)

module _ (u : Platform) (index : LocalIndex) (manifest : Dict RemoteFile) (this_device_id : Str)
    (this_device_name : Str) (now : ℕ) where
  abbrev candidate_at :
      Progress → LocalCandidate → Option LocalIndexEntry → Option RemoteFile → Result Progress
  candidate_at p candidate entry none = ok (push_local p candidate entry)
  candidate_at p candidate entry (some remote) =
      if not (remote_entry_changed entry remote)
      then ok (push_local p candidate entry)
      else resolve_contested_path u index manifest this_device_id this_device_name now p
          candidate.path entry remote candidate

  unfoldable pub candidate_step : Progress → LocalCandidate → Result Progress
  candidate_step p candidate =
      candidate_at p candidate (lookup candidate.path index) (lookup candidate.path manifest)

abbrev no_progress : Progress
no_progress = record { pushes = []; pulls = []; conflicts = []; consumed = [] }

unfoldable pub plan_of : Platform → LocalChanges → Progress → SyncPlan
plan_of u changes p = record {
  pushes =
      hoist_fold_paired_deletes u
        (sort (λ a b. compare_strings (push_path a) (push_path b)) p.pushes);
  pulls = sort (compare_pull_ops u) p.pulls;
  conflicts = sort (λ a b. compare_strings a.path b.path) p.conflicts;
  folder_pushes = sort compare_strings changes.empty_folders;
}

unfoldable pub compute_sync_plan : Platform → SyncPlanInput → Result SyncPlan
compute_sync_plan u input =
    let changes = input.local_changes in
    let index = input.index in
    let sorted = sort (λ a b. compare_strings a.path b.path) input.manifest in
    let manifest = manifest_by_path sorted [] in
    let local_paths = local_paths_of changes in
    do
      moved ←
          fold_ok
            (rename_step u index manifest input.this_device_id input.this_device_name input.now)
            no_progress (sort (λ a b. compare_strings a.from b.from) changes.renamed)
      migrated ←
          fold_ok (migration_step u index manifest sorted local_paths) moved
            (sort compare_strings (filter (λ path. is_live_file (lookup path index)) (keys index)))
      let pulled = remote_steps u index manifest sorted local_paths migrated sorted
      done ←
          fold_ok
            (candidate_step u index manifest input.this_device_id input.this_device_name input.now)
            pulled (sort (λ a b. compare_strings a.path b.path) (local_candidates index changes))
      ok (plan_of u changes done)
