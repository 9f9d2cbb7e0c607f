-- ===== src/Tests/Restoring.antt =====
-- Examples of the theorems on snapshots, on the index and on copy names.
use vaultsyncforagents.Prelude.{
  ℕ, ◌≡◌, ◌-◌, ◌<◌, refl, Bool, true, false, none, some, Str, List, [], ◌∷◌, codes, All, ◌==◌,
}
use vaultsyncforagents.Prelude.Dict.{Dict, lookup}
use vaultsyncforagents.Prelude.Failure.{Result, ok, err, plain}
use vaultsyncforagents.Prelude.Strings.{
  includes, split_on, join_with, starts_with, ends_with, index_of, last_index_of, replace_all, trim,
}
use vaultsyncforagents.Platform.{ascii}
use vaultsyncforagents.Decimal.{decimal}
use mathlib.Core.List.{reverse}
use vaultsyncforagents.Paths.Contained.{IsProper, normalize_vault_path-IsProper}
use vaultsyncforagents.Paths.{render, normalize_vault_path, parent_path, basename}
use vaultsyncforagents.ConflictNames.{
  CopyName, sanitize_device_name, format_conflict_stamp, join_dir, base_candidate,
  numbered_candidate, first_free, copy_name, conflict_copy_path, max_collision_suffix,
}
use vaultsyncforagents.ConflictNames.Fresh.{
  AllTaken, candidate_at, conflict_copy_path_ok, conflict_copy_path_err,
}
use vaultsyncforagents.Arbitrate.{ArbitrationState}
use vaultsyncforagents.Arbitrate.WellFormed.{IsWellFormed}
use vaultsyncforagents.Snapshots.{
  SnapshotHeadRecord, snapshot_heads_of, plan_snapshot_restore, restore_all,
}
use vaultsyncforagents.Snapshots.Items.{live_row, live_head}
use vaultsyncforagents.Snapshots.Restore.{restore_reaches_snapshot, restore-snapshot_heads_of}
use vaultsyncforagents.LocalIndex.{
  LocalIndex, LocalIndexCommit, HashedFile, entry_of, record_hashed_files,
}
use vaultsyncforagents.LocalIndex.Laws.{SameButTime, record_hashed_files-SameButTime}
use vaultsyncforagents.Tests.Vault.{note, first_run, second_run}
use vaultsyncforagents.Tests.Arbitration.{second_run-IsWellFormed}

abbrev taken_before : Dict SnapshotHeadRecord
taken_before = snapshot_heads_of first_run.state.files

restore_reaches_snapshot_example :
    (later : ArbitrationState) × (restore_all ascii
        (codes "a")
        7
        second_run.state
        (plan_snapshot_restore second_run.state taken_before)
      ≡ ok later)
    × IsWellFormed later
    × ((q : Str) → live_row (lookup q later.files) ≡ live_head (lookup q taken_before))
restore_reaches_snapshot_example =
    restore_reaches_snapshot ascii (codes "a") 7 second_run.state taken_before
      second_run-IsWellFormed

restore-snapshot_heads_of_example :
    (later : ArbitrationState) × (restore_all ascii
        (codes "a")
        7
        second_run.state
        (plan_snapshot_restore second_run.state (snapshot_heads_of first_run.state.files))
      ≡ ok later)
    × ((q : Str) → live_row (lookup q later.files) ≡ live_row (lookup q first_run.state.files))
restore-snapshot_heads_of_example =
    restore-snapshot_heads_of ascii (codes "a") 7 first_run.state second_run.state
      second_run-IsWellFormed

abbrev ack : LocalIndexCommit
ack = record {
  path = note;
  version_id = codes "v1";
  hash = codes "h1";
  size = 1;
  clock = record { counter = 1; device_id = codes "a" };
  deleted = false;
  deleted_at = none;
  is_folder = false;
  mtime = some 5;
}

abbrev index_with_note : LocalIndex
index_with_note = (note, entry_of ack) ∷ []

abbrev observed_note : List HashedFile
observed_note = record { path = note; hash = codes "h1"; size = 1; mtime = 9 } ∷ []

record_hashed_files-SameButTime_example :
    SameButTime
      (lookup note (record_hashed_files index_with_note observed_note))
      (lookup note index_with_note)
record_hashed_files-SameButTime_example =
    record_hashed_files-SameButTime index_with_note observed_note note

abbrev empty_name : CopyName
empty_name = record { dir = []; stem = []; suffix = []; extension = [] }

name_or_empty : Result CopyName → CopyName
name_or_empty (ok p) = p
name_or_empty (err e) = empty_name

copy_of_note : CopyName
unfolding copy_name name_or_empty sanitize_device_name format_conflict_stamp normalize_vault_path
    parent_path basename includes split_on join_with starts_with ends_with index_of last_index_of
    replace_all trim decimal ascii ◌==◌
copy_of_note = name_or_empty (copy_name ascii note (codes "a") 0)

copy_of_note_named : copy_name ascii note (codes "a") 0 ≡ ok copy_of_note
unfolding copy_of_note
copy_of_note_named = refl

-- A vault in which the name without a number is taken.
abbrev base_taken : Str → Bool
base_taken path = path == codes "/n (conflict 1970-01-01 00-00 - from a).md"

abbrev second_name : Str
second_name = codes "/n (conflict 1970-01-01 00-00 - from a) 2.md"

second_name_free : conflict_copy_path ascii note (codes "a") 0 base_taken ≡ ok second_name
unfolding conflict_copy_path copy_name first_free base_candidate numbered_candidate join_dir
    sanitize_device_name format_conflict_stamp normalize_vault_path parent_path basename includes
    split_on join_with starts_with ends_with index_of last_index_of replace_all trim decimal ascii
    ◌==◌
second_name_free = refl

conflict_copy_path_ok_example :
    (i : ℕ) × (i < max_collision_suffix - 1)
    × (second_name ≡ candidate_at copy_of_note i)
    × (base_taken second_name ≡ false)
    × AllTaken base_taken copy_of_note i
conflict_copy_path_ok_example =
    conflict_copy_path_ok ascii note (codes "a") 0 base_taken copy_of_note second_name
      copy_of_note_named second_name_free

abbrev everything : Str → Bool
everything path = true

conflict_copy_path_err_example : conflict_copy_path ascii note (codes "a") 0 everything ≡ err plain
conflict_copy_path_err_example =
    conflict_copy_path_err ascii note (codes "a") 0 everything copy_of_note copy_of_note_named
      (λ k lt. refl)

odd_path : Str
odd_path = codes "a\\.\\b/../c.md"

abbrev tidy_path : Str
tidy_path = codes "/a/c.md"

odd_path_normalized : normalize_vault_path ascii odd_path ≡ ok tidy_path
unfolding odd_path normalize_vault_path includes split_on join_with starts_with ends_with index_of
    replace_all ascii ◌==◌
odd_path_normalized = refl

normalize_vault_path-IsProper_example :
    (stack : List Str) × (tidy_path ≡ render ascii (reverse stack)) × All (IsProper ascii) stack
normalize_vault_path-IsProper_example =
    normalize_vault_path-IsProper ascii odd_path tidy_path odd_path_normalized
