-- ===== src/Tests/Planning.antt =====
-- Examples of the theorems on the reconciliation.
use vaultsyncforagents.Prelude.{
  ◌≡◌, ◌≢◌, ◌↔◌, refl, true, false, not, none, Str, List, [], ◌∷◌, codes, ◌==◌, eq_iff, str_lt,
  Permᴰ, Pairwise, map,
}
use vaultsyncforagents.Prelude.Dict.{lookup}
use vaultsyncforagents.Prelude.Failure.{Result, ok, err}
use vaultsyncforagents.Clock.{next_clock, compare_clocks}
use vaultsyncforagents.Platform.{ascii}
use vaultsyncforagents.Paths.{normalize_vault_path, parent_path, basename}
use vaultsyncforagents.Prelude.Strings.{
  includes, split_on, join_with, starts_with, ends_with, index_of, last_index_of, replace_all, trim,
}
use vaultsyncforagents.Decimal.{decimal}
use vaultsyncforagents.ConflictNames.{
  sanitize_device_name, format_conflict_stamp, join_dir, base_candidate, first_free, copy_name,
  conflict_copy_path,
}
use vaultsyncforagents.Arbitrate.{incoming_wins}
use vaultsyncforagents.Resolve.{
  LocalChanges, ConflictOp, plan_of, RemoteFile, LocalCandidate, Progress, PushOp, push_file,
  PullOp, pull_file, is_pull_delete, pull_file_op, OpKind, adding, deleting, before, sort,
  compare_pull_ops, hoist_fold_paired_deletes, resolve_contested_path, remote_wins, path_exists,
  pull_path, push_path, local_clock, concede, push_conflict_copy, copy_push, with_pull, with_push,
  with_conflict,
}
use vaultsyncforagents.Resolve.Agreement.{remote_wins-incoming_wins}
use vaultsyncforagents.Resolve.Preserves.{ContentFate, resolve_contested_path-ContentFate}
use vaultsyncforagents.Resolve.Hoist.{Apart, InOrder, hoist_fold_paired_deletes-InOrder}
use vaultsyncforagents.Resolve.PullOrder.{sort-write_before_delete}
use vaultsyncforagents.Resolve.Sorted.{NotAfter, plan_of-Perm}
use vaultsyncforagents.Tests.Vault.{note, first_run, row_at}

-- The head that device a has made of the note, in the manifest of device b.
abbrev remote_note : RemoteFile
remote_note = record {
  path = note;
  version = codes "v1";
  hash = codes "h1";
  size = 1;
  deleted = false;
  clock = record { counter = 1; device_id = codes "a" };
  is_folder = false;
}

abbrev local_note : LocalCandidate
local_note = record { path = note; kind = adding; hash = codes "h2"; size = 2; is_folder = false }

abbrev nothing_planned : Progress
nothing_planned = record { pushes = []; pulls = []; conflicts = []; consumed = [] }

progress_or_none : Result Progress → Progress
progress_or_none (ok p) = p
progress_or_none (err e) = nothing_planned

-- Device B, whose clock loses to that of device a, concedes the note and keeps its own content.
note_resolved : Progress
unfolding progress_or_none resolve_contested_path remote_wins local_clock compare_clocks next_clock
    concede push_conflict_copy path_exists copy_push with_pull with_push with_conflict
    conflict_copy_path copy_name first_free base_candidate join_dir sanitize_device_name
    format_conflict_stamp normalize_vault_path parent_path basename includes split_on join_with
    starts_with ends_with index_of last_index_of replace_all trim decimal lookup ascii ◌==◌ str_lt
note_resolved = progress_or_none (
    resolve_contested_path ascii [] ((note, remote_note) ∷ []) (codes "B") (codes "B") 0
      nothing_planned note none remote_note local_note)

note_resolved_ok :
    resolve_contested_path ascii []
      ((note, remote_note) ∷ [])
      (codes "B")
      (codes "B")
      0
      nothing_planned
      note
      none
      remote_note
      local_note
    ≡ ok note_resolved
unfolding note_resolved
note_resolved_ok = refl

note_resolved_pushes :
    map push_path note_resolved.pushes ≡ codes "/n (conflict 1970-01-01 00-00 - from B).md" ∷ []
unfolding note_resolved push_path
note_resolved_pushes = refl

-- A tombstone of device a with the hash of the local content wins over it: a pull that deletes the
-- path, and no push.
abbrev remote_tombstone : RemoteFile
remote_tombstone = record remote_note { hash = codes "h2"; deleted = true }

tombstone_resolved : Progress
unfolding progress_or_none resolve_contested_path remote_wins local_clock compare_clocks next_clock
    concede push_conflict_copy with_pull with_conflict ◌==◌ str_lt
tombstone_resolved = progress_or_none (
    resolve_contested_path ascii [] ((note, remote_tombstone) ∷ []) (codes "B") (codes "B") 0
      nothing_planned note none remote_tombstone local_note)

tombstone_resolved_ops :
    (map push_path tombstone_resolved.pushes ≡ [])
    × (map is_pull_delete tombstone_resolved.pulls ≡ true ∷ [])
unfolding tombstone_resolved push_path pull_file
tombstone_resolved_ops = (refl, refl)

resolve_contested_path-ContentFate_example :
    ContentFate ascii []
      ((note, remote_note) ∷ [])
      (codes "B")
      (codes "B")
      0
      nothing_planned
      note
      none
      remote_note
      local_note
      note_resolved
resolve_contested_path-ContentFate_example =
    resolve_contested_path-ContentFate ascii [] ((note, remote_note) ∷ []) (codes "B") (codes "B") 0
      nothing_planned note none remote_note local_note note_resolved refl note_resolved_ok

same_head : remote_note.clock ≡ (row_at note first_run.state).head.clock
unfolding row_at first_run
same_head = refl

remote_wins-incoming_wins_example :
    (remote_wins ascii [] [] (codes "b") (codes "B") 0 none remote_note
      ≡ not (incoming_wins ascii (codes "b") 0 [] none (row_at note first_run.state)))
    ↔ (next_clock none (codes "b") ≢ (row_at note first_run.state).head.clock)
remote_wins-incoming_wins_example =
    remote_wins-incoming_wins ascii [] [] (codes "b") (codes "B") 0 [] none remote_note none
      (row_at note first_run.state) refl same_head

push_of : OpKind → Str → PushOp
push_of kind path = push_file (record {
  kind = kind;
  path = path;
  parent_version = none;
  hash = codes "h";
  size = 1;
  is_folder = false;
})

recasing_pushes : List PushOp
unfolding push_of
recasing_pushes = push_of adding (codes "/N.md") ∷ push_of deleting (codes "/n.md") ∷ []

recasing_pushes-Apart : Pairwise (Apart ascii) recasing_pushes
unfolding recasing_pushes
recasing_pushes-Apart = ((refl, tt), (tt, tt))

hoist_fold_paired_deletes-InOrder_example :
    Pairwise (InOrder ascii) (hoist_fold_paired_deletes ascii recasing_pushes)
hoist_fold_paired_deletes-InOrder_example =
    hoist_fold_paired_deletes-InOrder ascii recasing_pushes recasing_pushes-Apart

abbrev pull_of : OpKind → Str → PullOp
pull_of kind path = pull_file_op (record {
  kind = kind;
  path = path;
  hash = codes "h";
  size = 1;
  version = codes "v9";
  clock = record { counter = 1; device_id = codes "a" };
  deleted = false;
  is_folder = false;
})

abbrev write_upper : PullOp
write_upper = pull_of adding (codes "/A")

abbrev write_other : PullOp
write_other = pull_of adding (codes "/B")

abbrev delete_lower : PullOp
delete_lower = pull_of deleting (codes "/a")

upper_is_lower : ascii.to_lower (pull_path write_upper) ≡ ascii.to_lower (pull_path delete_lower)
unfolding ascii pull_path
upper_is_lower = refl

upper_is_not_lower : pull_path write_upper ≢ pull_path delete_lower
unfolding pull_path
upper_is_not_lower e = cc

other_apart : ascii.to_lower (pull_path write_other) ≢ ascii.to_lower (pull_path delete_lower)
unfolding ascii pull_path ◌==◌
other_apart e =
    let looks_equal : false ≡ true =
      (eq_iff (ascii.to_lower (pull_path write_other)) (ascii.to_lower (pull_path delete_lower))).1
        e in
    cc

upper_first : str_lt (pull_path write_upper) (pull_path write_other) ≡ true
unfolding str_lt pull_path
upper_first = refl

lower_last : str_lt (pull_path write_other) (pull_path delete_lower) ≡ true
unfolding str_lt pull_path
lower_last = refl

sort-write_before_delete_example :
    (compare_pull_ops ascii delete_lower write_upper ≡ before)
    × (sort (compare_pull_ops ascii) (write_upper ∷ write_other ∷ delete_lower ∷ [])
        ≡ write_upper ∷ write_other ∷ delete_lower ∷ [])
sort-write_before_delete_example =
    sort-write_before_delete ascii write_upper write_other delete_lower refl refl upper_is_lower
      other_apart upper_first lower_last

abbrev no_changes : LocalChanges
no_changes = record {
  added = [];
  modified = [];
  deleted = [];
  renamed = [];
  empty_folders = codes "/f" ∷ codes "/e" ∷ [];
  folder_deletions = [];
}

plan_of-Perm_example :
    Permᴰ note_resolved.pushes (plan_of ascii no_changes note_resolved).pushes
    × Permᴰ note_resolved.pulls (plan_of ascii no_changes note_resolved).pulls
    × Permᴰ note_resolved.conflicts (plan_of ascii no_changes note_resolved).conflicts
    × Permᴰ no_changes.empty_folders (plan_of ascii no_changes note_resolved).folder_pushes
    × Pairwise
        (NotAfter (λ (c : ConflictOp). c.path))
        (plan_of ascii no_changes note_resolved).conflicts
    × Pairwise (NotAfter (λ (s : Str). s)) (plan_of ascii no_changes note_resolved).folder_pushes
plan_of-Perm_example = plan_of-Perm ascii no_changes note_resolved
