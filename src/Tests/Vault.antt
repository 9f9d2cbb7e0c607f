-- ===== src/Tests/Vault.antt =====
-- The runs of the arbitration that the examples use: a vault with one note that two devices edit,
-- and renames of it.
use vaultsyncforagents.Prelude.{false, none, some, Str, [], codes, ◌==◌, str_lt}
use vaultsyncforagents.Prelude.Dict.{lookup, insert, erase}
use vaultsyncforagents.Prelude.Failure.{Result, ok, err}
use vaultsyncforagents.Prelude.Strings.{
  includes, split_on, join_with, starts_with, ends_with, index_of, last_index_of, replace_all, trim,
}
use vaultsyncforagents.Decimal.{decimal}
use vaultsyncforagents.Types.{Version, edit, rename, delete}
use vaultsyncforagents.Clock.{compare_clocks, next_clock}
use vaultsyncforagents.Platform.{ascii}
use vaultsyncforagents.Paths.{normalize_vault_path, parent_path, basename}
use vaultsyncforagents.ConflictNames.{
  sanitize_device_name, format_conflict_stamp, join_dir, base_candidate, numbered_candidate,
  first_free, copy_name, conflict_copy_path,
}
use vaultsyncforagents.Arbitrate.{
  ArbitrationState, ArbitrationFileState, ArbitrationCommit, ArbitrationVerdict,
  empty_arbitration_state, payload_of, version_id, mint_id, install, version_of, outcome_of,
  needs_copy, loser_head, loser_commit, copy_version, with_copy, find_parent, preserve_loser,
  preserved, apply_migration, standing_verdict, standing_context, lose_to_head, fast_path,
  drop_source, displaced_version, displaced_verdict, displaced_context, displace_head,
  incoming_wins, arbitrate_path, moved_verdict, moved_context, move_wins, move_onto,
  arbitrate_rename, arbitrate_kind, arbitrate_commit, applied,
}

unfoldable pub simulate : Str → ArbitrationState → ArbitrationCommit → Result ArbitrationVerdict
unfolding arbitrate_commit find_parent arbitrate_kind arbitrate_rename arbitrate_path move_onto
    move_wins incoming_wins displace_head lose_to_head fast_path apply_migration drop_source
    displaced_version displaced_verdict displaced_context standing_verdict standing_context
    moved_verdict moved_context preserve_loser preserved with_copy copy_version needs_copy
    loser_head loser_commit outcome_of version_of install mint_id version_id payload_of
    compare_clocks next_clock decimal lookup insert erase ◌==◌ str_lt conflict_copy_path copy_name
    first_free base_candidate numbered_candidate join_dir sanitize_device_name format_conflict_stamp
    normalize_vault_path parent_path basename includes split_on join_with starts_with ends_with
    index_of last_index_of replace_all trim ascii
simulate device_id st commit = arbitrate_commit ascii device_id 0 [] st commit

abbrev pub note : Str
note = codes "/n.md"

abbrev pub creation : ArbitrationCommit
creation = record {
  path = note;
  parent_version = none;
  hash = codes "h1";
  size = 1;
  kind = edit;
  from_path = none;
  is_folder = false;
}

abbrev no_version : Version
no_version = record {
  id = [];
  path = [];
  hash = [];
  size = 0;
  device_id = [];
  clock = record { counter = 0; device_id = [] };
  parent_version = none;
  ts = 0;
  kind = edit;
}

unfoldable pub got : Result ArbitrationVerdict → ArbitrationVerdict
unfolding outcome_of payload_of
got (ok v) = v
got (err e) = record {
  outcome = outcome_of applied no_version false none;
  state = empty_arbitration_state;
}

-- A verdict, and the row at a path, of a run that is known to have one.
unfoldable pub run_on : Str → ArbitrationState → ArbitrationCommit → ArbitrationVerdict
unfolding simulate got
run_on device_id st commit = got (simulate device_id st commit)

unfoldable pub row_at : Str → ArbitrationState → ArbitrationFileState
unfolding lookup
row_at path st = elim (lookup path st.files) [
  | some row ↦ row
  | none ↦ record { current_version = []; head = no_version; deleted = false; is_folder = false }
]

-- Device a creates the note; device b, not knowing of it, creates the same note.
unfoldable pub first_run : ArbitrationVerdict
unfolding run_on
first_run = run_on (codes "a") empty_arbitration_state creation

abbrev pub rival : ArbitrationCommit
rival = record creation { hash = codes "h2" }

unfoldable pub second_run : ArbitrationVerdict
unfolding first_run run_on
second_run = run_on (codes "b") first_run.state rival

abbrev pub moved_path : Str
moved_path = codes "/m.md"

abbrev pub recased_path : Str
recased_path = codes "/N.md"

-- Device a moves the note that it has created, with what it holds now.
abbrev pub move : ArbitrationCommit
move = record creation {
  path = moved_path;
  parent_version = some (codes "v1");
  hash = codes "h3";
  kind = rename;
  from_path = some note;
}

-- The destination of the move, edited twice or deleted, before the move arrives.
abbrev pub edit_of : Str → Str → Str → ArbitrationCommit
edit_of path parent hash = record creation {
  path = path;
  parent_version = some parent;
  hash = hash;
}

unfoldable pub created_run : ArbitrationVerdict
unfolding first_run run_on
created_run = run_on (codes "a") first_run.state (record creation { path = moved_path })

unfoldable pub edited_run : ArbitrationVerdict
unfolding created_run run_on
edited_run = run_on (codes "a") created_run.state (edit_of moved_path (codes "v2") (codes "h4"))

unfoldable pub occupied_run : ArbitrationVerdict
unfolding edited_run run_on
occupied_run = run_on (codes "a") edited_run.state (edit_of moved_path (codes "v3") (codes "h5"))

unfoldable pub tombstoned_run : ArbitrationVerdict
unfolding first_run run_on
tombstoned_run =
    let created = run_on (codes "a") first_run.state (record creation { path = moved_path }) in
    let edited = run_on (codes "a") created.state (edit_of note (codes "v1") (codes "h4")) in
    run_on (codes "a") edited.state
      (record (edit_of moved_path (codes "v2") (codes "h1")) { kind = delete })
