-- ===== src/Tests/Arbitration.antt =====
-- Examples of the theorems on the arbitration, at concrete runs.
use vaultsyncforagents.Prelude.{
  ◌+◌, ◌<◌, ◌≡◌, ◌≢◌, refl, true, false, Option, none, some, Str, [], ◌∷◌, codes, ◌==◌, str_lt,
  if◌then◌else◌, All, arith, eq_iff, Bool-cases, inl, inr,
}
use vaultsyncforagents.Prelude.Dict.{Dict, lookup, keys}
use vaultsyncforagents.Prelude.Failure.{ok}
use vaultsyncforagents.Types.{Version}
use vaultsyncforagents.Clock.{compare_clocks, next_clock}
use vaultsyncforagents.Platform.{ascii}
use vaultsyncforagents.Arbitrate.{
  ArbitrationFileState, ArbitrationVerdict, ArbitrationState, ArbitrationCommit,
  empty_arbitration_state, arbitrate_commit, find_parent, incoming_wins, applied, conflict, is_just,
}
use vaultsyncforagents.Arbitrate.WellFormed.{IsWellFormed, empty-IsWellFormed}
use vaultsyncforagents.Arbitrate.Extends.{Extends, arbitrate_commit-Extends}
use vaultsyncforagents.Arbitrate.Clocks.{HasRowFrom, arbitrate_commit-HasRowFrom}
use vaultsyncforagents.Arbitrate.Content.{CommitFate, HeadFate, arbitrate_commit-fates}
use vaultsyncforagents.Arbitrate.Fast.{Ends, arbitrate_commit-Ends}
use vaultsyncforagents.Arbitrate.Renames.{
  rename_moves, Lacks, LacksVersion, rename_loss_drops_content, stale_rename_drops_source,
}
use vaultsyncforagents.Tests.Vault.{
  note, creation, rival, move, moved_path, recased_path, row_at, first_run, second_run, created_run,
  edited_run, edit_of, occupied_run, tombstoned_run,
}

first_run_ok :
    arbitrate_commit ascii (codes "a") 0 [] empty_arbitration_state creation ≡ ok first_run
unfolding first_run
first_run_ok = refl

second_run_ok : arbitrate_commit ascii (codes "b") 0 [] first_run.state rival ≡ ok second_run
unfolding second_run
second_run_ok = refl

second_run_keys :
    keys second_run.state.files ≡ note ∷ codes "/n (conflict 1970-01-01 00-00 - from a).md" ∷ []
unfolding second_run keys
second_run_keys = refl

pub first_run-IsWellFormed : IsWellFormed first_run.state
first_run-IsWellFormed =
    (arbitrate_commit-Extends ascii (codes "a") 0 [] empty_arbitration_state creation first_run
      empty-IsWellFormed first_run_ok).well_formed

pub second_run-IsWellFormed : IsWellFormed second_run.state
second_run-IsWellFormed =
    (arbitrate_commit-Extends ascii (codes "b") 0 [] first_run.state rival second_run
      first_run-IsWellFormed second_run_ok).well_formed

arbitrate_commit-Extends_example : Extends first_run.state second_run.state
arbitrate_commit-Extends_example =
    arbitrate_commit-Extends ascii (codes "b") 0 [] first_run.state rival second_run
      first_run-IsWellFormed second_run_ok

arbitrate_commit-fates_example :
    (parent : Option Version) × (find_parent first_run.state rival.parent_version ≡ ok parent)
    × CommitFate (codes "b") rival parent second_run
    × ((path : Str) (row : ArbitrationFileState)
        → lookup path first_run.state.files ≡ some row
        → HeadFate path row rival parent second_run)
arbitrate_commit-fates_example =
    arbitrate_commit-fates ascii (codes "b") 0 [] first_run.state rival second_run refl
      second_run_ok

abbrev note_row : ArbitrationFileState
note_row = row_at note first_run.state

note_row_found : lookup note first_run.state.files ≡ some note_row
unfolding first_run row_at lookup
note_row_found = refl

find_none : (st : ArbitrationState) → find_parent st none ≡ ok none
unfolding find_parent
find_none st = refl

note_row_current : is_just note_row.head.id move.parent_version ≡ true
unfolding first_run row_at ◌==◌
note_row_current = refl

moved_path_free : lookup moved_path first_run.state.files ≡ none
unfolding first_run lookup ◌==◌
moved_path_free = refl

occupied_parent :
    find_parent occupied_run.state move.parent_version
    ≡ ok (some (row_at note occupied_run.state).head)
unfolding find_parent occupied_run row_at lookup ◌==◌
occupied_parent = refl

occupied_source : lookup note occupied_run.state.files ≡ some (row_at note occupied_run.state)
unfolding occupied_run row_at lookup ◌==◌
occupied_source = refl

occupied_current : is_just (row_at note occupied_run.state).head.id move.parent_version ≡ true
unfolding occupied_run row_at ◌==◌
occupied_current = refl

occupied_target :
    lookup moved_path occupied_run.state.files ≡ some (row_at moved_path occupied_run.state)
unfolding occupied_run row_at lookup ◌==◌
occupied_target = refl

created_run_ok :
    arbitrate_commit ascii (codes "a") 0 [] first_run.state (record creation { path = moved_path })
    ≡ ok created_run
unfolding created_run
created_run_ok = refl

edited_run_ok :
    arbitrate_commit ascii
      (codes "a")
      0
      []
      created_run.state
      (edit_of moved_path (codes "v2") (codes "h4"))
    ≡ ok edited_run
unfolding edited_run
edited_run_ok = refl

occupied_run_ok :
    arbitrate_commit ascii
      (codes "a")
      0
      []
      edited_run.state
      (edit_of moved_path (codes "v3") (codes "h5"))
    ≡ ok occupied_run
unfolding occupied_run
occupied_run_ok = refl

created-IsWellFormed : IsWellFormed created_run.state
created-IsWellFormed =
    (arbitrate_commit-Extends ascii (codes "a") 0 [] first_run.state
      (record creation { path = moved_path }) created_run first_run-IsWellFormed
      created_run_ok).well_formed

edited-IsWellFormed : IsWellFormed edited_run.state
edited-IsWellFormed =
    (arbitrate_commit-Extends ascii (codes "a") 0 [] created_run.state
      (edit_of moved_path (codes "v2") (codes "h4")) edited_run created-IsWellFormed
      edited_run_ok).well_formed

occupied-IsWellFormed : IsWellFormed occupied_run.state
occupied-IsWellFormed =
    (arbitrate_commit-Extends ascii (codes "a") 0 [] edited_run.state
      (edit_of moved_path (codes "v3") (codes "h5")) occupied_run edited-IsWellFormed
      occupied_run_ok).well_formed

occupied_older :
    (row_at note occupied_run.state).head.clock.counter + 1
    < (row_at moved_path occupied_run.state).head.clock.counter
unfolding occupied_run row_at
occupied_older = omega arith

lookup_lacks :
    (hash : Str) (entries : Dict Version)
    → All (λ entry. entry.1.hash == hash ≡ false) entries
    → (id : Str) (version : Version) → lookup id entries ≡ some version
    → version.hash ≢ hash
unfolding lookup
lookup_lacks hash [] none_has id version h = cc
lookup_lacks hash ((key, first) ∷ entries) (differs, none_has) id version h =
    elim (Bool-cases (key == id)) [
      | inl here ↦
          let same : first ≡ version = cc (rw here at h) in
          λ e. cc (rw same at differs, (eq_iff version.hash hash).1 e)
      | inr there ↦ lookup_lacks hash entries none_has id version (rw there at h)
    ]

occupied-lacks : LacksVersion occupied_run.state move.hash
unfolding occupied_run ◌==◌
occupied-lacks =
    lookup_lacks move.hash occupied_run.state.versions (refl, (refl, (refl, (refl, tt))))

tombstoned_parent : find_parent tombstoned_run.state move.parent_version ≡ ok (some note_row.head)
unfolding find_parent tombstoned_run first_run row_at lookup ◌==◌
tombstoned_parent = refl

tombstoned_source : lookup note tombstoned_run.state.files ≡ some (row_at note tombstoned_run.state)
unfolding tombstoned_run row_at lookup ◌==◌
tombstoned_source = refl

moved_on : is_just (row_at note tombstoned_run.state).head.id move.parent_version ≡ false
unfolding tombstoned_run row_at ◌==◌
moved_on = refl

tombstoned_target :
    lookup moved_path tombstoned_run.state.files ≡ some (row_at moved_path tombstoned_run.state)
unfolding tombstoned_run row_at lookup ◌==◌
tombstoned_target = refl

tombstoned_stale :
    is_just (row_at moved_path tombstoned_run.state).head.id move.parent_version ≡ false
unfolding tombstoned_run row_at ◌==◌
tombstoned_stale = refl

tombstoned_gone : (row_at moved_path tombstoned_run.state).deleted ≡ true
unfolding tombstoned_run row_at
tombstoned_gone = refl

tombstoned_wins :
    incoming_wins ascii
      (codes "b")
      0
      []
      (some note_row.head)
      (row_at moved_path tombstoned_run.state)
    ≡ true
unfolding tombstoned_run first_run row_at incoming_wins compare_clocks next_clock ◌==◌ str_lt
tombstoned_wins = refl

arbitrate_commit-HasRowFrom_example : HasRowFrom second_run.state note note_row.head.clock
arbitrate_commit-HasRowFrom_example =
    arbitrate_commit-HasRowFrom ascii (codes "b") 0 [] first_run.state rival second_run note
      note_row first_run-IsWellFormed second_run_ok refl note_row_found

arbitrate_commit-Ends_example :
    Ends ascii (codes "b") 0 [] first_run.state rival none (lookup note first_run.state.files)
arbitrate_commit-Ends_example =
    arbitrate_commit-Ends ascii (codes "b") 0 [] first_run.state rival none first_run-IsWellFormed
      refl (find_none first_run.state)

-- Device b moves the note under another case, on no parent.
abbrev recasing : ArbitrationCommit
recasing = record move { path = recased_path; parent_version = none }

-- The move builds on the head of the note.
built_on_head : find_parent first_run.state move.parent_version ≡ ok (some note_row.head)
unfolding find_parent first_run row_at lookup
built_on_head = refl

rename_moves_example :
    (result : ArbitrationVerdict) × (row : ArbitrationFileState) × (arbitrate_commit ascii
        (codes "a")
        0
        []
        first_run.state
        move
      ≡ ok result)
    × (result.outcome.result ≡ applied)
    × (row.head.hash ≡ move.hash)
    × (row.deleted ≡ false)
    × ((path : Str)
        → lookup path result.state.files ≡ (
            if moved_path == path
            then some row
            else if note == path
            then none
            else lookup path first_run.state.files))
rename_moves_example =
    rename_moves ascii (codes "a") 0 [] first_run.state move (some note_row.head) note note_row refl
      refl built_on_head note_row_found first_run-IsWellFormed note_row_current moved_path_free

rename_loss_drops_content_example :
    (result : ArbitrationVerdict) × (arbitrate_commit ascii (codes "a") 0 [] occupied_run.state move
      ≡ ok result)
    × (result.outcome.result ≡ conflict)
    × (result.outcome.conflict_copy ≡ none)
    × (result.outcome.winner.version.hash ≢ move.hash)
    × Lacks result.state move.hash
rename_loss_drops_content_example =
    rename_loss_drops_content ascii (codes "a") 0 [] occupied_run.state move
      (some (row_at note occupied_run.state).head) note (row_at note occupied_run.state) refl refl
      occupied_parent occupied_source (row_at moved_path occupied_run.state) occupied-IsWellFormed
      occupied_current occupied_target occupied_older occupied-lacks

stale_rename_drops_source_example :
    (result : ArbitrationVerdict) × (arbitrate_commit ascii
        (codes "b")
        0
        []
        tombstoned_run.state
        move
      ≡ ok result)
    × (result.outcome.conflict_copy ≡ none)
    × (lookup note result.state.files ≡ none)
stale_rename_drops_source_example =
    stale_rename_drops_source ascii (codes "b") 0 [] tombstoned_run.state move (some note_row.head)
      note (row_at note tombstoned_run.state) refl refl tombstoned_parent tombstoned_source
      (row_at moved_path tombstoned_run.state) moved_on tombstoned_target tombstoned_stale
      tombstoned_gone tombstoned_wins
