-- ===== src/Arbitrate/Renames.antt =====
-- The rename branches of `arbitrateCommit`.
use vaultsyncforagents.Prelude.{
  ℕ, ◌+◌, ◌<◌, ◌≡◌, ◌≢◌, refl, Bool, true, false, Option, none, some, Str, ◌==◌, eq_refl, arith,
  if◌then◌else◌, is_some,
}
use vaultsyncforagents.Prelude.Dict.{Dict, lookup, erase, lookup-erase}
use vaultsyncforagents.Prelude.Failure.{Result, ok}
use vaultsyncforagents.Types.{Version, is_delete, is_rename}
use vaultsyncforagents.Clock.{compare_clocks, next_clock}
use vaultsyncforagents.Platform.{Platform}
use vaultsyncforagents.Arbitrate.State.{
  ArbitrationFileState, ArbitrationState, ArbitrationCommit, ArbitrationVerdict, is_just, install,
  version_of, loser_head, needs_copy, outcome_of, applied, conflict, with_copy,
}
use vaultsyncforagents.Arbitrate.Commit.{
  find_parent, apply_migration, lose_to_head, standing_verdict, displace_head, displaced_verdict,
  displaced_version, displaced_context, preserved, preserve_loser, drop_source, incoming_wins,
  move_wins, move_onto, arbitrate_path, arbitrate_rename, arbitrate_kind, arbitrate_commit,
}
use vaultsyncforagents.Arbitrate.WellFormed.{IsWellFormed, lookup_files-install, row_of}

-- No stored version has the content, and no head of a row.
abbrev pub LacksVersion : ArbitrationState → Str → Type 0
LacksVersion st hash =
    (id : Str) (version : Version) → lookup id st.versions ≡ some version → version.hash ≢ hash

abbrev pub Lacks : ArbitrationState → Str → Type 0
Lacks st hash =
    LacksVersion st hash
    × ((path : Str) (row : ArbitrationFileState)
        → lookup path st.files ≡ some row
        → row.head.hash ≢ hash)

module _ (u : Platform) (device_id : Str) (now : ℕ) (devices : Dict Str) (st : ArbitrationState)
    (commit : ArbitrationCommit) (parent : Option Version) (from : Str)
    (source : ArbitrationFileState) (renames : is_rename commit.kind ≡ true)
    (named : commit.from_path ≡ some from)
    (found : find_parent st commit.parent_version ≡ ok parent)
    (known : lookup from st.files ≡ some source) where
  abbrev run : Result ArbitrationVerdict
  run = arbitrate_commit u device_id now devices st commit

  run-rename : run ≡ arbitrate_rename u device_id now devices st commit parent (some source)
  unfolding arbitrate_commit arbitrate_kind
  run-rename = rw (found, renames, named, known)

  -- A rename of the head that it builds on, to a path without a row, is applied: the new head
  -- stands at the new path with the committed content, the old path has no row, and every other
  -- row is as it was.
  pub rename_moves :
      IsWellFormed st
      → is_just source.head.id commit.parent_version ≡ true
      → lookup commit.path st.files ≡ none
      → (result : ArbitrationVerdict) × (row : ArbitrationFileState) × (run ≡ ok result)
        × (result.outcome.result ≡ applied)
        × (row.head.hash ≡ commit.hash)
        × (row.deleted ≡ false)
        × ((path : Str)
            → lookup path result.state.files ≡ (
                if commit.path == path
                then some row
                else if from == path
                then none
                else lookup path st.files))
  unfolding arbitrate_rename move_onto apply_migration version_of outcome_of
  rename_moves w built free = (
    apply_migration u device_id now devices st commit source,
    row_of (apply_migration u device_id now devices st commit source).outcome.winner.version false
        commit.is_folder,
    rw (run-rename, built, free),
    refl,
    refl,
    refl,
    λ path. ground (
      arith,
      (w.rows from source known).head_path,
      lookup_files-install (record st { files = erase source.head.path st.files })
          (apply_migration u device_id now devices st commit source).outcome.winner.version false
          commit.is_folder path,
      lookup-erase source.head.path path st.files,
    ),
  )

  loses_by_counter :
      (occupant : ArbitrationFileState)
      → source.head.clock.counter + 1 < occupant.head.clock.counter
      → move_wins u device_id now devices source occupant ≡ false
  unfolding move_wins compare_clocks next_clock
  loses_by_counter occupant older = ground (arith, older)

  -- A well-formed state none of whose versions has the content that a rename carries, and whose
  -- destination has a row with a counter above that of the rename's version: the rename, although
  -- it builds on the head of its source, is answered as a conflict without a copy, and afterwards
  -- no version and no row has the content, nor is it that of the winner.
  pub rename_loss_drops_content :
      (occupant : ArbitrationFileState)
      → IsWellFormed st
      → is_just source.head.id commit.parent_version ≡ true
      → lookup commit.path st.files ≡ some occupant
      → source.head.clock.counter + 1 < occupant.head.clock.counter
      → LacksVersion st commit.hash
      → (result : ArbitrationVerdict) × (run ≡ ok result)
        × (result.outcome.result ≡ conflict)
        × (result.outcome.conflict_copy ≡ none)
        × (result.outcome.winner.version.hash ≢ commit.hash)
        × Lacks result.state commit.hash
  unfolding arbitrate_rename move_onto lose_to_head standing_verdict outcome_of
  rename_loss_drops_content occupant w built at older lacks =
      let head_lacks : (path : Str) (row : ArbitrationFileState)
          → lookup path st.files ≡ some row
          → row.head.hash ≢ commit.hash =
        λ path row held. lacks row.head.id row.head (w.rows path row held).stored in
      (
        standing_verdict u device_id now devices st occupant,
        rw (run-rename, built, at, loses_by_counter occupant older),
        refl,
        refl,
        head_lacks commit.path occupant at,
        (lacks, head_lacks),
      )

  no_copy :
      (target : ArbitrationFileState)
      → target.deleted ≡ true
      → preserved u device_id now devices
          (displaced_verdict u device_id now devices st commit parent)
          (loser_head target)
          (displaced_context u device_id now devices st commit parent)
          commit.path
        ≡ ok (displaced_verdict u device_id now devices st commit parent)
  unfolding preserved preserve_loser needs_copy loser_head with_copy
  no_copy target gone = rw gone

  still_there :
      (version : Version) (deleted : Bool)
      → is_some (lookup from (install st version deleted commit.is_folder).files) ≡ true
  still_there version deleted =
      ground (arith, lookup_files-install st version deleted commit.is_folder from)

  source_dropped :
      (s : ArbitrationState) (o : Option Str)
      → o ≡ some from
      → is_some (lookup from s.files) ≡ true
      → lookup from (drop_source u device_id now devices s commit o).files ≡ none
  unfolding drop_source
  source_dropped s none e there = cc
  source_dropped s (some f) e there =
      let same : f ≡ from = cc in
      rw (renames, same, there) (ground (arith, lookup-erase from from s.files, eq_refl from))

  -- A rename whose source has moved on (its head is not the parent), and that displaces a
  -- tombstone at its destination, takes the source's newer head out of the file table, and makes
  -- no copy of it.
  pub stale_rename_drops_source :
      (target : ArbitrationFileState)
      → is_just source.head.id commit.parent_version ≡ false
      → lookup commit.path st.files ≡ some target
      → is_just target.head.id commit.parent_version ≡ false
      → target.deleted ≡ true
      → incoming_wins u device_id now devices parent target ≡ true
      → (result : ArbitrationVerdict) × (run ≡ ok result)
        × (result.outcome.conflict_copy ≡ none)
        × (lookup from result.state.files ≡ none)
  unfolding arbitrate_rename arbitrate_path displace_head displaced_verdict outcome_of
  stale_rename_drops_source target moved_on at stale gone wins = (
    displaced_verdict u device_id now devices st commit parent,
    rw (run-rename, moved_on, at, stale, wins) (no_copy target gone),
    refl,
    source_dropped
        (install st (displaced_version u device_id now devices st commit parent)
          (is_delete commit.kind) commit.is_folder)
        commit.from_path named
        (still_there (displaced_version u device_id now devices st commit parent)
          (is_delete commit.kind)),
  )
