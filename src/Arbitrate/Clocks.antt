-- ===== src/Arbitrate/Clocks.antt =====
-- The rows and the clocks of their heads before and after a commit.
use vaultsyncforagents.Prelude.{
  ℕ, ◌≡◌, Bool, true, false, Option, none, some, Str, ◌==◌, eq_iff, arith, Bool-cases, inl, inr,
}
use vaultsyncforagents.Prelude.Dict.{Dict, lookup, erase, lookup-erase}
use vaultsyncforagents.Prelude.Failure.{ok}
use vaultsyncforagents.Types.{LogicalClock, Version, is_delete}
use vaultsyncforagents.Clock.{compare_clocks, next_clock, is_positive}
use vaultsyncforagents.Clock.Order.{
  ClockLe, ClockLe-refl, ClockLe-of_positive, compare_clocks-next_clock,
}
use vaultsyncforagents.Platform.{Platform}
use vaultsyncforagents.Arbitrate.State.{
  ArbitrationFileState, ArbitrationState, ArbitrationCommit, ArbitrationVerdict, ChangePayload,
  LoserSide, PreservationContext, is_just, state-with_copy, copy_version, version_of, install,
}
use vaultsyncforagents.Arbitrate.Commit.{
  apply_migration, fast_path, drop_source, standing_verdict, displaced_verdict, displaced_version,
  moved_verdict, incoming_wins, move_wins, arbitrate_commit,
}
use vaultsyncforagents.Arbitrate.Branches.{
  Preservation, not_needed, copied, Settled, settled, Branch, created, advanced, displaced, stood,
  moved, moved_over, move_lost,
}
use vaultsyncforagents.Arbitrate.Inversion.{arbitrate_commit-Arbitrated}
use vaultsyncforagents.Arbitrate.WellFormed.{IsWellFormed, lookup_files-install, row_of}

-- The path has a row whose head's clock is not beaten by `clock`.
pub record HasRowFrom (st : ArbitrationState) (path : Str) (clock : LogicalClock) : Type 0 where
  pub row : ArbitrationFileState
  pub found : lookup path st.files ≡ some row
  pub not_older : ClockLe clock row.head.clock

module _ (u : Platform) (device_id : Str) (now : ℕ) (devices : Dict Str) where
  -- A copy takes a path that has no row, so the rows that are there stay.
  Preservation-keeps_row :
      {st : ArbitrationState} {loser : LoserSide} {context : PreservationContext}
      {copy : Option ChangePayload} {later : ArbitrationState}
      → Preservation u device_id now devices st loser context copy later
      → (path : Str) (row : ArbitrationFileState) → lookup path st.files ≡ some row
      → lookup path later.files ≡ some row
  unfolding copy_version
  Preservation-keeps_row (not_needed _) path row h = h
  Preservation-keeps_row {st} {loser} {context} (copied copy_path _ free) path row h = ground (
    arith,
    lookup_files-install st (copy_version st loser context now copy_path) false false path,
    eq_iff copy_path path,
  )

  pub Settled-keeps_row :
      {verdict : ArbitrationVerdict} {loser : LoserSide} {context : PreservationContext}
      {result : ArbitrationVerdict}
      → Settled u device_id now devices verdict loser context result
      → (path : Str) (row : ArbitrationFileState) → lookup path verdict.state.files ≡ some row
      → lookup path result.state.files ≡ some row
  Settled-keeps_row (settled p) path row h =
      rw state-with_copy (Preservation-keeps_row p path row h)

  module _ (st : ArbitrationState) (commit : ArbitrationCommit) (path : Str)
      (row : ArbitrationFileState) (before : lookup path st.files ≡ some row) where
    row_stays :
        {later : ArbitrationState}
        → lookup path later.files ≡ some row
        → HasRowFrom later path row.head.clock
    row_stays h = record { row = row; found = h; not_older = ClockLe-refl row.head.clock }

    -- A version that is installed at the path, or beside it, over rows that are there.
    IsRow-install :
        (version : Version) (deleted is_folder : Bool)
        → (version.path ≡ path → ClockLe row.head.clock version.clock)
        → HasRowFrom (install st version deleted is_folder) path row.head.clock
    IsRow-install version deleted is_folder newer = elim (Bool-cases (version.path == path)) [
      | inl same ↦ record {
        row = row_of version deleted is_folder;
        found = ground (arith, lookup_files-install st version deleted is_folder path);
        not_older = newer ((eq_iff version.path path).0 same);
      }
      | inr differ ↦
          row_stays (ground (arith, lookup_files-install st version deleted is_folder path))
    ]

  Settled-HasRowFrom :
      {verdict : ArbitrationVerdict} {loser : LoserSide} {context : PreservationContext}
      {result : ArbitrationVerdict} {clock : LogicalClock} (path : Str)
      → Settled u device_id now devices verdict loser context result
      → HasRowFrom verdict.state path clock
      → HasRowFrom result.state path clock
  Settled-HasRowFrom path s r = record {
    row = r.row;
    found = Settled-keeps_row s path r.row r.found;
    not_older = r.not_older;
  }

  drop_source-HasRowFrom :
      (commit : ArbitrationCommit) (st : ArbitrationState) (path : Str) (from : Option Str)
      {clock : LogicalClock}
      → is_just path from ≡ false
      → HasRowFrom st path clock
      → HasRowFrom (drop_source u device_id now devices st commit from) path clock
  unfolding drop_source
  drop_source-HasRowFrom commit st path none other r = r
  drop_source-HasRowFrom commit st path (some from) other r = record {
    row = r.row;
    found =
        ground
          (arith, r.found, lookup-erase from path st.files, eq_iff path from, eq_iff from path);
    not_older = r.not_older;
  }

  module _ (st : ArbitrationState) (commit : ArbitrationCommit) (path : Str)
      (row : ArbitrationFileState) (before : lookup path st.files ≡ some row) (w : IsWellFormed st)
      (other : is_just path commit.from_path ≡ false) where
    next_newer :
        (known : ArbitrationFileState)
        → some row ≡ some known
        → ClockLe row.head.clock (next_clock (some known.head.clock) device_id)
    next_newer known same =
        ClockLe-of_positive row.head.clock (next_clock (some known.head.clock) device_id)
          (ground (arith, compare_clocks-next_clock known.head.clock device_id))

    beats_newer :
        (known : ArbitrationFileState) (clock : LogicalClock)
        → some row ≡ some known
        → is_positive (compare_clocks clock known.head.clock) ≡ true
        → ClockLe row.head.clock clock
    beats_newer known clock same wins = ClockLe-of_positive row.head.clock clock (ground arith)

    fast-HasRowFrom :
        (parent : Option Version) (target : Option ArbitrationFileState)
        → lookup commit.path st.files ≡ target
        → HasRowFrom
            (fast_path u device_id now devices st commit parent target).state
            path
            row.head.clock
    unfolding fast_path version_of
    fast-HasRowFrom parent none at =
        IsRow-install st commit path row before _ _ commit.is_folder (λ e. cc)
    fast-HasRowFrom parent (some target) at =
        IsRow-install st commit path row before _ _ commit.is_folder (λ e. next_newer target (cc))

    erased-HasRow :
        (source : ArbitrationFileState) (from : Str)
        → commit.from_path ≡ some from
        → lookup from st.files ≡ some source
        → lookup path (erase source.head.path st.files) ≡ some row
    erased-HasRow source from named known = ground (
      arith,
      (w.rows from source known).head_path,
      eq_iff path from,
      eq_iff source.head.path path,
      lookup-erase source.head.path path st.files,
    )

    migration-HasRowFrom :
        (source : ArbitrationFileState) (from : Str)
        → commit.from_path ≡ some from
        → lookup from st.files ≡ some source
        → (commit.path ≡ path
            → ClockLe row.head.clock (next_clock (some source.head.clock) device_id))
        → HasRowFrom
            (apply_migration u device_id now devices st commit source).state
            path
            row.head.clock
    unfolding apply_migration version_of
    migration-HasRowFrom source from named known newer =
        IsRow-install (record st { files = erase source.head.path st.files }) commit path row
          (erased-HasRow source from named known) _ false commit.is_folder newer

    displaced-HasRowFrom :
        (parent : Option Version) (target : ArbitrationFileState)
        → lookup commit.path st.files ≡ some target
        → incoming_wins u device_id now devices parent target ≡ true
        → HasRowFrom
            (displaced_verdict u device_id now devices st commit parent).state
            path
            row.head.clock
    unfolding displaced_verdict displaced_version version_of incoming_wins
    displaced-HasRowFrom parent target at wins =
        let r : HasRowFrom
            (install st (displaced_version u device_id now devices st commit parent)
              (is_delete commit.kind) commit.is_folder)
            path row.head.clock =
          IsRow-install st commit path row before _ _ commit.is_folder
            (λ e. beats_newer target _ (cc) wins) in
        drop_source-HasRowFrom commit _ path commit.from_path other r

    Branch-HasRowFrom :
        {parent : Option Version} {result : ArbitrationVerdict}
        → Branch u device_id now devices st commit parent result
        → HasRowFrom result.state path row.head.clock
    unfolding standing_verdict moved_verdict move_wins
    Branch-HasRowFrom (created at) = fast-HasRowFrom _ none at
    Branch-HasRowFrom (advanced target at built) = fast-HasRowFrom _ (some target) at
    Branch-HasRowFrom (displaced target at stale wins s) =
        Settled-HasRowFrom path s (displaced-HasRowFrom _ target at wins)
    Branch-HasRowFrom (stood target at stale loses s) =
        Settled-HasRowFrom path s (row_stays st commit path row before before)
    Branch-HasRowFrom (moved from source renames named known built at) =
        migration-HasRowFrom source from named known (λ e. cc)
    Branch-HasRowFrom (moved_over from source occupant renames named known built at wins s) =
        Settled-HasRowFrom path s
          (migration-HasRowFrom source from named known (λ e. beats_newer occupant _ (cc) wins))
    Branch-HasRowFrom (move_lost from source occupant renames named known built at loses) =
        row_stays st commit path row before before

-- A commit on a well-formed state drops no row and takes no head back: a path other than the
-- source of a rename that has a row before the commit has one after it, and the clock of the
-- old head does not beat the clock of the new one.
pub arbitrate_commit-HasRowFrom :
    (u : Platform) (device_id : Str) (now : ℕ) (devices : Dict Str) (st : ArbitrationState)
    (commit : ArbitrationCommit) (result : ArbitrationVerdict) (path : Str)
    (row : ArbitrationFileState)
    → IsWellFormed st
    → arbitrate_commit u device_id now devices st commit ≡ ok result
    → is_just path commit.from_path ≡ false
    → lookup path st.files ≡ some row
    → HasRowFrom result.state path row.head.clock
arbitrate_commit-HasRowFrom u device_id now devices st commit result path row w h other before =
    Branch-HasRowFrom u device_id now devices st commit path row before w other
      ((arbitrate_commit-Arbitrated u device_id now devices st commit result h).branch)
