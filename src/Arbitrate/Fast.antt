-- ===== src/Arbitrate/Fast.antt =====
-- The optimistic check of `arbitrateCommit`, for commits that are no renames.
use vaultsyncforagents.Prelude.{
  ℕ, ◌≡◌, ◌⊎◌, refl, true, false, Option, none, some, Str, ◌==◌, eq_iff, arith, Bool-cases, inl,
  inr, ap, sym, ◌∙◌, if◌then◌else◌,
}
use vaultsyncforagents.Prelude.Dict.{Dict, lookup}
use vaultsyncforagents.Prelude.Failure.{Result, ok, err, ok_injective}
use vaultsyncforagents.Types.{Version, LogicalClock, is_delete, is_rename}
use vaultsyncforagents.Clock.{compare_clocks, next_clock, is_positive}
use vaultsyncforagents.Clock.Order.{compare_clocks-next_clock}
use vaultsyncforagents.Platform.{Platform}
use vaultsyncforagents.Arbitrate.State.{
  ArbitrationFileState, ArbitrationState, ArbitrationCommit, ArbitrationVerdict, LoserSide,
  PreservationContext, is_just, version_of, outcome_of, applied, conflict, mint_id, clock_of,
  result-with_copy,
}
use vaultsyncforagents.Arbitrate.Commit.{
  find_parent, fast_base, fast_path, standing_verdict, displaced_verdict, arbitrate_path,
  arbitrate_commit,
}
use vaultsyncforagents.Arbitrate.Branches.{
  Settled, settled, Branch, created, advanced, displaced, stood, moved, moved_over, move_lost,
}
use vaultsyncforagents.Arbitrate.Inversion.{arbitrate_commit-Arbitrated}
use vaultsyncforagents.Arbitrate.WellFormed.{
  IsWellFormed, row_of, lookup_files-install, lookup_versions-install,
}

-- The commit builds on the row at its path, if there is one.
abbrev pub IsCurrent : Option ArbitrationFileState → ArbitrationCommit → Type 0
IsCurrent none commit = Unit
IsCurrent (some target) commit = commit.parent_version ≡ some target.head.id

-- The clock beats that of the version, if there is one.
abbrev pub Beats : LogicalClock → Option Version → Type 0
Beats clock none = Unit
Beats clock (some version) = is_positive (compare_clocks clock version.clock) ≡ true

abbrev pub head_at : Option ArbitrationFileState → Option Version
head_at none = none
head_at (some target) = some target.head

-- The verdict that a commit is taken as the next version of its path: one version and one row are
-- written, and nothing else.
pub record IsTaken (st : ArbitrationState) (commit : ArbitrationCommit) (device_id : Str)
    (target : Option ArbitrationFileState) (parent : Option Version) (result : ArbitrationVerdict)
    : Type 0 where
  pub row : ArbitrationFileState
  pub is_applied : result.outcome.result ≡ applied
  pub no_copy : result.outcome.conflict_copy ≡ none
  pub files :
      (path : Str)
      → lookup path result.state.files
        ≡ (if commit.path == path then some row else lookup path st.files)
  pub versions :
      (id : Str)
      → lookup id result.state.versions
        ≡ (if mint_id st == id then some row.head else lookup id st.versions)
  pub hash : row.head.hash ≡ commit.hash
  pub size : row.head.size ≡ commit.size
  pub is_folder : row.is_folder ≡ commit.is_folder
  pub author : row.head.clock.device_id ≡ device_id
  pub tombstone : row.deleted ≡ is_delete commit.kind
  pub beats_head : Beats row.head.clock (head_at target)
  pub beats_parent : Beats row.head.clock parent

-- The run, where it returns, answers a conflict.
abbrev pub IsRefused : Result ArbitrationVerdict → Type 0
IsRefused (err failure) = Unit
IsRefused (ok result) = result.outcome.result ≡ conflict

refused :
    (run : Result ArbitrationVerdict)
    → ((result : ArbitrationVerdict) → run ≡ ok result → result.outcome.result ≡ conflict)
    → IsRefused run
refused (err failure) h = tt
refused (ok result) h = h result refl

module _ (u : Platform) (device_id : Str) (now : ℕ) (devices : Dict Str) (st : ArbitrationState)
    (commit : ArbitrationCommit) (parent : Option Version) where
  next_clock-Beats :
      (version : Option Version) → Beats (next_clock (clock_of version) device_id) version
  next_clock-Beats none = tt
  next_clock-Beats (some version) =
      ground (arith, compare_clocks-next_clock version.clock device_id)

  is_just-eq : (s : Str) (o : Option Str) → is_just s o ≡ true → o ≡ some s
  is_just-eq s none h = cc
  is_just-eq s (some t) h = cc ((eq_iff s t).0 h)

  eq-is_just : (s : Str) (o : Option Str) → o ≡ some s → is_just s o ≡ true
  eq-is_just s none h = cc
  eq-is_just s (some t) h = ground (arith, eq_iff s t)

  find_parent-stored :
      (id : Str) (version : Version)
      → lookup id st.versions ≡ some version
      → find_parent st (some id) ≡ ok (some version)
  unfolding find_parent
  find_parent-stored id version stored = rw (find_parent, stored) refl

  -- A commit on the head at its path names that head as its parent.
  current_parent :
      (target : ArbitrationFileState)
      → IsWellFormed st
      → lookup commit.path st.files ≡ some target
      → find_parent st commit.parent_version ≡ ok parent
      → commit.parent_version ≡ some target.head.id
      → parent ≡ some target.head
  current_parent target w at found current =
      let stored = (w.rows commit.path target at).stored in
      ok_injective parent (some target.head) (
        sym found
        ∙ ap (find_parent st) current
        ∙ find_parent-stored target.head.id target.head stored)

  fast_path-IsTaken :
      (target : Option ArbitrationFileState)
      → Beats
          (next_clock (fast_base u device_id now devices target parent) device_id)
          (head_at target)
      → Beats (next_clock (fast_base u device_id now devices target parent) device_id) parent
      → IsTaken st commit device_id target parent
          (fast_path u device_id now devices st commit parent target)
  unfolding fast_path version_of outcome_of next_clock
  fast_path-IsTaken target over_head over_parent =
      let version =
        version_of st commit device_id now
          (next_clock (fast_base u device_id now devices target parent) device_id) in
      record {
        row = row_of version (is_delete commit.kind) commit.is_folder;
        is_applied = refl;
        no_copy = refl;
        files = lookup_files-install st version (is_delete commit.kind) commit.is_folder;
        versions = lookup_versions-install st version (is_delete commit.kind) commit.is_folder;
        hash = refl;
        size = refl;
        is_folder = refl;
        author = refl;
        tombstone = refl;
        beats_head = over_head;
        beats_parent = over_parent;
      }

  taken :
      (target : Option ArbitrationFileState)
      → IsWellFormed st
      → lookup commit.path st.files ≡ target
      → find_parent st commit.parent_version ≡ ok parent
      → IsCurrent target commit
      → IsTaken st commit device_id target parent
          (fast_path u device_id now devices st commit parent target)
  taken none w at found current = fast_path-IsTaken none tt (next_clock-Beats parent)
  taken (some target) w at found current =
      let newer = next_clock-Beats (some target.head) in
      fast_path-IsTaken (some target) newer (rw (current_parent target w at found current) newer)

  arbitrate_path-fast :
      (target : Option ArbitrationFileState)
      → IsCurrent target commit
      → arbitrate_path u device_id now devices st commit parent target
        ≡ ok (fast_path u device_id now devices st commit parent target)
  unfolding arbitrate_path
  arbitrate_path-fast none current = refl
  arbitrate_path-fast (some target) current =
      rw (eq-is_just target.head.id commit.parent_version current) refl

  Settled-result :
      {verdict result : ArbitrationVerdict} {loser : LoserSide} {context : PreservationContext}
      → Settled u device_id now devices verdict loser context result
      → result.outcome.result ≡ verdict.outcome.result
  Settled-result {verdict} (settled {copy = copy} {later = later} p) =
      result-with_copy (record verdict { state = later }) copy

  -- The branches that a stale commit can take, when it is no rename.
  stale-conflict :
      {base : Option Version} (target : ArbitrationFileState) (result : ArbitrationVerdict)
      → is_rename commit.kind ≡ false
      → lookup commit.path st.files ≡ some target
      → is_just target.head.id commit.parent_version ≡ false
      → Branch u device_id now devices st commit base result
      → result.outcome.result ≡ conflict
  unfolding displaced_verdict standing_verdict outcome_of
  stale-conflict target result stays at stale (created free) = cc
  stale-conflict target result stays at stale (advanced known known_at built) =
      let same : target ≡ known = cc in cc (rw same at stale)
  stale-conflict target result stays at stale (displaced known known_at other wins s) =
      Settled-result s
  stale-conflict target result stays at stale (stood known known_at other loses s) =
      Settled-result s
  stale-conflict target result stays at stale (moved from source renames named known built free) =
      cc
  stale-conflict target result stays at stale
        (moved_over from source occupant renames named known built free wins s) =
      cc
  stale-conflict target result stays at stale
        (move_lost from source occupant renames named known built free loses) =
      cc

  run_fast :
      (target : Option ArbitrationFileState)
      → is_rename commit.kind ≡ false
      → find_parent st commit.parent_version ≡ ok parent
      → lookup commit.path st.files ≡ target
      → IsCurrent target commit
      → arbitrate_commit u device_id now devices st commit
        ≡ ok (fast_path u device_id now devices st commit parent target)
  unfolding arbitrate_commit
  run_fast target stays found at current =
      rw (found, stays, at) (arbitrate_path-fast target current)

  -- A commit on the head at its path, or where there is no row, is taken.
  pub arbitrate_commit-IsTaken :
      (target : Option ArbitrationFileState)
      → IsWellFormed st
      → is_rename commit.kind ≡ false
      → find_parent st commit.parent_version ≡ ok parent
      → lookup commit.path st.files ≡ target
      → IsCurrent target commit
      → (result : ArbitrationVerdict) × (arbitrate_commit u device_id now devices st commit
          ≡ ok result)
        × IsTaken st commit device_id target parent result
  arbitrate_commit-IsTaken target w stays found at current = (
    fast_path u device_id now devices st commit parent target,
    run_fast target stays found at current,
    taken target w at found current,
  )

  -- How a commit that is no rename ends: on top of its path's head, or as a conflict.
  abbrev pub Ends : Option ArbitrationFileState → Type 0
  Ends target =
      (IsCurrent target commit
        × ((result : ArbitrationVerdict) × (arbitrate_commit u device_id now devices st commit
              ≡ ok result)
            × IsTaken st commit device_id target parent result))
      ⊎ ((¬ IsCurrent target commit)
          × IsRefused (arbitrate_commit u device_id now devices st commit))

  ends :
      (target : Option ArbitrationFileState)
      → IsWellFormed st
      → is_rename commit.kind ≡ false
      → find_parent st commit.parent_version ≡ ok parent
      → lookup commit.path st.files ≡ target
      → Ends target
  ends none w stays found at = inl (tt, arbitrate_commit-IsTaken none w stays found at tt)
  ends (some target) w stays found at =
      elim (Bool-cases (is_just target.head.id commit.parent_version)) [
        | inl built ↦
            let current = is_just-eq target.head.id commit.parent_version built in
            inl (current, arbitrate_commit-IsTaken (some target) w stays found at current)
        | inr stale ↦ inr (
          (λ current. cc (eq-is_just target.head.id commit.parent_version current)),
          refused _ (λ result h.
              stale-conflict target result stays at stale
                (arbitrate_commit-Arbitrated u device_id now devices st commit result h).branch),
        )
      ]

  -- A commit that is no rename, on a well-formed state that knows its parent: either it names the
  -- head at its path as its parent or finds no row there, and then it is applied without a conflict
  -- copy, exactly one version, under the minted id, and the row at its path are written, and the
  -- new clock beats the clocks of that head and of the parent; or it does not, and then it is
  -- answered as a conflict whenever the arbitration returns.
  pub arbitrate_commit-Ends :
      IsWellFormed st
      → is_rename commit.kind ≡ false
      → find_parent st commit.parent_version ≡ ok parent
      → Ends (lookup commit.path st.files)
  arbitrate_commit-Ends w stays found = ends (lookup commit.path st.files) w stays found refl
