-- ===== src/Arbitrate/Commit.antt =====
-- `arbitrateCommit` and the branches that it is made of.
use vaultsyncforagents.Prelude.{
  ℕ, Bool, true, false, not, ◌&&◌, Option, none, some, Str, or_default, if◌then◌else◌,
}
use vaultsyncforagents.Prelude.Dict.{Dict, lookup, erase, has}
use vaultsyncforagents.Prelude.Failure.{Result, ok, err, protocol, ◌>>=◌}
use vaultsyncforagents.Types.{LogicalClock, Version, rename, is_delete, is_rename}
use vaultsyncforagents.Clock.{compare_clocks, next_clock, is_positive}
use vaultsyncforagents.Platform.{Platform}
use vaultsyncforagents.ConflictNames.{conflict_copy_path}
use vaultsyncforagents.Arbitrate.State.{
  ArbitrationFileState, ArbitrationState, ArbitrationCommit, ArbitrationVerdict, ChangePayload,
  LoserSide, PreservationContext, applied, conflict, payload_of, install, version_of, outcome_of,
  is_just, needs_copy, loser_head, loser_commit, hash_of, clock_of, copy_version, with_copy,
}

-- The parent version that the commit names; an unknown one is an error.
unfoldable pub find_parent : ArbitrationState → Option Str → Result (Option Version)
find_parent st none = ok none
find_parent st (some id) = elim (lookup id st.versions) [
  | none ↦ err protocol
  | some v ↦ ok (some v)
]

module _ (u : Platform) (device_id : Str) (now : ℕ) (devices : Dict Str) where
  -- The payload of the copy, if one is needed, and the state with it.
  unfoldable pub preserve_loser :
      ArbitrationState
      → LoserSide
      → PreservationContext
      → Str
      → Result (Option ChangePayload × ArbitrationState)
  preserve_loser st loser context original_path =
      if not (needs_copy loser context) then ok (none, st) else do
        copy_path ←
            conflict_copy_path u original_path
              (or_default (lookup loser.device_id devices) loser.device_id) now
              (λ candidate. has candidate st.files)
        let version = copy_version st loser context now copy_path
        ok (some (payload_of version false none), install st version false false)

  -- An outcome, with the copy of its loser.
  unfoldable pub preserved :
      ArbitrationVerdict → LoserSide → PreservationContext → Str → Result ArbitrationVerdict
  preserved verdict loser context original_path = do
    (copy, st) ← preserve_loser verdict.state loser context original_path
    ok (with_copy (record verdict { state = st }) copy)

  -- Move the chain of `source` to the commit's path as one rename version.
  unfoldable pub apply_migration :
      ArbitrationState → ArbitrationCommit → ArbitrationFileState → ArbitrationVerdict
  apply_migration st commit source =
      let version =
        record (version_of st commit device_id now
          (next_clock (some source.head.clock) device_id)) { kind = rename } in
      record {
        outcome = outcome_of applied version commit.is_folder (some source.head.path);
        state =
            install (record st { files = erase source.head.path st.files }) version false
              commit.is_folder;
      }

  -- The standing head wins, with no copy of the loser yet.
  unfoldable pub standing_verdict : ArbitrationState → ArbitrationFileState → ArbitrationVerdict
  standing_verdict st target = record {
    outcome = outcome_of conflict target.head target.is_folder none;
    state = st;
  }

  unfoldable pub standing_context : ArbitrationFileState → Option Str → PreservationContext
  standing_context target ancestor_hash = record {
    parent_id = target.head.id;
    base_clock = target.head.clock;
    winner_hash = target.head.hash;
    ancestor_hash = ancestor_hash;
  }

  -- The incoming commit lost: the standing head wins.
  unfoldable pub lose_to_head :
      ArbitrationState
      → ArbitrationCommit
      → Option Str
      → ArbitrationFileState
      → Bool
      → Result ArbitrationVerdict
  lose_to_head st commit ancestor_hash target suppress_copy =
      if suppress_copy
      then ok (standing_verdict st target)
      else preserved (standing_verdict st target) (loser_commit commit device_id)
          (standing_context target ancestor_hash) commit.path

  -- The base clock of the fast path: the standing head's, or the parent's.
  abbrev pub fast_base : Option ArbitrationFileState → Option Version → Option LogicalClock
  fast_base none parent = clock_of parent
  fast_base (some target) parent = some target.head.clock

  unfoldable pub fast_path :
      ArbitrationState
      → ArbitrationCommit
      → Option Version
      → Option ArbitrationFileState
      → ArbitrationVerdict
  fast_path st commit parent target =
      let version =
        version_of st commit device_id now (next_clock (fast_base target parent) device_id) in
      record {
        outcome = outcome_of applied version commit.is_folder none;
        state = install st version (is_delete commit.kind) commit.is_folder;
      }

  -- `files.delete(commit.fromPath)`, for a rename whose source is still there.
  unfoldable pub drop_source : ArbitrationState → ArbitrationCommit → Option Str → ArbitrationState
  drop_source st commit none = st
  drop_source st commit (some from) =
      if is_rename commit.kind && has from st.files
      then record st { files = erase from st.files }
      else st

  unfoldable pub displaced_version : ArbitrationState → ArbitrationCommit → Option Version → Version
  displaced_version st commit parent =
      version_of st commit device_id now (next_clock (clock_of parent) device_id)

  -- The incoming commit takes the head, with no copy of the loser yet.
  unfoldable pub displaced_verdict :
      ArbitrationState → ArbitrationCommit → Option Version → ArbitrationVerdict
  displaced_verdict st commit parent = record {
    outcome =
        outcome_of conflict (displaced_version st commit parent) commit.is_folder commit.from_path;
    state =
        drop_source
          (install st (displaced_version st commit parent) (is_delete commit.kind) commit.is_folder)
          commit commit.from_path;
  }

  unfoldable pub displaced_context :
      ArbitrationState → ArbitrationCommit → Option Version → PreservationContext
  unfolding displaced_version
  displaced_context st commit parent = record {
    parent_id = (displaced_version st commit parent).id;
    base_clock = next_clock (clock_of parent) device_id;
    winner_hash = commit.hash;
    ancestor_hash = hash_of parent;
  }

  -- The incoming commit displaces the standing head.
  unfoldable pub displace_head :
      ArbitrationState
      → ArbitrationCommit
      → Option Version
      → ArbitrationFileState
      → Result ArbitrationVerdict
  displace_head st commit parent target =
      preserved (displaced_verdict st commit parent) (loser_head target)
        (displaced_context st commit parent) commit.path

  -- Whether the tentative clock of the commit beats the standing head's.
  unfoldable pub incoming_wins : Option Version → ArbitrationFileState → Bool
  incoming_wins parent target =
      is_positive (compare_clocks (next_clock (clock_of parent) device_id) target.head.clock)

  -- What stands below the treatment of renames: the fast path, or the conflict.
  unfoldable pub arbitrate_path :
      ArbitrationState
      → ArbitrationCommit
      → Option Version
      → Option ArbitrationFileState
      → Result ArbitrationVerdict
  arbitrate_path st commit parent none = ok (fast_path st commit parent none)
  arbitrate_path st commit parent (some target) =
      if is_just target.head.id commit.parent_version
      then ok (fast_path st commit parent (some target))
      else if incoming_wins parent target
      then displace_head st commit parent target
      else lose_to_head st commit (hash_of parent) target false

  -- The move that took an occupied destination is a conflict.
  unfoldable pub moved_verdict :
      ArbitrationState → ArbitrationCommit → ArbitrationFileState → ArbitrationVerdict
  moved_verdict st commit source =
      let moved = apply_migration st commit source in
      record moved { outcome = record (moved.outcome) { result = conflict } }

  unfoldable pub moved_context :
      ArbitrationState
      → ArbitrationCommit
      → Option Version
      → ArbitrationFileState
      → PreservationContext
  moved_context st commit parent source = record {
    parent_id = (apply_migration st commit source).outcome.winner.version.id;
    base_clock = next_clock (some source.head.clock) device_id;
    winner_hash = commit.hash;
    ancestor_hash = hash_of parent;
  }

  -- Whether the move beats the occupant of its destination.
  unfoldable pub move_wins : ArbitrationFileState → ArbitrationFileState → Bool
  move_wins source occupant =
      is_positive
        (compare_clocks (next_clock (some source.head.clock) device_id) occupant.head.clock)

  -- The mover built on the head of `source`, and `occupant` holds the destination.
  unfoldable pub move_onto :
      ArbitrationState
      → ArbitrationCommit
      → Option Version
      → ArbitrationFileState
      → Option ArbitrationFileState
      → Result ArbitrationVerdict
  move_onto st commit parent source none = ok (apply_migration st commit source)
  move_onto st commit parent source (some occupant) =
      if move_wins source occupant
      then preserved (moved_verdict st commit source) (loser_head occupant)
          (moved_context st commit parent source) commit.path
      else lose_to_head st commit (hash_of parent) occupant true

  -- A rename whose source is known and built on, or else the generic logic at the path.
  unfoldable pub arbitrate_rename :
      ArbitrationState
      → ArbitrationCommit
      → Option Version
      → Option ArbitrationFileState
      → Result ArbitrationVerdict
  arbitrate_rename st commit parent none =
      arbitrate_path st commit parent (lookup commit.path st.files)
  arbitrate_rename st commit parent (some source) =
      if is_just source.head.id commit.parent_version
      then move_onto st commit parent source (lookup commit.path st.files)
      else arbitrate_path st commit parent (lookup commit.path st.files)

  unfoldable pub arbitrate_kind :
      ArbitrationState → ArbitrationCommit → Option Version → Option Str → Result ArbitrationVerdict
  arbitrate_kind st commit parent none = err protocol
  arbitrate_kind st commit parent (some from) =
      arbitrate_rename st commit parent (lookup from st.files)

  unfoldable pub arbitrate_commit : ArbitrationState → ArbitrationCommit → Result ArbitrationVerdict
  arbitrate_commit st commit = do
    parent ← find_parent st commit.parent_version
    if is_rename commit.kind
        then arbitrate_kind st commit parent commit.from_path
        else arbitrate_path st commit parent (lookup commit.path st.files)
