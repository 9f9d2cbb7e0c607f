-- ===== src/Arbitrate/Branches.antt =====
-- The branches of the arbitration as an inductive family over the verdict, with the tests that lead
-- to each.
use vaultsyncforagents.Prelude.{
  ℕ, ◌≡◌, true, false, Option, none, some, Str, arith, Bool-cases, inl, inr, or_default,
}
use vaultsyncforagents.Prelude.Dict.{Dict, lookup, has}
use vaultsyncforagents.Prelude.Failure.{Result, ok, >>=-eq-ok, subst_ok}
use vaultsyncforagents.Types.{Version, is_rename}
use vaultsyncforagents.Platform.{Platform}
use vaultsyncforagents.ConflictNames.{conflict_copy_path}
use vaultsyncforagents.ConflictNames.Fresh.{conflict_copy_path-fresh}
use vaultsyncforagents.Arbitrate.State.{
  ArbitrationFileState, ArbitrationState, ArbitrationCommit, ArbitrationVerdict, ChangePayload,
  LoserSide, PreservationContext, install, payload_of, copy_version, needs_copy, hash_of, is_just,
  loser_head, loser_commit, with_copy,
}
use vaultsyncforagents.Arbitrate.Commit.{
  preserve_loser, apply_migration, fast_path, preserved, standing_verdict, standing_context,
  displaced_verdict, displaced_context, moved_verdict, moved_context, move_wins, incoming_wins,
}

module _ (u : Platform) (device_id : Str) (now : ℕ) (devices : Dict Str) where
  -- What the preservation of a loser returns: nothing, or a copy at a path that holds no row.
  pub data Preservation (st : ArbitrationState) (loser : LoserSide) (context : PreservationContext)
      : Option ChangePayload → ArbitrationState → Type 0 where
    not_needed : needs_copy loser context ≡ false → Preservation st loser context none st
    copied :
        (copy_path : Str)
        → needs_copy loser context ≡ true
        → lookup copy_path st.files ≡ none
        → Preservation st loser context
            (some (payload_of (copy_version st loser context now copy_path) false none))
            (install st (copy_version st loser context now copy_path) false false)

  not_has :
      (st : ArbitrationState) (path : Str) → has path st.files ≡ false → lookup path st.files ≡ none
  not_has st path h = ground arith

  abbrev free_path : ArbitrationState → LoserSide → Str → Result Str
  free_path st loser path =
      conflict_copy_path u path (or_default (lookup loser.device_id devices) loser.device_id) now
        (λ candidate. has candidate st.files)

  pub preserve_loser-Preservation :
      (st : ArbitrationState) (loser : LoserSide) (context : PreservationContext) (path : Str)
      (copy : Option ChangePayload) (later : ArbitrationState)
      → preserve_loser u device_id now devices st loser context path ≡ ok (copy, later)
      → Preservation st loser context copy later
  unfolding preserve_loser
  preserve_loser-Preservation st loser context path copy later h =
      elim (Bool-cases (needs_copy loser context)) [
        | inr none_needed ↦
            subst_ok (λ r. Preservation st loser context r.0 r.1) (none, st) (copy, later)
              (rw none_needed at h) (not_needed none_needed)
        | inl needed ↦
            let (copy_path, found, rest) = >>=-eq-ok (free_path st loser path) _ (rw needed at h) in
            subst_ok (λ r. Preservation st loser context r.0 r.1)
              (
                some (payload_of (copy_version st loser context now copy_path) false none),
                install st (copy_version st loser context now copy_path) false false,
              )
              (copy, later) rest
              (copied copy_path needed
                (not_has st copy_path (conflict_copy_path-fresh u path _ now _ copy_path found)))
      ]

  -- A verdict, with the outcome of the preservation of its loser.
  abbrev pub settle :
      ArbitrationVerdict → Option ChangePayload → ArbitrationState → ArbitrationVerdict
  settle verdict copy later = with_copy (record verdict { state = later }) copy

  pub data Settled (verdict : ArbitrationVerdict) (loser : LoserSide)
      (context : PreservationContext) : ArbitrationVerdict → Type 0 where
    settled :
        {copy : Option ChangePayload} {later : ArbitrationState}
        → Preservation verdict.state loser context copy later
        → Settled verdict loser context (settle verdict copy later)

  pub preserved-Settled :
      (verdict : ArbitrationVerdict) (loser : LoserSide) (context : PreservationContext)
      (path : Str) (result : ArbitrationVerdict)
      → preserved u device_id now devices verdict loser context path ≡ ok result
      → Settled verdict loser context result
  unfolding preserved
  preserved-Settled verdict loser context path result h =
      let (kept, found, rest) =
        >>=-eq-ok (preserve_loser u device_id now devices verdict.state loser context path) _ h in
      subst_ok (Settled verdict loser context) (settle verdict kept.0 kept.1) result rest
        (settled (preserve_loser-Preservation verdict.state loser context path kept.0 kept.1 found))

  -- Every way in which a commit is arbitrated, with the row at its path and the rows of a rename.
  pub data Branch (st : ArbitrationState) (commit : ArbitrationCommit) (parent : Option Version)
      : ArbitrationVerdict → Type 0 where
    created :
        lookup commit.path st.files ≡ none
        → Branch st commit parent (fast_path u device_id now devices st commit parent none)
    advanced :
        (target : ArbitrationFileState)
        → lookup commit.path st.files ≡ some target
        → is_just target.head.id commit.parent_version ≡ true
        → Branch st commit parent (fast_path u device_id now devices st commit parent (some target))
    displaced :
        (target : ArbitrationFileState) {result : ArbitrationVerdict}
        → lookup commit.path st.files ≡ some target
        → is_just target.head.id commit.parent_version ≡ false
        → incoming_wins u device_id now devices parent target ≡ true
        → Settled
            (displaced_verdict u device_id now devices st commit parent)
            (loser_head target)
            (displaced_context u device_id now devices st commit parent)
            result
        → Branch st commit parent result
    stood :
        (target : ArbitrationFileState) {result : ArbitrationVerdict}
        → lookup commit.path st.files ≡ some target
        → is_just target.head.id commit.parent_version ≡ false
        → incoming_wins u device_id now devices parent target ≡ false
        → Settled
            (standing_verdict u device_id now devices st target)
            (loser_commit commit device_id)
            (standing_context u device_id now devices target (hash_of parent))
            result
        → Branch st commit parent result
    moved :
        (from : Str) (source : ArbitrationFileState)
        → is_rename commit.kind ≡ true
        → commit.from_path ≡ some from
        → lookup from st.files ≡ some source
        → is_just source.head.id commit.parent_version ≡ true
        → lookup commit.path st.files ≡ none
        → Branch st commit parent (apply_migration u device_id now devices st commit source)
    moved_over :
        (from : Str) (source occupant : ArbitrationFileState) {result : ArbitrationVerdict}
        → is_rename commit.kind ≡ true
        → commit.from_path ≡ some from
        → lookup from st.files ≡ some source
        → is_just source.head.id commit.parent_version ≡ true
        → lookup commit.path st.files ≡ some occupant
        → move_wins u device_id now devices source occupant ≡ true
        → Settled
            (moved_verdict u device_id now devices st commit source)
            (loser_head occupant)
            (moved_context u device_id now devices st commit parent source)
            result
        → Branch st commit parent result
    move_lost :
        (from : Str) (source occupant : ArbitrationFileState)
        → is_rename commit.kind ≡ true
        → commit.from_path ≡ some from
        → lookup from st.files ≡ some source
        → is_just source.head.id commit.parent_version ≡ true
        → lookup commit.path st.files ≡ some occupant
        → move_wins u device_id now devices source occupant ≡ false
        → Branch st commit parent (standing_verdict u device_id now devices st occupant)
