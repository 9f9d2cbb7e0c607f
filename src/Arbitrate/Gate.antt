-- ===== src/Arbitrate/Gate.antt =====
-- `pathSafetyViolation` together with the commits that it lets through.
use vaultsyncforagents.Prelude.{ℕ, ◌≡◌, refl, false, Option, none, some, Str, ◌==◌, arith}
use vaultsyncforagents.Prelude.Dict.{Dict, lookup}
use vaultsyncforagents.Types.{Version, is_rename}
use vaultsyncforagents.Platform.{Platform}
use vaultsyncforagents.Paths.{fold_key_for_path}
use vaultsyncforagents.Arbitrate.State.{
  ArbitrationFileState, ArbitrationState, ArbitrationCommit, ArbitrationVerdict, LoserSide,
  PreservationContext, with_copy,
}
use vaultsyncforagents.Arbitrate.Commit.{standing_verdict}
use vaultsyncforagents.Arbitrate.Branches.{
  not_needed, copied, Settled, settled, Branch, created, advanced, displaced, stood, moved,
  moved_over, move_lost,
}
use vaultsyncforagents.Arbitrate.Content.{fast-row, displaced-row}

-- No two live paths share a fold key.
abbrev pub IsFoldUnique : Platform → Dict ArbitrationFileState → Type 0
IsFoldUnique u files =
    (p q : Str) (r s : ArbitrationFileState)
    → lookup p files ≡ some r
    → lookup q files ≡ some s
    → r.deleted ≡ false
    → s.deleted ≡ false
    → fold_key_for_path u p ≡ fold_key_for_path u q
    → p ≡ q

module _ (u : Platform) (device_id : Str) (now : ℕ) (devices : Dict Str) (st : ArbitrationState)
    (commit : ArbitrationCommit) (stays : is_rename commit.kind ≡ false) where
  Settled-without_copy :
      {verdict : ArbitrationVerdict} {loser : LoserSide} {context : PreservationContext}
      {result : ArbitrationVerdict}
      → Settled u device_id now devices verdict loser context result
      → result.outcome.conflict_copy ≡ none
      → (path : Str) → lookup path result.state.files ≡ lookup path verdict.state.files
  unfolding with_copy
  Settled-without_copy (settled (not_needed _)) none_made path = refl
  Settled-without_copy (settled (copied _ _ _)) none_made path = cc

  -- Without a copy a commit changes the row at its own path alone.
  pub Branch-frame :
      {parent : Option Version} {result : ArbitrationVerdict}
      → Branch u device_id now devices st commit parent result
      → result.outcome.conflict_copy ≡ none
      → (path : Str) → commit.path == path ≡ false
      → lookup path result.state.files ≡ lookup path st.files
  unfolding standing_verdict
  Branch-frame {parent} (created at) c path other =
      let (r, after, _, _) = fast-row u device_id now devices st commit stays parent none in
      ground (arith, after path)
  Branch-frame {parent} (advanced target at built) c path other =
      let (r, after, _, _) =
        fast-row u device_id now devices st commit stays parent (some target) in
      ground (arith, after path)
  Branch-frame {parent} (displaced target at stale wins s) c path other = ground (
    arith,
    Settled-without_copy s c path,
    displaced-row u device_id now devices st commit stays parent path,
  )
  Branch-frame (stood target at stale loses s) c path other = Settled-without_copy s c path
  Branch-frame (moved from source renames named known built at) c path other = cc
  Branch-frame (moved_over from source occupant renames named known built at wins s) c path other =
      cc
  Branch-frame (move_lost from source occupant renames named known built at loses) c path other = cc
