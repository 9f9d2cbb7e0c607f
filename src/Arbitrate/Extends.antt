-- ===== src/Arbitrate/Extends.antt =====
-- The version history before and after a commit.
use vaultsyncforagents.Prelude.{
  ℕ, ◌≤◌, ◌≡◌, refl, Bool, false, Option, none, some, Str, arith, Bool-cases, inl, inr, ◌&&◌,
}
use vaultsyncforagents.Prelude.Dict.{Dict, lookup, erase, size, has}
use vaultsyncforagents.Prelude.Failure.{ok}
use vaultsyncforagents.Types.{Version, is_delete, is_rename}
use vaultsyncforagents.Platform.{Platform}
use vaultsyncforagents.Arbitrate.State.{
  ArbitrationFileState, ArbitrationState, ArbitrationCommit, ArbitrationVerdict, ChangePayload,
  LoserSide, PreservationContext, mint_id, install, version_of, copy_version, state-with_copy,
}
use vaultsyncforagents.Arbitrate.Commit.{
  apply_migration, fast_path, drop_source, standing_verdict, displaced_verdict, displaced_version,
  moved_verdict, arbitrate_commit,
}
use vaultsyncforagents.Arbitrate.Branches.{
  Preservation, not_needed, copied, Settled, settled, Branch, created, advanced, displaced, stood,
  moved, moved_over, move_lost,
}
use vaultsyncforagents.Arbitrate.Inversion.{arbitrate_commit-Arbitrated}
use vaultsyncforagents.Arbitrate.WellFormed.{
  IsWellFormed, install-IsWellFormed, erase-IsWellFormed, stored-install, size-install,
}

-- `later` is well formed, and every version of `st` is in it, unchanged and under its id.
pub record Extends (st later : ArbitrationState) : Type 0 where
  pub well_formed : IsWellFormed later
  pub keeps :
      (key : Str) (version : Version)
      → lookup key st.versions ≡ some version
      → lookup key later.versions ≡ some version
  pub grows : size st.versions ≤ size later.versions

pub Extends-refl : (st : ArbitrationState) → IsWellFormed st → Extends st st
Extends-refl st w = record { well_formed = w; keeps = λ key version h. h; grows = omega arith }

pub Extends-trans : (a b c : ArbitrationState) → Extends a b → Extends b c → Extends a c
Extends-trans a b c p q = record {
  well_formed = q.well_formed;
  keeps = λ key version h. q.keeps key version (p.keeps key version h);
  grows = omega (arith, p.grows, q.grows);
}

pub Extends-install :
    (st : ArbitrationState) (version : Version) (deleted is_folder : Bool)
    → IsWellFormed st
    → version.id ≡ mint_id st
    → deleted ≡ is_delete version.kind
    → Extends st (install st version deleted is_folder)
Extends-install st version deleted is_folder w fresh kind = record {
  well_formed = install-IsWellFormed st w version deleted is_folder fresh kind;
  keeps = λ key other h. stored-install st w version other key deleted is_folder fresh h;
  grows = omega (arith, size-install st w version deleted is_folder fresh);
}

pub Extends-erase :
    (st : ArbitrationState) (path : Str)
    → IsWellFormed st
    → Extends st (record st { files = erase path st.files })
Extends-erase st path w = record {
  well_formed = erase-IsWellFormed st w path;
  keeps = λ key version h. h;
  grows = omega arith;
}

module _ (u : Platform) (device_id : Str) (now : ℕ) (devices : Dict Str) where
  Preservation-Extends :
      {st : ArbitrationState} {loser : LoserSide} {context : PreservationContext}
      {copy : Option ChangePayload} {later : ArbitrationState}
      → IsWellFormed st
      → Preservation u device_id now devices st loser context copy later
      → Extends st later
  unfolding copy_version
  Preservation-Extends {st} w (not_needed _) = Extends-refl st w
  Preservation-Extends {st} w (copied copy_path _ _) = Extends-install st _ false false w refl refl

  Settled-Extends :
      {verdict : ArbitrationVerdict} {loser : LoserSide} {context : PreservationContext}
      {result : ArbitrationVerdict}
      → IsWellFormed verdict.state
      → Settled u device_id now devices verdict loser context result
      → Extends verdict.state result.state
  Settled-Extends {verdict} w (settled {copy} {later} p) =
      rw state-with_copy (Preservation-Extends w p)

  drop_source-Extends :
      (st : ArbitrationState) (commit : ArbitrationCommit) (from : Option Str)
      → IsWellFormed st
      → Extends st (drop_source u device_id now devices st commit from)
  unfolding drop_source
  drop_source-Extends st commit none v = Extends-refl st v
  drop_source-Extends st commit (some from) v =
      elim (Bool-cases (is_rename commit.kind && has from st.files)) [
        | inl gone ↦ rw gone (Extends-erase st from v)
        | inr kept ↦ rw kept (Extends-refl st v)
      ]

  module _ (st : ArbitrationState) (commit : ArbitrationCommit) (w : IsWellFormed st) where
    fast-Extends :
        (parent : Option Version) (target : Option ArbitrationFileState)
        → Extends st (fast_path u device_id now devices st commit parent target).state
    unfolding fast_path version_of
    fast-Extends parent target = Extends-install st _ _ commit.is_folder w refl refl

    migration-Extends :
        (source : ArbitrationFileState)
        → Extends st (apply_migration u device_id now devices st commit source).state
    unfolding apply_migration version_of mint_id
    migration-Extends source =
        let e = Extends-erase st source.head.path w in
        Extends-trans st _ _ e (Extends-install _ _ false commit.is_folder e.well_formed refl refl)

    displaced-Extends :
        (parent : Option Version)
        → Extends st (displaced_verdict u device_id now devices st commit parent).state
    unfolding displaced_verdict displaced_version version_of
    displaced-Extends parent =
        let e = Extends-install st _ (is_delete commit.kind) commit.is_folder w refl refl in
        Extends-trans st _ _ e (drop_source-Extends _ commit commit.from_path e.well_formed)

    settle-Extends :
        (verdict : ArbitrationVerdict) {loser : LoserSide} {context : PreservationContext}
        {result : ArbitrationVerdict}
        → Extends st verdict.state
        → Settled u device_id now devices verdict loser context result
        → Extends st result.state
    settle-Extends verdict e s =
        Extends-trans st verdict.state _ e (Settled-Extends e.well_formed s)

    Branch-Extends :
        {parent : Option Version} {result : ArbitrationVerdict}
        → Branch u device_id now devices st commit parent result
        → Extends st result.state
    unfolding standing_verdict moved_verdict
    Branch-Extends (created at) = fast-Extends _ none
    Branch-Extends (advanced target at built) = fast-Extends _ (some target)
    Branch-Extends {parent} (displaced target at stale wins s) =
        settle-Extends _ (displaced-Extends parent) s
    Branch-Extends (stood target at stale loses s) = settle-Extends _ (Extends-refl st w) s
    Branch-Extends (moved from source renames named known built at) = migration-Extends source
    Branch-Extends (moved_over from source occupant renames named known built at wins s) =
        settle-Extends _ (migration-Extends source) s
    Branch-Extends (move_lost from source occupant renames named known built at loses) =
        Extends-refl st w

-- A commit on a well-formed state, whatever its branch, leaves a well-formed state that holds
-- every version of the history, unchanged and under its id.
pub arbitrate_commit-Extends :
    (u : Platform) (device_id : Str) (now : ℕ) (devices : Dict Str) (st : ArbitrationState)
    (commit : ArbitrationCommit) (result : ArbitrationVerdict)
    → IsWellFormed st
    → arbitrate_commit u device_id now devices st commit ≡ ok result
    → Extends st result.state
arbitrate_commit-Extends u device_id now devices st commit result w h =
    Branch-Extends u device_id now devices st commit w
      ((arbitrate_commit-Arbitrated u device_id now devices st commit result h).branch)
