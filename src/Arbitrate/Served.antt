-- ===== src/Arbitrate/Served.antt =====
-- Where the content of live rows comes from: a predicate on hashes that the state's live rows and
-- the commit satisfy is one that the next state's live rows satisfy.
use vaultsyncforagents.Prelude.{
  ℕ, ◌≡◌, true, false, Bool, Option, none, some, Str, ◌==◌, arith, Bool-cases, inl, inr, subst,
  ◌&&◌,
}
use vaultsyncforagents.Prelude.Dict.{Dict, lookup, erase, has, lookup-erase}
use vaultsyncforagents.Types.{Version, is_delete, is_rename}
use vaultsyncforagents.Platform.{Platform}
use vaultsyncforagents.Arbitrate.State.{
  ArbitrationFileState, ArbitrationState, ArbitrationCommit, ArbitrationVerdict, LoserSide,
  PreservationContext, install, state-with_copy, needs_copy, loser_head, loser_commit, version_of,
  copy_version,
}
use vaultsyncforagents.Arbitrate.Commit.{
  fast_path, apply_migration, drop_source, standing_verdict, displaced_verdict, displaced_version,
  moved_verdict, arbitrate_commit,
}
use vaultsyncforagents.Prelude.Failure.{ok}
use vaultsyncforagents.Arbitrate.WellFormed.{lookup_files-install, row_of}
use vaultsyncforagents.Arbitrate.Branches.{
  not_needed, copied, Settled, settled, Branch, created, advanced, displaced, stood, moved,
  moved_over, move_lost,
}
use vaultsyncforagents.Arbitrate.Inversion.{arbitrate_commit-Arbitrated}

-- Every live row that is not a folder has content that satisfies `P`.
module _ (P : Str → Type 0) where
  abbrev pub IsServed : ArbitrationState → Type 0
  IsServed st =
      (path : Str) (row : ArbitrationFileState)
      → lookup path st.files ≡ some row
      → row.deleted ≡ false
      → row.is_folder ≡ false
      → P row.head.hash

  IsServed-install :
      (st : ArbitrationState) (version : Version) (deleted is_folder : Bool)
      → IsServed st
      → (deleted ≡ false → is_folder ≡ false → P version.hash)
      → IsServed (install st version deleted is_folder)
  IsServed-install st version deleted is_folder served own path row found live file =
      elim (Bool-cases (version.path == path)) [
        | inl same ↦
            let e : row_of version deleted is_folder ≡ row =
              ground (arith, lookup_files-install st version deleted is_folder path) in
            subst (λ r. r.deleted ≡ false → r.is_folder ≡ false → P r.head.hash) e own live file
        | inr differ ↦
            served path row (ground (arith, lookup_files-install st version deleted is_folder path))
              live file
      ]

  IsServed-erase :
      (st : ArbitrationState) (from : Str)
      → IsServed st
      → IsServed (record st { files = erase from st.files })
  IsServed-erase st from served path row found live file =
      served path row (ground (arith, lookup-erase from path st.files)) live file

  -- A loser that needs a copy is live and no folder.
  needs_copy-live :
      (loser : LoserSide) (context : PreservationContext)
      → needs_copy loser context ≡ true
      → (loser.deleted ≡ false) × (loser.is_folder ≡ false)
  unfolding needs_copy
  needs_copy-live loser context h = ground arith

  module _ (u : Platform) (device_id : Str) (now : ℕ) (devices : Dict Str) where
    Settled-IsServed :
        {verdict : ArbitrationVerdict} {loser : LoserSide} {context : PreservationContext}
        {result : ArbitrationVerdict}
        → Settled u device_id now devices verdict loser context result
        → IsServed verdict.state
        → (loser.deleted ≡ false → loser.is_folder ≡ false → P loser.hash)
        → IsServed result.state
    unfolding copy_version
    Settled-IsServed (settled (not_needed no_need)) served own = rw state-with_copy served
    Settled-IsServed {verdict} {loser} {context} (settled (copied copy_path needed free)) served
          own =
        let (live, file) = needs_copy-live loser context needed in
        rw state-with_copy (
          IsServed-install verdict.state (copy_version verdict.state loser context now copy_path)
            false false served (λ _ _. own live file))

    module _ (st : ArbitrationState) (commit : ArbitrationCommit) (served : IsServed st)
        (own : is_delete commit.kind ≡ false → commit.is_folder ≡ false → P commit.hash) where
      drop_source-IsServed :
          (s : ArbitrationState) (from : Option Str)
          → IsServed s
          → IsServed (drop_source u device_id now devices s commit from)
      unfolding drop_source
      drop_source-IsServed s none h = h
      drop_source-IsServed s (some from) h =
          elim (Bool-cases (is_rename commit.kind && has from s.files)) [
            | inl gone ↦ rw gone (IsServed-erase s from h)
            | inr kept ↦ rw kept h
          ]

      fast-IsServed :
          (parent : Option Version) (target : Option ArbitrationFileState)
          → IsServed (fast_path u device_id now devices st commit parent target).state
      unfolding fast_path version_of
      fast-IsServed parent target =
          IsServed-install st _ (is_delete commit.kind) commit.is_folder served own

      migration-IsServed :
          (source : ArbitrationFileState)
          → is_rename commit.kind ≡ true
          → IsServed (apply_migration u device_id now devices st commit source).state
      unfolding apply_migration version_of
      migration-IsServed source renames =
          IsServed-install _ _ false commit.is_folder (IsServed-erase st source.head.path served)
            (λ _ file. own (ground arith) file)

      displaced-IsServed :
          (parent : Option Version)
          → IsServed (displaced_verdict u device_id now devices st commit parent).state
      unfolding displaced_verdict displaced_version version_of
      displaced-IsServed parent =
          drop_source-IsServed _ commit.from_path
            (IsServed-install st _ (is_delete commit.kind) commit.is_folder served own)

      Branch-IsServed :
          {parent : Option Version} {result : ArbitrationVerdict}
          → Branch u device_id now devices st commit parent result
          → IsServed result.state
      unfolding standing_verdict moved_verdict loser_head loser_commit
      Branch-IsServed (created at) = fast-IsServed _ none
      Branch-IsServed (advanced target at built) = fast-IsServed _ (some target)
      Branch-IsServed {parent} (displaced target at stale wins s) =
          Settled-IsServed s (displaced-IsServed parent) (served commit.path target at)
      Branch-IsServed (stood target at stale loses s) = Settled-IsServed s served own
      Branch-IsServed (moved from source renames named known built at) =
          migration-IsServed source renames
      Branch-IsServed (moved_over from source occupant renames named known built at wins s) =
          Settled-IsServed s (migration-IsServed source renames) (served commit.path occupant at)
      Branch-IsServed (move_lost from source occupant renames named known built at loses) = served

  -- A commit whose own content satisfies `P`, whatever its branch.
  pub arbitrate_commit-IsServed :
      (u : Platform) (device_id : Str) (now : ℕ) (devices : Dict Str) (st : ArbitrationState)
      (commit : ArbitrationCommit) (result : ArbitrationVerdict)
      → IsServed st
      → (is_delete commit.kind ≡ false → commit.is_folder ≡ false → P commit.hash)
      → arbitrate_commit u device_id now devices st commit ≡ ok result
      → IsServed result.state
  arbitrate_commit-IsServed u device_id now devices st commit result served own h =
      Branch-IsServed u device_id now devices st commit served own
        ((arbitrate_commit-Arbitrated u device_id now devices st commit result h).branch)
