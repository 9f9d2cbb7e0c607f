-- ===== src/Authority/Follow.antt =====
-- A commit as the changes that the authority records for it: following them from the heads before
-- gives the heads after.
use vaultsyncforagents.Prelude.{
  ℕ, ◌≡◌, refl, sym, ◌∙◌, true, false, Bool, Option, none, some, List, [], ◌∷◌, ◌++◌, Str, ◌==◌,
  eq_iff, eq_refl, arith, Bool-cases, inl, inr, if◌then◌else◌, ◌&&◌, All,
}
use vaultsyncforagents.Prelude.Dict.{Dict, lookup, erase, lookup-erase}
use vaultsyncforagents.Prelude.Failure.{ok}
use vaultsyncforagents.Types.{LogicalClock, Version, is_delete, is_rename}
use vaultsyncforagents.Platform.{Platform}
use vaultsyncforagents.Arbitrate.{
  ArbitrationFileState, ArbitrationState, ArbitrationCommit, ArbitrationVerdict, ArbitrationOutcome,
  ChangePayload, LoserSide, PreservationContext, is_just, install, payload_of, with_copy, fast_path,
  apply_migration, drop_source, standing_verdict, displaced_verdict, displaced_version,
  moved_verdict, version_of, copy_version, outcome_of, arbitrate_commit, applied, conflict,
}
use vaultsyncforagents.Arbitrate.WellFormed.{IsWellFormed, lookup_files-install}
use vaultsyncforagents.Arbitrate.Branches.{
  not_needed, copied, Settled, settled, Branch, created, advanced, displaced, stood, moved,
  moved_over, move_lost,
}
use vaultsyncforagents.Arbitrate.Inversion.{arbitrate_commit-Arbitrated}
use vaultsyncforagents.Authority.Commits.{head_changed}

-- What a reader of the vault knows of a path.
pub record PathHead : Type 0 where
  pub version : Str
  pub hash : Str
  pub size : ℕ
  pub deleted : Bool
  pub clock : LogicalClock
  pub is_folder : Bool

abbrev pub Heads : Type 0
Heads = Str → Option PathHead

abbrev pub row_head : ArbitrationFileState → PathHead
row_head row = record {
  version = row.head.id;
  hash = row.head.hash;
  size = row.head.size;
  deleted = row.deleted;
  clock = row.head.clock;
  is_folder = row.is_folder;
}

abbrev found_head : Option ArbitrationFileState → Option PathHead
found_head none = none
found_head (some row) = some (row_head row)

abbrev pub heads_of : ArbitrationState → Heads
heads_of st path = found_head (lookup path st.files)

abbrev pub payload_head : ChangePayload → PathHead
payload_head payload = record {
  version = payload.version;
  hash = payload.hash;
  size = payload.size;
  deleted = payload.deleted;
  clock = payload.clock;
  is_folder = payload.is_folder;
}

-- One change: its path has the new head, and a rename's source has none.
abbrev pub follow : Heads → ChangePayload → Heads
follow heads payload path =
    if payload.path == path
    then some (payload_head payload)
    else if is_rename payload.kind && is_just path payload.from_path
    then none
    else heads path

abbrev pub follow_all : Heads → List ChangePayload → Heads
follow_all heads [] = heads
follow_all heads (payload ∷ payloads) = follow_all (follow heads payload) payloads

abbrev pub primary_payloads : Bool → ChangePayload → List ChangePayload
primary_payloads false payload = []
primary_payloads true payload = payload ∷ []

abbrev pub copy_payloads : Option ChangePayload → List ChangePayload
copy_payloads none = []
copy_payloads (some payload) = payload ∷ []

-- The changes that the authority records for a verdict.
abbrev pub recorded : ArbitrationOutcome → Str → List ChangePayload
recorded outcome device_id =
    primary_payloads (head_changed outcome device_id) outcome.broadcast
    ++ copy_payloads outcome.conflict_copy

follow-eq :
    (a b : Heads) (payload : ChangePayload) (path : Str)
    → a path ≡ b path
    → follow a payload path ≡ follow b payload path
follow-eq a b payload path h = rw h refl

pub follow_all-eq :
    (a b : Heads) (payloads : List ChangePayload) (path : Str)
    → a path ≡ b path
    → follow_all a payloads path ≡ follow_all b payloads path
follow_all-eq a b [] path h = h
follow_all-eq a b (payload ∷ payloads) path h =
    follow_all-eq (follow a payload) (follow b payload) payloads path (follow-eq a b payload path h)

pub follow_all-append :
    (a : Heads) (first second : List ChangePayload)
    → follow_all a (first ++ second) ≡ follow_all (follow_all a first) second
follow_all-append a [] second = refl
follow_all-append a (payload ∷ first) second = follow_all-append (follow a payload) first second

-- A version that is installed, with no path dropped.
heads-install :
    (st : ArbitrationState) (version : Version) (deleted is_folder : Bool) (path : Str)
    → deleted ≡ is_delete version.kind
    → heads_of (install st version deleted is_folder) path
      ≡ follow (heads_of st) (payload_of version is_folder none) path
unfolding payload_of
heads-install st version deleted is_folder path kind = elim (Bool-cases (version.path == path)) [
  | inl same ↦ rw (lookup_files-install st version deleted is_folder path, same, kind) refl
  | inr differ ↦ rw (lookup_files-install st version deleted is_folder path, differ) (ground arith)
]

module _ (u : Platform) (device_id : Str) (now : ℕ) (devices : Dict Str) (st : ArbitrationState)
    (commit : ArbitrationCommit) where
  abbrev Follows : ArbitrationVerdict → Type 0
  Follows verdict =
      (path : Str)
      → follow_all (heads_of st) (recorded verdict.outcome device_id) path
        ≡ heads_of verdict.state path

  -- The copy of a loser is one more change.
  Settled-Follows :
      {verdict : ArbitrationVerdict} {loser : LoserSide} {context : PreservationContext}
      {result : ArbitrationVerdict}
      → Settled u device_id now devices verdict loser context result
      → verdict.outcome.conflict_copy ≡ none
      → Follows verdict
      → Follows result
  unfolding with_copy copy_version
  Settled-Follows (settled (not_needed no_need)) no_copy follows path = follows path
  Settled-Follows {verdict} {loser} {context} (settled (copied copy_path needed free)) no_copy
        follows path =
      let primary =
        primary_payloads (head_changed verdict.outcome device_id) verdict.outcome.broadcast in
      let version = copy_version verdict.state loser context now copy_path in
      let at_primary : follow_all (heads_of st) primary path ≡ heads_of verdict.state path =
        sym (primary_only primary path) ∙ rw no_copy at (follows path) in
      rw follow_all-append (
        follow-eq (follow_all (heads_of st) primary) (heads_of verdict.state)
          (payload_of version false none) path at_primary
        ∙ sym (heads-install verdict.state version false false path refl))
    where
      primary_only :
          (payloads : List ChangePayload) (path : Str)
          → follow_all (heads_of st) (payloads ++ []) path ≡ follow_all (heads_of st) payloads path
      primary_only payloads path = rw follow_all-append refl

  fast-Follows :
      (parent : Option Version) (target : Option ArbitrationFileState)
      → Follows (fast_path u device_id now devices st commit parent target)
  unfolding fast_path outcome_of version_of
  fast-Follows parent target path =
      sym (heads-install st _ (is_delete commit.kind) commit.is_folder path refl)

  migration-Follows :
      (source : ArbitrationFileState)
      → Follows (apply_migration u device_id now devices st commit source)
  unfolding apply_migration outcome_of version_of payload_of
  migration-Follows source path =
      let erased : ArbitrationState = record st { files = erase source.head.path st.files } in
      let version =
        (apply_migration u device_id now devices st commit source).outcome.winner.version in
      ground (
        arith,
        lookup_files-install erased version false commit.is_folder path,
        lookup-erase source.head.path path st.files,
        eq_iff source.head.path path,
        eq_iff path source.head.path,
      )

  -- The commit names no path as both its source and its destination.
  abbrev pub IsProperMove : Type 0
  IsProperMove = is_rename commit.kind && is_just commit.path commit.from_path ≡ false

  -- The drop of a source that is not the path of the new head.
  heads-drop_source :
      (s : ArbitrationState) (version : Version) (path : Str)
      → IsProperMove
      → version.path ≡ commit.path
      → version.kind ≡ commit.kind
      → heads_of
          (drop_source u device_id now devices
            (install s version (is_delete commit.kind) commit.is_folder)
            commit
            commit.from_path)
          path
        ≡ follow (heads_of s) (payload_of version commit.is_folder commit.from_path) path
  unfolding drop_source payload_of
  heads-drop_source s version path proper at kind = go commit.from_path proper
    where
      next : ArbitrationState
      next = install s version (is_delete commit.kind) commit.is_folder

      go :
          (from : Option Str)
          → is_rename commit.kind && is_just commit.path from ≡ false
          → heads_of (drop_source u device_id now devices next commit from) path
            ≡ follow (heads_of s) (payload_of version commit.is_folder from) path
      go none h =
          heads-install s version (is_delete commit.kind) commit.is_folder path (rw kind refl)
      go (some from) h = elim (Bool-cases (is_rename commit.kind)) [
        | inl renames ↦ ground (
          arith,
          lookup_files-install s version (is_delete commit.kind) commit.is_folder path,
          lookup_files-install s version (is_delete commit.kind) commit.is_folder from,
          lookup-erase from path next.files,
          eq_iff version.path path,
          eq_iff version.path from,
          eq_iff from path,
          eq_iff path from,
          eq_iff commit.path from,
        )
        | inr stays ↦
            ground
              (arith, lookup_files-install s version (is_delete commit.kind) commit.is_folder path)
      ]

  displaced-Follows :
      (parent : Option Version)
      → IsProperMove
      → Follows (displaced_verdict u device_id now devices st commit parent)
  unfolding displaced_verdict displaced_version outcome_of version_of
  displaced-Follows parent proper path = rw (eq_refl device_id) (
      sym (
        heads-drop_source st (displaced_version u device_id now devices st commit parent) path
          proper refl refl))

  -- A move that took an occupied destination is recorded like any other.
  moved-Follows :
      (source : ArbitrationFileState)
      → Follows (moved_verdict u device_id now devices st commit source)
  unfolding moved_verdict apply_migration outcome_of version_of
  moved-Follows source path = rw (eq_refl device_id) (migration-Follows source path)

  -- The standing head may be recorded once more, which changes nothing.
  standing-Follows :
      (target : ArbitrationFileState)
      → IsWellFormed st
      → lookup commit.path st.files ≡ some target
      → Follows (standing_verdict u device_id now devices st target)
  unfolding standing_verdict outcome_of payload_of
  standing-Follows target w at path = elim (Bool-cases (target.head.device_id == device_id)) [
    | inl ours ↦
        let r = w.rows commit.path target at in
        rw ours (ground (arith, r.head_path, r.tombstone, eq_iff target.head.path path))
    | inr theirs ↦ rw theirs refl
  ]

  Branch-Follows :
      {parent : Option Version} {result : ArbitrationVerdict}
      → IsWellFormed st
      → IsProperMove
      → Branch u device_id now devices st commit parent result
      → Follows result
  unfolding displaced_verdict moved_verdict standing_verdict outcome_of apply_migration
  Branch-Follows {parent} w proper (created at) = fast-Follows parent none
  Branch-Follows {parent} w proper (advanced target at built) = fast-Follows parent (some target)
  Branch-Follows {parent} w proper (displaced target at stale wins s) =
      Settled-Follows s refl (displaced-Follows parent proper)
  Branch-Follows w proper (stood target at stale loses s) =
      Settled-Follows s refl (standing-Follows target w at)
  Branch-Follows w proper (moved from source renames named known built at) =
      migration-Follows source
  Branch-Follows w proper (moved_over from source occupant renames named known built at wins s) =
      Settled-Follows s refl (moved-Follows source)
  Branch-Follows w proper (move_lost from source occupant renames named known built at loses) =
      standing-Follows occupant w at

-- A payload does not name its own path as the source of a rename.
abbrev pub IsProperPayload : ChangePayload → Type 0
IsProperPayload payload = is_rename payload.kind && is_just payload.path payload.from_path ≡ false

module _ (u : Platform) (device_id : Str) (now : ℕ) (devices : Dict Str) (st : ArbitrationState)
    (commit : ArbitrationCommit) where
  abbrev IsProperVerdict : ArbitrationVerdict → Type 0
  IsProperVerdict verdict =
      IsProperPayload verdict.outcome.broadcast
      × All IsProperPayload (copy_payloads verdict.outcome.conflict_copy)

  Settled-IsProper :
      {verdict : ArbitrationVerdict} {loser : LoserSide} {context : PreservationContext}
      {result : ArbitrationVerdict}
      → Settled u device_id now devices verdict loser context result
      → IsProperVerdict verdict
      → IsProperVerdict result
  unfolding with_copy copy_version payload_of
  Settled-IsProper (settled (not_needed no_need)) p = p
  Settled-IsProper (settled (copied copy_path needed free)) p = (p.0, (refl, tt))

  -- A move whose source is another path than its destination.
  migration-IsProper :
      (from : Str) (source : ArbitrationFileState)
      → IsWellFormed st
      → is_rename commit.kind && is_just commit.path commit.from_path ≡ false
      → is_rename commit.kind ≡ true
      → commit.from_path ≡ some from
      → lookup from st.files ≡ some source
      → IsProperVerdict (apply_migration u device_id now devices st commit source)
  unfolding apply_migration outcome_of payload_of version_of
  migration-IsProper from source w proper renames named known =
      let r = w.rows from source known in
      (rw r.head_path (ground (arith, rw (renames, named) at proper, eq_iff commit.path from)), tt)

  Branch-IsProper :
      {parent : Option Version} {result : ArbitrationVerdict}
      → IsWellFormed st
      → is_rename commit.kind && is_just commit.path commit.from_path ≡ false
      → Branch u device_id now devices st commit parent result
      → IsProperVerdict result
  unfolding fast_path displaced_verdict displaced_version moved_verdict standing_verdict outcome_of
      payload_of version_of
  Branch-IsProper w proper (created at) = (ground arith, tt)
  Branch-IsProper w proper (advanced target at built) = (ground arith, tt)
  Branch-IsProper w proper (displaced target at stale wins s) = Settled-IsProper s (proper, tt)
  Branch-IsProper w proper (stood target at stale loses s) = Settled-IsProper s (ground arith, tt)
  Branch-IsProper w proper (moved from source renames named known built at) =
      migration-IsProper from source w proper renames named known
  Branch-IsProper w proper (moved_over from source occupant renames named known built at wins s) =
      Settled-IsProper s (migration-IsProper from source w proper renames named known)
  Branch-IsProper w proper (move_lost from source occupant renames named known built at loses) =
      (ground arith, tt)

  pub arbitrate_commit-IsProper :
      (result : ArbitrationVerdict)
      → IsWellFormed st
      → is_rename commit.kind && is_just commit.path commit.from_path ≡ false
      → arbitrate_commit u device_id now devices st commit ≡ ok result
      → IsProperVerdict result
  arbitrate_commit-IsProper result w proper h =
      Branch-IsProper w proper
        ((arbitrate_commit-Arbitrated u device_id now devices st commit result h).branch)

-- On a well-formed state, following the changes that the authority records for a commit, in their
-- order, turns the heads before the commit into the heads after it, unless the commit renames
-- a path to itself.
pub arbitrate_commit-Follows :
    (u : Platform) (device_id : Str) (now : ℕ) (devices : Dict Str) (st : ArbitrationState)
    (commit : ArbitrationCommit) (result : ArbitrationVerdict)
    → IsWellFormed st
    → is_rename commit.kind && is_just commit.path commit.from_path ≡ false
    → arbitrate_commit u device_id now devices st commit ≡ ok result
    → (path : Str)
    → follow_all (heads_of st) (recorded result.outcome device_id) path ≡ heads_of result.state path
arbitrate_commit-Follows u device_id now devices st commit result w proper h =
    Branch-Follows u device_id now devices st commit w proper
      ((arbitrate_commit-Arbitrated u device_id now devices st commit result h).branch)

module _ (u : Platform) (device_id : Str) (now : ℕ) (devices : Dict Str) (st : ArbitrationState)
    (commit : ArbitrationCommit) where
  Settled-conflict :
      {verdict : ArbitrationVerdict} {loser : LoserSide} {context : PreservationContext}
      {result : ArbitrationVerdict}
      → Settled u device_id now devices verdict loser context result
      → verdict.outcome.result ≡ conflict
      → ¬ (result.outcome.result ≡ applied)
  unfolding with_copy
  Settled-conflict (settled (not_needed no_need)) h is = cc
  Settled-conflict (settled (copied copy_path needed free)) h is = cc

  Branch-applied :
      {parent : Option Version} {result : ArbitrationVerdict}
      → Branch u device_id now devices st commit parent result
      → result.outcome.result ≡ applied
      → result.outcome.conflict_copy ≡ none
  unfolding fast_path displaced_verdict moved_verdict standing_verdict outcome_of apply_migration
  Branch-applied (created at) is = refl
  Branch-applied (advanced target at built) is = refl
  Branch-applied (displaced target at stale wins s) is = absurd (Settled-conflict s refl is)
  Branch-applied (stood target at stale loses s) is = absurd (Settled-conflict s refl is)
  Branch-applied (moved from source renames named known built at) is = refl
  Branch-applied (moved_over from source occupant renames named known built at wins s) is =
      absurd (Settled-conflict s refl is)
  Branch-applied (move_lost from source occupant renames named known built at loses) is = cc

  -- A commit that is applied makes no copy.
  pub applied-conflict_copy :
      (result : ArbitrationVerdict)
      → arbitrate_commit u device_id now devices st commit ≡ ok result
      → result.outcome.result ≡ applied
      → result.outcome.conflict_copy ≡ none
  applied-conflict_copy result h is =
      Branch-applied
        ((arbitrate_commit-Arbitrated u device_id now devices st commit result h).branch) is
