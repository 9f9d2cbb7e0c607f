-- ===== src/Arbitrate/Content.antt =====
-- Where the content of both sides of a commit is afterwards.
use vaultsyncforagents.Prelude.{
  ℕ, ◌≡◌, refl, true, false, Option, none, some, Str, [], ◌==◌, eq_iff, eq_refl, arith, Bool-cases,
  inl, inr, if◌then◌else◌,
}
use vaultsyncforagents.Prelude.Dict.{Dict, lookup}
use vaultsyncforagents.Prelude.Failure.{ok}
use vaultsyncforagents.Types.{Version, is_delete, is_rename}
use vaultsyncforagents.Platform.{Platform}
use vaultsyncforagents.Arbitrate.State.{
  ArbitrationFileState, ArbitrationState, ArbitrationCommit, ArbitrationVerdict, ChangePayload,
  LoserSide, PreservationContext, is_just, state-with_copy, new_version_id-with_copy, copy_version,
  version_of, hash_of, needs_copy, loser_head, loser_commit, outcome_of,
}
use vaultsyncforagents.Arbitrate.Commit.{
  find_parent, fast_path, drop_source, standing_verdict, standing_context, displaced_verdict,
  displaced_version, displaced_context, arbitrate_commit,
}
use vaultsyncforagents.Arbitrate.Branches.{
  Preservation, not_needed, copied, Settled, settled, Branch, created, advanced, displaced, stood,
  moved, moved_over, move_lost,
}
use vaultsyncforagents.Arbitrate.Inversion.{arbitrate_commit-Arbitrated}
use vaultsyncforagents.Arbitrate.Clocks.{Settled-keeps_row}
use vaultsyncforagents.Arbitrate.WellFormed.{lookup_files-install, row_of}

-- A live row, somewhere, holds the content; its version was built on `parent_id`.
pub record IsCopied (st : ArbitrationState) (hash parent_id : Str) : Type 0 where
  pub place : Str
  pub row : ArbitrationFileState
  pub found : lookup place st.files ≡ some row
  pub same_hash : row.head.hash ≡ hash
  pub live : row.deleted ≡ false
  pub built_on : row.head.parent_version ≡ some parent_id

-- What `needs_copy` excuses, and nothing else.
pub data Accounted (loser : LoserSide) (context : PreservationContext) (later : ArbitrationState)
    : Type 0 where
  no_content : loser.deleted ≡ true → Accounted loser context later
  folder : loser.is_folder ≡ true → Accounted loser context later
  empty_hash : loser.hash ≡ [] → Accounted loser context later
  same_as_winner : loser.hash ≡ context.winner_hash → Accounted loser context later
  same_as_ancestor : context.ancestor_hash ≡ some loser.hash → Accounted loser context later
  preserved : IsCopied later loser.hash context.parent_id → Accounted loser context later

is_just-some : (s : Str) (o : Option Str) → is_just s o ≡ true → o ≡ some s
is_just-some s none h = cc
is_just-some s (some t) h = ground (arith, eq_iff s t)

excused :
    (loser : LoserSide) (context : PreservationContext) (later : ArbitrationState)
    → needs_copy loser context ≡ false
    → Accounted loser context later
unfolding needs_copy
excused loser context later h = elim (Bool-cases loser.deleted) [
  | inl gone ↦ no_content gone
  | inr kept ↦ elim (Bool-cases loser.is_folder) [
    | inl is ↦ folder is
    | inr file ↦ elim (Bool-cases (loser.hash == [])) [
      | inl empty ↦ empty_hash ((eq_iff loser.hash []).0 empty)
      | inr full ↦ elim (Bool-cases (loser.hash == context.winner_hash)) [
        | inl same ↦ same_as_winner ((eq_iff loser.hash context.winner_hash).0 same)
        | inr differ ↦
            same_as_ancestor (is_just-some loser.hash context.ancestor_hash (ground arith))
      ]
    ]
  ]
]

module _ (u : Platform) (device_id : Str) (now : ℕ) (devices : Dict Str) where
  Preservation-Accounted :
      {st : ArbitrationState} {loser : LoserSide} {context : PreservationContext}
      {copy : Option ChangePayload} {later : ArbitrationState}
      → Preservation u device_id now devices st loser context copy later
      → Accounted loser context later
  unfolding copy_version
  Preservation-Accounted {st} {loser} {context} (not_needed no_need) =
      excused loser context st no_need
  Preservation-Accounted {st} {loser} {context} (copied copy_path _ free) = preserved (record {
    place = copy_path;
    row = row_of (copy_version st loser context now copy_path) false false;
    found = ground (
      arith,
      lookup_files-install st (copy_version st loser context now copy_path) false false copy_path,
      eq_refl copy_path,
    );
    same_hash = refl;
    live = refl;
    built_on = refl;
  })

  pub Settled-Accounted :
      {verdict : ArbitrationVerdict} {loser : LoserSide} {context : PreservationContext}
      {result : ArbitrationVerdict}
      → Settled u device_id now devices verdict loser context result
      → Accounted loser context result.state
  Settled-Accounted (settled p) = rw state-with_copy (Preservation-Accounted p)

  -- The preservation of the loser leaves the winner alone.
  Settled-new_version_id :
      {verdict : ArbitrationVerdict} {loser : LoserSide} {context : PreservationContext}
      {result : ArbitrationVerdict}
      → Settled u device_id now devices verdict loser context result
      → verdict.outcome.new_version_id ≡ result.outcome.new_version_id
  Settled-new_version_id (settled p) = rw new_version_id-with_copy

-- What happens to a row that stood before the commit.
pub data HeadFate (path : Str) (row : ArbitrationFileState) (commit : ArbitrationCommit)
    (parent : Option Version) (later : ArbitrationVerdict) : Type 0 where
  untouched : lookup path later.state.files ≡ some row → HeadFate path row commit parent later
  built_upon :
      is_just row.head.id commit.parent_version ≡ true → HeadFate path row commit parent later
  displaced_by :
      (context : PreservationContext)
      → context.parent_id ≡ later.outcome.new_version_id
      → context.winner_hash ≡ commit.hash
      → context.ancestor_hash ≡ hash_of parent
      → Accounted (loser_head row) context later.state
      → HeadFate path row commit parent later

-- What happens to the content that the commit brings.
pub data CommitFate (device_id : Str) (commit : ArbitrationCommit) (parent : Option Version)
    (later : ArbitrationVerdict) : Type 0 where
  landed :
      (row : ArbitrationFileState)
      → lookup commit.path later.state.files ≡ some row
      → row.head.hash ≡ commit.hash
      → row.deleted ≡ is_delete commit.kind
      → CommitFate device_id commit parent later
  lost_to :
      (target : ArbitrationFileState) (context : PreservationContext)
      → lookup commit.path later.state.files ≡ some target
      → context.parent_id ≡ later.outcome.new_version_id
      → context.winner_hash ≡ target.head.hash
      → context.ancestor_hash ≡ hash_of parent
      → Accounted (loser_commit commit device_id) context later.state
      → CommitFate device_id commit parent later

module _ (u : Platform) (device_id : Str) (now : ℕ) (devices : Dict Str) (st : ArbitrationState)
    (commit : ArbitrationCommit) (stays : is_rename commit.kind ≡ false) where
  drop_source-eq :
      (s : ArbitrationState) (from : Option Str)
      → drop_source u device_id now devices s commit from ≡ s
  unfolding drop_source
  drop_source-eq s none = refl
  drop_source-eq s (some from) = rw stays

  -- The row that the displaced branch installs before the copy.
  pub displaced-row :
      (parent : Option Version) (path : Str)
      → lookup path (displaced_verdict u device_id now devices st commit parent).state.files ≡ (
          if commit.path == path
          then some (
              row_of
                (displaced_version u device_id now devices st commit parent)
                (is_delete commit.kind)
                commit.is_folder)
          else lookup path st.files)
  unfolding displaced_verdict displaced_version version_of
  displaced-row parent path =
      rw drop_source-eq (lookup_files-install st _ (is_delete commit.kind) commit.is_folder path)

  pub fast-row :
      (parent : Option Version) (target : Option ArbitrationFileState)
      → (row : ArbitrationFileState) × ((path : Str)
          → lookup path (fast_path u device_id now devices st commit parent target).state.files
            ≡ (if commit.path == path then some row else lookup path st.files))
        × (row.head.hash ≡ commit.hash)
        × (row.deleted ≡ is_delete commit.kind)
  unfolding fast_path version_of
  fast-row parent target = (
    row_of _ (is_delete commit.kind) commit.is_folder,
    λ path. lookup_files-install st _ (is_delete commit.kind) commit.is_folder path,
    refl,
    refl,
  )

  Branch-HeadFate :
      {parent : Option Version} {result : ArbitrationVerdict} (path : Str)
      (row : ArbitrationFileState)
      → lookup path st.files ≡ some row
      → Branch u device_id now devices st commit parent result
      → HeadFate path row commit parent result
  unfolding standing_verdict displaced_context displaced_verdict outcome_of
  Branch-HeadFate {parent} path row before (created at) =
      let (r, after, _, _) = fast-row parent none in
      untouched (ground (arith, after path, eq_iff commit.path path))
  Branch-HeadFate {parent} path row before (advanced target at built) =
      let (r, after, _, _) = fast-row parent (some target) in
      elim (Bool-cases (commit.path == path)) [
        | inl same ↦ built_upon (ground (arith, eq_iff commit.path path))
        | inr differ ↦ untouched (ground (arith, after path))
      ]
  Branch-HeadFate {parent} path row before (displaced target at stale wins s) =
      elim (Bool-cases (commit.path == path)) [
        | inl same ↦
            let e : target ≡ row = ground (arith, eq_iff commit.path path) in
            displaced_by (displaced_context u device_id now devices st commit parent)
              (Settled-new_version_id u device_id now devices s) refl refl
              (rw e at (Settled-Accounted u device_id now devices s))
        | inr differ ↦ untouched (
            Settled-keeps_row u device_id now devices s path row
              (ground (arith, displaced-row parent path)))
      ]
  Branch-HeadFate path row before (stood target at stale loses s) =
      untouched (Settled-keeps_row u device_id now devices s path row before)
  Branch-HeadFate path row before (moved from source renames named known built at) = cc
  Branch-HeadFate path row before
        (moved_over from source occupant renames named known built at wins s) =
      cc
  Branch-HeadFate path row before
        (move_lost from source occupant renames named known built at loses) =
      cc

  Branch-CommitFate :
      {parent : Option Version} {result : ArbitrationVerdict}
      → Branch u device_id now devices st commit parent result
      → CommitFate device_id commit parent result
  unfolding standing_verdict standing_context displaced_version version_of outcome_of
  Branch-CommitFate {parent} (created at) =
      let (r, after, hash, deleted) = fast-row parent none in
      landed r (ground (arith, after commit.path, eq_refl commit.path)) hash deleted
  Branch-CommitFate {parent} (advanced target at built) =
      let (r, after, hash, deleted) = fast-row parent (some target) in
      landed r (ground (arith, after commit.path, eq_refl commit.path)) hash deleted
  Branch-CommitFate {parent} (displaced target at stale wins s) =
      landed
        (row_of (displaced_version u device_id now devices st commit parent) (is_delete commit.kind)
          commit.is_folder)
        (Settled-keeps_row u device_id now devices s commit.path _
          (rw (displaced-row parent commit.path, eq_refl commit.path)))
        refl refl
  Branch-CommitFate {parent} (stood target at stale loses s) =
      lost_to target (standing_context u device_id now devices target (hash_of parent))
        (Settled-keeps_row u device_id now devices s commit.path target at)
        (Settled-new_version_id u device_id now devices s) refl refl
        (Settled-Accounted u device_id now devices s)
  Branch-CommitFate (moved from source renames named known built at) = cc
  Branch-CommitFate (moved_over from source occupant renames named known built at wins s) = cc
  Branch-CommitFate (move_lost from source occupant renames named known built at loses) = cc

-- The standing and the incoming content are both accounted for, in a commit that is no rename.
-- Every row of the old state is untouched, or was the head that the commit builds on, or was
-- displaced; the committed content heads the row at its path, or lost to the row there. A side
-- that lost was a deletion, a folder or empty, has the hash of the winner or of the common
-- ancestor, or is the content of a live row whose version is built on the winner.
pub arbitrate_commit-fates :
    (u : Platform) (device_id : Str) (now : ℕ) (devices : Dict Str) (st : ArbitrationState)
    (commit : ArbitrationCommit) (result : ArbitrationVerdict)
    → is_rename commit.kind ≡ false
    → arbitrate_commit u device_id now devices st commit ≡ ok result
    → (parent : Option Version) × (find_parent st commit.parent_version ≡ ok parent)
      × CommitFate device_id commit parent result
      × ((path : Str) (row : ArbitrationFileState)
          → lookup path st.files ≡ some row
          → HeadFate path row commit parent result)
arbitrate_commit-fates u device_id now devices st commit result stays h =
    let a = arbitrate_commit-Arbitrated u device_id now devices st commit result h in
    (
      a.parent,
      a.parent_found,
      Branch-CommitFate u device_id now devices st commit stays a.branch,
      λ path row before.
          Branch-HeadFate u device_id now devices st commit stays path row before a.branch,
    )
