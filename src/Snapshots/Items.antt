-- ===== src/Snapshots/Items.antt =====
-- What the plan of a restore asks for at one path, and what one round of the loop does.
use vaultsyncforagents.Prelude.{
  ℕ, ◌≡◌, refl, sym, subst, Bool, false, Option, none, some, [], Str, ◌==◌, eq_iff, eq_refl,
  nat_eq_iff, arith, Bool-cases, subst_some, inl, inr, ◌⊎◌, if◌then◌else◌,
}
use vaultsyncforagents.Prelude.Dict.{lookup}
use vaultsyncforagents.Prelude.Failure.{ok}
use vaultsyncforagents.Types.{Version, is_delete, is_rename}
use vaultsyncforagents.Platform.{Platform}
use vaultsyncforagents.Arbitrate.{
  ArbitrationFileState, ArbitrationState, ArbitrationCommit, ArbitrationVerdict, find_parent,
}
use vaultsyncforagents.Arbitrate.WellFormed.{IsWellFormed}
use vaultsyncforagents.Arbitrate.Extends.{arbitrate_commit-Extends}
use vaultsyncforagents.Arbitrate.Fast.{IsCurrent, IsTaken, arbitrate_commit-IsTaken}
use vaultsyncforagents.Snapshots.{
  SnapshotHeadRecord, SnapshotRestoreItem, matches_snapshot, plan_item, restore_step,
}

-- What a path holds for a reader of the vault: nothing if it has no row or a tombstone.
pub record Live : Type 0 where
  pub hash : Str
  pub size : ℕ
  pub is_folder : Bool

abbrev pub live_row : Option ArbitrationFileState → Option Live
live_row none = none
live_row (some row) =
    if row.deleted
    then none
    else some (record { hash = row.head.hash; size = row.head.size; is_folder = row.is_folder })

abbrev pub live_head : Option SnapshotHeadRecord → Option Live
live_head none = none
live_head (some snap) =
    if snap.deleted
    then none
    else some (record { hash = snap.hash; size = snap.size; is_folder = snap.is_folder })

-- A path that the plan skips holds what it held at the snapshot.
pub plan_item-none :
    (path : Str) (snap : Option SnapshotHeadRecord) (current : Option ArbitrationFileState)
    → plan_item path snap current ≡ none
    → live_row current ≡ live_head snap
unfolding plan_item matches_snapshot
plan_item-none path none none h = refl
plan_item-none path none (some current) h = ground arith
plan_item-none path (some snap) none h = ground arith
plan_item-none path (some snap) (some current) h =
    ground (arith, eq_iff current.head.hash snap.hash, nat_eq_iff current.head.size snap.size)

-- What the item of a path asks for.
pub record IsItem (path : Str) (snap : Option SnapshotHeadRecord)
    (current : Option ArbitrationFileState) (item : SnapshotRestoreItem) : Type 0 where
  pub at_path : item.commit.path ≡ path
  pub stays : is_rename item.commit.kind ≡ false
  pub on_head : IsCurrent current item.commit
  pub parent_known :
      (item.commit.parent_version ≡ none)
      ⊎ ((row : ArbitrationFileState) × (current ≡ some row)
          × (item.commit.parent_version ≡ some row.head.id))
  pub reaches : live_head snap ≡ (
      if is_delete item.commit.kind
      then none
      else some (record {
        hash = item.commit.hash;
        size = item.commit.size;
        is_folder = item.commit.is_folder;
      }))

pub plan_item-IsItem :
    (path : Str) (snap : Option SnapshotHeadRecord) (current : Option ArbitrationFileState)
    (item : SnapshotRestoreItem)
    → plan_item path snap current ≡ some item
    → IsItem path snap current item
unfolding plan_item
plan_item-IsItem path none none item h = cc
plan_item-IsItem path none (some current) item h = elim (Bool-cases current.deleted) [
  | inl gone ↦ cc (rw gone at h)
  | inr live ↦ subst_some (IsItem path none (some current)) _ item (rw live at h) (record {
    at_path = refl;
    stays = refl;
    on_head = refl;
    parent_known = inr (current, refl, refl);
    reaches = refl;
  })
]
plan_item-IsItem path (some snap) none item h = elim (Bool-cases snap.deleted) [
  | inl gone ↦ cc (rw gone at h)
  | inr live ↦ subst_some (IsItem path (some snap) none) _ item (rw live at h) (record {
    at_path = refl;
    stays = refl;
    on_head = tt;
    parent_known = inl refl;
    reaches = rw live;
  })
]
plan_item-IsItem path (some snap) (some current) item h =
    elim (Bool-cases (matches_snapshot current snap)) [
      | inl same ↦ cc (rw same at h)
      | inr differ ↦ elim (Bool-cases snap.deleted) [
        | inl gone ↦
            subst_some (IsItem path (some snap) (some current)) _ item (rw (differ, gone) at h)
              (record {
                at_path = refl;
                stays = refl;
                on_head = refl;
                parent_known = inr (current, refl, refl);
                reaches = rw gone;
              })
        | inr live ↦
            subst_some (IsItem path (some snap) (some current)) _ item (rw (differ, live) at h)
              (record {
                at_path = refl;
                stays = refl;
                on_head = refl;
                parent_known = inr (current, refl, refl);
                reaches = rw live;
              })
      ]
    ]

module _ (u : Platform) (device_id : Str) (now : ℕ) where
  -- What one item does to a state whose row at the path is the one that it was planned for.
  pub record IsStep (path : Str) (snap : Option SnapshotHeadRecord) (st later : ArbitrationState)
      : Type 0 where
    pub well_formed : IsWellFormed later
    pub live : live_row (lookup path later.files) ≡ live_head snap
    pub frame : (q : Str) → path == q ≡ false → lookup q later.files ≡ lookup q st.files

  item_parent :
      (st : ArbitrationState) (w : IsWellFormed st) (path : Str) (snap : Option SnapshotHeadRecord)
      (item : SnapshotRestoreItem)
      → IsItem path snap (lookup path st.files) item
      → (parent : Option Version) × (find_parent st item.commit.parent_version ≡ ok parent)
  unfolding find_parent
  item_parent st w path snap item i = elim i.parent_known [
    | inl fresh ↦ (none, rw fresh)
    | inr (row, at, named) ↦ (some row.head, rw (named, (w.rows path row at).stored, find_parent))
  ]

  live_after :
      (commit : ArbitrationCommit) (found target : Option ArbitrationFileState)
      (snap : Option SnapshotHeadRecord) {st : ArbitrationState} {parent : Option Version}
      {result : ArbitrationVerdict} (t : IsTaken st commit device_id target parent result)
      → found ≡ some t.row
      → live_head snap ≡ (
          if is_delete commit.kind
          then none
          else some
              (record { hash = commit.hash; size = commit.size; is_folder = commit.is_folder }))
      → live_row found ≡ live_head snap
  live_after commit found target snap t at reaches =
      rw at (ground (arith, reaches, t.tombstone, t.hash, t.size, t.is_folder))

  pub restore_step-IsStep :
      (st : ArbitrationState) (w : IsWellFormed st) (path : Str) (snap : Option SnapshotHeadRecord)
      (item : SnapshotRestoreItem)
      → IsItem path snap (lookup path st.files) item
      → (later : ArbitrationState) × (restore_step u device_id now st item ≡ ok later)
        × IsStep path snap st later
  unfolding restore_step
  restore_step-IsStep st w path snap item i =
      let (parent, found) = item_parent st w path snap item i in
      let (result, run, t) =
        arbitrate_commit-IsTaken u device_id now [] st item.commit parent
          (lookup item.commit.path st.files) w i.stays found refl
          (subst (λ p. IsCurrent (lookup p st.files) item.commit) (sym i.at_path) i.on_head) in
      (
        result.state,
        rw (run, t.is_applied),
        record {
          well_formed =
              (arbitrate_commit-Extends u device_id now [] st item.commit result w run).well_formed;
          live =
              live_after item.commit (lookup path result.state.files) _ snap t
                (rw (t.files path, i.at_path, eq_refl path)) i.reaches;
          frame = λ q other. ground (arith, t.files q, i.at_path);
        },
      )
