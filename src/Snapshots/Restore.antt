-- ===== src/Snapshots/Restore.antt =====
-- The commit loop of a restore over a plan of `planSnapshotRestore`.
use vaultsyncforagents.Prelude.{
  ℕ, ◌≡◌, refl, ◌∙◌, true, false, none, some, List, [], ◌∷◌, ◌++◌, Str, ◌==◌, eq_iff, eq_refl,
  arith, Bool-cases, Option-cases, inl, inr,
}
use vaultsyncforagents.Prelude.Dict.{Dict, lookup, keys}
use vaultsyncforagents.Prelude.Failure.{ok}
use vaultsyncforagents.Platform.{Platform}
use vaultsyncforagents.Arbitrate.{ArbitrationFileState, ArbitrationState}
use vaultsyncforagents.Arbitrate.WellFormed.{IsWellFormed}
use vaultsyncforagents.Snapshots.{
  SnapshotHeadRecord, head_record, snapshot_heads_of, sorted_set, plan_item, plan_paths,
  plan_snapshot_restore, restore_all,
}
use vaultsyncforagents.Snapshots.Items.{
  live_row, live_head, plan_item-none, plan_item-IsItem, IsStep, restore_step-IsStep,
}
use vaultsyncforagents.Snapshots.SortedPaths.{
  contains, IsSorted, sorted_set-IsSorted, contains-sorted_set, contains-append,
  lookup-none_of_keys, ne_of_Above,
}

module _ (u : Platform) (device_id : Str) (now : ℕ) (files : Dict ArbitrationFileState)
    (heads : Dict SnapshotHeadRecord) where
  -- The loop over the items of some paths has brought those paths, and changed no other.
  record IsReplayed (paths : List Str) (st later : ArbitrationState) : Type 0 where
    well_formed : IsWellFormed later
    brought :
        (q : Str)
        → contains paths q ≡ true
        → live_row (lookup q later.files) ≡ live_head (lookup q heads)
    frame : (q : Str) → contains paths q ≡ false → lookup q later.files ≡ lookup q st.files

  abbrev Replay : List Str → ArbitrationState → Type 0
  Replay paths st =
      (later : ArbitrationState) × (restore_all u device_id now st (plan_paths files heads paths)
        ≡ ok later)
      × IsReplayed paths st later

  -- A path that the plan skips is at the snapshot's state already.
  skip-IsReplayed :
      (p : Str) (paths : List Str) (st later : ArbitrationState)
      → plan_item p (lookup p heads) (lookup p files) ≡ none
      → lookup p st.files ≡ lookup p files
      → IsReplayed paths st later
      → IsReplayed (p ∷ paths) st later
  unfolding contains
  skip-IsReplayed p paths st later skipped agree r = record {
    well_formed = r.well_formed;
    brought = λ q h. elim (Bool-cases (contains paths q)) [
      | inl later_on ↦ r.brought q later_on
      | inr not_later ↦ ground (
        arith,
        r.frame q not_later,
        eq_iff p q,
        plan_item-none p (lookup p heads) (lookup p files) skipped,
      )
    ];
    frame = λ q h. r.frame q (ground arith);
  }

  -- A path that was stepped is left alone by the rest of the loop.
  step-IsReplayed :
      (p : Str) (paths : List Str) (st middle later : ArbitrationState)
      → IsStep u device_id now p (lookup p heads) st middle
      → IsReplayed paths middle later
      → IsReplayed (p ∷ paths) st later
  unfolding contains
  step-IsReplayed p paths st middle later step r = record {
    well_formed = r.well_formed;
    brought = λ q h. elim (Bool-cases (contains paths q)) [
      | inl later_on ↦ r.brought q later_on
      | inr not_later ↦ ground (arith, r.frame q not_later, eq_iff p q, step.live)
    ];
    frame = λ q h. ground (arith, r.frame q, step.frame q);
  }

  replay :
      (paths : List Str) (st : ArbitrationState)
      → IsWellFormed st
      → IsSorted paths
      → ((q : Str) → contains paths q ≡ true → lookup q st.files ≡ lookup q files)
      → Replay paths st
  unfolding plan_paths restore_all contains
  replay [] st w s agree =
      (st, refl, record { well_formed = w; brought = λ q h. cc; frame = λ q h. refl })
  replay (p ∷ paths) st w (above, s) agree =
      let here : lookup p st.files ≡ lookup p files = agree p (rw eq_refl) in
      elim (Option-cases (plan_item p (lookup p heads) (lookup p files))) [
        | inl skipped ↦
            let (later, run, r) = replay paths st w s (λ q h. agree q (ground arith)) in
            (later, rw skipped run, skip-IsReplayed p paths st later skipped here r)
        | inr planned ↦
            let item = planned.0 in
            let (middle, ran, step) =
              restore_step-IsStep u device_id now st w p (lookup p heads) item
                (rw here (plan_item-IsItem p (lookup p heads) (lookup p files) item planned.1)) in
            let (later, run, r) =
              replay paths middle step.well_formed s
                (λ q h. step.frame q (ne_of_Above p q paths above h) ∙ agree q (ground arith)) in
            (
              later,
              rw (planned.1, ran, restore_all) run,
              step-IsReplayed p paths st middle later step r,
            )
      ]

-- The restore of a snapshot over a well-formed state always succeeds: every commit of the plan is
-- applied, the state that is left is well formed, and each path then holds what the snapshot
-- recorded for it, live content with its hash, size and folder flag, or nothing.
pub restore_reaches_snapshot :
    (u : Platform) (device_id : Str) (now : ℕ) (st : ArbitrationState)
    (heads : Dict SnapshotHeadRecord)
    → IsWellFormed st
    → (later : ArbitrationState) × (restore_all u device_id now st (plan_snapshot_restore st heads)
        ≡ ok later)
      × IsWellFormed later
      × ((q : Str) → live_row (lookup q later.files) ≡ live_head (lookup q heads))
unfolding plan_snapshot_restore
restore_reaches_snapshot u device_id now st heads w =
    let paths = sorted_set (keys heads ++ keys st.files) in
    let (later, run, r) =
      replay u device_id now st.files heads paths st w (sorted_set-IsSorted _) (λ q h. refl) in
    (
      later,
      run,
      r.well_formed,
      λ q. elim (Bool-cases (contains paths q)) [
        | inl known ↦ r.brought q known
        | inr unknown ↦ ground (
          arith,
          r.frame q unknown,
          contains-sorted_set q (keys heads ++ keys st.files),
          contains-append q (keys heads) (keys st.files),
          lookup-none_of_keys q heads,
          lookup-none_of_keys q st.files,
        )
      ],
    )

live-head_record :
    (row : ArbitrationFileState) → live_head (some (head_record row)) ≡ live_row (some row)
unfolding head_record
live-head_record row = refl

pub live-snapshot_heads_of :
    (files : Dict ArbitrationFileState) (q : Str)
    → live_head (lookup q (snapshot_heads_of files)) ≡ live_row (lookup q files)
unfolding snapshot_heads_of lookup
live-snapshot_heads_of [] q = refl
live-snapshot_heads_of ((path, row) ∷ files) q = elim (Bool-cases (path == q)) [
  | inl same ↦ rw same (live-head_record row)
  | inr differ ↦ rw differ (live-snapshot_heads_of files q)
]

-- Capturing a snapshot of one state and restoring it over any other well-formed state brings
-- every path back to what it held in the first, as far as a reader of the vault sees.
pub restore-snapshot_heads_of :
    (u : Platform) (device_id : Str) (now : ℕ) (captured st : ArbitrationState)
    → IsWellFormed st
    → (later : ArbitrationState) × (restore_all u device_id now st
          (plan_snapshot_restore st (snapshot_heads_of captured.files))
        ≡ ok later)
      × ((q : Str) → live_row (lookup q later.files) ≡ live_row (lookup q captured.files))
restore-snapshot_heads_of u device_id now captured st w =
    let (later, run, v, reached) =
      restore_reaches_snapshot u device_id now st (snapshot_heads_of captured.files) w in
    (later, run, λ q. reached q ∙ live-snapshot_heads_of captured.files q)
