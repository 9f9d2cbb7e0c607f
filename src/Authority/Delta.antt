-- ===== src/Authority/Delta.antt =====
-- The delta manifest: what it holds of the heads that have changed since its cursor.
use vaultsyncforagents.Prelude.{
  ℕ, ◌+◌, ◌≤◌, ◌<◌, ◌≡◌, refl, sym, ap, ◌∙◌, true, false, Bool, Option, none, some, [], ◌∷◌, Str,
  ◌==◌, eq_iff, arith, Bool-cases, inl, inr, ◌⊎◌, All, ◌&&◌, subst, or_default, eq_refl, subst_some,
}
use vaultsyncforagents.Prelude.Dict.{Dict, lookup, insert, lookup-insert, lookup-erase}
use vaultsyncforagents.Types.{is_rename}
use vaultsyncforagents.Platform.{Platform}
use vaultsyncforagents.Wire.{Crypto}
use vaultsyncforagents.Arbitrate.{ArbitrationFileState, ChangePayload, is_just}
use vaultsyncforagents.Arbitrate.WellFormed.{IsWellFormed}
use vaultsyncforagents.Arbitrate.Extends.{arbitrate_commit-Extends}
use vaultsyncforagents.Authority.State.{
  Server, ServerOptions, record_change, source_dropped, prune_events, empty_server,
}
use vaultsyncforagents.Authority.Content.{is_old, manifest_entry, manifest_entries}
use vaultsyncforagents.Authority.Commits.{
  adopted, adopt, record_if, record_copy, head_changed, commit_of, device_names,
}
use vaultsyncforagents.Authority.Changes.{
  Vault, vault, Change, unchanged, stored, captured, committed, restored, pruned, Changes, done,
  next,
}
use vaultsyncforagents.Authority.Steps.{Reach, Reach-Changes}
use vaultsyncforagents.Authority.Follow.{
  Heads, heads_of, PathHead, follow, follow_all, follow_all-append, primary_payloads, copy_payloads,
  arbitrate_commit-Follows, applied-conflict_copy, IsProperPayload, arbitrate_commit-IsProper,
  row_head,
}
use vaultsyncforagents.Authority.CatchUp.{IsProper, state-recorded, Reach-IsWellFormed}

-- A head is as it was at the vault `v`, or its number is above the number of `v`.
record IsTracked (v : Vault) (heads : Heads) (s : Server) : Type 0 where
  later : v.seq ≤ s.seq
  tracked :
      (path : Str) (head : PathHead)
      → heads path ≡ some head
      → (heads_of v.state path ≡ some head) ⊎ (v.seq < or_default (lookup path s.head_seq) 0)

dropped_self :
    (payload : ChangePayload) (head_seq : Dict ℕ) (path : Str)
    → (is_rename payload.kind && is_just path payload.from_path ≡ false)
    → lookup path (source_dropped payload payload.from_path head_seq) ≡ lookup path head_seq
dropped_self payload head_seq path h = go payload.from_path h
  where
    go :
        (from : Option Str)
        → (is_rename payload.kind && is_just path from ≡ false)
        → lookup path (source_dropped payload from head_seq) ≡ lookup path head_seq
    go none h = refl
    go (some from) h =
        ground (arith, lookup-erase from path head_seq, eq_iff from path, eq_iff path from)

IsTracked-record_change :
    (v : Vault) (heads : Heads) (s : Server) (payload : ChangePayload)
    → IsProperPayload payload
    → IsTracked v heads s
    → IsTracked v (follow heads payload) (record_change s payload)
unfolding record_change
IsTracked-record_change v heads s payload proper i = record {
  later = omega (arith, i.later);
  tracked = λ path head h. elim (Bool-cases (payload.path == path)) [
    | inl same ↦ inr (
        let own = dropped_self payload (insert payload.path (s.seq + 1) s.head_seq) path (
          subst (λ p. is_rename payload.kind && is_just p payload.from_path ≡ false)
            ((eq_iff payload.path path).0 same) proper) in
        let number : lookup path (insert payload.path (s.seq + 1) s.head_seq) ≡ some (s.seq + 1) =
          ground (arith, lookup-insert payload.path path (s.seq + 1) s.head_seq) in
        rw (own, number) (omega (arith, i.later)))
    | inr differ ↦ elim (Bool-cases (is_rename payload.kind && is_just path payload.from_path)) [
      | inl gone ↦ cc (rw (differ, gone) at h)
      | inr stays ↦
          let own = dropped_self payload (insert payload.path (s.seq + 1) s.head_seq) path stays in
          let number : lookup path (insert payload.path (s.seq + 1) s.head_seq)
              ≡ lookup path s.head_seq =
            ground (arith, lookup-insert payload.path path (s.seq + 1) s.head_seq) in
          rw (own, number) (i.tracked path head (rw (differ, stays) at h))
    ]
  ];
}

IsTracked-record_if :
    (v : Vault) (heads : Heads) (b : Bool) (s : Server) (payload : ChangePayload)
    → IsProperPayload payload
    → IsTracked v heads s
    → IsTracked v (follow_all heads (primary_payloads b payload)) (record_if b s payload)
IsTracked-record_if v heads true s payload proper i =
    IsTracked-record_change v heads s payload proper i
IsTracked-record_if v heads false s payload proper i = i

IsTracked-record_copy :
    (v : Vault) (heads : Heads) (s : Server) (payload : Option ChangePayload)
    → All IsProperPayload (copy_payloads payload)
    → IsTracked v heads s
    → IsTracked v (follow_all heads (copy_payloads payload)) (record_copy s payload)
IsTracked-record_copy v heads s (some payload) (proper, _) i =
    IsTracked-record_change v heads s payload proper i
IsTracked-record_copy v heads s none proper i = i

IsTracked-heads :
    (v : Vault) (a b : Heads) (s : Server)
    → ((path : Str) → a path ≡ b path)
    → IsTracked v a s
    → IsTracked v b s
IsTracked-heads v a b s h i = record {
  later = i.later;
  tracked = λ path head e. i.tracked path head (h path ∙ e);
}

IsTracked-same :
    {v : Vault} {heads : Heads} {s later : Server}
    → s.seq ≡ later.seq
    → s.head_seq ≡ later.head_seq
    → IsTracked v heads s
    → IsTracked v heads later
IsTracked-same {v} {heads} {s} {later} e f i = record {
  later = omega (arith, i.later);
  tracked = λ path head h. rw (sym f) (i.tracked path head h);
}

-- The vault later: well formed, with every head tracked.
record IsFollowed (v : Vault) (s : Server) : Type 0 where
  well_formed : IsWellFormed s.state
  is_tracked : IsTracked v (heads_of s.state) s

module _ (u : Platform) (crypto : Crypto) (v : Vault) where
  Change-IsFollowed :
      {s later : Server} → Change u crypto IsProper s later → IsFollowed v s → IsFollowed v later
  unfolding adopted adopt commit_of prune_events
  Change-IsFollowed {s} {later} (unchanged e) i = record {
    well_formed = subst IsWellFormed (sym (ap (λ w. w.state) e)) i.well_formed;
    is_tracked =
        IsTracked-heads v (heads_of s.state) (heads_of later.state) later
          (λ path. sym (ap (λ w. heads_of w.state path) e))
          (IsTracked-same (sym (ap (λ w. w.seq) e)) (sym (ap (λ w. w.head_seq) e)) i.is_tracked);
  }
  Change-IsFollowed (stored hash bytes h) i = record {
    well_formed = i.well_formed;
    is_tracked = IsTracked-same refl refl i.is_tracked;
  }
  Change-IsFollowed (captured snapshot h) i = record {
    well_formed = i.well_formed;
    is_tracked = IsTracked-same refl refl i.is_tracked;
  }
  Change-IsFollowed {s} (committed device_id message now claim verdict proper _ _ _ ran) i =
      let copy = verdict.outcome.conflict_copy in
      let b = head_changed verdict.outcome device_id in
      let primary = primary_payloads b verdict.outcome.broadcast in
      let (own, copies) =
        arbitrate_commit-IsProper u device_id now (device_names s.devices) s.state
          (commit_of message) verdict i.well_formed proper ran in
      record {
        well_formed =
            rw state-recorded
              (arbitrate_commit-Extends u device_id now (device_names s.devices) s.state
                (commit_of message) verdict i.well_formed ran).well_formed;
        is_tracked =
            IsTracked-heads v
              (follow_all (follow_all (heads_of s.state) primary) (copy_payloads copy)) _ _
              (λ path. rw state-recorded (
                ap (λ f. f path)
                  (sym (follow_all-append (heads_of s.state) primary (copy_payloads copy)))
                ∙ arbitrate_commit-Follows u device_id now (device_names s.devices) s.state
                    (commit_of message) verdict i.well_formed proper ran path))
              (IsTracked-record_copy v (follow_all (heads_of s.state) primary)
                (record_if b (adopt s message claim verdict) verdict.outcome.broadcast) copy copies
                (IsTracked-record_if v (heads_of s.state) b (adopt s message claim verdict)
                  verdict.outcome.broadcast own (IsTracked-same refl refl i.is_tracked)));
      }
  Change-IsFollowed {s} (restored device_id id now snapshot item verdict found planned ran is) i =
      let proper : is_rename item.commit.kind && is_just item.commit.path item.commit.from_path
          ≡ false =
        rw planned.stays refl in
      let own =
        (arbitrate_commit-IsProper u device_id now [] s.state item.commit verdict i.well_formed
          proper ran).0 in
      record {
        well_formed =
            (arbitrate_commit-Extends u device_id now [] s.state item.commit verdict i.well_formed
              ran).well_formed;
        is_tracked =
            IsTracked-heads v (follow (heads_of s.state) verdict.outcome.broadcast) _ _
              (λ path.
                rw (is, applied-conflict_copy u device_id now [] s.state item.commit verdict ran is)
                  at
                  (arbitrate_commit-Follows u device_id now [] s.state item.commit verdict
                    i.well_formed proper ran path))
              (IsTracked-record_change v (heads_of s.state) (record s { state = verdict.state })
                verdict.outcome.broadcast own (IsTracked-same refl refl i.is_tracked));
      }
  Change-IsFollowed (pruned before_seq) i = record {
    well_formed = i.well_formed;
    is_tracked = IsTracked-same refl refl i.is_tracked;
  }

  Changes-IsFollowed :
      {s later : Server} → Changes u crypto IsProper s later → IsFollowed v s → IsFollowed v later
  Changes-IsFollowed done i = i
  Changes-IsFollowed (next cs c) i = Change-IsFollowed c (Changes-IsFollowed cs i)

lookup-manifest_entries :
    (head_seq : Dict ℕ) (since : Option ℕ) (files : Dict ArbitrationFileState) (path : Str)
    (row : ArbitrationFileState)
    → lookup path files ≡ some row
    → is_old head_seq since path ≡ false
    → lookup path (manifest_entries head_seq since files) ≡ some (manifest_entry path row)
unfolding lookup manifest_entries
lookup-manifest_entries head_seq since [] path row h fresh = cc
lookup-manifest_entries head_seq since ((first, file) ∷ files) path row h fresh =
    elim (Bool-cases (first == path)) [
      | inl same ↦
          let e : first ≡ path = (eq_iff first path).0 same in
          let here : file ≡ row = subst_some (λ r. file ≡ r) file row (rw same at h) refl in
          rw (e, fresh, eq_refl path, here) refl
      | inr differ ↦ elim (Bool-cases (is_old head_seq since first)) [
        | inl old ↦
            rw old (lookup-manifest_entries head_seq since files path row (rw differ at h) fresh)
        | inr new ↦
            rw (new, differ)
              (lookup-manifest_entries head_seq since files path row (rw differ at h) fresh)
      ]
    ]

-- The delta manifest since the number of an earlier state misses no change: every path that has
-- a row either has the head that it had in the earlier state, or is in the delta with its present
-- entry, whatever happened in between, unless a commit has renamed a path to itself.
pub manifest_entries_complete :
    (u : Platform) (crypto : Crypto) (options : ServerOptions) {s later : Server} (path : Str)
    (row : ArbitrationFileState)
    → Reach u crypto options IsProper empty_server s
    → Reach u crypto options IsProper s later
    → lookup path later.state.files ≡ some row
    → (heads_of s.state path ≡ some (row_head row))
      ⊎ (lookup path (manifest_entries later.head_seq (some s.seq) later.state.files)
          ≡ some (manifest_entry path row))
manifest_entries_complete u crypto options {s} {later} path row before after found =
    let i =
      Changes-IsFollowed u crypto (vault s) (Reach-Changes u crypto options IsProper after)
        (record {
          well_formed = Reach-IsWellFormed u crypto options before;
          is_tracked = record { later = omega arith; tracked = λ path head h. inl h };
        }) in
    let held : heads_of later.state path ≡ some (row_head row) = rw found refl in
    elim (i.is_tracked.tracked path (row_head row) held) [
      | inl unchanged_head ↦ inl unchanged_head
      | inr newer ↦ inr (
          lookup-manifest_entries later.head_seq (some s.seq) later.state.files path row found
            (ground arith))
    ]
