-- ===== src/Authority/Numbers.antt =====
-- The sequence numbers of the authority: the log, the heads and the counter.
use vaultsyncforagents.Prelude.{
  ℕ, ◌+◌, ◌≤◌, ◌<◌, ◌≡◌, true, false, Bool, Option, none, some, List, [], ◌∷◌, ◌++◌, Str, All,
  All-map, Pairwise, arith, Bool-cases, inl, inr, subst, sym, ltb,
}
use vaultsyncforagents.Prelude.Dict.{Dict, lookup, lookup-insert, lookup-erase, lookup-nil}
use vaultsyncforagents.Types.{is_rename}
use vaultsyncforagents.Platform.{Platform}
use vaultsyncforagents.Wire.{Crypto}
use vaultsyncforagents.Arbitrate.{ChangePayload}
use vaultsyncforagents.Authority.Messages.{CommitMessage, ChangeMessage}
use vaultsyncforagents.Authority.State.{
  Server, ServerOptions, record_change, next_change, source_dropped, prune_log, prune_events,
  empty_server,
}
use vaultsyncforagents.Authority.Commits.{adopted, adopt, record_if, record_copy, head_changed}
use vaultsyncforagents.Authority.Changes.{
  Vault, vault, Change, unchanged, stored, captured, committed, restored, pruned, Changes, done,
  next,
}
use vaultsyncforagents.Authority.Steps.{Reach, Reach-Changes}

-- The log is in the order of its numbers, and no number is above the counter.
pub record IsNumbered (v : Vault) : Type 0 where
  pub ascending : Pairwise (λ a b. a.seq < b.seq) v.log
  pub bounded : All (λ entry. entry.seq ≤ v.seq) v.log
  pub heads : (path : Str) (n : ℕ) → lookup path v.head_seq ≡ some n → n ≤ v.seq

module _ {ℓ} {A : Type ℓ} where
  pub All-append_one {κ} :
      (P : A → Type κ) (xs : List A) (x : A) → All P xs → P x → All P (xs ++ x ∷ [])
  All-append_one P [] x all p = (p, tt)
  All-append_one P (y ∷ xs) x (q, all) p = (q, All-append_one P xs x all p)

  pub Pairwise-append_one {κ} :
      (R : A → A → Type κ) (xs : List A) (x : A)
      → Pairwise R xs
      → All (λ y. R y x) xs
      → Pairwise R (xs ++ x ∷ [])
  Pairwise-append_one R [] x pairs all = (tt, tt)
  Pairwise-append_one R (y ∷ xs) x (above, pairs) (r, all) =
      (All-append_one (R y) xs x above r, Pairwise-append_one R xs x pairs all)

lookup-source_dropped :
    (payload : ChangePayload) (from : Option Str) (head_seq : Dict ℕ) (path : Str) (n : ℕ)
    → lookup path (source_dropped payload from head_seq) ≡ some n
    → lookup path head_seq ≡ some n
lookup-source_dropped payload none head_seq path n h = h
lookup-source_dropped payload (some from) head_seq path n h =
    elim (Bool-cases (is_rename payload.kind)) [
      | inl renames ↦
          ground (arith, lookup-erase from path head_seq, rw (source_dropped, renames) at h)
      | inr stays ↦ rw (source_dropped, stays) at h
    ]

pub record_change-IsNumbered :
    (s : Server) (payload : ChangePayload)
    → IsNumbered (vault s)
    → IsNumbered (vault (record_change s payload))
unfolding record_change
record_change-IsNumbered s payload i = record {
  ascending =
      Pairwise-append_one _ s.log (next_change s payload) i.ascending
        (All-map _ (λ entry h. omega arith) s.log i.bounded);
  bounded =
      All-append_one _ s.log (next_change s payload)
        (All-map _ (λ entry h. omega arith) s.log i.bounded) (omega arith);
  heads = λ path n h.
      let found = lookup-source_dropped payload payload.from_path _ path n h in
      ground (arith, lookup-insert payload.path path (s.seq + 1) s.head_seq, i.heads path n);
}

prune_log-IsNumbered :
    (before_seq seq : ℕ) (log : List ChangeMessage)
    → Pairwise (λ a b. a.seq < b.seq) log
    → All (λ entry. entry.seq ≤ seq) log
    → Pairwise (λ a b. a.seq < b.seq) (prune_log before_seq log)
      × All (λ entry. entry.seq ≤ seq) (prune_log before_seq log)
unfolding prune_log
prune_log-IsNumbered before_seq seq [] pairs all = (tt, tt)
prune_log-IsNumbered before_seq seq (entry ∷ log) (above, pairs) (h, all) =
    elim (Bool-cases (ltb entry.seq before_seq)) [
      | inl old ↦ rw old (prune_log-IsNumbered before_seq seq log pairs all)
      | inr kept ↦ rw kept ((above, pairs), (h, all))
    ]

record_if-IsNumbered :
    (b : Bool) (s : Server) (payload : ChangePayload)
    → IsNumbered (vault s)
    → IsNumbered (vault (record_if b s payload))
record_if-IsNumbered true s payload i = record_change-IsNumbered s payload i
record_if-IsNumbered false s payload i = i

record_copy-IsNumbered :
    (s : Server) (payload : Option ChangePayload)
    → IsNumbered (vault s)
    → IsNumbered (vault (record_copy s payload))
record_copy-IsNumbered s (some payload) i = record_change-IsNumbered s payload i
record_copy-IsNumbered s none i = i

module _ (u : Platform) (crypto : Crypto) (IsAllowed : CommitMessage → Type 0) where
  Change-IsNumbered :
      {s later : Server}
      → Change u crypto IsAllowed s later
      → IsNumbered (vault s)
      → IsNumbered (vault later)
  unfolding adopted adopt prune_events
  Change-IsNumbered (unchanged e) i = subst IsNumbered (sym e) i
  Change-IsNumbered (stored hash bytes h) i = record {
    ascending = i.ascending;
    bounded = i.bounded;
    heads = i.heads;
  }
  Change-IsNumbered (captured snapshot h) i = record {
    ascending = i.ascending;
    bounded = i.bounded;
    heads = i.heads;
  }
  Change-IsNumbered {s} (committed device_id message now claim verdict _ _ _ _ _) i =
      record_copy-IsNumbered
        (record_if (head_changed verdict.outcome device_id) (adopt s message claim verdict)
          verdict.outcome.broadcast)
        verdict.outcome.conflict_copy
        (record_if-IsNumbered (head_changed verdict.outcome device_id)
          (adopt s message claim verdict) verdict.outcome.broadcast
          (record { ascending = i.ascending; bounded = i.bounded; heads = i.heads }))
  Change-IsNumbered {s} (restored device_id id now snapshot item verdict _ _ _ _) i =
      record_change-IsNumbered (record s { state = verdict.state }) verdict.outcome.broadcast
        (record { ascending = i.ascending; bounded = i.bounded; heads = i.heads })
  Change-IsNumbered {s} (pruned before_seq) i =
      let (pairs, all) = prune_log-IsNumbered before_seq s.seq s.log i.ascending i.bounded in
      record { ascending = pairs; bounded = all; heads = i.heads }

  Changes-IsNumbered :
      {s later : Server}
      → Changes u crypto IsAllowed s later
      → IsNumbered (vault s)
      → IsNumbered (vault later)
  Changes-IsNumbered done i = i
  Changes-IsNumbered (next cs c) i = Change-IsNumbered c (Changes-IsNumbered cs i)

-- Whatever the messages and their order, the sequence numbers of the log stay strictly ascending,
-- and no change of the log and no head has a number above the counter.
pub Reach-IsNumbered :
    (u : Platform) (crypto : Crypto) (options : ServerOptions) (IsAllowed : CommitMessage → Type 0)
    {later : Server}
    → Reach u crypto options IsAllowed empty_server later
    → IsNumbered (vault later)
Reach-IsNumbered u crypto options IsAllowed r =
    Changes-IsNumbered u crypto IsAllowed (Reach-Changes u crypto options IsAllowed r)
      (record { ascending = tt; bounded = tt; heads = λ path n h. cc (lookup-nil {V = ℕ} path) })
