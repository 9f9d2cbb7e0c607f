-- ===== src/Authority/History.antt =====
-- How the log grows and is pruned, and what it holds after a cursor.
use vaultsyncforagents.Prelude.{
  ℕ, ◌+◌, ◌≤◌, ◌<◌, ◌≡◌, refl, sym, ap, ◌∙◌, true, false, Bool, Option, none, some, List, [], ◌∷◌,
  ◌++◌, Str, arith, Bool-cases, inl, inr, All, All-map, Pairwise, length, length-append, ltb, subst,
}
use vaultsyncforagents.Arbitrate.{ArbitrationState, ChangePayload}
use vaultsyncforagents.Arbitrate.WellFormed.{IsWellFormed}
use vaultsyncforagents.Authority.Messages.{ChangeMessage}
use vaultsyncforagents.Authority.State.{Server, record_change, next_change, prune_log}
use vaultsyncforagents.Authority.Hello.{changes_after, oldest_retained_seq}
use vaultsyncforagents.Authority.Commits.{record_if, record_copy}
use vaultsyncforagents.Authority.Changes.{Vault, vault}
use vaultsyncforagents.Authority.Numbers.{IsNumbered}
use vaultsyncforagents.Authority.Follow.{
  primary_payloads, copy_payloads, heads_of, follow_all, follow_all-eq, follow_all-append,
}

-- The numbers of some changes are the ones that follow a number.
unfoldable pub IsCounted : ℕ → List ChangeMessage → Type 0
IsCounted seq [] = Unit
IsCounted seq (entry ∷ entries) = (entry.seq ≡ seq + 1) × IsCounted (seq + 1) entries

pub IsCounted-append :
    (seq : ℕ) (first second : List ChangeMessage)
    → IsCounted seq first
    → IsCounted (seq + length first) second
    → IsCounted seq (first ++ second)
unfolding IsCounted
IsCounted-append seq [] second a b = subst (λ n. IsCounted n second) (omega arith) b
IsCounted-append seq (entry ∷ first) second (e, a) b =
    (e, IsCounted-append (seq + 1) first second a (subst (λ n. IsCounted n second) (omega arith) b))

abbrev pub payloads_of : List ChangeMessage → List ChangePayload
payloads_of [] = []
payloads_of (entry ∷ entries) = entry.payload ∷ payloads_of entries

pub payloads_of-append :
    (first second : List ChangeMessage)
    → payloads_of (first ++ second) ≡ payloads_of first ++ payloads_of second
payloads_of-append [] second = refl
payloads_of-append (entry ∷ first) second = rw (payloads_of-append first second)

pub append_assoc {ℓ} : {A : Type ℓ} (xs ys zs : List A) → (xs ++ ys) ++ zs ≡ xs ++ (ys ++ zs)
append_assoc [] ys zs = refl
append_assoc (x ∷ xs) ys zs = rw (append_assoc xs ys zs)

pub append_nil {ℓ} : {A : Type ℓ} (xs : List A) → xs ++ [] ≡ xs
append_nil [] = refl
append_nil (x ∷ xs) = rw (append_nil xs)

-- What the log has become: some of its front is gone, and some changes have joined at its end.
pub record IsJoined (v later : Vault) (joined : List ChangeMessage) : Type 0 where
  pub gone : List ChangeMessage
  pub log : gone ++ later.log ≡ v.log ++ joined
  pub counted : IsCounted v.seq joined
  pub seq : later.seq ≡ v.seq + length joined

pub IsJoined-record_change :
    (v : Vault) (s : Server) (joined : List ChangeMessage) (payload : ChangePayload)
    → IsJoined v (vault s) joined
    → IsJoined v (vault (record_change s payload)) (joined ++ next_change s payload ∷ [])
unfolding record_change IsCounted
IsJoined-record_change v s joined payload i = record {
  gone = i.gone;
  log =
      sym (append_assoc i.gone s.log (next_change s payload ∷ []))
      ∙ ap (λ l. l ++ next_change s payload ∷ []) i.log
      ∙ append_assoc v.log joined (next_change s payload ∷ []);
  counted =
      IsCounted-append v.seq joined (next_change s payload ∷ []) i.counted
        ((omega (arith, i.seq), tt));
  seq = omega (arith, i.seq, length-append joined (next_change s payload ∷ []));
}

-- The changes that have joined, with their payloads known.
pub record IsGrown (v later : Vault) (payloads : List ChangePayload) : Type 0 where
  pub joined : List ChangeMessage
  pub is_joined : IsJoined v later joined
  pub same : payloads_of joined ≡ payloads

pub IsGrown-record_change :
    (v : Vault) (s : Server) (payloads : List ChangePayload) (payload : ChangePayload)
    → IsGrown v (vault s) payloads
    → IsGrown v (vault (record_change s payload)) (payloads ++ payload ∷ [])
IsGrown-record_change v s payloads payload i = record {
  joined = i.joined ++ next_change s payload ∷ [];
  is_joined = IsJoined-record_change v s i.joined payload i.is_joined;
  same =
      payloads_of-append i.joined (next_change s payload ∷ []) ∙ ap (λ l. l ++ payload ∷ []) i.same;
}

pub IsGrown-record_if :
    (v : Vault) (b : Bool) (s : Server) (payloads : List ChangePayload) (payload : ChangePayload)
    → IsGrown v (vault s) payloads
    → IsGrown v (vault (record_if b s payload)) (payloads ++ primary_payloads b payload)
IsGrown-record_if v true s payloads payload i = IsGrown-record_change v s payloads payload i
IsGrown-record_if v false s payloads payload i = rw (append_nil payloads) i

pub IsGrown-record_copy :
    (v : Vault) (s : Server) (payloads : List ChangePayload) (payload : Option ChangePayload)
    → IsGrown v (vault s) payloads
    → IsGrown v (vault (record_copy s payload)) (payloads ++ copy_payloads payload)
IsGrown-record_copy v s payloads (some payload) i = IsGrown-record_change v s payloads payload i
IsGrown-record_copy v s payloads none i = rw (append_nil payloads) i

-- Pruning takes the log's front away.
pub prune_log-split :
    (before_seq : ℕ) (log : List ChangeMessage)
    → (gone : List ChangeMessage) × (gone ++ prune_log before_seq log ≡ log)
unfolding prune_log
prune_log-split before_seq [] = ([], refl)
prune_log-split before_seq (entry ∷ log) = elim (Bool-cases (ltb entry.seq before_seq)) [
  | inl old ↦
      let (gone, e) = prune_log-split before_seq log in
      (entry ∷ gone, rw old (ap (λ l. entry ∷ l) e))
  | inr kept ↦ ([], rw kept refl)
]

-- The vault later: well formed, with the log grown by changes that lead from the heads before.
pub record IsLater (v later : Vault) : Type 0 where
  pub well_formed : IsWellFormed later.state
  pub payloads : List ChangePayload
  pub grown : IsGrown v later payloads
  pub heads : (path : Str) → follow_all (heads_of v.state) payloads path ≡ heads_of later.state path

pub IsLater-refl : (v : Vault) → IsWellFormed v.state → IsLater v v
unfolding IsCounted
IsLater-refl v w = record {
  well_formed = w;
  payloads = [];
  grown = record {
    joined = [];
    is_joined = record { gone = []; log = sym (append_nil v.log); counted = tt; seq = omega arith };
    same = refl;
  };
  heads = λ path. refl;
}

pub heads-compose :
    (v middle later : ArbitrationState) (first second : List ChangePayload)
    → ((path : Str) → follow_all (heads_of v) first path ≡ heads_of middle path)
    → ((path : Str) → follow_all (heads_of middle) second path ≡ heads_of later path)
    → (path : Str) → follow_all (heads_of v) (first ++ second) path ≡ heads_of later path
heads-compose v middle later first second a b path =
    rw follow_all-append (
      follow_all-eq (follow_all (heads_of v) first) (heads_of middle) second path (a path) ∙ b path)

pub changes_after-append :
    (cursor : ℕ) (first second : List ChangeMessage)
    → changes_after cursor (first ++ second)
      ≡ changes_after cursor first ++ changes_after cursor second
unfolding changes_after
changes_after-append cursor [] second = refl
changes_after-append cursor (entry ∷ first) second = elim (Bool-cases (ltb cursor entry.seq)) [
  | inl newer ↦ rw (newer, changes_after-append cursor first second) refl
  | inr older ↦ rw (older, changes_after-append cursor first second) refl
]

pub changes_after-old :
    (cursor : ℕ) (log : List ChangeMessage)
    → All (λ entry. entry.seq ≤ cursor) log
    → changes_after cursor log ≡ []
unfolding changes_after
changes_after-old cursor [] all = refl
changes_after-old cursor (entry ∷ log) (h, all) =
    let e : ltb cursor entry.seq ≡ false = ground arith in rw (e, changes_after-old cursor log all)

pub changes_after-counted :
    (cursor seq : ℕ) (log : List ChangeMessage)
    → cursor ≤ seq
    → IsCounted seq log
    → changes_after cursor log ≡ log
unfolding changes_after IsCounted
changes_after-counted cursor seq [] h c = refl
changes_after-counted cursor seq (entry ∷ log) h (e, c) =
    let newer : ltb cursor entry.seq ≡ true = ground arith in
    rw (newer, changes_after-counted cursor (seq + 1) log (omega arith) c)

abbrev pub IsBefore : ChangeMessage → ChangeMessage → Type 0
IsBefore a b = a.seq < b.seq

pub counted-after :
    (n seq : ℕ) (log : List ChangeMessage)
    → n ≤ seq
    → IsCounted seq log
    → All (λ entry. n < entry.seq) log
unfolding IsCounted
counted-after n seq [] h c = tt
counted-after n seq (entry ∷ log) h (e, c) =
    (omega arith, counted-after n (seq + 1) log (omega arith) c)

pub counted-ascending :
    (seq : ℕ) (log : List ChangeMessage) → IsCounted seq log → Pairwise IsBefore log
unfolding IsCounted
counted-ascending seq [] c = tt
counted-ascending seq (entry ∷ log) (e, c) =
    (counted-after entry.seq (seq + 1) log (omega arith) c, counted-ascending (seq + 1) log c)

pub All-append {ℓ κ} :
    {A : Type ℓ} (P : A → Type κ) (xs ys : List A) → All P xs → All P ys → All P (xs ++ ys)
All-append P [] ys hx hy = hy
All-append P (x ∷ xs) ys (p, hx) hy = (p, All-append P xs ys hx hy)

pub history-ascending :
    (seq : ℕ) (first second : List ChangeMessage)
    → Pairwise IsBefore first
    → All (λ entry. entry.seq ≤ seq) first
    → IsCounted seq second
    → Pairwise IsBefore (first ++ second)
history-ascending seq [] second pairs all c = counted-ascending seq second c
history-ascending seq (entry ∷ first) second (above, pairs) (h, all) c = (
  All-append (IsBefore entry) first second above (counted-after entry.seq seq second h c),
  history-ascending seq first second pairs all c,
)

pub front-before :
    (gone rest : List ChangeMessage) (entry : ChangeMessage)
    → Pairwise IsBefore (gone ++ entry ∷ rest)
    → All (λ g. g.seq < entry.seq) gone
front-before [] rest entry pairs = tt
front-before (first ∷ gone) rest entry (above, pairs) =
    (at_entry gone above, front-before gone rest entry pairs)
  where
    at_entry :
        (gone : List ChangeMessage)
        → All (IsBefore first) (gone ++ entry ∷ rest)
        → first.seq < entry.seq
    at_entry [] (h, all) = h
    at_entry (other ∷ gone) (h, all) = at_entry gone all

pub none_joined : (joined : List ChangeMessage) → length joined ≤ 0 → joined ≡ []
none_joined [] h = refl
none_joined (entry ∷ joined) h = absurd (omega arith)

-- The changes that joined are those after the cursor, when the log still reaches back to it.
pub retained-joined :
    (s later : Server) (joined : List ChangeMessage)
    → IsNumbered (vault s)
    → IsJoined (vault s) (vault later) joined
    → oldest_retained_seq later ≤ s.seq + 1
    → changes_after s.seq later.log ≡ joined
unfolding changes_after
retained-joined s later joined n j retained = go later.log refl retained
  where
    whole : changes_after s.seq (s.log ++ joined) ≡ joined
    whole =
        rw
          (
            changes_after-append s.seq s.log joined,
            changes_after-old s.seq s.log n.bounded,
            changes_after-counted s.seq s.seq joined (omega arith) j.counted,
          )
          refl

    front : changes_after s.seq j.gone ++ changes_after s.seq later.log ≡ joined
    front =
        sym (changes_after-append s.seq j.gone later.log) ∙ ap (changes_after s.seq) j.log ∙ whole

    go :
        (log : List ChangeMessage)
        → later.log ≡ log
        → oldest_retained_seq later ≤ s.seq + 1
        → changes_after s.seq later.log ≡ joined
    go [] e h =
        let short : later.seq + 1 ≤ s.seq + 1 = rw e at h in
        rw (e, none_joined joined (omega (arith, j.seq))) refl
    go (entry ∷ rest) e h =
        let pairs : Pairwise IsBefore (j.gone ++ entry ∷ rest) =
          subst (λ log. Pairwise IsBefore (j.gone ++ log)) e
            (subst (Pairwise IsBefore) (sym j.log)
              (history-ascending s.seq s.log joined n.ascending n.bounded j.counted)) in
        let oldest : entry.seq ≤ s.seq + 1 = rw e at h in
        let old : changes_after s.seq j.gone ≡ [] =
          changes_after-old s.seq j.gone
            (All-map _ (λ g b. omega arith) j.gone (front-before j.gone rest entry pairs)) in
        rw old at front
