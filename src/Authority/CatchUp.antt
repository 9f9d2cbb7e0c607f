-- ===== src/Authority/CatchUp.antt =====
-- The catch-up replay of a hello: what the log holds after a cursor, and where it leads.
use vaultsyncforagents.Prelude.{
  ℕ, ◌+◌, ◌≤◌, ◌<◌, ◌≡◌, refl, sym, ap, ◌∙◌, true, false, Bool, Option, none, some, List, [], ◌++◌,
  Str, arith, ◌&&◌, subst,
}
use vaultsyncforagents.Prelude.Dict.{Dict}
use vaultsyncforagents.Types.{is_rename}
use vaultsyncforagents.Platform.{Platform}
use vaultsyncforagents.Wire.{Bytes, Crypto}
use vaultsyncforagents.Arbitrate.{ArbitrationState, ChangePayload, is_just}
use vaultsyncforagents.Arbitrate.WellFormed.{IsWellFormed, empty-IsWellFormed}
use vaultsyncforagents.Arbitrate.Extends.{arbitrate_commit-Extends}
use vaultsyncforagents.Authority.Messages.{CommitMessage, ChangeMessage}
use vaultsyncforagents.Authority.State.{
  Server, StoredSnapshot, ServerOptions, record_change, prune_events, empty_server,
}
use vaultsyncforagents.Authority.Hello.{catch_up, oldest_retained_seq}
use vaultsyncforagents.Authority.Commits.{
  adopted, adopt, record_if, record_copy, head_changed, commit_of, device_names,
}
use vaultsyncforagents.Authority.Changes.{
  Vault, vault, Change, unchanged, stored, captured, committed, restored, pruned, Changes, done,
  next,
}
use vaultsyncforagents.Authority.Numbers.{Reach-IsNumbered}
use vaultsyncforagents.Authority.Steps.{Reach, Reach-Changes}
use vaultsyncforagents.Authority.History.{
  payloads_of, append_assoc, IsGrown-record_if, IsGrown-record_copy, prune_log-split, IsLater,
  IsLater-refl, heads-compose, retained-joined,
}
use vaultsyncforagents.Authority.Follow.{
  primary_payloads, copy_payloads, heads_of, applied-conflict_copy, follow_all,
  arbitrate_commit-Follows,
}

abbrev pub IsProper : CommitMessage → Type 0
IsProper message = is_rename message.kind && is_just message.path message.from_path ≡ false

pub state-recorded :
    (b : Bool) (s : Server) (payload : ChangePayload) (copy : Option ChangePayload)
    → (record_copy (record_if b s payload) copy).state ≡ s.state
unfolding record_change
state-recorded true s payload none = refl
state-recorded true s payload (some copy) = refl
state-recorded false s payload none = refl
state-recorded false s payload (some copy) = refl

-- What only the state, the log and the counter tell.
IsLater-quiet :
    {v : Vault} {blobs blobs' : Dict Bytes} {snapshots snapshots' : List StoredSnapshot}
    {st : ArbitrationState} {head_seq head_seq' : Dict ℕ} {log : List ChangeMessage} {seq : ℕ}
    → IsLater v (record {
      state = st;
      blobs = blobs;
      head_seq = head_seq;
      log = log;
      seq = seq;
      snapshots = snapshots;
    })
    → IsLater v (record {
      state = st;
      blobs = blobs';
      head_seq = head_seq';
      log = log;
      seq = seq;
      snapshots = snapshots';
    })
IsLater-quiet i = record {
  well_formed = i.well_formed;
  payloads = i.payloads;
  grown = record {
    joined = i.grown.joined;
    is_joined = record {
      gone = i.grown.is_joined.gone;
      log = i.grown.is_joined.log;
      counted = i.grown.is_joined.counted;
      seq = i.grown.is_joined.seq;
    };
    same = i.grown.same;
  };
  heads = i.heads;
}

-- The changes of a verdict join the log, in their order.
IsLater-recorded :
    (v : Vault) (s : Server) (st : ArbitrationState) (b : Bool) (payload : ChangePayload)
    (copy : Option ChangePayload)
    → IsLater v (vault (record s { state = st }))
    → IsWellFormed s.state
    → ((path : Str)
        → follow_all (heads_of st) (primary_payloads b payload ++ copy_payloads copy) path
          ≡ heads_of s.state path)
    → IsLater v (vault (record_copy (record_if b s payload) copy))
IsLater-recorded v s st b payload copy i w follows = record {
  well_formed = rw state-recorded w;
  payloads = (i.payloads ++ primary_payloads b payload) ++ copy_payloads copy;
  grown =
      IsGrown-record_copy v (record_if b s payload) (i.payloads ++ primary_payloads b payload) copy
        (IsGrown-record_if v b s i.payloads payload (record {
          joined = i.grown.joined;
          is_joined = record {
            gone = i.grown.is_joined.gone;
            log = i.grown.is_joined.log;
            counted = i.grown.is_joined.counted;
            seq = i.grown.is_joined.seq;
          };
          same = i.grown.same;
        }));
  heads = λ path.
      rw (append_assoc i.payloads (primary_payloads b payload) (copy_payloads copy), state-recorded)
        (heads-compose v.state st s.state i.payloads
          (primary_payloads b payload ++ copy_payloads copy) i.heads follows path);
}

module _ (u : Platform) (crypto : Crypto) (v : Vault) where
  Change-IsLater :
      {s later : Server}
      → Change u crypto IsProper s later
      → IsLater v (vault s)
      → IsLater v (vault later)
  unfolding adopted adopt commit_of prune_events
  Change-IsLater (unchanged e) i = subst (IsLater v) (sym e) i
  Change-IsLater {s} (stored hash bytes h) i = IsLater-quiet i
  Change-IsLater {s} (captured snapshot h) i = IsLater-quiet i
  Change-IsLater {s} (committed device_id message now claim verdict proper _ _ _ ran) i =
      IsLater-recorded v (adopt s message claim verdict) s.state
        (head_changed verdict.outcome device_id) verdict.outcome.broadcast
        verdict.outcome.conflict_copy (IsLater-quiet i)
        ((arbitrate_commit-Extends u device_id now (device_names s.devices) s.state
          (commit_of message) verdict i.well_formed ran).well_formed)
        (arbitrate_commit-Follows u device_id now (device_names s.devices) s.state
          (commit_of message) verdict i.well_formed proper ran)
  Change-IsLater {s} (restored device_id id now snapshot item verdict found planned ran is) i =
      IsLater-recorded v (record s { state = verdict.state }) s.state true verdict.outcome.broadcast
        none (IsLater-quiet i)
        ((arbitrate_commit-Extends u device_id now [] s.state item.commit verdict i.well_formed
          ran).well_formed)
        (λ path.
          rw (is, applied-conflict_copy u device_id now [] s.state item.commit verdict ran is) at
            (arbitrate_commit-Follows u device_id now [] s.state item.commit verdict i.well_formed
              (rw planned.stays refl) ran path))
  Change-IsLater {s} (pruned before_seq) i =
      let (gone, e) = prune_log-split before_seq s.log in
      let j = i.grown.is_joined in
      record {
        well_formed = i.well_formed;
        payloads = i.payloads;
        grown = record {
          joined = i.grown.joined;
          is_joined = record {
            gone = j.gone ++ gone;
            log = append_assoc j.gone gone _ ∙ ap (λ l. j.gone ++ l) e ∙ j.log;
            counted = j.counted;
            seq = j.seq;
          };
          same = i.grown.same;
        };
        heads = i.heads;
      }

  Changes-IsLater :
      {s later : Server}
      → Changes u crypto IsProper s later
      → IsLater v (vault s)
      → IsLater v (vault later)
  Changes-IsLater done i = i
  Changes-IsLater (next cs c) i = Change-IsLater c (Changes-IsLater cs i)

pub Reach-IsWellFormed :
    (u : Platform) (crypto : Crypto) (options : ServerOptions) {s : Server}
    → Reach u crypto options IsProper empty_server s
    → IsWellFormed s.state
Reach-IsWellFormed u crypto options r =
    (Changes-IsLater u crypto (vault empty_server) (Reach-Changes u crypto options IsProper r)
      (IsLater-refl (vault empty_server) empty-IsWellFormed)).well_formed

-- A client that knows the heads of the vault at the number of an earlier state and then follows the
-- changes that the replay of a hello with that cursor sends has the heads of the present state,
-- whatever happened in between, as long as the log is retained from the cursor on, the cursor is
-- not zero, and no commit has renamed a path to itself.
pub catch_up-reaches :
    (u : Platform) (crypto : Crypto) (options : ServerOptions) {s later : Server} (path : Str)
    → Reach u crypto options IsProper empty_server s
    → Reach u crypto options IsProper s later
    → 0 < s.seq
    → oldest_retained_seq later ≤ s.seq + 1
    → follow_all (heads_of s.state) (payloads_of (catch_up s.seq later.log)) path
      ≡ heads_of later.state path
unfolding catch_up
catch_up-reaches u crypto options {s} {later} path before after positive retained =
    let w = Reach-IsWellFormed u crypto options before in
    let i =
      Changes-IsLater u crypto (vault s) (Reach-Changes u crypto options IsProper after)
        (IsLater-refl (vault s) w) in
    let sent : catch_up s.seq later.log ≡ i.grown.joined = ground (
      arith,
      retained-joined s later i.grown.joined (Reach-IsNumbered u crypto options IsProper before)
          i.grown.is_joined retained,
    ) in
    rw (sent, i.grown.same) (i.heads path)
