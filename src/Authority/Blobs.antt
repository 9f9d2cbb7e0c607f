-- ===== src/Authority/Blobs.antt =====
-- The content that the authority can serve.
use vaultsyncforagents.Prelude.{
  ◌≡◌, refl, true, false, Bool, Option, none, some, List, [], ◌∷◌, Str, ◌==◌, All, All-map, arith,
  eq_iff, eq_refl, Bool-cases, Option-cases, inl, inr, subst, sym, ◌∙◌, subst_some, ◌||◌,
}
use vaultsyncforagents.Prelude.Dict.{Dict, lookup, insert, has, lookup-insert, lookup-nil}
use vaultsyncforagents.Prelude.Failure.{Result, ok, err}
use vaultsyncforagents.Types.{is_delete}
use vaultsyncforagents.Platform.{Platform}
use vaultsyncforagents.Wire.{Bytes, Crypto, sha256_hex, base64_to_bytes, bytes_to_base64}
use vaultsyncforagents.Arbitrate.{ArbitrationFileState, ChangePayload}
use vaultsyncforagents.Arbitrate.Served.{IsServed, arbitrate_commit-IsServed}
use vaultsyncforagents.Snapshots.{SnapshotHeadRecord}
use vaultsyncforagents.Snapshots.Items.{Live, live_head, live_row}
use vaultsyncforagents.Snapshots.Restore.{live-snapshot_heads_of}
use vaultsyncforagents.Authority.Messages.{CommitMessage, blob_content}
use vaultsyncforagents.Authority.State.{
  StoredSnapshot, Server, ServerOptions, send, record_change, prune_events, empty_server,
}
use vaultsyncforagents.Authority.Content.{
  ContentClaim, no_bytes, verified, refused, check_inline, check_content, verify_commit_content,
  handle_get_blob,
}
use vaultsyncforagents.Authority.Commits.{
  adopted, adopt, with_blob, record_if, record_copy, head_changed, commit_of, device_names,
}
use vaultsyncforagents.Authority.Restores.{find_snapshot}
use vaultsyncforagents.Authority.Changes.{
  Vault, vault, is_accepted, Change, unchanged, stored, captured, committed, restored, pruned,
  Changes, done, next,
}
use vaultsyncforagents.Authority.Numbers.{All-append_one}
use vaultsyncforagents.Authority.Steps.{Reach, Reach-Changes}

abbrev HasBlob : Dict Bytes → Str → Type 0
HasBlob blobs hash = has hash blobs ≡ true

-- Every live head of a snapshot that is not a folder has its content.
abbrev pub IsKept : Dict Bytes → Dict SnapshotHeadRecord → Type 0
IsKept blobs heads =
    (path : Str) (live : Live)
    → live_head (lookup path heads) ≡ some live
    → live.is_folder ≡ false
    → has live.hash blobs ≡ true

HasBlob-insert :
    (key hash : Str) (bytes : Bytes) (blobs : Dict Bytes)
    → HasBlob blobs hash
    → HasBlob (insert key bytes blobs) hash
HasBlob-insert key hash bytes blobs h = rw lookup-insert (ground arith)

IsServed-live :
    (blobs : Dict Bytes) (row : Option ArbitrationFileState) (live : Live)
    → ((r : ArbitrationFileState)
        → row ≡ some r
        → r.deleted ≡ false
        → r.is_folder ≡ false
        → HasBlob blobs r.head.hash)
    → live_row row ≡ some live
    → live.is_folder ≡ false
    → HasBlob blobs live.hash
IsServed-live blobs none live served h file = cc
IsServed-live blobs (some row) live served h file = elim (Bool-cases row.deleted) [
  | inl gone ↦ cc (rw gone at h)
  | inr kept ↦ ground (arith, served row refl kept)
]

module _ (crypto : Crypto) where
  pub record HasContent (v : Vault) : Type 0 where
    pub served : IsServed (λ hash. has hash v.blobs ≡ true) v.state
    pub addressed :
        (hash : Str) (bytes : Bytes)
        → lookup hash v.blobs ≡ some bytes
        → sha256_hex crypto bytes ≡ hash
    pub kept : All (λ snapshot. IsKept v.blobs snapshot.heads) v.snapshots

  IsAddressed : Dict Bytes → Type 0
  IsAddressed blobs =
      (hash : Str) (bytes : Bytes) → lookup hash blobs ≡ some bytes → sha256_hex crypto bytes ≡ hash

  IsAddressed-insert :
      (key : Str) (bytes : Bytes) (blobs : Dict Bytes)
      → IsAddressed blobs
      → sha256_hex crypto bytes ≡ key
      → IsAddressed (insert key bytes blobs)
  unfolding IsAddressed
  IsAddressed-insert key bytes blobs all own hash found h = elim (Bool-cases (key == hash)) [
    | inl same ↦ ground (arith, lookup-insert key hash bytes blobs, eq_iff key hash)
    | inr differ ↦ all hash found (ground (arith, lookup-insert key hash bytes blobs))
  ]

  HasContent-insert :
      (s : Server) (key : Str) (bytes : Bytes)
      → HasContent (vault s)
      → sha256_hex crypto bytes ≡ key
      → HasContent (vault (record s { blobs = insert key bytes s.blobs }))
  unfolding IsAddressed
  HasContent-insert s key bytes i own = record {
    served = λ path row found live file.
        HasBlob-insert key row.head.hash bytes s.blobs (i.served path row found live file);
    addressed = IsAddressed-insert key bytes s.blobs i.addressed own;
    kept =
        All-map _
          (λ snapshot h path live found file.
            HasBlob-insert key live.hash bytes s.blobs (h path live found file))
          s.snapshots i.kept;
  }

  check_inline-verified :
      (message : CommitMessage) (bytes found : Bytes)
      → check_inline crypto message bytes ≡ verified found
      → sha256_hex crypto found ≡ message.hash
  unfolding check_inline
  check_inline-verified message bytes found h =
      ground (arith, eq_iff (sha256_hex crypto bytes) message.hash)

  check_content-verified :
      (blobs : Dict Bytes) (message : CommitMessage) (inline : Option Str) (found : Bytes)
      → check_content crypto blobs message inline ≡ verified found
      → sha256_hex crypto found ≡ message.hash
  unfolding check_content
  check_content-verified blobs message none found h = ground arith
  check_content-verified blobs message (some inline) found h =
      go (base64_to_bytes crypto inline) refl h
    where
      go :
          (r : Result Bytes)
          → base64_to_bytes crypto inline ≡ r
          → check_content crypto blobs message (some inline) ≡ verified found
          → sha256_hex crypto found ≡ message.hash
      go (err e) at h = cc (rw (check_content, at) at h)
      go (ok bytes) at h = check_inline-verified message bytes found (rw (check_content, at) at h)

  check_inline-not_no_bytes :
      (message : CommitMessage) (bytes : Bytes) → ¬ (check_inline crypto message bytes ≡ no_bytes)
  unfolding check_inline
  check_inline-not_no_bytes message bytes h = ground arith

  check_content-no_bytes :
      (blobs : Dict Bytes) (message : CommitMessage) (inline : Option Str)
      → check_content crypto blobs message inline ≡ no_bytes
      → HasBlob blobs message.hash
  unfolding check_content
  check_content-no_bytes blobs message none h = ground arith
  check_content-no_bytes blobs message (some inline) h = go (base64_to_bytes crypto inline) refl h
    where
      go :
          (r : Result Bytes)
          → base64_to_bytes crypto inline ≡ r
          → check_content crypto blobs message (some inline) ≡ no_bytes
          → HasBlob blobs message.hash
      go (err e) at h = cc (rw (check_content, at) at h)
      go (ok bytes) at h =
          absurd (check_inline-not_no_bytes message bytes (rw (check_content, at) at h))

  -- An accepted claim: what is stored is the claimed content, and the commit's content is there.
  claim-IsContent :
      (s : Server) (message : CommitMessage) (claim : ContentClaim)
      → verify_commit_content crypto s.blobs message ≡ claim
      → is_accepted claim ≡ true
      → HasContent (vault s)
      → HasContent (vault (record s { blobs = with_blob message.hash claim s.blobs }))
        × (is_delete message.kind ≡ false
            → message.is_folder ≡ false
            → HasBlob (with_blob message.hash claim s.blobs) message.hash)
  unfolding verify_commit_content check_content
  claim-IsContent s message (refused code) h accepted i = cc
  claim-IsContent s message no_bytes h accepted i = (
    record { served = i.served; addressed = i.addressed; kept = i.kept },
    λ live file. check_content-no_bytes s.blobs message message.inline (rw (live, file) at h),
  )
  claim-IsContent s message (verified bytes) h accepted i =
      let own : sha256_hex crypto bytes ≡ message.hash =
        elim (Bool-cases (is_delete message.kind || message.is_folder)) [
          | inl none_needed ↦ cc (rw none_needed at h)
          | inr needed ↦
              check_content-verified s.blobs message message.inline bytes (rw needed at h)
        ] in
      (
        HasContent-insert s message.hash bytes i own,
        λ live file. rw lookup-insert (rw eq_refl refl),
      )

  HasContent-record_change :
      (s : Server) (payload : ChangePayload)
      → HasContent (vault s)
      → HasContent (vault (record_change s payload))
  unfolding record_change
  HasContent-record_change s payload i = record {
    served = i.served;
    addressed = i.addressed;
    kept = i.kept;
  }

  HasContent-record_if :
      (b : Bool) (s : Server) (payload : ChangePayload)
      → HasContent (vault s)
      → HasContent (vault (record_if b s payload))
  HasContent-record_if true s payload i = HasContent-record_change s payload i
  HasContent-record_if false s payload i = i

  HasContent-record_copy :
      (s : Server) (payload : Option ChangePayload)
      → HasContent (vault s)
      → HasContent (vault (record_copy s payload))
  HasContent-record_copy s (some payload) i = HasContent-record_change s payload i
  HasContent-record_copy s none i = i

  find_snapshot-All :
      (P : StoredSnapshot → Type 0) (snapshots : List StoredSnapshot) (id : Str)
      (snapshot : StoredSnapshot)
      → All P snapshots
      → find_snapshot snapshots id ≡ some snapshot
      → P snapshot
  unfolding find_snapshot
  find_snapshot-All P [] id snapshot all h = cc
  find_snapshot-All P (first ∷ rest) id snapshot (p, all) h = elim (Bool-cases (first.id == id)) [
    | inl same ↦ subst_some P first snapshot (rw same at h) p
    | inr differ ↦ find_snapshot-All P rest id snapshot all (rw differ at h)
  ]

  module _ (u : Platform) (IsAllowed : CommitMessage → Type 0) where
    Change-HasContent :
        {s later : Server}
        → Change u crypto IsAllowed s later
        → HasContent (vault s)
        → HasContent (vault later)
    unfolding adopted adopt prune_events commit_of
    Change-HasContent (unchanged e) i = subst HasContent (sym e) i
    Change-HasContent {s} (stored hash bytes h) i = HasContent-insert s hash bytes i h
    Change-HasContent {s} (captured snapshot taken) i = record {
      served = i.served;
      addressed = i.addressed;
      kept = All-append_one _ s.snapshots snapshot i.kept (λ path live found file.
          IsServed-live s.blobs (lookup path s.state.files) live (λ row at. i.served path row at)
            (sym (live-snapshot_heads_of s.state.files path) ∙ rw taken at found) file);
    }
    Change-HasContent {s}
          (committed device_id message now claim verdict _ checked accepted gate ran) i =
        let (j, own) = claim-IsContent s message claim checked accepted i in
        HasContent-record_copy
          (record_if (head_changed verdict.outcome device_id) (adopt s message claim verdict)
            verdict.outcome.broadcast)
          verdict.outcome.conflict_copy
          (HasContent-record_if (head_changed verdict.outcome device_id)
            (adopt s message claim verdict) verdict.outcome.broadcast
            (record {
              served =
                  arbitrate_commit-IsServed _ u device_id now (device_names s.devices) s.state
                    (commit_of message) verdict j.served own ran;
              addressed = j.addressed;
              kept = j.kept;
            }))
    Change-HasContent {s} (restored device_id id now snapshot item verdict found planned ran is) i =
        HasContent-record_change (record s { state = verdict.state }) verdict.outcome.broadcast
          (record {
            served =
                arbitrate_commit-IsServed _ u device_id now [] s.state item.commit verdict i.served
                  (λ live file.
                    find_snapshot-All _ s.snapshots id snapshot i.kept found planned.path _
                      (rw live at planned.reaches) file)
                  ran;
            addressed = i.addressed;
            kept = i.kept;
          })
    Change-HasContent (pruned before_seq) i = record {
      served = i.served;
      addressed = i.addressed;
      kept = i.kept;
    }

    Changes-HasContent :
        {s later : Server}
        → Changes u crypto IsAllowed s later
        → HasContent (vault s)
        → HasContent (vault later)
    Changes-HasContent done i = i
    Changes-HasContent (next cs c) i = Change-HasContent c (Changes-HasContent cs i)

-- Whatever the messages and their order, every stored blob hashes to its key, and the content of
-- every live head that is not a folder is stored, also that of the heads that a snapshot holds.
pub Reach-HasContent :
    (u : Platform) (crypto : Crypto) (options : ServerOptions) (IsAllowed : CommitMessage → Type 0)
    {later : Server}
    → Reach u crypto options IsAllowed empty_server later
    → HasContent crypto (vault later)
Reach-HasContent u crypto options IsAllowed r =
    Changes-HasContent crypto u IsAllowed (Reach-Changes u crypto options IsAllowed r) (record {
      served = λ path row h live file. cc (lookup-nil {V = ArbitrationFileState} path);
      addressed = λ hash bytes h. cc (lookup-nil {V = Bytes} hash);
      kept = tt;
    })

-- In every state that the server reaches, asking for the content of a live head that is not
-- a folder is answered with bytes that hash to the head's hash, and changes nothing.
pub handle_get_blob-live :
    (u : Platform) (crypto : Crypto) (options : ServerOptions) (IsAllowed : CommitMessage → Type 0)
    {later : Server} (transport path : Str) (row : ArbitrationFileState)
    → Reach u crypto options IsAllowed empty_server later
    → lookup path later.state.files ≡ some row
    → row.deleted ≡ false
    → row.is_folder ≡ false
    → (bytes : Bytes) × (sha256_hex crypto bytes ≡ row.head.hash)
      × (handle_get_blob crypto later transport row.head.hash ≡ (
        later,
        send transport (blob_content row.head.hash (bytes_to_base64 crypto bytes)) ∷ [],
      ))
unfolding handle_get_blob
handle_get_blob-live u crypto options IsAllowed {later} transport path row r found live file =
    let i = Reach-HasContent u crypto options IsAllowed r in
    elim (Option-cases (lookup row.head.hash later.blobs)) [
      | inl absent ↦ absurd (ground (arith, i.served path row found live file))
      | inr present ↦ (
        present.0,
        i.addressed row.head.hash present.0 present.1,
        rw (handle_get_blob, present.1) refl,
      )
    ]
