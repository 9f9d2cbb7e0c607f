-- ===== src/LocalIndex/Laws.antt =====
-- What the operations of the index do to every path.
use vaultsyncforagents.Prelude.{
  ◌≡◌, ◌⊎◌, refl, true, Option, none, some, List, [], ◌∷◌, Str, ◌==◌, eq_iff, arith, Bool-cases,
  Option-cases, inl, inr, if◌then◌else◌,
}
use vaultsyncforagents.Prelude.Dict.{lookup, insert, lookup-insert, lookup-erase}
use vaultsyncforagents.Prelude.Failure.{ok, err, plain}
use vaultsyncforagents.LocalIndex.{
  LocalIndex, LocalIndexEntry, LocalIndexCommit, HashedFile, entry_of, apply_commit, remove_entry,
  records_onto, record_one, record_hashed_files,
}

-- A commit replaces the entry of its path and no other; it fails exactly when it deletes without a
-- time of deletion.
pub apply_commit-lookup :
    (index : LocalIndex) (commit : LocalIndexCommit)
    → ((commit.deleted ≡ true)
        × (commit.deleted_at ≡ none)
        × (apply_commit index commit ≡ err plain))
      ⊎ ((later : LocalIndex) × (apply_commit index commit ≡ ok later)
          × ((q : Str)
              → lookup q later
                ≡ (if commit.path == q then some (entry_of commit) else lookup q index)))
unfolding apply_commit
apply_commit-lookup index commit = elim (Bool-cases commit.deleted) [
  | inl gone ↦ elim (Option-cases commit.deleted_at) [
    | inl untimed ↦ inl (gone, untimed, rw (gone, untimed))
    | inr timed ↦ inr (
      insert commit.path (entry_of commit) index,
      rw (gone, timed.1),
      λ q. lookup-insert commit.path q (entry_of commit) index,
    )
  ]
  | inr live ↦ inr (
    insert commit.path (entry_of commit) index,
    rw live,
    λ q. lookup-insert commit.path q (entry_of commit) index,
  )
]

-- Removing an entry removes that of its path and no other.
pub remove_entry-lookup :
    (index : LocalIndex) (path q : Str)
    → lookup q (remove_entry index path) ≡ (if path == q then none else lookup q index)
unfolding remove_entry
remove_entry-lookup index path q = ground (arith, lookup-erase path q index, eq_iff path q)

-- Two entries that differ in the cached time alone.
abbrev pub SameButTime : Option LocalIndexEntry → Option LocalIndexEntry → Type 0
SameButTime none none = Unit
SameButTime (some a) (some b) = a ≡ record b { mtime = a.mtime }
SameButTime _ _ = ⊥

SameButTime-refl : (o : Option LocalIndexEntry) → SameButTime o o
SameButTime-refl none = tt
SameButTime-refl (some a) = refl

SameButTime-trans :
    (a b c : Option LocalIndexEntry) → SameButTime a b → SameButTime b c → SameButTime a c
SameButTime-trans none none none p q = tt
SameButTime-trans (some a) (some b) (some c) p q = cc
SameButTime-trans none none (some c) p q = absurd q
SameButTime-trans none (some b) c p q = absurd p
SameButTime-trans (some a) none c p q = absurd p
SameButTime-trans (some a) (some b) none p q = absurd q

record_one-SameButTime :
    (index : LocalIndex) (observed : HashedFile) (entry : Option LocalIndexEntry) (q : Str)
    → lookup observed.path index ≡ entry
    → SameButTime (lookup q (record_one index observed entry)) (lookup q index)
record_one-SameButTime index observed none q at = SameButTime-refl (lookup q index)
record_one-SameButTime index observed (some entry) q at =
    elim (Bool-cases (records_onto entry observed)) [
      | inr no_record ↦ rw no_record (SameButTime-refl (lookup q index))
      | inl recorded ↦ elim (Bool-cases (observed.path == q)) [
        | inr other ↦ rw (recorded, lookup-insert, other) (SameButTime-refl (lookup q index))
        | inl same ↦
            let found : lookup q index ≡ some entry = ground (arith, eq_iff observed.path q) in
            rw (recorded, lookup-insert, same, found) refl
      ]
    ]

-- Recording hash observations changes nothing but cached times: no path gains or loses an entry,
-- and no hash, size, version, clock or flag changes.
pub record_hashed_files-SameButTime :
    (index : LocalIndex) (hashed : List HashedFile) (q : Str)
    → SameButTime (lookup q (record_hashed_files index hashed)) (lookup q index)
unfolding record_hashed_files
record_hashed_files-SameButTime index [] q = SameButTime-refl (lookup q index)
record_hashed_files-SameButTime index (observed ∷ rest) q =
    let next = record_one index observed (lookup observed.path index) in
    SameButTime-trans (lookup q (record_hashed_files next rest)) (lookup q next) (lookup q index)
      (record_hashed_files-SameButTime next rest q) (record_one-SameButTime index observed _ q refl)
