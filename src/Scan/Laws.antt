-- ===== src/Scan/Laws.antt =====
-- What the two modes of the scan agree on.
use vaultsyncforagents.Prelude.{
  ◌≡◌, refl, true, false, some, List, [], ◌∷◌, Str, arith, Bool-cases, Option-cases, inl, inr, All,
  eq_refl,
}
use vaultsyncforagents.Prelude.Dict.{lookup}
use vaultsyncforagents.LocalIndex.{LocalIndex, LocalIndexEntry}
use vaultsyncforagents.Scan.{
  Storage, CanonFile, stat_matches_entry, Finding, is_same, classify, Observed, observe,
  observe_files,
}

-- A file whose stat matches its entry still has the content that the entry records.
abbrev pub IsTrusted : Storage → LocalIndex → CanonFile → Type 0
IsTrusted storage index file =
    (entry : LocalIndexEntry)
    → lookup file.canon index ≡ some entry
    → stat_matches_entry (some entry) file ≡ true
    → storage.hash_at file.raw_path ≡ entry.hash

classify-trusted :
    (storage : Storage) (index : LocalIndex) (file : CanonFile)
    → IsTrusted storage index file
    → stat_matches_entry (lookup file.canon index) file ≡ true
    → classify (lookup file.canon index) (storage.hash_at file.raw_path) ≡ is_same
unfolding classify stat_matches_entry
classify-trusted storage index file trusted h = elim (Option-cases (lookup file.canon index)) [
  | inl absent ↦ cc (rw absent at h)
  | inr present ↦
      let same = trusted present.0 present.1 (rw present.1 at h) in
      rw (present.1, same) (ground (arith, rw present.1 at h, eq_refl (present.0).hash))
]

observe-same :
    (file : CanonFile) (hash : Str) (a b : Observed)
    → a.added ≡ b.added
    → a.modified ≡ b.modified
    → (finding : Finding)
    → ((observe file hash finding a).added ≡ (observe file hash finding b).added)
      × ((observe file hash finding a).modified ≡ (observe file hash finding b).modified)
observe-same file hash a b e f Finding.is_added = (rw e refl, f)
observe-same file hash a b e f Finding.is_modified = (e, rw f refl)
observe-same file hash a b e f is_same = (e, f)

-- The fast mode reports the same added and modified files as the full mode, wherever every file
-- whose size and time match its live entry still has the content that the entry records.
pub observe_files_fast :
    (storage : Storage) (index : LocalIndex) (files : List CanonFile)
    → All (IsTrusted storage index) files
    → ((observe_files storage index true files).added
        ≡ (observe_files storage index false files).added)
      × ((observe_files storage index true files).modified
          ≡ (observe_files storage index false files).modified)
unfolding observe_files
observe_files_fast storage index [] all = (refl, refl)
observe_files_fast storage index (file ∷ files) (trusted, all) =
    let (e, f) = observe_files_fast storage index files all in
    elim (Bool-cases (stat_matches_entry (lookup file.canon index) file)) [
      | inl matches ↦ rw (matches, classify-trusted storage index file trusted matches) ((e, f))
      | inr differs ↦ rw differs (observe-same file _ _ _ e f _)
    ]
