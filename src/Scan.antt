-- ===== src/Scan.antt =====
-- The local scan: packages/core/src/scan.ts. What the storage lists and reads, and the content hash,
-- are parameters.
pub mod Renames
pub mod Laws
pub mod Deletions
pub mod Folders
pub mod Whole
pub mod Missing
use vaultsyncforagents.Prelude.{
  ℕ, Bool, true, false, not, ◌&&◌, ◌||◌, Option, none, some, List, [], ◌∷◌, ◌++◌, Str, ◌==◌,
  is_some, any, filter, nat_eq, if◌then◌else◌, map,
}
use vaultsyncforagents.Prelude.Dict.{Dict, lookup, insert}
use vaultsyncforagents.Prelude.Failure.{Result, ok, err, ◌>>=◌}
use vaultsyncforagents.Platform.{Platform}
use vaultsyncforagents.Paths.{
  is_windows_unsafe_path, is_strictly_beneath, fold_key_for_path, parent_path, root,
}
use vaultsyncforagents.Ignore.{IgnoreSettings, is_ignored}
use vaultsyncforagents.LocalIndex.{LocalIndex, LocalIndexEntry, HashedFile, same_mtime}
use vaultsyncforagents.Resolve.{
  ScanCandidate, DeletedCandidate, RenameCandidate, FolderDeletionCandidate, LocalChanges,
}
use vaultsyncforagents.Resolve.{compare_strings, sort}
use vaultsyncforagents.Scan.Renames.{Correlation, detect_renames}

pub record FileStat : Type 0 where
  pub path : Str
  pub size : ℕ
  pub mtime : ℕ

-- What a storage adapter lists, and the hash of what it reads under a raw path.
pub record Storage : Type 0 where
  pub files : List FileStat
  pub dirs : List Str
  pub symlinks : List Str
  pub hash_at : Str → Str

pub record CanonFile : Type 0 where
  pub raw_path : Str
  pub canon : Str
  pub size : ℕ
  pub mtime : ℕ

abbrev pub has_path : List Str → Str → Bool
has_path paths path = any (λ known. known == path) paths

-- The first file of each canonical path, and the raw paths of the others.
unfoldable pub canon_files : Platform → List Str → List FileStat → List CanonFile × List Str
canon_files u seen [] = ([], [])
canon_files u seen (file ∷ files) =
    let canon = u.nfc file.path in
    let again = has_path seen canon in
    let (kept, twins) = canon_files u (if again then seen else canon ∷ seen) files in
    if again then (kept, file.path ∷ twins) else (
      record { raw_path = file.path; canon = canon; size = file.size; mtime = file.mtime } ∷ kept,
      twins,
    )

unfoldable pub canon_dirs : Platform → List Str → List Str → List Str × List Str
canon_dirs u seen [] = ([], [])
canon_dirs u seen (dir ∷ dirs) =
    let canon = u.nfc dir in
    let again = has_path seen canon in
    let (kept, twins) = canon_dirs u (if again then seen else canon ∷ seen) dirs in
    if again then (kept, dir ∷ twins) else (canon ∷ kept, twins)

-- What is not ignored; a path that is no vault path ends the scan.
unfoldable pub keep_unless {ℓ} :
    {A : Type ℓ} → (Str → Result Bool) → (A → Str) → List A → Result (List A)
keep_unless ignored path [] = ok []
keep_unless ignored path (a ∷ rest) = do
  skip ← ignored (path a)
  kept ← keep_unless ignored path rest
  ok (if skip then kept else a ∷ kept)

abbrev pub beneath_symlink : List Str → Str → Bool
beneath_symlink links path = any (λ link. path == link || is_strictly_beneath path link) links

-- The pre-filter of the fast mode.
unfoldable pub stat_matches_entry : Option LocalIndexEntry → CanonFile → Bool
stat_matches_entry none file = false
stat_matches_entry (some entry) file =
    not (is_some entry.deleted_at)
    && (not entry.is_folder && (same_mtime entry.mtime file.mtime && nat_eq entry.size file.size))

pub data Finding : Type 0 where
  is_added is_modified is_same : Finding

unfoldable pub classify : Option LocalIndexEntry → Str → Finding
classify none hash = is_added
classify (some entry) hash =
    if entry.is_folder
    then is_modified
    else if is_some entry.deleted_at || not (entry.hash == hash)
    then is_modified
    else is_same

pub record Observed : Type 0 where
  pub added : List ScanCandidate
  pub modified : List ScanCandidate
  pub hashed : List HashedFile

unfoldable pub candidate_of : CanonFile → Str → ScanCandidate
candidate_of file hash = record { path = file.canon; hash = hash; size = file.size }

unfoldable pub hashed_of : CanonFile → Str → HashedFile
hashed_of file hash = record {
  path = file.canon;
  hash = hash;
  size = file.size;
  mtime = file.mtime;
}

abbrev pub observe : CanonFile → Str → Finding → Observed → Observed
observe file hash is_added rest = record {
  added = candidate_of file hash ∷ rest.added;
  modified = rest.modified;
  hashed = hashed_of file hash ∷ rest.hashed;
}
observe file hash is_modified rest = record {
  added = rest.added;
  modified = candidate_of file hash ∷ rest.modified;
  hashed = hashed_of file hash ∷ rest.hashed;
}
observe file hash is_same rest = record {
  added = rest.added;
  modified = rest.modified;
  hashed = hashed_of file hash ∷ rest.hashed;
}

-- The walk over the kept files, fast or full.
unfoldable pub observe_files : Storage → LocalIndex → Bool → List CanonFile → Observed
observe_files storage index fast [] = record { added = []; modified = []; hashed = [] }
observe_files storage index fast (file ∷ files) =
    let rest = observe_files storage index fast files in
    let hash = storage.hash_at file.raw_path in
    if fast && stat_matches_entry (lookup file.canon index) file
    then rest
    else observe file hash (classify (lookup file.canon index) hash) rest

unfoldable pub deleted_of : Str → LocalIndexEntry → DeletedCandidate
deleted_of path entry = record {
  path = path;
  hash = entry.hash;
  size = entry.size;
  version_id = entry.version_id;
}

module _ (ignored : Str → Result Bool) where
  -- The deletion pass over the index.
  unfoldable pub find_deleted : List Str → List Str → LocalIndex → Result (List DeletedCandidate)
  find_deleted kept links [] = ok []
  find_deleted kept links ((path, entry) ∷ index) = do
    rest ← find_deleted kept links index
    if entry.is_folder || (is_some entry.deleted_at || has_path kept path) then ok rest else do
      skip ← ignored path
      ok (if skip || beneath_symlink links path then rest else deleted_of path entry ∷ rest)

  unfoldable pub find_folder_deletions :
      List Str → List Str → LocalIndex → Result (List FolderDeletionCandidate)
  find_folder_deletions present links [] = ok []
  find_folder_deletions present links ((path, entry) ∷ index) = do
    rest ← find_folder_deletions present links index
    if not entry.is_folder || (is_some entry.deleted_at || has_path present path)
        then ok rest
        else do
          skip ← ignored path
          ok (
              if skip || beneath_symlink links path
              then rest
              else record { path = path; version_id = entry.version_id } ∷ rest)

-- The path on disk with a fold key; a later one replaces an earlier one.
unfoldable pub kept_by_fold : Platform → List Str → Dict Str → Dict Str
kept_by_fold u [] folds = folds
kept_by_fold u (path ∷ paths) folds =
    kept_by_fold u paths (insert (fold_key_for_path u path) path folds)

abbrev pub is_unchanged_twin : List Str → Option Str → Bool
is_unchanged_twin changed none = false
is_unchanged_twin changed (some twin) = not (has_path changed twin)

-- The deletions that are none, as an unchanged file stands under the same fold key.
unfoldable pub split_fold_collisions :
    Platform → Dict Str → List Str → List DeletedCandidate → List DeletedCandidate × List Str
split_fold_collisions u folds changed [] = ([], [])
split_fold_collisions u folds changed (candidate ∷ candidates) =
    let (safe, collisions) = split_fold_collisions u folds changed candidates in
    if is_unchanged_twin changed (lookup (fold_key_for_path u candidate.path) folds)
    then (safe, candidate.path ∷ collisions)
    else (candidate ∷ safe, collisions)

abbrev pub paths_of : List ScanCandidate → List Str
paths_of [] = []
paths_of (candidate ∷ candidates) = candidate.path ∷ paths_of candidates

abbrev pub targets_of : List RenameCandidate → List Str
targets_of [] = []
targets_of (rename ∷ renames) = rename.to ∷ targets_of renames

-- What the deletion pass leaves: the correlated renames, the deletions by path and the invisible
-- twins.
pub record Swept : Type 0 where
  pub correlation : Correlation
  pub deleted : List DeletedCandidate
  pub collisions : List Str

abbrev swept_of : Correlation → List DeletedCandidate × List Str → Swept
swept_of c (safe, collisions) = record {
  correlation = c;
  deleted = sort (λ a b. compare_strings a.path b.path) safe;
  collisions = collisions;
}

-- The deletions that a scan reports: those of the index, less the sources of renames and the
-- invisible twins, by path.
unfoldable pub scan_deleted :
    Platform
    → (Str → Result Bool)
    → List Str
    → List Str
    → LocalIndex
    → List ScanCandidate
    → List ScanCandidate
    → Result Swept
unfolding find_deleted detect_renames kept_by_fold split_fold_collisions
scan_deleted u ignored kept links index added modified = do
  deleted ← find_deleted ignored kept links index
  found ← detect_renames u deleted added
  let changed = paths_of found.added ++ paths_of modified ++ targets_of found.renamed
  ok (swept_of found (split_fold_collisions u (kept_by_fold u kept []) changed found.deleted))
