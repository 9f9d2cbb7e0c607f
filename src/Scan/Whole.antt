-- ===== src/Scan/Whole.antt =====
-- The scan as a whole: scanVault of packages/core/src/scan.ts. Its reports of progress are left out.
use vaultsyncforagents.Prelude.{ℕ, Bool, not, Option, List, [], ◌∷◌, ◌++◌, Str, ◌==◌, filter, map}
use vaultsyncforagents.Prelude.Failure.{Result, ok, ◌>>=◌}
use vaultsyncforagents.Platform.{Platform}
use vaultsyncforagents.Paths.{is_windows_unsafe_path}
use vaultsyncforagents.Ignore.{IgnoreSettings, is_ignored}
use vaultsyncforagents.LocalIndex.{LocalIndex, HashedFile}
use vaultsyncforagents.Resolve.{LocalChanges, FolderDeletionCandidate, compare_strings, sort}
use vaultsyncforagents.Scan.{
  Storage, Swept, CanonFile, canon_files, canon_dirs, keep_unless, observe_files, scan_deleted,
  find_folder_deletions,
}
use vaultsyncforagents.Scan.Folders.{Folders, detect_empty_folders}

-- The changes and the diagnostics.
pub record ScanReport : Type 0 where
  pub scanned_at : ℕ
  pub changes : LocalChanges
  pub stale_dirs : List Str
  pub case_collisions : List Str
  pub unsafe_paths : List Str
  pub symlinks : List Str
  pub hashed : List HashedFile

-- `[...new Set(paths)]`.
unfoldable pub unique : List Str → List Str
unique [] = []
unique (path ∷ paths) = path ∷ filter (λ other. not (other == path)) (unique paths)

abbrev pub canons_of : List CanonFile → List Str
canons_of files = map (λ file. file.canon) files

-- The canonical files of a listing and the twins among them.
abbrev pub listed_files : Platform → Storage → List CanonFile × List Str
listed_files u storage =
    canon_files u [] (sort (λ a b. compare_strings a.path b.path) storage.files)

abbrev pub syncable_files : Platform → Storage → List CanonFile
syncable_files u storage =
    filter (λ (file : CanonFile). not (is_windows_unsafe_path u file.canon))
      (listed_files u storage).0

abbrev listed_dirs : Platform → Storage → List Str × List Str
listed_dirs u storage = canon_dirs u [] storage.dirs

abbrev syncable_dirs : Platform → Storage → List Str
syncable_dirs u storage =
    filter (λ dir. not (is_windows_unsafe_path u dir)) (listed_dirs u storage).0

unfoldable pub unsafe_paths_of : Platform → Storage → List Str
unfolding canon_files canon_dirs
unsafe_paths_of u storage =
    filter (is_windows_unsafe_path u) (canons_of (listed_files u storage).0)
    ++ filter (is_windows_unsafe_path u) (listed_dirs u storage).0

module _ (u : Platform) (storage : Storage) (index : LocalIndex) (settings : IgnoreSettings) where
  abbrev pub ignored_at : Str → Result Bool
  ignored_at path = is_ignored u path settings

  unfoldable pub kept_files : Result (List CanonFile)
  unfolding canon_files keep_unless
  kept_files = keep_unless ignored_at (λ file. file.canon) (syncable_files u storage)

  unfoldable pub sweep : Bool → List Str → List CanonFile → Result Swept
  unfolding observe_files scan_deleted
  sweep fast links kept =
      let observed = observe_files storage index fast kept in
      scan_deleted u ignored_at (canons_of kept) links index observed.added observed.modified

  unfoldable pub folders_in : Option Str → Result Folders
  unfolding detect_empty_folders canon_files canon_dirs
  folders_in this_device =
      detect_empty_folders ignored_at index this_device u (canons_of (syncable_files u storage))
        (syncable_dirs u storage)

  unfoldable pub gone_folders : List Str → Result (List FolderDeletionCandidate)
  unfolding find_folder_deletions canon_dirs
  gone_folders links = find_folder_deletions ignored_at (syncable_dirs u storage) links index

  unfoldable pub report_of :
      ℕ
      → Bool
      → List Str
      → List CanonFile
      → Swept
      → Folders
      → List FolderDeletionCandidate
      → ScanReport
  unfolding observe_files unique unsafe_paths_of
  report_of now fast links kept swept folders gone =
      let observed = observe_files storage index fast kept in
      let twins = (listed_files u storage).1 ++ (listed_dirs u storage).1 in
      record {
        scanned_at = now;
        changes = record {
          added = sort (λ a b. compare_strings a.path b.path) swept.correlation.added;
          modified = sort (λ a b. compare_strings a.path b.path) observed.modified;
          deleted = swept.deleted;
          renamed = sort (λ a b. compare_strings a.from b.from) swept.correlation.renamed;
          empty_folders = folders.empty_folders;
          folder_deletions = sort (λ a b. compare_strings a.path b.path) gone;
        };
        stale_dirs = folders.stale_dirs;
        case_collisions = sort compare_strings (unique (twins ++ swept.collisions));
        unsafe_paths = sort compare_strings (unsafe_paths_of u storage);
        symlinks = sort compare_strings links;
        hashed = sort (λ a b. compare_strings a.path b.path) observed.hashed;
      }

  unfoldable pub scan_vault : ℕ → Bool → Option Str → Result ScanReport
  unfolding keep_unless kept_files sweep folders_in gone_folders report_of
  scan_vault now fast this_device = do
    links ← keep_unless ignored_at (λ path. path) storage.symlinks
    kept ← kept_files
    swept ← sweep fast links kept
    folders ← folders_in this_device
    gone ← gone_folders links
    ok (report_of now fast links kept swept folders gone)
