-- ===== src/Tests/Scanning.antt =====
-- Examples of the theorems on the scan.
use vaultsyncforagents.Prelude.{
  ◌≡◌, refl, true, false, none, some, List, [], ◌∷◌, ◌++◌, Str, ◌==◌, str_lt, codes, All, Bool,
}
use vaultsyncforagents.Prelude.Dict.{lookup, insert}
use vaultsyncforagents.Prelude.Failure.{Result, ok}
use vaultsyncforagents.Prelude.Strings.{
  split_on, join_with, includes, starts_with, replace_all, last_index_of,
}
use vaultsyncforagents.Platform.{ascii}
use vaultsyncforagents.Paths.{
  is_windows_unsafe_path, is_strictly_beneath, normalize_vault_path, basename, fold_key_for_path,
}
use vaultsyncforagents.LocalIndex.{LocalIndex, LocalIndexEntry}
use vaultsyncforagents.Resolve.{DeletedCandidate, compare_strings, sort}
use vaultsyncforagents.Scan.{
  Storage, stat_matches_entry, CanonFile, observe_files, find_deleted, kept_by_fold,
  split_fold_collisions, scan_deleted, Swept, deleted_of, paths_of, targets_of,
}
use vaultsyncforagents.Scan.Renames.{
  detect_renames, match_by_hash, by_base, pair_bases, correlate_rest,
}
use vaultsyncforagents.Ignore.{IgnoreSettings, is_ignored}
use vaultsyncforagents.Scan.Whole.{ScanReport, scan_vault}
use vaultsyncforagents.Scan.Missing.{IsLost, scan_vault-IsLost}
use vaultsyncforagents.Scan.Laws.{observe_files_fast}
use vaultsyncforagents.Scan.Deletions.{IsGone, HasChangedTwin, scan_deleted-IsGone}

abbrev kept_entry : LocalIndexEntry
kept_entry = record {
  hash = codes "h1";
  size = 3;
  version_id = codes "v1";
  clock = record { counter = 1; device_id = codes "a" };
  deleted_at = none;
  is_folder = false;
  mtime = some 5;
}

abbrev small_index : LocalIndex
small_index = (codes "/a.md", kept_entry) ∷ (codes "/b.md", kept_entry) ∷ []

abbrev small_storage : Storage
small_storage = record { files = []; dirs = []; symlinks = []; hash_at = λ path. codes "h1" }

abbrev seen_file : CanonFile
seen_file = record { raw_path = codes "/a.md"; canon = codes "/a.md"; size = 3; mtime = 5 }

observe_files_fast_example :
    ((observe_files small_storage small_index true (seen_file ∷ [])).added
      ≡ (observe_files small_storage small_index false (seen_file ∷ [])).added)
    × ((observe_files small_storage small_index true (seen_file ∷ [])).modified
        ≡ (observe_files small_storage small_index false (seen_file ∷ [])).modified)
unfolding lookup ◌==◌
observe_files_fast_example =
    observe_files_fast small_storage small_index (seen_file ∷ []) ((λ entry at matches. cc, tt))

abbrev never : Str → Result Bool
never path = ok false

abbrev lost_file : DeletedCandidate
lost_file = record { path = codes "/b.md"; hash = codes "h1"; size = 3; version_id = codes "v1" }

abbrev lost_sweep : Swept
lost_sweep = record {
  correlation = record { renamed = []; deleted = lost_file ∷ []; added = [] };
  deleted = lost_file ∷ [];
  collisions = [];
}

scan_deleted-IsGone_example :
    (deleted : List DeletedCandidate) × (find_deleted never (codes "/a.md" ∷ []) [] small_index
      ≡ ok deleted)
    × (detect_renames ascii deleted [] ≡ ok lost_sweep.correlation)
    × All
        (λ d.
          IsGone never (codes "/a.md" ∷ []) [] small_index d
          × HasChangedTwin ascii
              (codes "/a.md" ∷ [])
              (paths_of lost_sweep.correlation.added
                ++ paths_of []
                ++ targets_of lost_sweep.correlation.renamed)
              d)
        (lost_file ∷ [])
unfolding scan_deleted find_deleted deleted_of detect_renames match_by_hash correlate_rest by_base
    pair_bases kept_by_fold split_fold_collisions lookup insert ◌==◌ str_lt compare_strings sort
    basename normalize_vault_path split_on join_with includes starts_with replace_all last_index_of
    fold_key_for_path ascii
scan_deleted-IsGone_example =
    scan_deleted-IsGone ascii never (codes "/a.md" ∷ []) [] small_index [] [] lost_sweep refl

-- Two files under the fold key of a missing one, the first unchanged and the later one modified: the
-- missing one is reported as deleted.
abbrev lower_twin : DeletedCandidate
lower_twin = record lost_file { path = codes "/n.md" }

abbrev twin_sweep : Swept
twin_sweep = record {
  correlation = record { renamed = []; deleted = lower_twin ∷ []; added = [] };
  deleted = lower_twin ∷ [];
  collisions = [];
}

twin_run :
    scan_deleted ascii never
      (codes "/N.MD" ∷ codes "/N.md" ∷ [])
      []
      ((codes "/n.md", kept_entry) ∷ [])
      []
      (record { path = codes "/N.md"; hash = codes "h9"; size = 4 } ∷ [])
    ≡ ok twin_sweep
unfolding scan_deleted find_deleted deleted_of detect_renames match_by_hash correlate_rest by_base
    pair_bases kept_by_fold split_fold_collisions lookup insert ◌==◌ str_lt compare_strings sort
    basename normalize_vault_path split_on join_with includes starts_with replace_all last_index_of
    fold_key_for_path ascii
twin_run = refl

abbrev scan_settings : IgnoreSettings
scan_settings = record { obsidian_sync = true; extra_ignores = [] }

-- One file of the index is left on the disk, in a folder that is listed with an empty one.
abbrev scanned_storage : Storage
scanned_storage = record {
  files = record { path = codes "/a.md"; size = 3; mtime = 5 } ∷ [];
  dirs = codes "/" ∷ codes "/new" ∷ [];
  symlinks = codes "/link" ∷ [];
  hash_at = λ path. codes "h1";
}

abbrev lost_report : ScanReport
lost_report = record {
  scanned_at = 7;
  changes = record {
    added = [];
    modified = [];
    deleted = lost_file ∷ [];
    renamed = [];
    empty_folders = codes "/new" ∷ [];
    folder_deletions = [];
  };
  stale_dirs = [];
  case_collisions = [];
  unsafe_paths = [];
  symlinks = codes "/link" ∷ [];
  hashed = [];
}

scan_run : scan_vault ascii scanned_storage small_index scan_settings 7 true none ≡ ok lost_report
unfolding scan_vault is_ignored is_windows_unsafe_path ◌==◌ ascii normalize_vault_path replace_all
    sort join_with is_strictly_beneath stat_matches_entry lookup basename deleted_of last_index_of
    insert fold_key_for_path
scan_run = refl

scan_vault-IsLost_example :
    All (IsLost ascii scanned_storage small_index scan_settings) (lost_file ∷ [])
scan_vault-IsLost_example =
    scan_vault-IsLost ascii scanned_storage small_index scan_settings 7 true none lost_report
      scan_run
