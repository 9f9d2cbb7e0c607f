-- ===== src/Scan/Folders.antt =====
-- The folders of the scan: detectEmptyFolders of packages/core/src/scan.ts.
use vaultsyncforagents.Prelude.{
  ℕ, zero, suc, Bool, false, ◌||◌, Option, none, some, List, [], ◌∷◌, Str, ◌==◌, is_some,
  if◌then◌else◌, length,
}
use vaultsyncforagents.Prelude.Dict.{lookup}
use vaultsyncforagents.Prelude.Failure.{Result, ok, ◌>>=◌}
use vaultsyncforagents.Platform.{Platform}
use vaultsyncforagents.Paths.{parent_path, root}
use vaultsyncforagents.LocalIndex.{LocalIndex, LocalIndexEntry}
use vaultsyncforagents.Resolve.{compare_strings, sort}
use vaultsyncforagents.Scan.{has_path}

-- The directory and those above it, less the root; a round passes one.
unfoldable pub add_parents : Platform → ℕ → Str → List Str → Result (List Str)
unfolding parent_path
add_parents u zero dir dirs = ok dirs
add_parents u (suc rounds) dir dirs =
    if dir == root
    then ok dirs
    else do parent ← parent_path u dir; add_parents u rounds parent (dir ∷ dirs)

-- The directories that have a file below them.
unfoldable pub represented_dirs : Platform → List Str → List Str → Result (List Str)
unfolding add_parents
represented_dirs u [] dirs = ok dirs
represented_dirs u (file ∷ files) dirs = do
  dir ← parent_path u file
  found ← add_parents u (length file) dir dirs
  represented_dirs u files found

pub data FolderFinding : Type 0 where
  is_synced is_represented is_empty is_stale : FolderFinding

abbrev pub is_own : Option Str → Str → Bool
is_own none author = false
is_own (some device) author = author == device

unfoldable pub classify_dir : Option Str → Bool → Option LocalIndexEntry → FolderFinding
classify_dir this_device represented none = if represented then is_represented else is_empty
classify_dir this_device represented (some entry) =
    if entry.is_folder
    then (if is_some entry.deleted_at
        then (if represented || is_own this_device entry.clock.device_id
            then is_empty
            else is_stale)
        else is_synced)
    else (if represented then is_represented else is_empty)

pub record Folders : Type 0 where
  pub empty_folders : List Str
  pub stale_dirs : List Str

abbrev pub add_folder : Str → FolderFinding → Folders → Folders
add_folder dir is_empty found = record {
  empty_folders = dir ∷ found.empty_folders;
  stale_dirs = found.stale_dirs;
}
add_folder dir is_stale found = record {
  empty_folders = found.empty_folders;
  stale_dirs = dir ∷ found.stale_dirs;
}
add_folder dir is_synced found = found
add_folder dir is_represented found = found

module _ (ignored : Str → Result Bool) (index : LocalIndex) (this_device : Option Str) where
  unfoldable pub folders_of : List Str → List Str → Result Folders
  unfolding classify_dir
  folders_of represented [] = ok (record { empty_folders = []; stale_dirs = [] })
  folders_of represented (dir ∷ dirs) = if dir == root then folders_of represented dirs else do
    skip ← ignored dir
    found ← folders_of represented dirs
    ok (
        if skip
        then found
        else add_folder dir (classify_dir this_device (has_path represented dir) (lookup dir index))
            found)

  unfoldable pub detect_empty_folders : Platform → List Str → List Str → Result Folders
  unfolding represented_dirs folders_of
  detect_empty_folders u files dirs = do
    represented ← represented_dirs u files []
    found ← folders_of represented dirs
    ok (record {
      empty_folders = sort compare_strings found.empty_folders;
      stale_dirs = sort compare_strings found.stale_dirs;
    })
