-- ===== src/LocalIndex.antt =====
-- The client's index of last-known heads: packages/core/src/localindex.ts (its pure operations), and
-- `recordHashedFiles` of packages/core/src/scan.ts.
pub mod Laws
use vaultsyncforagents.Prelude.{
  ℕ, Bool, true, false, not, ◌&&◌, ◌||◌, Option, none, some, List, [], ◌∷◌, Str, ◌==◌, is_some,
  nat_eq, if◌then◌else◌,
}
use vaultsyncforagents.Prelude.Dict.{Dict, lookup, insert, erase, has}
use vaultsyncforagents.Prelude.Failure.{Result, ok, err, plain}
use vaultsyncforagents.Types.{LogicalClock}

pub record LocalIndexEntry : Type 0 where
  pub hash : Str
  pub size : ℕ
  pub version_id : Str
  pub clock : LogicalClock
  pub deleted_at : Option ℕ
  pub is_folder : Bool
  pub mtime : Option ℕ

abbrev pub LocalIndex : Type 0
LocalIndex = Dict LocalIndexEntry

pub record LocalIndexCommit : Type 0 where
  pub path : Str
  pub version_id : Str
  pub hash : Str
  pub size : ℕ
  pub clock : LogicalClock
  pub deleted : Bool
  pub deleted_at : Option ℕ
  pub is_folder : Bool
  pub mtime : Option ℕ

-- The entry that replaces the path's whole entry.
unfoldable pub entry_of : LocalIndexCommit → LocalIndexEntry
entry_of commit = record {
  hash = commit.hash;
  size = commit.size;
  version_id = commit.version_id;
  clock = commit.clock;
  deleted_at = if commit.deleted then commit.deleted_at else none;
  is_folder = commit.is_folder;
  mtime = commit.mtime;
}

unfoldable pub apply_commit : LocalIndex → LocalIndexCommit → Result LocalIndex
apply_commit index commit =
    if commit.deleted && not (is_some commit.deleted_at)
    then err plain
    else ok (insert commit.path (entry_of commit) index)

unfoldable pub remove_entry : LocalIndex → Str → LocalIndex
remove_entry index path = if not (has path index) then index else erase path index

-- A file that a scan read and hashed.
pub record HashedFile : Type 0 where
  pub path : Str
  pub hash : Str
  pub size : ℕ
  pub mtime : ℕ

abbrev pub same_mtime : Option ℕ → ℕ → Bool
same_mtime none t = false
same_mtime (some s) t = nat_eq s t

-- Whether an observation may be cached on an entry.
unfoldable pub records_onto : LocalIndexEntry → HashedFile → Bool
records_onto entry observed =
    if entry.is_folder || is_some entry.deleted_at
    then false
    else if not (entry.hash == observed.hash)
    then false
    else not (same_mtime entry.mtime observed.mtime)

abbrev pub record_one : LocalIndex → HashedFile → Option LocalIndexEntry → LocalIndex
record_one index observed none = index
record_one index observed (some entry) =
    if records_onto entry observed
    then insert observed.path (record entry { mtime = some observed.mtime }) index
    else index

unfoldable pub record_hashed_files : LocalIndex → List HashedFile → LocalIndex
record_hashed_files index [] = index
record_hashed_files index (observed ∷ rest) =
    record_hashed_files (record_one index observed (lookup observed.path index)) rest
