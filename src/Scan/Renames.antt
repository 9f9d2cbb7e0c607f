-- ===== src/Scan/Renames.antt =====
-- `detectRenames` of packages/core/src/scan.ts.
use vaultsyncforagents.Prelude.{
  Bool, true, false, not, Option, none, some, List, [], ◌∷◌, ◌++◌, Str, ◌==◌, any, filter,
  if◌then◌else◌, or_default,
}
use vaultsyncforagents.Prelude.Dict.{Dict, lookup, insert}
use vaultsyncforagents.Prelude.Failure.{Result, ok, ◌>>=◌}
use vaultsyncforagents.Platform.{Platform}
use vaultsyncforagents.Paths.{parent_path, basename}
use vaultsyncforagents.Resolve.{ScanCandidate, DeletedCandidate, RenameCandidate}
use vaultsyncforagents.Resolve.{compare_strings, sort}

pub record Correlation : Type 0 where
  pub renamed : List RenameCandidate
  pub deleted : List DeletedCandidate
  pub added : List ScanCandidate

abbrev pub in_paths : List Str → Str → Bool
in_paths paths path = any (λ known. known == path) paths

-- The first free candidate in the directory, and the first one elsewhere.
pub record Choice : Type 0 where
  pub same_dir : Option ScanCandidate
  pub fallback : Option ScanCandidate

abbrev pub or_else : Option ScanCandidate → Option ScanCandidate → Option ScanCandidate
or_else none other = other
or_else (some candidate) other = some candidate

abbrev pub prefer : Bool → ScanCandidate → Choice → Choice
prefer true candidate choice = record choice { same_dir = some candidate }
prefer false candidate choice = record choice { fallback = some candidate }

module _ (u : Platform) where
  unfoldable pub choose : List Str → Str → List ScanCandidate → Result Choice
  choose used path [] = ok (record { same_dir = none; fallback = none })
  choose used path (candidate ∷ candidates) =
      if in_paths used candidate.path then choose used path candidates else do
        mine ← parent_path u candidate.path
        theirs ← parent_path u path
        choice ← choose used path candidates
        ok (prefer (mine == theirs) candidate choice)

  -- What the first pass has found: the renames, the deletions left, and the paths of the adds taken.
  pub record Matched : Type 0 where
    pub renamed : List RenameCandidate
    pub unmatched : List DeletedCandidate
    pub used : List Str

  unfoldable pub rename_by_hash : DeletedCandidate → ScanCandidate → RenameCandidate
  rename_by_hash deletion candidate = record {
    from = deletion.path;
    to = candidate.path;
    hash = deletion.hash;
    size = deletion.size;
  }

  abbrev pub take_match : DeletedCandidate → Option ScanCandidate → Matched → Matched
  take_match deletion none found = record found { unmatched = found.unmatched ++ deletion ∷ [] }
  take_match deletion (some candidate) found = record found {
    renamed = found.renamed ++ rename_by_hash deletion candidate ∷ [];
    used = candidate.path ∷ found.used;
  }

  -- Pass 1: the same content, in the order of the paths.
  unfoldable pub match_by_hash :
      List ScanCandidate → Matched → List DeletedCandidate → Result Matched
  unfolding choose rename_by_hash
  match_by_hash added found [] = ok found
  match_by_hash added found (deletion ∷ deletions) = do
    choice ← choose found.used deletion.path (filter (λ a. a.hash == deletion.hash) added)
    match_by_hash added (take_match deletion (or_else choice.same_dir choice.fallback) found)
        deletions

  -- The buckets of a basename, in the order of their first elements.
  unfoldable pub by_base {ℓ} :
      {A : Type ℓ} → (A → Str) → List A → Dict (List A) → Result (Dict (List A))
  by_base path [] buckets = ok buckets
  by_base path (a ∷ rest) buckets = do
    base ← basename u (path a)
    by_base path rest (insert base (or_default (lookup base buckets) [] ++ a ∷ []) buckets)

  unfoldable pub rename_with_edits : DeletedCandidate → ScanCandidate → RenameCandidate
  rename_with_edits deletion candidate = record {
    from = deletion.path;
    to = candidate.path;
    hash = candidate.hash;
    size = candidate.size;
  }

  abbrev pub lone {ℓ} : {A : Type ℓ} → List A → Option A
  lone [] = none
  lone (a ∷ []) = some a
  lone (a ∷ b ∷ rest) = none

  abbrev pub pair_of :
      Option DeletedCandidate → Option ScanCandidate → List RenameCandidate → List RenameCandidate
  pair_of none candidate rest = rest
  pair_of (some deletion) none rest = rest
  pair_of (some deletion) (some candidate) rest = rename_with_edits deletion candidate ∷ rest

  -- Pass 2: a lone delete and a lone add of one basename.
  unfoldable pub pair_bases :
      Dict (List ScanCandidate) → Dict (List DeletedCandidate) → List RenameCandidate
  unfolding rename_with_edits
  pair_bases adds [] = []
  pair_bases adds ((base, bucket) ∷ buckets) =
      pair_of (lone bucket) (lone (or_default (lookup base adds) [])) (pair_bases adds buckets)

  abbrev pub sources : List RenameCandidate → List Str
  sources [] = []
  sources (rename ∷ renames) = rename.from ∷ sources renames

  abbrev pub destinations : List RenameCandidate → List Str
  destinations [] = []
  destinations (rename ∷ renames) = rename.to ∷ destinations renames

  -- The second pass, over what the first has left.
  unfoldable pub correlate_rest : Matched → List ScanCandidate → Result Correlation
  unfolding by_base pair_bases
  correlate_rest found unmatched_added = do
    deletes ← by_base (λ (d : DeletedCandidate). d.path) found.unmatched []
    adds ← by_base (λ (a : ScanCandidate). a.path) unmatched_added []
    let paired = pair_bases adds deletes
    ok (record {
      renamed = found.renamed ++ paired;
      deleted = filter (λ d. not (in_paths (sources paired) d.path)) found.unmatched;
      added = filter (λ a. not (in_paths (destinations paired) a.path)) unmatched_added;
    })

  unfoldable pub detect_renames : List DeletedCandidate → List ScanCandidate → Result Correlation
  unfolding match_by_hash correlate_rest
  detect_renames deleted added = do
    found ←
        match_by_hash (sort (λ a b. compare_strings a.path b.path) added)
          (record { renamed = []; unmatched = []; used = [] })
          (sort (λ a b. compare_strings a.path b.path) deleted)
    correlate_rest found (filter (λ a. not (in_paths found.used a.path)) added)
