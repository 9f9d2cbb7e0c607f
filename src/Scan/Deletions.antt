-- ===== src/Scan/Deletions.antt =====
-- What the scan reports as deleted.
use vaultsyncforagents.Prelude.{
  ◌≡◌, ◌≢◌, ◌⊎◌, eq_iff, refl, ap, ◌∙◌, true, false, not, Bool, Option, none, some, List, [], ◌∷◌,
  ◌++◌, Str, ◌==◌, arith, Bool-cases, inl, inr, All, All-map, All-Perm, ◌||◌, is_some, filter,
}
use mathlib.Core.List.{Memᴰ}
use vaultsyncforagents.Prelude.Dict.{Dict, lookup, insert, lookup-insert}
use vaultsyncforagents.Prelude.Failure.{Result, ok, >>=-eq-ok, subst_ok}
use vaultsyncforagents.Platform.{Platform}
use vaultsyncforagents.Paths.{fold_key_for_path}
use vaultsyncforagents.LocalIndex.{LocalIndex, LocalIndexEntry}
use vaultsyncforagents.Resolve.{DeletedCandidate, ScanCandidate, compare_strings, sort}
use vaultsyncforagents.Resolve.Sorted.{sort-Perm}
use vaultsyncforagents.Scan.Renames.{
  Matched, Correlation, choose, match_by_hash, take_match, or_else, by_base, pair_bases, in_paths,
  sources, destinations, correlate_rest, detect_renames,
}
use vaultsyncforagents.Scan.{
  has_path, beneath_symlink, deleted_of, find_deleted, kept_by_fold, is_unchanged_twin,
  split_fold_collisions, Swept, scan_deleted, paths_of, targets_of,
}

module _ (ignored : Str → Result Bool) (kept links : List Str) where
  -- A live file of the index that the disk does not show, for no other reason than its deletion.
  pub record IsGone (index : LocalIndex) (d : DeletedCandidate) : Type 0 where
    pub entry : LocalIndexEntry
    pub listed : Memᴰ (d.path, entry) index
    pub live : is_some entry.deleted_at ≡ false
    pub is_file : entry.is_folder ≡ false
    pub same_version : d.version_id ≡ entry.version_id
    pub absent : has_path kept d.path ≡ false
    pub not_ignored : ignored d.path ≡ ok false
    pub not_hidden : beneath_symlink links d.path ≡ false

  IsGone-cons :
      (path : Str) (entry : LocalIndexEntry) (index : LocalIndex) (d : DeletedCandidate)
      → IsGone index d
      → IsGone ((path, entry) ∷ index) d
  IsGone-cons path entry index d i = record {
    entry = i.entry;
    listed = Memᴰ.tail i.listed;
    live = i.live;
    is_file = i.is_file;
    same_version = i.same_version;
    absent = i.absent;
    not_ignored = i.not_ignored;
    not_hidden = i.not_hidden;
  }

  the_skip : (skip hidden : Bool) → skip || hidden ≡ false → skip ≡ false
  the_skip true hidden h = cc
  the_skip false hidden h = refl

  find_deleted-IsGone :
      (index : LocalIndex) (deleted : List DeletedCandidate)
      → find_deleted ignored kept links index ≡ ok deleted
      → All (IsGone index) deleted
  unfolding find_deleted deleted_of
  find_deleted-IsGone [] deleted h = subst_ok (All (IsGone [])) [] deleted h tt
  find_deleted-IsGone ((path, entry) ∷ index) deleted h =
      let (rest, found, h₁) = >>=-eq-ok (find_deleted ignored kept links index) _ h in
      let older =
        All-map (IsGone index) (IsGone-cons path entry index) rest
          (find_deleted-IsGone index rest found) in
      elim (Bool-cases (entry.is_folder || (is_some entry.deleted_at || has_path kept path))) [
        | inl passed ↦
            subst_ok (All (IsGone ((path, entry) ∷ index))) rest deleted (rw passed at h₁) older
        | inr missing ↦
            let (skip, seen, h₂) = >>=-eq-ok (ignored path) _ (rw missing at h₁) in
            elim (Bool-cases (skip || beneath_symlink links path)) [
              | inl hidden ↦
                  subst_ok (All (IsGone ((path, entry) ∷ index))) rest deleted (rw hidden at h₂)
                    older
              | inr gone ↦
                  subst_ok (All (IsGone ((path, entry) ∷ index))) (deleted_of path entry ∷ rest)
                    deleted (rw gone at h₂)
                    ((
                      record {
                        entry = entry;
                        listed = Memᴰ.head refl;
                        live = ground (arith, missing);
                        is_file = ground (arith, missing);
                        same_version = refl;
                        absent = ground (arith, missing);
                        not_ignored =
                            seen ∙ ap ok (the_skip skip (beneath_symlink links path) gone);
                        not_hidden = ground (arith, gone);
                      },
                      older,
                    ))
            ]
      ]

module _ (P : DeletedCandidate → Type 0) (u : Platform) where
  All-append_one :
      (xs : List DeletedCandidate) (x : DeletedCandidate) → All P xs → P x → All P (xs ++ x ∷ [])
  All-append_one [] x all p = (p, tt)
  All-append_one (y ∷ xs) x (q, all) p = (q, All-append_one xs x all p)

  All-filter :
      (p : DeletedCandidate → Bool) (xs : List DeletedCandidate) → All P xs → All P (filter p xs)
  All-filter p [] all = tt
  All-filter p (x ∷ xs) (q, all) = elim (Bool-cases (p x)) [
    | inl keeps ↦ rw keeps ((q, All-filter p xs all))
    | inr drops ↦ rw drops (All-filter p xs all)
  ]

  take_match-All :
      (deletion : DeletedCandidate) (match : Option ScanCandidate) (found : Matched u)
      → P deletion
      → All P found.unmatched
      → All P (take_match u deletion match found).unmatched
  take_match-All deletion none found p all = All-append_one found.unmatched deletion all p
  take_match-All deletion (some candidate) found p all = all

  match_by_hash-All :
      (deletions : List DeletedCandidate) (added : List ScanCandidate) (found result : Matched u)
      → match_by_hash u added found deletions ≡ ok result
      → All P deletions
      → All P found.unmatched
      → All P result.unmatched
  unfolding match_by_hash
  match_by_hash-All [] added found result h all kept =
      subst_ok (λ m. All P m.unmatched) found result h kept
  match_by_hash-All (deletion ∷ deletions) added found result h (p, all) kept =
      let (choice, chosen, h₁) =
        >>=-eq-ok (choose u found.used deletion.path (filter (λ a. a.hash == deletion.hash) added))
          _ h in
      match_by_hash-All deletions added _ result h₁ all
        (take_match-All deletion (or_else choice.same_dir choice.fallback) found p kept)

  correlate_rest-All :
      (found : Matched u) (unmatched_added : List ScanCandidate) (result : Correlation)
      → correlate_rest u found unmatched_added ≡ ok result
      → All P found.unmatched
      → All P result.deleted
  unfolding correlate_rest
  correlate_rest-All found unmatched_added result h left =
      let (deletes, grouped, h₁) =
        >>=-eq-ok (by_base u (λ (d : DeletedCandidate). d.path) found.unmatched []) _ h in
      let (adds, grouped_adds, h₂) =
        >>=-eq-ok (by_base u (λ (a : ScanCandidate). a.path) unmatched_added []) _ h₁ in
      let paired = pair_bases u adds deletes in
      subst_ok (λ (c : Correlation). All P c.deleted)
        (record {
          renamed = found.renamed ++ paired;
          deleted = filter (λ d. not (in_paths (sources u paired) d.path)) found.unmatched;
          added = filter (λ a. not (in_paths (destinations u paired) a.path)) unmatched_added;
        })
        result h₂ (All-filter (λ d. not (in_paths (sources u paired) d.path)) found.unmatched left)

  detect_renames-All :
      (deleted : List DeletedCandidate) (added : List ScanCandidate) (result : Correlation)
      → detect_renames u deleted added ≡ ok result
      → All P deleted
      → All P result.deleted
  unfolding detect_renames
  detect_renames-All deleted added result h all =
      let sorted =
        sort (λ (a : ScanCandidate) (b : ScanCandidate). compare_strings a.path b.path) added in
      let ordered =
        sort (λ (a : DeletedCandidate) (b : DeletedCandidate). compare_strings a.path b.path)
          deleted in
      let start : Matched u = record { renamed = []; unmatched = []; used = [] } in
      let (found, matched, h₁) = >>=-eq-ok (match_by_hash u sorted start ordered) _ h in
      correlate_rest-All found _ result h₁ (
        match_by_hash-All ordered sorted start found matched
          (All-Perm P deleted ordered (sort-Perm (λ a b. compare_strings a.path b.path) deleted)
            all)
          tt)

-- The twin that keeps a candidate from being a deletion.
abbrev HasNoTwin : Platform → Dict Str → List Str → DeletedCandidate → Type 0
HasNoTwin u folds changed d =
    is_unchanged_twin changed (lookup (fold_key_for_path u d.path) folds) ≡ false

module _ (P : DeletedCandidate → Type 0) (u : Platform) (folds : Dict Str)
    (changed : List Str) where
  split_fold_collisions-All :
      (candidates : List DeletedCandidate)
      → All P candidates
      → All
          (λ d. P d × HasNoTwin u folds changed d)
          (split_fold_collisions u folds changed candidates).0
  unfolding split_fold_collisions
  split_fold_collisions-All [] all = tt
  split_fold_collisions-All (candidate ∷ candidates) (p, all) =
      elim (Bool-cases
        (is_unchanged_twin changed (lookup (fold_key_for_path u candidate.path) folds))) [
          | inl twin ↦ rw twin (split_fold_collisions-All candidates all)
          | inr none_there ↦
              rw none_there (((p, none_there), split_fold_collisions-All candidates all))
        ]

-- Where files were kept under the candidate's fold key, one of them is changed by the scan itself.
abbrev pub HasChangedTwin : Platform → List Str → List Str → DeletedCandidate → Type 0
HasChangedTwin u kept changed d =
    All (λ path. fold_key_for_path u path ≢ fold_key_for_path u d.path) kept
    ⊎ ((path : Str) × Memᴰ path kept
        × (fold_key_for_path u path ≡ fold_key_for_path u d.path)
        × (has_path changed path ≡ true))

module _ (u : Platform) (key : Str) where
  -- What the table of fold keys has: one of the paths with the key, or what it had before.
  abbrev Held : List Str → Dict Str → Option Str → Type 0
  Held kept folds found =
      (All (λ path. fold_key_for_path u path ≢ key) kept × (found ≡ lookup key folds))
      ⊎ ((path : Str) × Memᴰ path kept × (fold_key_for_path u path ≡ key) × (found ≡ some path))

  kept_by_fold-Held :
      (kept : List Str) (folds : Dict Str)
      → Held kept folds (lookup key (kept_by_fold u kept folds))
  unfolding kept_by_fold
  kept_by_fold-Held [] folds = inl (tt, refl)
  kept_by_fold-Held (path ∷ kept) folds =
      let own = fold_key_for_path u path in
      let laid = lookup-insert own key path folds in
      elim (kept_by_fold-Held kept (insert own path folds)) [
        | inr (later, member, same, found) ↦ inr (later, Memᴰ.tail member, same, found)
        | inl (others, found) ↦ elim (Bool-cases (own == key)) [
          | inl same ↦ inr (path, Memᴰ.head refl, (eq_iff own key).0 same, found ∙ rw same at laid)
          | inr differ ↦ inl (((λ e. cc ((eq_iff own key).1 e)), others), found ∙ rw differ at laid)
        ]
      ]

HasNoTwin-HasChangedTwin :
    (u : Platform) (kept changed : List Str) (d : DeletedCandidate)
    → HasNoTwin u (kept_by_fold u kept []) changed d
    → HasChangedTwin u kept changed d
HasNoTwin-HasChangedTwin u kept changed d no_twin =
    elim (kept_by_fold-Held u (fold_key_for_path u d.path) kept []) [
      | inl (others, found) ↦ inl others
      | inr (path, member, same, found) ↦
          inr (path, member, same, ground (arith, rw found at no_twin))
    ]

-- Every file that a scan reports as deleted is a live file of the index that is not on the disk and
-- is neither ignored nor hidden by a symbolic link; and where the scan keeps files whose paths have
-- the fold key of the deleted one, it reports one of them itself as added, as modified or as the
-- target of a rename.
pub scan_deleted-IsGone :
    (u : Platform) (ignored : Str → Result Bool) (kept links : List Str) (index : LocalIndex)
    (added modified : List ScanCandidate) (swept : Swept)
    → scan_deleted u ignored kept links index added modified ≡ ok swept
    → (deleted : List DeletedCandidate) × (find_deleted ignored kept links index ≡ ok deleted)
      × (detect_renames u deleted added ≡ ok swept.correlation)
      × All
          (λ d.
            IsGone ignored kept links index d
            × HasChangedTwin u kept
                (paths_of swept.correlation.added
                  ++ paths_of modified
                  ++ targets_of swept.correlation.renamed)
                d)
          swept.deleted
unfolding scan_deleted
scan_deleted-IsGone u ignored kept links index added modified swept h =
    let (deleted, found, h₁) = >>=-eq-ok (find_deleted ignored kept links index) _ h in
    let (c, correlated, h₂) = >>=-eq-ok (detect_renames u deleted added) _ h₁ in
    let gone =
      detect_renames-All (IsGone ignored kept links index) u deleted added c correlated
        (find_deleted-IsGone ignored kept links index deleted found) in
    let P : Swept → Type 0 = λ swept.
      (detect_renames u deleted added ≡ ok swept.correlation)
      × All
          (λ d.
            IsGone ignored kept links index d
            × HasChangedTwin u kept
                (paths_of swept.correlation.added
                  ++ paths_of modified
                  ++ targets_of swept.correlation.renamed)
                d)
          swept.deleted in
    let (found_renames, all_gone) = subst_ok P _ swept h₂ (
      correlated,
      All-Perm _ _ _ (sort-Perm (λ a b. compare_strings a.path b.path) _) (
          All-map _ (λ d both. (both.0, HasNoTwin-HasChangedTwin u kept _ d both.1)) _
            (split_fold_collisions-All (IsGone ignored kept links index) u (kept_by_fold u kept [])
              _ c.deleted gone)),
    ) in
    (deleted, found, found_renames, all_gone)
