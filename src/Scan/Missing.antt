-- ===== src/Scan/Missing.antt =====
-- The deletions of a whole scan, traced back to what the storage lists.
use vaultsyncforagents.Prelude.{
  ℕ, ◌≡◌, refl, true, false, not, Bool, Option, List, [], ◌∷◌, Str, ◌==◌, eq_iff, arith, Bool-cases,
  inl, inr, ap, sym, if◌then◌else◌, All, All-map, All-Perm, ◌||◌, is_some, filter,
}
use mathlib.Core.List.{Memᴰ}
use mathlib.Core.List.Permᴰ
use vaultsyncforagents.Prelude.Failure.{Result, ok, >>=-eq-ok, subst_ok}
use vaultsyncforagents.Platform.{Platform}
use vaultsyncforagents.Paths.{is_windows_unsafe_path}
use vaultsyncforagents.Ignore.{IgnoreSettings, is_ignored}
use vaultsyncforagents.LocalIndex.{LocalIndex, LocalIndexEntry}
use vaultsyncforagents.Resolve.{DeletedCandidate, compare_strings}
use vaultsyncforagents.Resolve.Sorted.{sort-Perm}
use vaultsyncforagents.Scan.{
  FileStat, Storage, Swept, observe_files, CanonFile, has_path, canon_files, keep_unless,
}
use vaultsyncforagents.Scan.Deletions.{IsGone, scan_deleted-IsGone}
use vaultsyncforagents.Scan.Whole.{
  ScanReport, canons_of, ignored_at, kept_files, sweep, folders_in, gone_folders, report_of,
  scan_vault,
}

module _ (u : Platform) (path : Str) where
  absent_here :
      (c : Str) (rest : Bool) → (c == path) || rest ≡ false → (c == path ≡ false) × (rest ≡ false)
  absent_here c rest h = ground arith

  absent_both : (b rest : Bool) → b ≡ false → rest ≡ false → b || rest ≡ false
  absent_both b rest h₁ h₂ = ground arith

  -- Two paths that a function tells apart are not the same.
  differ_on {ℓ} : {A : Type ℓ} (f : Str → A) (c : Str) → ¬ (f c ≡ f path) → c == path ≡ false
  differ_on f c apart = elim (Bool-cases (c == path)) [
    | inl same ↦ absurd (apart (ap f ((eq_iff c path).0 same)))
    | inr other ↦ other
  ]

  -- A path that no file carries after the twins are gone is carried by none before.
  canon_files-absent :
      (seen : List Str) (files : List FileStat)
      → has_path seen path ≡ false
      → has_path (canons_of (canon_files u seen files).0) path ≡ false
      → All (λ file. u.nfc file.path == path ≡ false) files
  unfolding canon_files
  canon_files-absent seen [] unseen absent = tt
  canon_files-absent seen (file ∷ files) unseen absent =
      elim (Bool-cases (has_path seen (u.nfc file.path))) [
        | inl again ↦
            let c = u.nfc file.path in
            (
              differ_on (has_path seen) c (λ same. cc),
              canon_files-absent seen files unseen (rw again at absent),
            )
        | inr fresh ↦
            let c = u.nfc file.path in
            let (here, later) = absent_here c _ (rw fresh at absent) in
            (here, canon_files-absent (c ∷ seen) files (absent_both _ _ here unseen) later)
      ]

  -- Files that are left out for a reason that does not hold of the path do not hide it.
  filter-absent :
      (skip : Str → Bool) (files : List CanonFile)
      → skip path ≡ false
      → has_path (canons_of (filter (λ (file : CanonFile). not (skip file.canon)) files)) path
        ≡ false
      → has_path (canons_of files) path ≡ false
  filter-absent skip [] keeps absent = refl
  filter-absent skip (file ∷ files) keeps absent = elim (Bool-cases (skip file.canon)) [
    | inl out ↦
        absent_both _ _ (differ_on skip file.canon (λ same. cc))
          (filter-absent skip files keeps (rw out at absent))
    | inr kept ↦
        let (here, later) = absent_here file.canon _ (rw kept at absent) in
        absent_both _ _ here (filter-absent skip files keeps later)
  ]

  keep_case :
      (skip : Bool) (file : CanonFile) (files rest : List CanonFile)
      → (has_path (canons_of rest) path ≡ false → has_path (canons_of files) path ≡ false)
      → (skip ≡ true → file.canon == path ≡ false)
      → has_path (canons_of (if skip then rest else file ∷ rest)) path ≡ false
      → has_path (canons_of (file ∷ files)) path ≡ false
  keep_case true file files rest back skipped absent = absent_both _ _ (skipped refl) (back absent)
  keep_case false file files rest back skipped absent =
      let (here, later) = absent_here file.canon _ absent in absent_both _ _ here (back later)

  keep_unless-absent :
      (ignored : Str → Result Bool) (files kept : List CanonFile)
      → keep_unless ignored (λ file. file.canon) files ≡ ok kept
      → ignored path ≡ ok false
      → has_path (canons_of kept) path ≡ false
      → has_path (canons_of files) path ≡ false
  unfolding keep_unless
  keep_unless-absent ignored [] kept found keeps absent = refl
  keep_unless-absent ignored (file ∷ files) kept found keeps absent =
      let P = λ (list : List CanonFile). has_path (canons_of list) path ≡ false in
      let (skip, seen, h₁) = >>=-eq-ok (ignored file.canon) _ found in
      let (rest, others, h₂) =
        >>=-eq-ok (keep_unless ignored (λ (file : CanonFile). file.canon) files) _ h₁ in
      keep_case skip file files rest (keep_unless-absent ignored files rest others keeps)
        (λ out. differ_on ignored file.canon (λ same. cc)) (subst_ok P kept _ (sym h₂) absent)

  is_ignored-safe :
      (settings : IgnoreSettings)
      → is_ignored u path settings ≡ ok false
      → is_windows_unsafe_path u path ≡ false
  unfolding is_ignored
  is_ignored-safe settings h = elim (Bool-cases (is_windows_unsafe_path u path)) [
    | inl bad ↦ cc
    | inr fine ↦ fine
  ]

module _ (u : Platform) (storage : Storage) (index : LocalIndex) (settings : IgnoreSettings) where
  -- A live file of the index whose path no file of the storage carries in its canonical form.
  pub record IsLost (d : DeletedCandidate) : Type 0 where
    pub entry : LocalIndexEntry
    pub listed : Memᴰ (d.path, entry) index
    pub live : is_some entry.deleted_at ≡ false
    pub is_file : entry.is_folder ≡ false
    pub same_version : d.version_id ≡ entry.version_id
    pub not_ignored : is_ignored u d.path settings ≡ ok false
    pub not_on_disk : All (λ (file : FileStat). u.nfc file.path == d.path ≡ false) storage.files

  IsGone-IsLost :
      (links : List Str) (kept : List CanonFile) (d : DeletedCandidate)
      → kept_files u storage index settings ≡ ok kept
      → IsGone (ignored_at u storage index settings) (canons_of kept) links index d
      → IsLost d
  unfolding kept_files
  IsGone-IsLost links kept d found gone = record {
    entry = gone.entry;
    listed = gone.listed;
    live = gone.live;
    is_file = gone.is_file;
    same_version = gone.same_version;
    not_ignored = gone.not_ignored;
    not_on_disk =
        All-Perm _ _ _ (Permᴰ.symm (sort-Perm (λ a b. compare_strings a.path b.path) storage.files))
          (canon_files-absent u d.path [] _ refl (
            filter-absent u d.path (is_windows_unsafe_path u) _
              (is_ignored-safe u d.path settings gone.not_ignored)
              (keep_unless-absent u d.path _ _ kept found gone.not_ignored gone.absent)));
  }

  sweep-IsLost :
      (fast : Bool) (links : List Str) (kept : List CanonFile) (swept : Swept)
      → kept_files u storage index settings ≡ ok kept
      → sweep u storage index settings fast links kept ≡ ok swept
      → All IsLost swept.deleted
  unfolding sweep
  sweep-IsLost fast links kept swept found cleared =
      let observed = observe_files storage index fast kept in
      let (deleted, seen, correlated, all) =
        scan_deleted-IsGone u (ignored_at u storage index settings) (canons_of kept) links index
          observed.added observed.modified swept cleared in
      All-map _ (λ d both. IsGone-IsLost links kept d found both.0) swept.deleted all

  -- Whatever a successful scan of a vault reports as deleted is a live file of the index, under its
  -- last version, that is not ignored and whose path is the canonical form of no file that the
  -- storage lists.
  pub scan_vault-IsLost :
      (now : ℕ) (fast : Bool) (this_device : Option Str) (report : ScanReport)
      → scan_vault u storage index settings now fast this_device ≡ ok report
      → All IsLost report.changes.deleted
  unfolding scan_vault report_of
  scan_vault-IsLost now fast this_device report h =
      let ignored = ignored_at u storage index settings in
      let (links, linked, h₁) =
        >>=-eq-ok (keep_unless ignored (λ path. path) storage.symlinks) _ h in
      let (kept, found, h₂) = >>=-eq-ok (kept_files u storage index settings) _ h₁ in
      let (swept, cleared, h₃) = >>=-eq-ok (sweep u storage index settings fast links kept) _ h₂ in
      let (folders, listed, h₄) =
        >>=-eq-ok (folders_in u storage index settings this_device) _ h₃ in
      let (gone, tombs, h₅) = >>=-eq-ok (gone_folders u storage index settings links) _ h₄ in
      subst_ok (λ (report : ScanReport). All IsLost report.changes.deleted)
        (report_of u storage index settings now fast links kept swept folders gone) report h₅
        (sweep-IsLost fast links kept swept found cleared)
