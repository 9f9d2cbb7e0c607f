-- ===== src/Arbitrate/WellFormed.antt =====
-- The invariant of the arbitration state: each row is keyed by its head's path and backed by a
-- stored version, and the ids are `v1` to `vn`.
use vaultsyncforagents.Prelude.{
  ℕ, ◌+◌, ◌<◌, ◌≡◌, refl, Bool, none, some, Str, ◌==◌, eq_iff, arith, Option-cases, Bool-cases, inl,
  inr, [], if◌then◌else◌,
}
use vaultsyncforagents.Prelude.Dict.{
  Dict, lookup, erase, size, lookup-insert, lookup-insert_self, lookup-erase, size-insert_fresh,
  lookup-nil,
}
use vaultsyncforagents.Decimal.{decimal_injective}
use vaultsyncforagents.Types.{Version, is_delete}
use vaultsyncforagents.Arbitrate.State.{
  ArbitrationFileState, ArbitrationState, empty_arbitration_state, version_id, mint_id, install,
}

pub record IsRow (versions : Dict Version) (path : Str) (row : ArbitrationFileState) : Type 0 where
  pub head_path : row.head.path ≡ path
  pub current : row.current_version ≡ row.head.id
  pub stored : lookup row.head.id versions ≡ some row.head
  pub tombstone : row.deleted ≡ is_delete row.head.kind

-- The version is stored under its own id, which was minted at a smaller size.
pub record IsMinted (versions : Dict Version) (key : Str) (version : Version) : Type 0 where
  pub own_id : version.id ≡ key
  pub rank : ℕ
  pub below : rank < size versions
  pub numbered : key ≡ version_id rank

pub record IsWellFormed (st : ArbitrationState) : Type 0 where
  pub rows :
      (path : Str) (row : ArbitrationFileState)
      → lookup path st.files ≡ some row
      → IsRow st.versions path row
  pub minted :
      (key : Str) (version : Version)
      → lookup key st.versions ≡ some version
      → IsMinted st.versions key version

version_id_injective : (m n : ℕ) → version_id m ≡ version_id n → m ≡ n
unfolding version_id
version_id_injective m n h =
    let e : m + 1 ≡ n + 1 = decimal_injective (m + 1) (n + 1) (cc) in omega arith

-- The empty state is well formed.
pub empty-IsWellFormed : IsWellFormed empty_arbitration_state
empty-IsWellFormed = record {
  rows = λ path row h. cc (lookup-nil {V = ArbitrationFileState} path);
  minted = λ key version h. absurd (nothing_stored key version h);
}
  where
    nothing_stored : (key : Str) (version : Version) → lookup key [] ≡ some version → ⊥
    nothing_stored key version h = cc (lookup-nil {V = Version} key)

-- A minted id is stored nowhere yet.
pub mint_id-fresh :
    (st : ArbitrationState) → IsWellFormed st → lookup (mint_id st) st.versions ≡ none
unfolding mint_id
mint_id-fresh st w = elim (Option-cases (lookup (mint_id st) st.versions)) [
  | inl absent ↦ absent
  | inr present ↦
      let m = w.minted (mint_id st) present.0 present.1 in
      let e : size st.versions ≡ m.rank =
        version_id_injective (size st.versions) m.rank m.numbered in
      absurd (omega (arith, m.below))
]

abbrev pub row_of : Version → Bool → Bool → ArbitrationFileState
row_of version deleted is_folder = record {
  current_version = version.id;
  head = version;
  deleted = deleted;
  is_folder = is_folder;
}

module _ (st : ArbitrationState) (version : Version) (deleted is_folder : Bool) where
  pub lookup_files-install :
      (path : Str)
      → lookup path (install st version deleted is_folder).files ≡ (
          if version.path == path
          then some (row_of version deleted is_folder)
          else lookup path st.files)
  unfolding install
  lookup_files-install path = lookup-insert version.path path _ st.files

  pub lookup_versions-install :
      (key : Str)
      → lookup key (install st version deleted is_folder).versions
        ≡ (if version.id == key then some version else lookup key st.versions)
  unfolding install
  lookup_versions-install key = lookup-insert version.id key version st.versions

  pub lookup_versions-install_self :
      lookup version.id (install st version deleted is_folder).versions ≡ some version
  unfolding install
  lookup_versions-install_self = lookup-insert_self version.id version st.versions

module _ (st : ArbitrationState) (w : IsWellFormed st) where
  -- A stored version stays stored when a version under a minted id joins it.
  pub stored-install :
      (version other : Version) (key : Str) (deleted is_folder : Bool)
      → version.id ≡ mint_id st
      → lookup key st.versions ≡ some other
      → lookup key (install st version deleted is_folder).versions ≡ some other
  unfolding install
  stored-install version other key deleted is_folder fresh h =
      rw lookup-insert (ground (arith, eq_iff version.id key, mint_id-fresh st w))

  pub size-install :
      (version : Version) (deleted is_folder : Bool)
      → version.id ≡ mint_id st
      → size (install st version deleted is_folder).versions ≡ size st.versions + 1
  unfolding install
  size-install version deleted is_folder fresh =
      size-insert_fresh version.id version st.versions (rw fresh (mint_id-fresh st w))

  IsMinted-install :
      (version : Version) (deleted is_folder : Bool)
      → version.id ≡ mint_id st
      → (key : Str) (other : Version)
      → lookup key (install st version deleted is_folder).versions ≡ some other
      → IsMinted (install st version deleted is_folder).versions key other
  unfolding mint_id
  IsMinted-install version deleted is_folder fresh key other h =
      elim (Bool-cases (version.id == key)) [
        | inl same ↦ record {
          own_id = ground (
            arith,
            lookup_versions-install st version deleted is_folder key,
            eq_iff version.id key,
          );
          rank = size st.versions;
          below = omega (arith, size-install version deleted is_folder fresh);
          numbered = ground (arith, eq_iff version.id key);
        }
        | inr differ ↦
            let m =
              w.minted key other
                (ground (arith, lookup_versions-install st version deleted is_folder key)) in
            record {
              own_id = m.own_id;
              rank = m.rank;
              below = omega (arith, m.below, size-install version deleted is_folder fresh);
              numbered = m.numbered;
            }
      ]

  IsRow-install :
      (version : Version) (deleted is_folder : Bool)
      → version.id ≡ mint_id st
      → deleted ≡ is_delete version.kind
      → (path : Str) (row : ArbitrationFileState)
      → lookup path (install st version deleted is_folder).files ≡ some row
      → IsRow (install st version deleted is_folder).versions path row
  IsRow-install version deleted is_folder fresh kind path row h =
      elim (Bool-cases (version.path == path)) [
        | inl same ↦
            let e : row ≡ row_of version deleted is_folder =
              ground (arith, lookup_files-install st version deleted is_folder path) in
            rw e (record {
              head_path = (eq_iff version.path path).0 same;
              current = refl;
              stored = lookup_versions-install_self st version deleted is_folder;
              tombstone = kind;
            })
        | inr differ ↦
            let r =
              w.rows path row
                (ground (arith, lookup_files-install st version deleted is_folder path)) in
            record {
              head_path = r.head_path;
              current = r.current;
              stored = stored-install version row.head row.head.id deleted is_folder fresh r.stored;
              tombstone = r.tombstone;
            }
      ]

  -- A version under a minted id joins a well-formed state.
  pub install-IsWellFormed :
      (version : Version) (deleted is_folder : Bool)
      → version.id ≡ mint_id st
      → deleted ≡ is_delete version.kind
      → IsWellFormed (install st version deleted is_folder)
  install-IsWellFormed version deleted is_folder fresh kind = record {
    rows = IsRow-install version deleted is_folder fresh kind;
    minted = IsMinted-install version deleted is_folder fresh;
  }

  -- A row may be dropped.
  pub erase-IsWellFormed : (path : Str) → IsWellFormed (record st { files = erase path st.files })
  erase-IsWellFormed path = record {
    rows = λ p row h. w.rows p row (ground (arith, lookup-erase path p st.files));
    minted = w.minted;
  }
