-- ===== src/Merge.antt =====
-- The three-way merge of texts by lines: packages/core/src/merge/threeway.ts.
pub mod Anchors
pub mod Clean
pub mod Symmetry
pub mod OneSide
use vaultsyncforagents.Prelude.{
  ℕ, zero, suc, ◌+◌, ◌-◌, ◌*◌, ◌%◌, Bool, true, false, not, ◌&&◌, ◌||◌, Option, none, some, List,
  [], ◌∷◌, ◌++◌, Str, ◌==◌, length, take, drop, get_elem?, ltb, leb, nat_eq, or_default,
  if◌then◌else◌,
}
use vaultsyncforagents.Prelude.Strings.{split_on, join_with}

abbrev pub max_lines : ℕ
max_lines = 5000

abbrev pub max_cells : ℕ
max_cells = 2000000

abbrev pub newline : ℕ
newline = 10

-- The lines between the separators; the empty text has none, and a text that ends in a newline
-- has an empty last line.
unfoldable pub split_lines : Str → List Str
split_lines [] = []
split_lines (c ∷ text) = split_on newline (c ∷ text)

unfoldable pub regions_equal : List Str → List Str → Bool
regions_equal [] [] = true
regions_equal [] (y ∷ b) = false
regions_equal (x ∷ a) [] = false
regions_equal (x ∷ a) (y ∷ b) = x == y && regions_equal a b

-- `lines.slice(from, to)`.
abbrev pub slice : ℕ → ℕ → List Str → List Str
slice from to lines = take (to - from) (drop from lines)

-- One row of the table of common lengths, from the row below; the cells are 16 bits wide.
abbrev first_cell : List ℕ → ℕ
first_cell [] = 0
first_cell (c ∷ cells) = c

abbrev max : ℕ → ℕ → ℕ
max m n = if leb m n then n else m

unfoldable lcs_row : Str → List Str → List ℕ → List ℕ
lcs_row x [] below = 0 ∷ []
lcs_row x (y ∷ b) [] = []
lcs_row x (y ∷ b) (cell ∷ below) =
    let rest = lcs_row x b below in
    (if x == y then (first_cell below + 1) % 65536 else max cell (first_cell rest)) ∷ rest

unfoldable zero_row : List Str → List ℕ
zero_row [] = 0 ∷ []
zero_row (y ∷ b) = 0 ∷ zero_row b

abbrev first_row : List (List ℕ) → List ℕ
first_row [] = []
first_row (row ∷ rows) = row

unfoldable pub lcs_table : List Str → List Str → List (List ℕ)
unfolding lcs_row zero_row
lcs_table [] b = zero_row b ∷ []
lcs_table (x ∷ a) b = let rows = lcs_table a b in lcs_row x b (first_row rows) ∷ rows

-- `table[i * cols + j] ?? 0`.
abbrev pub cell : List (List ℕ) → ℕ → ℕ → ℕ
cell table i j = or_default (get_elem? (or_default (get_elem? table i) []) j) 0

module _ (a b : List Str) (table : List (List ℕ)) where
  -- The walk from `(i, j)`: a round moves one of the two on, so that their lengths together bound
  -- the rounds.
  unfoldable pub walk : ℕ → ℕ → ℕ → List (ℕ × ℕ)
  walk zero i j = []
  walk (suc rounds) i j = elim (get_elem? a i) [
    | none ↦ []
    | some x ↦ elim (get_elem? b j) [
      | none ↦ []
      | some y ↦ elim (x == y) [
        | true ↦ (i, j) ∷ walk rounds (suc i) (suc j)
        | false ↦ elim (leb (cell table i (suc j)) (cell table (suc i) j)) [
          | true ↦ walk rounds (suc i) j
          | false ↦ walk rounds i (suc j)
        ]
      ]
    ]
  ]

unfoldable pub lcs_pairs : List Str → List Str → List (ℕ × ℕ)
unfolding walk lcs_table
lcs_pairs a b = walk a b (lcs_table a b) (length a + length b) 0 0

-- `sideAt[i]` where `stableSide[i]` is set: the last pair that was written there.
unfoldable pub matched : List (ℕ × ℕ) → ℕ → Option ℕ
matched [] i = none
matched ((p, q) ∷ pairs) i = elim (matched pairs i) [
  | some later ↦ some later
  | none ↦ if nat_eq p i then some q else none
]

-- A base line that both sides match, with its places on the two sides.
pub record Anchor : Type 0 where
  pub base_at : ℕ
  pub ours_at : ℕ
  pub theirs_at : ℕ

abbrev pub anchor_at : ℕ → Option ℕ → Option ℕ → List Anchor → List Anchor
anchor_at i none theirs later = later
anchor_at i (some o) none later = later
anchor_at i (some o) (some t) later = record { base_at = i; ours_at = o; theirs_at = t } ∷ later

-- The anchors from the `i`-th base line on.
unfoldable pub anchors_from : List (ℕ × ℕ) → List (ℕ × ℕ) → ℕ → ℕ → List Anchor
anchors_from ours theirs zero i = []
anchors_from ours theirs (suc count) i =
    anchor_at i (matched ours i) (matched theirs i) (anchors_from ours theirs count (suc i))

-- A gap's region: the side that changed it, or the change that both made.
unfoldable pub resolve_gap : List Str → List Str → List Str → Option (List Str)
unfolding regions_equal
resolve_gap base ours theirs =
    if not (regions_equal ours base)
    then if not (regions_equal theirs base)
      then if regions_equal ours theirs then some ours else none
      else some ours
    else if not (regions_equal theirs base)
    then some theirs
    else some base

abbrev pub push_gap : Option (List Str) → Option (List Str) → Option (List Str)
push_gap none later = none
push_gap (some region) none = none
push_gap (some region) (some later) = some (region ++ later)

abbrev pub cons_line : Option Str → Option (List Str) → Option (List Str)
cons_line line none = none
cons_line line (some later) = some (or_default line [] ∷ later)

module _ (base ours theirs : List Str) where
  -- The gaps and the anchors, from the lines that are not written yet.
  unfoldable pub merge_from : List Anchor → ℕ → ℕ → ℕ → Option (List Str)
  merge_from [] b o t =
      resolve_gap (slice b (length base) base) (slice o (length ours) ours)
        (slice t (length theirs) theirs)
  merge_from (anchor ∷ anchors) b o t =
      push_gap
        (resolve_gap (slice b anchor.base_at base) (slice o anchor.ours_at ours)
          (slice t anchor.theirs_at theirs))
        (cons_line (get_elem? base anchor.base_at)
          (merge_from anchors (suc anchor.base_at) (suc anchor.ours_at) (suc anchor.theirs_at)))

  unfoldable pub is_too_large : Bool
  is_too_large =
      ltb max_lines (length base)
      || (ltb max_lines (length ours)
          || (ltb max_lines (length theirs)
              || ltb max_cells
                  (length base * (length ours + 1) + length base * (length theirs + 1))))

  unfoldable pub merge_lines : Option (List Str)
  unfolding merge_from
  merge_lines =
      if is_too_large
      then none
      else merge_from (anchors_from (lcs_pairs base ours) (lcs_pairs base theirs) (length base) 0) 0
          0 0

abbrev pub joined : Option (List Str) → Option Str
joined none = none
joined (some lines) = some (join_with newline lines)

unfoldable pub merge_text3 : Str → Str → Str → Option Str
merge_text3 base ours theirs =
    joined (merge_lines (split_lines base) (split_lines ours) (split_lines theirs))
