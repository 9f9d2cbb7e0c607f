-- ===== src/Merge/Anchors.antt =====
-- `lcsPairs` and the anchors that `mergeText3` takes from it: their order and their lines.
use vaultsyncforagents.Prelude.{
  ℕ, zero, suc, ◌+◌, ◌≤◌, ◌<◌, ◌≡◌, some, List, [], ◌∷◌, Str, ◌==◌, eq_iff, length, get_elem?, leb,
  nat_eq, nat_eq_iff, arith, Bool-cases, Option-cases, inl, inr,
}
use vaultsyncforagents.Merge.{walk, lcs_table, lcs_pairs, matched, Anchor, anchors_from, cell}

-- Pairs of places with equal lines, increasing on both sides, from `i` and `j` on.
abbrev pub IsAligned : List Str → List Str → ℕ → ℕ → List (ℕ × ℕ) → Type 0
IsAligned a b i j [] = Unit
IsAligned a b i j ((p, q) ∷ pairs) =
    (i ≤ p)
    × (j ≤ q)
    × ((x : Str) × (get_elem? a p ≡ some x) × (get_elem? b q ≡ some x))
    × IsAligned a b (suc p) (suc q) pairs

IsAligned-weaken :
    (a b : List Str) (i j k l : ℕ) (pairs : List (ℕ × ℕ))
    → k ≤ i
    → l ≤ j
    → IsAligned a b i j pairs
    → IsAligned a b k l pairs
IsAligned-weaken a b i j k l [] le le' h = tt
IsAligned-weaken a b i j k l ((p, q) ∷ pairs) le le' (ip, jq, line, rest) =
    (omega arith, omega arith, line, rest)

pub walk-IsAligned :
    (a b : List Str) (table : List (List ℕ)) (rounds i j : ℕ)
    → IsAligned a b i j (walk a b table rounds i j)
unfolding walk
walk-IsAligned a b table zero i j = tt
walk-IsAligned a b table (suc rounds) i j = elim (Option-cases (get_elem? a i)) [
  | inl over ↦ rw (walk, over) tt
  | inr (x, at) ↦ elim (Option-cases (get_elem? b j)) [
    | inl over ↦ rw (walk, at, over) tt
    | inr (y, at') ↦ elim (Bool-cases (x == y)) [
      | inl same ↦
          let e : x ≡ y = (eq_iff x y).0 same in
          rw (walk, at, at', same)
            (
              omega arith,
              omega arith,
              (x, at, rw e at'),
              walk-IsAligned a b table rounds (suc i) (suc j),
            )
      | inr differ ↦ elim (Bool-cases (leb (cell table i (suc j)) (cell table (suc i) j))) [
        | inl down ↦
            rw (walk, at, at', differ, down)
              (IsAligned-weaken a b (suc i) j i j _ (omega arith) (omega arith)
                (walk-IsAligned a b table rounds (suc i) j))
        | inr right ↦
            rw (walk, at, at', differ, right)
              (IsAligned-weaken a b i (suc j) i j _ (omega arith) (omega arith)
                (walk-IsAligned a b table rounds i (suc j)))
      ]
    ]
  ]
]

-- A place that is matched is matched with an equal line, and later places with later ones.
pub record IsMatch (a b : List Str) (i j p q : ℕ) : Type 0 where
  pub from : i ≤ p
  pub to : j ≤ q
  pub line : Str
  pub here : get_elem? a p ≡ some line
  pub there : get_elem? b q ≡ some line

pub matched-IsMatch :
    (a b : List Str) (i j : ℕ) (pairs : List (ℕ × ℕ)) (p q : ℕ)
    → IsAligned a b i j pairs
    → matched pairs p ≡ some q
    → IsMatch a b i j p q
unfolding matched
matched-IsMatch a b i j [] p q h e = cc
matched-IsMatch a b i j ((k, l) ∷ pairs) p q (ik, jl, (x, here, there), rest) e =
    elim (Option-cases (matched pairs p)) [
      | inl none_later ↦ elim (Bool-cases (nat_eq k p)) [
        | inl same ↦
            let at_k : k ≡ p = (nat_eq_iff k p).0 same in
            let at_l : l ≡ q = ground (arith, rw (none_later, same) at e) in
            record {
              from = omega arith;
              to = omega arith;
              line = x;
              here = rw at_k at here;
              there = rw at_l at there;
            }
        | inr differ ↦ cc (rw (none_later, differ) at e)
      ]
      | inr (r, later) ↦
          let m = matched-IsMatch a b (suc k) (suc l) pairs p q rest (ground (arith, later, e)) in
          record {
            from = omega (arith, m.from);
            to = omega (arith, m.to);
            line = m.line;
            here = m.here;
            there = m.there;
          }
    ]

matched-increasing :
    (a b : List Str) (i j : ℕ) (pairs : List (ℕ × ℕ)) (p q p' q' : ℕ)
    → IsAligned a b i j pairs
    → matched pairs p ≡ some q
    → matched pairs p' ≡ some q'
    → p < p'
    → q < q'
unfolding matched
matched-increasing a b i j [] p q p' q' h e e' lt = cc
matched-increasing a b i j ((k, l) ∷ pairs) p q p' q' (ik, jl, line, rest) e e' lt =
    elim (Option-cases (matched pairs p)) [
      | inl none_later ↦ elim (Option-cases (matched pairs p')) [
        | inl none_after ↦ ground (arith, none_later, none_after)
        | inr (r, after) ↦
            let m = matched-IsMatch a b (suc k) (suc l) pairs p' r rest after in
            ground (arith, none_later, after, m.to)
      ]
      | inr (r, later) ↦
          let m = matched-IsMatch a b (suc k) (suc l) pairs p r rest later in
          elim (Option-cases (matched pairs p')) [
            | inl none_after ↦ ground (arith, later, none_after, m.from)
            | inr (s, after) ↦
                let grows =
                  matched-increasing a b (suc k) (suc l) pairs p r p' s rest later after lt in
                ground (arith, later, after, grows)
          ]
    ]

-- What makes a list of anchors fit the lines that are left from `b`, `o` and `t` on.
abbrev pub AreAnchors : List Str → List Str → List Str → ℕ → ℕ → ℕ → List Anchor → Type 0
AreAnchors base ours theirs b o t [] = Unit
AreAnchors base ours theirs b o t (anchor ∷ anchors) =
    IsMatch base ours b o anchor.base_at anchor.ours_at
    × IsMatch base theirs b t anchor.base_at anchor.theirs_at
    × AreAnchors base ours theirs (suc anchor.base_at) (suc anchor.ours_at) (suc anchor.theirs_at)
        anchors

module _ (base ours theirs : List Str) (to_ours to_theirs : List (ℕ × ℕ))
    (ours_aligned : IsAligned base ours 0 0 to_ours)
    (theirs_aligned : IsAligned base theirs 0 0 to_theirs) where
  -- Whatever is matched from the `i`-th base line on is matched from the `k`-th line on.
  abbrev Beyond : List (ℕ × ℕ) → ℕ → ℕ → Type 0
  Beyond pairs i k = (p q : ℕ) → i ≤ p → matched pairs p ≡ some q → k ≤ q

  IsMatch-from :
      (side : List Str) (pairs : List (ℕ × ℕ)) (b o i q : ℕ)
      → IsAligned base side 0 0 pairs
      → b ≤ i
      → Beyond pairs i o
      → matched pairs i ≡ some q
      → IsMatch base side b o i q
  IsMatch-from side pairs b o i q aligned le beyond e =
      let m = matched-IsMatch base side 0 0 pairs i q aligned e in
      record {
        from = le;
        to = beyond i q (omega arith) e;
        line = m.line;
        here = m.here;
        there = m.there;
      }

  anchors_from-AreAnchors :
      (count i b o t : ℕ)
      → b ≤ i
      → Beyond to_ours i o
      → Beyond to_theirs i t
      → AreAnchors base ours theirs b o t (anchors_from to_ours to_theirs count i)
  unfolding anchors_from
  anchors_from-AreAnchors zero i b o t le past past' = tt
  anchors_from-AreAnchors (suc count) i b o t le past past' =
      let skip =
        anchors_from-AreAnchors count (suc i) b o t (omega arith) (λ p q ip. past p q (omega arith))
          (λ p q ip. past' p q (omega arith)) in
      elim (Option-cases (matched to_ours i)) [
        | inl alone ↦ rw (anchors_from, alone) skip
        | inr (q, e) ↦ elim (Option-cases (matched to_theirs i)) [
          | inl alone ↦ rw (anchors_from, e, alone) skip
          | inr (q', e') ↦
              rw (anchors_from, e, e')
                (
                  IsMatch-from ours to_ours b o i q ours_aligned le past e,
                  IsMatch-from theirs to_theirs b t i q' theirs_aligned le past' e',
                  anchors_from-AreAnchors count (suc i) (suc i) (suc q) (suc q') (omega arith)
                      (λ p r ip m.
                        matched-increasing base ours 0 0 to_ours i q p r ours_aligned e m
                          (omega arith))
                      (λ p r ip m.
                        matched-increasing base theirs 0 0 to_theirs i q' p r theirs_aligned e' m
                          (omega arith)),
                )
        ]
      ]

pub anchors-AreAnchors :
    (base ours theirs : List Str)
    → AreAnchors base ours theirs 0 0 0
        (anchors_from (lcs_pairs base ours) (lcs_pairs base theirs) (length base) 0)
unfolding lcs_pairs
anchors-AreAnchors base ours theirs =
    anchors_from-AreAnchors base ours theirs (lcs_pairs base ours) (lcs_pairs base theirs)
      (walk-IsAligned base ours (lcs_table base ours) (length base + length ours) 0 0)
      (walk-IsAligned base theirs (lcs_table base theirs) (length base + length theirs) 0 0)
      (length base) 0 0 0 0 (omega arith) (λ p q ip m. omega arith) (λ p q ip m. omega arith)
