-- ===== src/Snapshots/SortedPaths.antt =====
-- The sorted set of paths over which `planSnapshotRestore` goes.
use vaultsyncforagents.Prelude.{
  ◌≡◌, refl, Bool, true, false, ◌||◌, none, List, [], ◌∷◌, ◌++◌, Str, ◌==◌, eq_iff, str_lt,
  str_lt_irrefl, str_lt_total, str_lt_trans, arith, All, Bool-cases, inl, inr,
}
use vaultsyncforagents.Prelude.Dict.{Dict, lookup, keys}
use vaultsyncforagents.Snapshots.{insert_sorted, sorted_set}

unfoldable pub contains : List Str → Str → Bool
contains [] q = false
contains (p ∷ ps) q = p == q || contains ps q

abbrev pub Above : Str → List Str → Type 0
Above p ps = All (λ q. str_lt p q ≡ true) ps

abbrev pub IsSorted : List Str → Type 0
IsSorted [] = Unit
IsSorted (p ∷ ps) = Above p ps × IsSorted ps

Above-trans : (p q : Str) (ps : List Str) → str_lt p q ≡ true → Above q ps → Above p ps
Above-trans p q [] h a = tt
Above-trans p q (r ∷ ps) h (b, a) = (str_lt_trans p q r h b, Above-trans p q ps h a)

Above-insert_sorted :
    (r p : Str) (ps : List Str) → str_lt r p ≡ true → Above r ps → Above r (insert_sorted p ps)
unfolding insert_sorted
Above-insert_sorted r p [] h a = (h, tt)
Above-insert_sorted r p (q ∷ ps) h (b, a) = elim (Bool-cases (p == q)) [
  | inl same ↦ rw same (b, a)
  | inr differ ↦ elim (Bool-cases (str_lt p q)) [
    | inl before ↦ rw (differ, before) (h, (b, a))
    | inr after ↦ rw (differ, after) (b, Above-insert_sorted r p ps h a)
  ]
]

insert_sorted-IsSorted : (p : Str) (ps : List Str) → IsSorted ps → IsSorted (insert_sorted p ps)
unfolding insert_sorted
insert_sorted-IsSorted p [] s = (tt, tt)
insert_sorted-IsSorted p (q ∷ ps) (a, s) = elim (Bool-cases (p == q)) [
  | inl same ↦ rw same (a, s)
  | inr differ ↦ elim (Bool-cases (str_lt p q)) [
    | inl before ↦ rw (differ, before) ((before, Above-trans p q ps before a), (a, s))
    | inr after ↦
        rw (differ, after)
          (
            Above-insert_sorted q p ps (ground (arith, str_lt_total p q, eq_iff p q)) a,
            insert_sorted-IsSorted p ps s,
          )
  ]
]

pub sorted_set-IsSorted : (ps : List Str) → IsSorted (sorted_set ps)
unfolding sorted_set
sorted_set-IsSorted [] = tt
sorted_set-IsSorted (p ∷ ps) = insert_sorted-IsSorted p (sorted_set ps) (sorted_set-IsSorted ps)

contains-insert_sorted :
    (p q : Str) (ps : List Str) → contains (insert_sorted p ps) q ≡ (p == q || contains ps q)
unfolding contains insert_sorted
contains-insert_sorted p q [] = refl
contains-insert_sorted p q (r ∷ ps) =
    ground (arith, contains-insert_sorted p q ps, eq_iff p r, eq_iff p q, eq_iff r q)

pub contains-sorted_set : (q : Str) (ps : List Str) → contains (sorted_set ps) q ≡ contains ps q
unfolding contains sorted_set
contains-sorted_set q [] = refl
contains-sorted_set q (p ∷ ps) =
    ground (arith, contains-insert_sorted p q (sorted_set ps), contains-sorted_set q ps)

pub contains-append :
    (q : Str) (ps rs : List Str) → contains (ps ++ rs) q ≡ (contains ps q || contains rs q)
unfolding contains
contains-append q [] rs = refl
contains-append q (p ∷ ps) rs = ground (arith, contains-append q ps rs)

-- A path that is no key has no entry.
pub lookup-none_of_keys {ℓ} :
    {V : Type ℓ} (q : Str) (m : Dict V) → contains (keys m) q ≡ false → lookup q m ≡ none
unfolding contains keys lookup
lookup-none_of_keys q [] h = refl
lookup-none_of_keys q ((j, v) ∷ m) h = ground (arith, lookup-none_of_keys q m)

-- The head of a sorted list is not in its tail.
pub ne_of_Above : (p q : Str) (ps : List Str) → Above p ps → contains ps q ≡ true → p == q ≡ false
unfolding contains
ne_of_Above p q [] a h = cc
ne_of_Above p q (r ∷ ps) (b, a) h =
    ground (arith, ne_of_Above p q ps a, eq_iff p q, eq_iff r q, str_lt_irrefl p)
