-- ===== src/Prelude/Dict.antt =====
-- A `Map` (or a plain object used as one) with text keys: entries in insertion order, where a
-- write to a present key keeps its place. Proofs go by the laws in `if` form.
use Prim.Native.Nat.{ℕ, ◌+◌}
use mathlib.Core.Path.{◌≡◌, refl}
use mathlib.Core.Bool.{Bool}
use mathlib.Core.Option.{Option, none, some}
use mathlib.Core.List.{List, [], ◌∷◌}
use native.Mathlib.Omega.{arith}
use vaultsyncforagents.Prelude.Tests.{if◌then◌else◌, is_some}
use vaultsyncforagents.Prelude.Lists.{length}
use vaultsyncforagents.Prelude.Text.{Str, ◌==◌, eq_iff, eq_refl}

abbrev pub Dict {ℓ} : Type ℓ → Type ℓ
Dict V = List (Str × V)

module _ {ℓ} {V : Type ℓ} where
  unfoldable pub lookup : Str → Dict V → Option V
  lookup key [] = none
  lookup key ((first, value) ∷ rest) =
      let later = lookup key rest in if first == key then some value else later

  unfoldable pub insert : Str → V → Dict V → Dict V
  insert key value [] = (key, value) ∷ []
  insert key value ((first, old) ∷ rest) =
      let later = insert key value rest in
      if first == key then (first, value) ∷ rest else (first, old) ∷ later

  unfoldable pub erase : Str → Dict V → Dict V
  erase key [] = []
  erase key ((first, value) ∷ rest) =
      let later = erase key rest in if first == key then later else (first, value) ∷ later

  unfoldable pub keys : Dict V → List Str
  keys [] = []
  keys ((first, value) ∷ rest) = first ∷ keys rest

  abbrev pub has : Str → Dict V → Bool
  has key entries = is_some (lookup key entries)

  abbrev pub size : Dict V → ℕ
  size entries = length entries

  pub lookup-insert :
      (key q : Str) (value : V) (entries : Dict V)
      → lookup q (insert key value entries) ≡ (if key == q then some value else lookup q entries)
  unfolding lookup insert
  lookup-insert key q value [] = refl
  lookup-insert key q value ((first, old) ∷ rest) =
      ground (arith, lookup-insert key q value rest, eq_iff first key, eq_iff key q, eq_iff first q)

  pub lookup-erase :
      (key q : Str) (entries : Dict V)
      → lookup q (erase key entries) ≡ (if key == q then none else lookup q entries)
  unfolding lookup erase
  lookup-erase key q [] = ground arith
  lookup-erase key q ((first, old) ∷ rest) =
      ground (arith, lookup-erase key q rest, eq_iff first key, eq_iff key q, eq_iff first q)

  pub lookup-insert_self :
      (key : Str) (value : V) (entries : Dict V)
      → lookup key (insert key value entries) ≡ some value
  lookup-insert_self key value entries = simp (lookup-insert, eq_refl)

  pub size-insert_fresh :
      (key : Str) (value : V) (entries : Dict V)
      → lookup key entries ≡ none
      → size (insert key value entries) ≡ size entries + 1
  unfolding lookup insert
  size-insert_fresh key value [] h = omega arith
  size-insert_fresh key value ((first, old) ∷ rest) h =
      ground (arith, size-insert_fresh key value rest)

pub lookup-nil {ℓ} : {V : Type ℓ} (k : Str) → lookup {V = V} k [] ≡ none
unfolding lookup
lookup-nil k = refl

pub ruleset dict_laws = (lookup-nil, lookup-insert, lookup-erase)
