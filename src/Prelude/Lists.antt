-- ===== src/Prelude/Lists.antt =====
-- Lists measured and cut by native numbers, under the library's names, and predicates on them.
use Prim.Native.Nat.{ℕ, zero, suc, ◌+◌}
use mathlib.Core.Path.{◌≡◌, refl, subst, ap, ◌∙◌}
use mathlib.Core.Bool.{Bool, false, ◌||◌}
use mathlib.Core.List.{List, [], ◌∷◌, ◌++◌, Permᴰ}
use mathlib.Core.Option.{Option, none, some}
use native.Mathlib.Omega.{arith}
use vaultsyncforagents.Prelude.Tests.{if◌then◌else◌}

module _ {ℓ} {A : Type ℓ} where
  abbrev pub length : List A → ℕ
  length [] = 0
  length (x ∷ xs) = suc (length xs)

  abbrev pub take : ℕ → List A → List A
  take zero xs = []
  take (suc n) [] = []
  take (suc n) (x ∷ xs) = x ∷ take n xs

  abbrev pub drop : ℕ → List A → List A
  drop zero xs = xs
  drop (suc n) [] = []
  drop (suc n) (x ∷ xs) = drop n xs

  abbrev pub get_elem? : List A → ℕ → Option A
  get_elem? [] i = none
  get_elem? (x ∷ xs) zero = some x
  get_elem? (x ∷ xs) (suc i) = get_elem? xs i

  -- `xs.some(p)`.
  abbrev pub any : (A → Bool) → List A → Bool
  any p [] = false
  any p (x ∷ xs) = p x || any p xs

  -- `xs.filter(p)`.
  abbrev pub filter : (A → Bool) → List A → List A
  filter p [] = []
  filter p (x ∷ xs) = let rest = filter p xs in if p x then x ∷ rest else rest

  pub length-append : (xs ys : List A) → length (xs ++ ys) ≡ length xs + length ys
  length-append [] ys = omega arith
  length-append (x ∷ xs) ys = omega (arith, length-append xs ys)

  pub take-append-drop : (n : ℕ) (xs : List A) → take n xs ++ drop n xs ≡ xs
  take-append-drop zero xs = refl
  take-append-drop (suc n) [] = refl
  take-append-drop (suc n) (x ∷ xs) = rw (take-append-drop n xs)

-- A predicate on every element.
abbrev pub All {ℓ κ} : {A : Type ℓ} → (A → Type κ) → List A → Type κ
All P [] = Unit
All P (x ∷ xs) = P x × All P xs

module _ {ℓ κ} {A : Type ℓ} (P : A → Type κ) where
  pub All-Perm : (xs ys : List A) → Permᴰ xs ys → All P xs → All P ys
  All-Perm xs ys Permᴰ.nil all = all
  All-Perm xs ys (Permᴰ.cons {l₁ = l₁} {l₂ = l₂} e d) (p, all) = (subst P e p, All-Perm l₁ l₂ d all)
  All-Perm xs ys (Permᴰ.swap e₁ e₂) (p, (q, all)) = (subst P e₂ q, (subst P e₁ p, all))
  All-Perm xs ys (Permᴰ.trans {l₂ = l₂} d₁ d₂) all = All-Perm l₂ ys d₂ (All-Perm xs l₂ d₁ all)

  pub All-map : {Q : A → Type κ} → ((a : A) → P a → Q a) → (xs : List A) → All P xs → All Q xs
  All-map f [] all = tt
  All-map f (x ∷ xs) (p, all) = (f x p, All-map f xs all)

pub length-Perm {ℓ} : {A : Type ℓ} {xs ys : List A} → Permᴰ xs ys → length xs ≡ length ys
length-Perm Permᴰ.nil = refl
length-Perm (Permᴰ.cons e d) = ap suc (length-Perm d)
length-Perm (Permᴰ.swap e₁ e₂) = refl
length-Perm (Permᴰ.trans d₁ d₂) = length-Perm d₁ ∙ length-Perm d₂

-- A relation between every element and those after it.
module _ {ℓ κ} {A : Type ℓ} (R : A → A → Type κ) where
  abbrev pub Pairwise : List A → Type κ
  Pairwise [] = Unit
  Pairwise (x ∷ xs) = All (R x) xs × Pairwise xs

  pub Pairwise-Perm :
      ((a b : A) → R a b → R b a) → (xs ys : List A) → Permᴰ xs ys → Pairwise xs → Pairwise ys
  Pairwise-Perm flip xs ys Permᴰ.nil all = all
  Pairwise-Perm flip xs ys (Permᴰ.cons {a = a} {l₁ = l₁} {l₂ = l₂} e d) (p, all) =
      (subst (λ c. All (R c) l₂) e (All-Perm (R a) l₁ l₂ d p), Pairwise-Perm flip l₁ l₂ d all)
  Pairwise-Perm flip xs ys (Permᴰ.swap {a = a} {b = b} {b' = b'} {l = l} e₁ e₂)
        ((ab, al), (bl, all)) =
      (
        (subst (λ c. R c b') e₂ (subst (R b) e₁ (flip a b ab)), subst (λ c. All (R c) l) e₂ bl),
        (subst (λ c. All (R c) l) e₁ al, all),
      )
  Pairwise-Perm flip xs ys (Permᴰ.trans {l₂ = l₂} d₁ d₂) all =
      Pairwise-Perm flip l₂ ys d₂ (Pairwise-Perm flip xs l₂ d₁ all)
