-- ===== src/Prelude/Failure.antt =====
-- Errors as values. The message texts, which no code reads, are left out: an error is its class.
use mathlib.Core.Path.{◌≡◌, refl, subst}
use mathlib.Core.Logic.{◌⊎◌, inl, inr}
use mathlib.Core.Bool.{Bool, true, false}
use vaultsyncforagents.Prelude.Tests.{if◌then◌else◌}

-- `protocol` is `ProtocolError`, `invalid_path` is `InvalidVaultPathError`, and `plain` is a bare
-- `Error`.
pub data Failure : Type 0 where
  protocol invalid_path plain : Failure

pub data Result {ℓ} (A : Type ℓ) : Type ℓ where
  err : Failure → Result A
  ok : A → Result A

-- The first failure ends a chain, as an exception does.
infixl 5 ◌>>=◌ ◌>>◌
abbrev pub ◌>>=◌ {ℓ κ} : {A : Type ℓ} {B : Type κ} → Result A → (A → Result B) → Result B
err failure >>= next = err failure
ok value >>= next = next value

abbrev pub ◌>>◌ {ℓ} : {B : Type ℓ} → Result (Unit {0}) → Result B → Result B
check >> next = check >>= λ _. next

-- A chain that succeeds has a first part that does.
pub >>=-eq-ok {ℓ κ} :
    {A : Type ℓ} {B : Type κ} (first : Result A) (next : A → Result B) {b : B}
    → (first >>= next) ≡ ok b
    → (a : A) × (first ≡ ok a) × (next a ≡ ok b)
>>=-eq-ok (err failure) next h = cc
>>=-eq-ok (ok value) next h = (value, refl, h)

-- What holds of one result holds of the other, where the two are returned alike.
pub ok_injective {ℓ} : {A : Type ℓ} (a b : A) → ok a ≡ ok b → a ≡ b
ok_injective a b h = cc

pub subst_ok {ℓ κ} : {A : Type ℓ} (P : A → Type κ) (a b : A) → ok a ≡ ok b → P a → P b
subst_ok P a b h p = subst P (ok_injective a b h) p

-- A successful conditional is one of its branches.
pub if-eq-ok {ℓ} :
    {A : Type ℓ} (b : Bool) (x y : Result A) {a : A}
    → (if b then x else y) ≡ ok a
    → ((b ≡ true) × (x ≡ ok a)) ⊎ ((b ≡ false) × (y ≡ ok a))
if-eq-ok true x y h = inl (refl, h)
if-eq-ok false x y h = inr (refl, h)
