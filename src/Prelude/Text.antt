-- ===== src/Prelude/Text.antt =====
-- Text as the language has it: a sequence of UTF-16 code units, compared unit by unit.
use Prim.Native.Nat.{ℕ}
use Prim.Native.Char.{code}
use Prim.Native.String.{String}
use mathlib.Core.Path.{◌≡◌, refl}
use mathlib.Core.Logic.{◌↔◌}
use mathlib.Core.Bool.{Bool, true, false, ◌&&◌}
use mathlib.Core.List.{List, [], ◌∷◌}
use native.Mathlib.Omega.{arith}
use vaultsyncforagents.Prelude.Tests.{ltb, nat_eq, if◌then◌else◌}

abbrev pub Str : Type 0
Str = List ℕ

-- A literal of ASCII text.
abbrev pub codes : String → Str
codes String.[] = []
codes (String.◌∷◌ c s) = code c ∷ codes s

-- `s === t`.
infix 50 ◌==◌
unfoldable pub ◌==◌ : Str → Str → Bool
[] == [] = true
[] == (y ∷ t) = false
(x ∷ s) == [] = false
(x ∷ s) == (y ∷ t) = nat_eq x y && s == t

pub eq_iff : (s t : Str) → ((s == t) ≡ true) ↔ (s ≡ t)
unfolding ◌==◌
eq_iff [] [] = (λ _. refl, λ _. refl)
eq_iff [] (y ∷ t) = (λ h. cc, λ h. cc)
eq_iff (x ∷ s) [] = (λ h. cc, λ h. cc)
eq_iff (x ∷ s) (y ∷ t) = ground (arith, eq_iff s t)

pub eq_refl : (s : Str) → (s == s) ≡ true
eq_refl s = (eq_iff s s).1 refl

-- `s < t`: the first unit that differs decides, and a proper prefix is smaller.
unfoldable pub str_lt : Str → Str → Bool
str_lt [] [] = false
str_lt [] (y ∷ t) = true
str_lt (x ∷ s) [] = false
str_lt (x ∷ s) (y ∷ t) =
    let rest = str_lt s t in if ltb x y then true else if ltb y x then false else rest

pub str_lt_irrefl : (s : Str) → str_lt s s ≡ false
unfolding str_lt
str_lt_irrefl [] = refl
str_lt_irrefl (x ∷ s) = ground (arith, str_lt_irrefl s)

pub str_lt_asymm : (s t : Str) → str_lt s t ≡ true → str_lt t s ≡ false
unfolding str_lt
str_lt_asymm [] [] h = cc
str_lt_asymm [] (y ∷ t) h = refl
str_lt_asymm (x ∷ s) [] h = cc
str_lt_asymm (x ∷ s) (y ∷ t) h = ground (arith, str_lt_asymm s t)

pub str_lt_total : (s t : Str) → str_lt s t ≡ false → str_lt t s ≡ false → s ≡ t
unfolding str_lt
str_lt_total [] [] h k = refl
str_lt_total [] (y ∷ t) h k = cc
str_lt_total (x ∷ s) [] h k = cc
str_lt_total (x ∷ s) (y ∷ t) h k = ground (arith, str_lt_total s t)

pub str_lt_trans : (s t u : Str) → str_lt s t ≡ true → str_lt t u ≡ true → str_lt s u ≡ true
unfolding str_lt
str_lt_trans [] [] u h k = cc
str_lt_trans [] (y ∷ t) [] h k = cc
str_lt_trans [] (y ∷ t) (z ∷ u) h k = refl
str_lt_trans (x ∷ s) [] u h k = cc
str_lt_trans (x ∷ s) (y ∷ t) [] h k = cc
str_lt_trans (x ∷ s) (y ∷ t) (z ∷ u) h k = ground (arith, str_lt_trans s t u)
