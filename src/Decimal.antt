-- ===== src/Decimal.antt =====
-- `String(n)` and a template's `${n}` at a natural number: its decimal digits.
use vaultsyncforagents.Prelude.{
  ℕ, zero, suc, ◌+◌, ◌-◌, ◌*◌, ◌/◌, ◌%◌, ◌<◌, ◌≡◌, sym, ap, ◌∙◌, [], ◌∷◌, Str, ltb, arith,
  if◌then◌else◌,
}

-- The digits of `n` before `rest`, on fuel.
digits_before : ℕ → ℕ → Str → Str
digits_before zero n rest = rest
digits_before (suc f) n rest =
    let more = digits_before f (n / 10) ((b'0' + n % 10) ∷ rest) in
    if ltb n 10 then (b'0' + n % 10) ∷ rest else more

-- One round for each digit, and a number has at most one more digit than its value.
unfoldable pub decimal : ℕ → Str
unfolding digits_before
decimal n = digits_before (suc n) n []

-- The number that a text of digits writes, from an accumulator.
unfoldable pub digits_value : ℕ → Str → ℕ
digits_value acc [] = acc
digits_value acc (c ∷ s) = digits_value (acc * 10 + (c - b'0')) s

digits_value-digits_before :
    (f n : ℕ) (rest : Str) → n < f → digits_value 0 (digits_before f n rest) ≡ digits_value n rest
unfolding digits_value digits_before
digits_value-digits_before zero n rest h = elim h [ ]
digits_value-digits_before (suc f) n rest h =
    ground (arith, digits_value-digits_before f (n / 10) ((b'0' + n % 10) ∷ rest))

-- Reading back what was printed gives the number.
pub digits_value-decimal : (n : ℕ) → digits_value 0 (decimal n) ≡ n
unfolding decimal digits_value
digits_value-decimal n = digits_value-digits_before (suc n) n [] (omega arith)

-- Two numbers that print alike are one.
pub decimal_injective : (m n : ℕ) → decimal m ≡ decimal n → m ≡ n
decimal_injective m n h =
    sym (digits_value-decimal m) ∙ (ap (digits_value 0) h ∙ digits_value-decimal n)
