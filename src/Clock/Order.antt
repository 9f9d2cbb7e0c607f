-- ===== src/Clock/Order.antt =====
-- The order that `compareClocks` defines, and where `nextClock` stands in it.
use vaultsyncforagents.Prelude.{
  ◌≡◌, ◌↔◌, some, Str, eq_iff, str_lt_asymm, str_lt_total, str_lt_trans, arith,
}
use vaultsyncforagents.Types.{LogicalClock}
use vaultsyncforagents.Clock.{
  ClockComparison, negative, zero_sign, positive, compare_clocks, next_clock,
}

abbrev pub opposite : ClockComparison → ClockComparison
opposite negative = positive
opposite zero_sign = zero_sign
opposite positive = negative

-- Swapping the clocks swaps the sign.
pub compare_clocks-opposite :
    (a b : LogicalClock) → compare_clocks b a ≡ opposite (compare_clocks a b)
unfolding compare_clocks
compare_clocks-opposite a b = ground (
  arith,
  eq_iff a.device_id b.device_id,
  eq_iff b.device_id a.device_id,
  str_lt_asymm a.device_id b.device_id,
  str_lt_total a.device_id b.device_id,
)

clock_eq : (a b : LogicalClock) → a.counter ≡ b.counter → a.device_id ≡ b.device_id → a ≡ b
clock_eq a b p q = λ i. record { counter = p i; device_id = q i }

pub compare_clocks-eq : (a b : LogicalClock) → compare_clocks a b ≡ zero_sign → a ≡ b
unfolding compare_clocks
compare_clocks-eq a b h =
    clock_eq a b (ground (arith, eq_iff a.device_id b.device_id))
      (ground (arith, eq_iff a.device_id b.device_id))

pub compare_clocks_self : (a : LogicalClock) → compare_clocks a a ≡ zero_sign
unfolding compare_clocks
compare_clocks_self a = ground (arith, eq_iff a.device_id a.device_id)

-- Winning is transitive.
pub compare_clocks_trans :
    (a b c : LogicalClock)
    → compare_clocks a b ≡ positive
    → compare_clocks b c ≡ positive
    → compare_clocks a c ≡ positive
unfolding compare_clocks
compare_clocks_trans a b c h k = ground (
  arith,
  eq_iff a.device_id b.device_id,
  eq_iff b.device_id c.device_id,
  eq_iff a.device_id c.device_id,
  str_lt_trans c.device_id b.device_id a.device_id,
  str_lt_asymm a.device_id b.device_id,
)

-- A clock minted on a parent beats the parent, whatever the device.
pub compare_clocks-next_clock :
    (p : LogicalClock) (d : Str) → compare_clocks (next_clock (some p) d) p ≡ positive
unfolding compare_clocks next_clock
compare_clocks-next_clock p d = ground arith

-- The order on clocks: `a` does not beat `b`.
abbrev pub ClockLe : LogicalClock → LogicalClock → Type 0
ClockLe a b = compare_clocks a b ≡ positive → ⊥

pub ClockLe-refl : (a : LogicalClock) → ClockLe a a
ClockLe-refl a h = ground (arith, compare_clocks_self a)

pub ClockLe-of_positive : (a b : LogicalClock) → compare_clocks b a ≡ positive → ClockLe a b
ClockLe-of_positive a b h k = ground (arith, compare_clocks-opposite b a)

-- The comparison decides a strict total order: swapping the clocks swaps the sign, the sign is
-- zero exactly for equal clocks, and the positive sign is transitive.
pub compare_clocks_order :
    ((a b : LogicalClock) → compare_clocks b a ≡ opposite (compare_clocks a b))
    × ((a b : LogicalClock) → (compare_clocks a b ≡ zero_sign) ↔ (a ≡ b))
    × ((a b c : LogicalClock)
        → compare_clocks a b ≡ positive
        → compare_clocks b c ≡ positive
        → compare_clocks a c ≡ positive)
compare_clocks_order = (
  compare_clocks-opposite,
  λ a b. (compare_clocks-eq a b, λ e. rw e (compare_clocks_self b)),
  compare_clocks_trans,
)
