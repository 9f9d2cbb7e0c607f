-- ===== src/Clock.antt =====
-- Logical clocks: packages/core/src/clock.ts.
pub mod Order
use vaultsyncforagents.Prelude.{
  ℕ, ◌+◌, Bool, true, false, not, Option, none, some, Str, ◌==◌, str_lt, ltb, nat_eq, if◌then◌else◌,
}
use vaultsyncforagents.Types.{LogicalClock}

-- The signs -1, 0 and 1.
pub data ClockComparison : Type 0 where
  negative zero_sign positive : ClockComparison

unfoldable pub compare_clocks : LogicalClock → LogicalClock → ClockComparison
compare_clocks a b =
    if not (nat_eq a.counter b.counter)
    then (if ltb b.counter a.counter then positive else negative)
    else if not (a.device_id == b.device_id)
    then (if str_lt b.device_id a.device_id then positive else negative)
    else zero_sign

-- `compareClocks(a, b) > 0`.
abbrev pub is_positive : ClockComparison → Bool
is_positive positive = true
is_positive _ = false

abbrev pub parent_counter : Option LogicalClock → ℕ
parent_counter none = 0
parent_counter (some c) = c.counter

unfoldable pub next_clock : Option LogicalClock → Str → LogicalClock
next_clock parent device_id = record { counter = parent_counter parent + 1; device_id = device_id }
