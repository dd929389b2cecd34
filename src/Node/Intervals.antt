-- ===== src/Node/Intervals.antt =====
-- intervalSec and resolveIntervals of node/node.go: the intervals of the tasks, from the values that the
-- panel sends. A duration is an int64 of nanoseconds with its wrap-around.
pub mod Bounds
use yunzes_node.Base.{
  ℕ, ◌*◌, ◌^◌, String, Option, none, some, [], ◌==◌, if◌then◌else◌, string_eq, nat_eq, ltb,
  digits_value,
}
use yunzes_node.Base.Int.{ℤ, pos, negsuc, int64}
use Prim.Native.Char.{code}
use Prim.Native.String
use yunzes_node.Panel.{BasicConfig, AnyNumber}

abbrev second : ℕ
second = 1000000000

abbrev positive_value : Option ℕ → Option ℕ
positive_value none = none
positive_value (some n) = if ltb 0 n then some n else none

-- strconv.Atoi, as far as its positive results: an int64 with an optional sign.
unfoldable pub positive_atoi : String → Option ℕ
positive_atoi String.[] = none
positive_atoi (String.◌∷◌ c s) =
    let digits = if code c == 43 then s else String.◌∷◌ c s in
    elim (digits_value 0 digits) [
      | none ↦ none
      | some n ↦
          if digits == "" then none else if ltb n (2 ^ 63) then positive_value (some n) else none
    ]

-- The number above zero that a value holds.
unfoldable pub above_zero : AnyNumber → Option ℕ
above_zero (AnyNumber.int (pos n)) = positive_value (some n)
above_zero (AnyNumber.int (negsuc n)) = none
above_zero (AnyNumber.int64 (pos n)) = positive_value (some n)
above_zero (AnyNumber.int64 (negsuc n)) = none
above_zero (AnyNumber.float64 positive whole) = if positive then some whole else none
above_zero (AnyNumber.string s) = positive_atoi s
above_zero AnyNumber.other = none

-- In nanoseconds.
unfoldable pub interval_sec : Option AnyNumber → ℤ → ℤ
interval_sec none default = default
interval_sec (some v) default = elim (above_zero v) [ none ↦ default | some n ↦ int64 (n * second) ]

-- The intervals of a push and of a pull.
unfoldable pub resolve_intervals : Option BasicConfig → ℤ × ℤ
resolve_intervals none = (pos (30 * second), pos (15 * second))
resolve_intervals (some basic) = (
  interval_sec basic.push_interval (pos (30 * second)),
  interval_sec basic.pull_interval (pos (15 * second)),
)
