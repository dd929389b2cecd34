-- ===== src/Node/Intervals/Bounds.antt =====
-- The intervals of the tasks (node/node.go) are positive durations.
use yunzes_node.Base.{ℕ, ◌*◌, ◌≤◌, ◌≡◌, refl, inl, inr, Option, none, some, arith, Option-cases}
use yunzes_node.Base.Int.{ℤ, pos, int64_small}
use yunzes_node.Panel.{BasicConfig, AnyNumber}
use yunzes_node.Node.Intervals.{above_zero, interval_sec, resolve_intervals, second}

-- What the value counts as, if it is above zero, is whole seconds that a duration can hold.
abbrev pub Fits : Option AnyNumber → Type 0
Fits none = Unit
Fits (some v) = (n : ℕ) → above_zero v ≡ some n → (1 ≤ n) × (n ≤ 9223372036)

-- A whole number of seconds, at least one.
abbrev pub IsInterval : ℤ → Type 0
IsInterval z = (k : ℕ) × (z ≡ pos (k * second)) × (1 ≤ k)

interval_sec-IsInterval :
    (v : Option AnyNumber) (d : ℤ) → Fits v → IsInterval d → IsInterval (interval_sec v d)
unfolding interval_sec
interval_sec-IsInterval none d f i = i
interval_sec-IsInterval (some v) d f i = elim (Option-cases (above_zero v)) [
  | inl e ↦ rw (e, interval_sec) i
  | inr (n, e) ↦
      let (low, high) = f n e in
      rw (e, interval_sec) (n, int64_small (n * second) (omega arith), low)
]

-- Whatever the panel sends or leaves out, if the numbers above zero are at least 1 and at most
-- 9223372036, then both intervals are positive whole numbers of seconds, without wrap-around.
pub resolve_intervals-IsInterval :
    (basic : BasicConfig)
    → Fits basic.push_interval
    → Fits basic.pull_interval
    → let (push, pull) = resolve_intervals (some basic) in IsInterval push × IsInterval pull
unfolding resolve_intervals
resolve_intervals-IsInterval basic f g = (
  interval_sec-IsInterval basic.push_interval (pos (30 * second)) f (30, refl, omega arith),
  interval_sec-IsInterval basic.pull_interval (pos (15 * second)) g (15, refl, omega arith),
)
