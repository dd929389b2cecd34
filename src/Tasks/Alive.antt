-- ===== src/Tasks/Alive.antt =====
-- When a running task of common/task comes to its next turn.
use yunzes_node.Base.{ℕ, ◌+◌, ◌≤◌, ◌≡◌, true, false, length, if◌then◌else◌}
use yunzes_node.Tasks.{Task}

-- What will bring the task to its next turn: timers, and calls on their way.
abbrev pub pending : Task → ℕ
pending t = (if t.timer then 1 else 0) + t.lost_timers + length t.starting + length t.waiting

abbrev IsAlive : Task → Type 0
IsAlive t = t.stuck ≡ false → t.running ≡ true → 1 ≤ pending t
