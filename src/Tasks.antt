-- ===== src/Tasks.antt =====
-- The periodic task of common/task, one step for each stretch of code that holds the lock or reads the
-- state under it; any steps of different goroutines may come between. What Execute returns is an
-- input, and that it runs at all is counted. A timer is armed and not fired, and it is the one in the
-- field `timer` or one that the field has lost. An Execute that calls the Close of its own task waits
-- for the lock that it runs under itself: the task is stuck.
pub mod Alive
pub mod Closed
use yunzes_node.Base.{
  ℕ, zero, suc, ◌+◌, ◌≡◌, ap, Bool, true, false, not, ◌&&◌, List, [], ◌∷◌, if◌then◌else◌,
}

-- `starting` holds the Start calls that have marked the task as running, `waiting` the calls of
-- checkedExecute past their first test, each with its argument `first`.
pub record Task : Type 0 where
  pub running : Bool
  pub timer : Bool
  pub lost_timers : ℕ
  pub starting : List Bool
  pub waiting : List Bool
  pub runs : ℕ
  pub stuck : Bool

abbrev pub new_task : Task
new_task = record {
  running = false;
  timer = false;
  lost_timers = 0;
  starting = [];
  waiting = [];
  runs = 0;
  stuck = false;
}

pub data Event : Type 0 where
  start : Bool → Event
  check_start : Event
  fire : Event
  fire_lost : Event
  execute : Bool → Event
  execute_closing : Event
  mark_failed : Event
  close : Event

-- Start, up to its release of the lock.
unfoldable pub on_start : Task → Bool → Task
on_start t first =
    if t.running then t else record t { running = true; starting = first ∷ t.starting }

-- hasClosed, at the head of checkedExecute.
unfoldable pub has_closed : Task → Bool
has_closed t = not t.running

unfoldable pub enter : Task → Bool → Task
enter t first = if has_closed t then t else record t { waiting = first ∷ t.waiting }

unfoldable pub on_check_start : Task → List Bool → Task
on_check_start t [] = t
on_check_start t (first ∷ rest) = enter (record t { starting = rest }) first

-- The timer in the field fires; it stays in the field, but a stop is of no use any more.
unfoldable pub on_fire : Task → Task
on_fire t = if t.timer then enter (record t { timer = false }) true else t

unfoldable pub on_fire_lost : Task → ℕ → Task
on_fire_lost t zero = t
on_fire_lost t (suc n) = enter (record t { lost_timers = n }) true

unfoldable pub arm : Task → Task
arm t = record t {
  timer = true;
  lost_timers = if t.timer then t.lost_timers + 1 else t.lost_timers;
}

-- The part of checkedExecute under the lock; `failed` for an error of Execute.
unfoldable pub checked_execute : Task → Bool → Bool → Task
checked_execute t first failed =
    let t' = if first then record t { runs = t.runs + 1 } else t in
    if first && failed then record t' { running = false } else if t'.running then arm t' else t'

unfoldable pub on_execute : Task → List Bool → Bool → Task
on_execute t [] failed = t
on_execute t (first ∷ rest) failed = checked_execute (record t { waiting = rest }) first failed

-- The same call, with an Execute that closes the task; without `first`, Execute is not called.
unfoldable pub on_execute_closing : Task → List Bool → Task
on_execute_closing t (true ∷ rest) = record t { waiting = rest; runs = t.runs + 1; stuck = true }
on_execute_closing t _ = t

unfoldable pub on_close : Task → Task
on_close t = record t { running = false; timer = false }

-- An event that cannot happen changes nothing.
unfoldable pub free_step : Task → Event → Task
free_step t (start first) = on_start t first
free_step t check_start = on_check_start t t.starting
free_step t fire = on_fire t
free_step t fire_lost = on_fire_lost t t.lost_timers
free_step t (execute failed) = on_execute t t.waiting failed
free_step t execute_closing = on_execute_closing t t.waiting
free_step t mark_failed = record t { running = false }
free_step t close = on_close t

-- Every event waits for the lock or, as the firing of a timer does, comes to a call that waits for it.
unfoldable pub step : Task → Event → Task
step t e = if t.stuck then t else free_step t e

pub step-stuck : (t : Task) (e : Event) → t.stuck ≡ true → step t e ≡ t
unfolding step
step-stuck t e s = ap (λ b. if b then t else free_step t e) s

pub step-free : (t : Task) (e : Event) → t.stuck ≡ false → step t e ≡ free_step t e
unfolding step
step-free t e s = ap (λ b. if b then t else free_step t e) s

unfoldable pub run : Task → List Event → Task
run t [] = t
run t (e ∷ es) = run (step t e) es
