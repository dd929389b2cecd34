-- ===== src/Tasks/Closed.antt =====
-- What a task of common/task still does after a Close.
use yunzes_node.Base.{
  ℕ, zero, suc, ◌+◌, ◌≤◌, ◌≡◌, refl, sym, subst, inl, inr, Bool, Bool-cases, true, false, List, [],
  ◌∷◌, All, length, arith,
}
use yunzes_node.Tasks.{
  Task, Event, start, check_start, fire, fire_lost, execute, execute_closing, mark_failed, close,
  has_closed, enter, on_check_start, on_fire, on_fire_lost, arm, checked_execute, on_execute,
  on_execute_closing, free_step, on_close, step, step-stuck, step-free, run,
}

abbrev IsNoStart : Event → Type 0
IsNoStart (start first) = ⊥
IsNoStart check_start = Unit
IsNoStart fire = Unit
IsNoStart fire_lost = Unit
IsNoStart (execute failed) = Unit
IsNoStart execute_closing = Unit
IsNoStart mark_failed = Unit
IsNoStart close = Unit

-- The runs so far, and those that are on their way.
abbrev budget : Task → ℕ
budget t = t.runs + length t.waiting

check_start-closed :
    (t : Task) (calls : List Bool)
    → t.running ≡ false
    → ((on_check_start t calls).running ≡ false) × (budget (on_check_start t calls) ≤ budget t)
unfolding on_check_start enter has_closed
check_start-closed t [] h = ground (arith, h)
check_start-closed t (first ∷ rest) h = ground (arith, h)

fire_lost-closed :
    (t : Task) (n : ℕ)
    → t.running ≡ false
    → ((on_fire_lost t n).running ≡ false) × (budget (on_fire_lost t n) ≤ budget t)
unfolding on_fire_lost enter has_closed
fire_lost-closed t zero h = ground (arith, h)
fire_lost-closed t (suc n) h = ground (arith, h)

execute-closed :
    (t : Task) (calls : List Bool) (failed : Bool)
    → t.waiting ≡ calls
    → t.running ≡ false
    → ((on_execute t calls failed).running ≡ false)
      × (budget (on_execute t calls failed) ≤ budget t)
unfolding on_execute checked_execute arm
execute-closed t [] failed e h = ground (arith, h)
execute-closed t (first ∷ rest) failed e h = ground (arith, e, h)

closing-closed :
    (t : Task) (calls : List Bool)
    → t.waiting ≡ calls
    → t.running ≡ false
    → ((on_execute_closing t calls).running ≡ false)
      × (budget (on_execute_closing t calls) ≤ budget t)
unfolding on_execute_closing
closing-closed t [] e h = ground (arith, h)
closing-closed t (false ∷ rest) e h = ground (arith, h)
closing-closed t (true ∷ rest) e h = ground (arith, e, h)

free_step-closed :
    (t : Task) (e : Event)
    → IsNoStart e
    → t.running ≡ false
    → ((free_step t e).running ≡ false) × (budget (free_step t e) ≤ budget t)
unfolding free_step on_fire enter has_closed on_close
free_step-closed t (start first) n h = absurd n
free_step-closed t check_start n h = check_start-closed t t.starting h
free_step-closed t fire n h = ground (arith, h)
free_step-closed t fire_lost n h = fire_lost-closed t t.lost_timers h
free_step-closed t (execute failed) n h = execute-closed t t.waiting failed refl h
free_step-closed t execute_closing n h = closing-closed t t.waiting refl h
free_step-closed t mark_failed n h = ground (arith, h)
free_step-closed t close n h = ground (arith, h)

step-closed :
    (t : Task) (e : Event)
    → IsNoStart e
    → t.running ≡ false
    → ((step t e).running ≡ false) × (budget (step t e) ≤ budget t)
step-closed t e n h =
    let Less = λ (u : Task). (u.running ≡ false) × (budget u ≤ budget t) in
    elim (Bool-cases t.stuck) [
      | inl s ↦ subst Less (sym (step-stuck t e s)) (h, omega arith)
      | inr s ↦ subst Less (sym (step-free t e s)) (free_step-closed t e n h)
    ]

run-closed :
    (t : Task) (es : List Event)
    → All IsNoStart es
    → t.running ≡ false
    → ((run t es).running ≡ false) × (budget (run t es) ≤ budget t)
unfolding run
run-closed t [] n h = (h, omega arith)
run-closed t (e ∷ es) n h =
    let (closed, less) = step-closed t e n.0 h in
    let (closed', less') = run-closed (step t e) es n.1 closed in
    (closed', omega (arith, less, less'))

-- After a Close, and until the next Start, in any order of the other steps: the task is not running,
-- and Execute runs at most once for each call that had passed its test before the Close.
pub close_ends :
    (t : Task) (es : List Event)
    → All IsNoStart es
    → ((run (on_close t) es).running ≡ false)
      × ((run (on_close t) es).runs ≤ t.runs + length t.waiting)
unfolding on_close
close_ends t es n =
    let (closed, less) = run-closed (on_close t) es n (ground arith) in
    (closed, omega (arith, less))
