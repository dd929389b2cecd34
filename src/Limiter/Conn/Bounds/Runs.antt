-- ===== src/Limiter/Conn/Bounds/Runs.antt =====
-- ClearOnlineIP, and sequences of calls on a limiter (limiter/conn.go), keep its invariant.
use yunzes_node.Base.{
  ℕ, String, Bool, Option, some, List, [], ◌∷◌, arith, Map, Values, nat_eq, string_eq, Returns,
  length-filter-le, All-filter, Returns-bind, ◌>>=◌,
}
use yunzes_node.Limiter.Conn.{
  ConnLimiter, Slots, new_conn_limiter, add_conn_count, del_conn_count, survives, sweep_slots,
  sweep, clear_online_ip,
}
use yunzes_node.Limiter.Conn.Bounds.{
  FitsMode, IpsOk, IsBounded, new_conn_limiter-IsBounded, add_conn_count-IsBounded,
}
use yunzes_node.Limiter.Conn.Bounds.Release.{del_conn_count-IsBounded}

sweep_slots-IpsOk :
    (realtime : Bool) (limit now : ℕ) (ips : Slots)
    → IpsOk realtime limit ips
    → IpsOk realtime limit (sweep_slots now ips)
unfolding sweep_slots
sweep_slots-IpsOk realtime limit now ips h = (
  All-filter (λ e. survives now e.1) (λ e. FitsMode realtime e.1) ips h.0,
  omega (arith, length-filter-le (λ e. survives now e.1) ips, h.1),
)

sweep-IpsOk :
    (realtime : Bool) (limit now : ℕ) (m : Map String Slots)
    → Values (IpsOk realtime limit) m
    → Values (IpsOk realtime limit) (sweep now m)
unfolding sweep
sweep-IpsOk realtime limit now [] h = tt
sweep-IpsOk realtime limit now ((u, []) ∷ m) h = sweep-IpsOk realtime limit now m h.1
sweep-IpsOk realtime limit now ((u, x ∷ xs) ∷ m) h =
    (sweep_slots-IpsOk realtime limit now (x ∷ xs) h.0, sweep-IpsOk realtime limit now m h.1)

clear_online_ip-IsBounded :
    (conn ip : ℕ) (realtime : Bool) (c : ConnLimiter) (now : ℕ)
    → IsBounded conn ip realtime c
    → IsBounded conn ip realtime (clear_online_ip now c)
unfolding clear_online_ip
clear_online_ip-IsBounded conn ip realtime c now b = record {
  same_conn = b.same_conn;
  same_ip = b.same_ip;
  same_mode = b.same_mode;
  counts = b.counts;
  slots = sweep-IpsOk realtime ip now c.ip b.slots;
}

-- The calls that the rest of the program makes on a limiter, each with the time of the call.
pub data Call : Type 0 where
  add : String → String → Bool → ℕ → Call
  del : String → String → Call
  clear : ℕ → Call

unfoldable pub step : ConnLimiter → Call → Option ConnLimiter
step c (add user addr is_tcp now) = do (c', _) ← add_conn_count c user addr is_tcp now; some c'
step c (del user addr) = del_conn_count c user addr
step c (clear now) = some (clear_online_ip now c)

unfoldable pub run : ConnLimiter → List Call → Option ConnLimiter
run c [] = some c
run c (x ∷ xs) = do c' ← step c x; run c' xs

step-IsBounded :
    (conn ip : ℕ) (realtime : Bool) (c : ConnLimiter) (x : Call)
    → IsBounded conn ip realtime c
    → Returns (IsBounded conn ip realtime) (step c x)
unfolding step
step-IsBounded conn ip realtime c (add user addr is_tcp now) b =
    Returns-bind (λ r. IsBounded conn ip realtime r.0) (IsBounded conn ip realtime) _ _
      (add_conn_count-IsBounded conn ip realtime c b user addr is_tcp now) (λ r d. d)
step-IsBounded conn ip realtime c (del user addr) b =
    del_conn_count-IsBounded conn ip realtime c user addr b
step-IsBounded conn ip realtime c (clear now) b = clear_online_ip-IsBounded conn ip realtime c now b

run-IsBounded :
    (conn ip : ℕ) (realtime : Bool) (c : ConnLimiter) (xs : List Call)
    → IsBounded conn ip realtime c
    → Returns (IsBounded conn ip realtime) (run c xs)
unfolding run
run-IsBounded conn ip realtime c [] b = b
run-IsBounded conn ip realtime c (x ∷ xs) b =
    Returns-bind (IsBounded conn ip realtime) (IsBounded conn ip realtime) (step c x) _
      (step-IsBounded conn ip realtime c x b) (λ c'. run-IsBounded conn ip realtime c' xs)

-- From a new limiter, any sequence of calls runs without a panic, and in the end each user has at
-- most the limit of connections and the limit of IPs, and every entry has the form of the mode.
pub run-new-IsBounded :
    (conn ip : ℕ) (realtime : Bool) (xs : List Call)
    → Returns (IsBounded conn ip realtime) (run (new_conn_limiter conn ip realtime) xs)
run-new-IsBounded conn ip realtime xs =
    run-IsBounded conn ip realtime _ xs (new_conn_limiter-IsBounded conn ip realtime)
