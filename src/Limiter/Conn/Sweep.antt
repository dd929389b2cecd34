-- ===== src/Limiter/Conn/Sweep.antt =====
-- What ClearOnlineIP of limiter/conn.go evicts and what it keeps.
use yunzes_node.Base.{
  ℕ, ◌+◌, ◌≤◌, ◌≡◌, String, true, some, [], ◌∷◌, arith, lookup, Map, Values, string_eq, eq_iff, All,
  All-filter_self,
}
use yunzes_node.Limiter.Conn.{
  ConnLimiter, Slots, Slot, online, stamp, survives, sweep_slots, sweep, clear_online_ip, minute,
}
use yunzes_node.Limiter.Conn.Pairing.{slot_at}

sweep_slots-keeps :
    (now : ℕ) (ips : Slots) (a : String) (s : Slot)
    → lookup a ips ≡ some s
    → survives now s ≡ true
    → lookup a (sweep_slots now ips) ≡ some s
unfolding sweep_slots lookup
sweep_slots-keeps now [] a s h k = h
sweep_slots-keeps now ((b, t) ∷ ips) a s h k =
    ground (arith, sweep_slots-keeps now ips a s, eq_iff b a)

sweep-keeps :
    (now : ℕ) (m : Map String Slots) (u a : String) (s : Slot)
    → slot_at m u a ≡ some s
    → survives now s ≡ true
    → slot_at (sweep now m) u a ≡ some s
unfolding sweep lookup
sweep-keeps now [] u a s h k = h
sweep-keeps now ((v, []) ∷ m) u a s h k = ground (arith, sweep-keeps now m u a s, eq_iff v u)
sweep-keeps now ((v, x ∷ xs) ∷ m) u a s h k =
    ground (arith, sweep-keeps now m u a s, sweep_slots-keeps now (x ∷ xs) a s, eq_iff v u)

-- An entry that the test of the loop does not hit is still there after a sweep, with its value.
pub clear_online_ip-keeps :
    (now : ℕ) (c : ConnLimiter) (u a : String) (s : Slot)
    → slot_at c.ip u a ≡ some s
    → survives now s ≡ true
    → slot_at (clear_online_ip now c).ip u a ≡ some s
unfolding clear_online_ip
clear_online_ip-keeps now c u a s h k = sweep-keeps now c.ip u a s h k

-- A realtime entry that is left weighs something other than 1, and a time that is left lies at
-- least a minute ahead of the sweep.
abbrev pub Lasting : ℕ → Slot → Type 0
Lasting now (online n) = ¬ (n ≡ 1)
Lasting now (stamp t) = now + minute ≤ t

survives-Lasting : (now : ℕ) (s : Slot) → survives now s ≡ true → Lasting now s
unfolding survives
survives-Lasting now (online n) h = ground arith
survives-Lasting now (stamp t) h = ground arith

All-Lasting :
    (now : ℕ) (ips : Slots) → All (λ e. survives now e.1 ≡ true) ips → Values (Lasting now) ips
All-Lasting now [] h = tt
All-Lasting now ((a, s) ∷ ips) h = (survives-Lasting now s h.0, All-Lasting now ips h.1)

sweep-Lasting : (now : ℕ) (m : Map String Slots) → Values (Values (Lasting now)) (sweep now m)
unfolding sweep sweep_slots
sweep-Lasting now [] = tt
sweep-Lasting now ((u, []) ∷ m) = sweep-Lasting now m
sweep-Lasting now ((u, x ∷ xs) ∷ m) =
    (All-Lasting now _ (All-filter_self (λ e. survives now e.1) (x ∷ xs)), sweep-Lasting now m)

-- After a sweep every time that is left lies at least a minute ahead of it, and every weight
-- that is left is not 1.
pub clear_online_ip-Lasting :
    (now : ℕ) (c : ConnLimiter) → Values (Values (Lasting now)) (clear_online_ip now c).ip
unfolding clear_online_ip
clear_online_ip-Lasting now c = sweep-Lasting now c.ip
