-- ===== src/Limiter/Conn.antt =====
-- The per-user connection and IP limiter of limiter/conn.go.
pub mod Admission
pub mod Bounds
pub mod Pairing
pub mod Sweep
use yunzes_node.Base.{
  ℕ, ◌+◌, ◌-◌, String, Bool, true, false, not, ◌&&◌, Option, none, some, [], ◌∷◌, ltb, leb, ◌==◌,
  if◌then◌else◌, Map, lookup, insert, erase, filter, ◌>>=◌, nat_eq, string_eq,
}

-- An entry of the inner map: the connection weight (realtime) or the time of the last connect.
pub data Slot : Type 0 where
  online : ℕ → Slot
  stamp : ℕ → Slot

abbrev pub Slots : Type 0
Slots = Map String Slot

pub record ConnLimiter : Type 0 where
  pub realtime : Bool
  pub ip_limit : ℕ
  pub conn_limit : ℕ
  pub count : Map String ℕ
  pub ip : Map String Slots

unfoldable pub new_conn_limiter : ℕ → ℕ → Bool → ConnLimiter
new_conn_limiter conn ip realtime = record {
  realtime = realtime;
  ip_limit = ip;
  conn_limit = conn;
  count = [];
  ip = [];
}

-- The counting loop over the user's IPs: `cn++; return cn < ipLimit`.
unfoldable pub count_ips : ℕ → ℕ → Slots → ℕ
count_ips limit cn [] = cn
count_ips limit cn (x ∷ xs) =
    let rest = count_ips limit (cn + 1) xs in if ltb (cn + 1) limit then rest else (cn + 1)

-- Phase 1, first check.
unfoldable pub conn_full : ConnLimiter → String → Bool
conn_full c user =
    if c.conn_limit == 0
    then false
    else elim (lookup user c.count) [ none ↦ false | some v ↦ leb c.conn_limit v ]

-- What the second check loads: the user's inner map, if the IP limit is on.
unfoldable pub existing_ips : ConnLimiter → String → Option Slots
existing_ips c user = if c.ip_limit == 0 then none else lookup user c.ip

unfoldable pub ip_full : ConnLimiter → Option Slots → String → Bool
ip_full c none ip = false
ip_full c (some ips) ip = elim (lookup ip ips) [
  | some _ ↦ false
  | none ↦ leb c.ip_limit (count_ips c.ip_limit 0 ips)
]

-- Phase 2, the TCP count.
unfoldable pub bump_count : ConnLimiter → String → Bool → Map String ℕ
bump_count c user is_tcp =
    if not (c.conn_limit == 0) && is_tcp
    then elim (lookup user c.count) [
      | none ↦ insert user 1 c.count
      | some v ↦ insert user (v + 1) c.count
    ]
    else c.count

unfoldable pub new_slot : ConnLimiter → Bool → ℕ → Slot
new_slot c is_tcp now = if c.realtime then (if is_tcp then online 2 else online 1) else stamp now

unfoldable pub store_ip_slot : ConnLimiter → Slots → String → Bool → ℕ → Slots
store_ip_slot c ips ip is_tcp now = insert ip (new_slot c is_tcp now) ips

-- The type assertion `v.(int)`; a time makes it panic.
unfoldable pub as_int : Slot → Option ℕ
as_int (online n) = some n
as_int (stamp t) = none

-- An IP that is online already.
unfoldable pub touch_slot : ConnLimiter → Slots → String → Slot → Bool → ℕ → Option Slots
touch_slot c ips ip s is_tcp now =
    if c.realtime
    then (if is_tcp then (do n ← as_int s; some (insert ip (online (n + 2)) ips)) else some ips)
    else some (insert ip (stamp now) ips)

-- Phase 2, the user's IPs; `none` is a panic.
unfoldable pub next_ips : ConnLimiter → Option Slots → String → Bool → ℕ → Option Slots
next_ips c none ip is_tcp now = some (store_ip_slot c [] ip is_tcp now)
next_ips c (some ips) ip is_tcp now = elim (lookup ip ips) [
  | none ↦ some (store_ip_slot c ips ip is_tcp now)
  | some s ↦ touch_slot c ips ip s is_tcp now
]

-- The state and `true` for a rejected connection; `none` is a panic.
unfoldable pub add_conn_count :
    ConnLimiter → String → String → Bool → ℕ → Option (ConnLimiter × Bool)
add_conn_count c user ip is_tcp now =
    if conn_full c user
    then some (c, true)
    else if ip_full c (existing_ips c user) ip
    then some (c, true)
    else if c.ip_limit == 0
    then some (record c { count = bump_count c user is_tcp }, false)
    else do
      ips ← next_ips c (existing_ips c user) ip is_tcp now
      some (record c { count = bump_count c user is_tcp; ip = insert user ips c.ip }, false)

unfoldable pub drop_count : ConnLimiter → String → Map String ℕ
drop_count c user = if c.conn_limit == 0 then c.count else elim (lookup user c.count) [
  | none ↦ c.count
  | some v ↦ if leb v 1 then erase user c.count else insert user (v - 1) c.count
]

-- The inner map after the release of one TCP connection.
unfoldable pub release_slot : Slots → String → ℕ → Slots
release_slot ips ip v = if leb v 2 then erase ip ips else insert ip (online (v - 2)) ips

-- An inner map that has become empty is removed.
unfoldable pub put_or_reap : Map String Slots → String → Slots → Map String Slots
put_or_reap m user [] = erase user m
put_or_reap m user (x ∷ xs) = insert user (x ∷ xs) m

unfoldable pub drop_ip : ConnLimiter → String → String → Option (Map String Slots)
drop_ip c user ip = elim (lookup user c.ip) [
  | none ↦ some c.ip
  | some ips ↦ elim (lookup ip ips) [
    | none ↦ some c.ip
    | some s ↦ do v ← as_int s; some (put_or_reap c.ip user (release_slot ips ip v))
  ]
]

unfoldable pub del_conn_count : ConnLimiter → String → String → Option ConnLimiter
del_conn_count c user ip =
    if c.ip_limit == 0
    then some (record c { count = drop_count c user })
    else if not c.realtime
    then some (record c { count = drop_count c user })
    else do m ← drop_ip c user ip; some (record c { count = drop_count c user; ip = m })

abbrev pub minute : ℕ
minute = 60000000000

-- Whether the sweep keeps an entry: not an int 1, not a time before one minute from now.
unfoldable pub survives : ℕ → Slot → Bool
survives now (online n) = not (n == 1)
survives now (stamp t) = not (ltb t (now + minute))

unfoldable pub sweep_slots : ℕ → Slots → Slots
sweep_slots now = filter (λ e. survives now e.1)

-- The sweep reaps an inner map that was empty when it came to it.
unfoldable pub sweep : ℕ → Map String Slots → Map String Slots
sweep now [] = []
sweep now ((u, []) ∷ m) = sweep now m
sweep now ((u, x ∷ xs) ∷ m) = (u, sweep_slots now (x ∷ xs)) ∷ sweep now m

unfoldable pub clear_online_ip : ℕ → ConnLimiter → ConnLimiter
clear_online_ip now c = record c { ip = sweep now c.ip }
