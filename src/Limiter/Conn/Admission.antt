-- ===== src/Limiter/Conn/Admission.antt =====
-- When AddConnCount of limiter/conn.go rejects, and what a rejection leaves behind.
use yunzes_node.Base.{
  ℕ, ◌+◌, ◌≤◌, ◌<◌, ◌≡◌, refl, ◌≢◌, ◌↔◌, ◌⊎◌, inl, inr, String, Bool, true, false, none, some, [],
  ◌∷◌, length, arith, ltb, ◌==◌, lookup, Bool-cases, Option-cases, nat_eq, string_eq,
}
use yunzes_node.Limiter.Conn.{
  ConnLimiter, Slots, count_ips, conn_full, existing_ips, ip_full, add_conn_count,
}

-- The loop stops at the limit, and until then it counts every IP.
pub count_ips-reaches :
    (limit cn : ℕ) (ips : Slots)
    → cn < limit
    → (limit ≤ count_ips limit cn ips) ↔ (limit ≤ cn + length ips)
unfolding count_ips
count_ips-reaches limit cn [] h = ground arith
count_ips-reaches limit cn (x ∷ xs) h = elim (Bool-cases (ltb (cn + 1) limit)) [
  | inl more ↦ ground (arith, count_ips-reaches limit (cn + 1) xs)
  | inr done ↦ ground arith
]

-- The user already has as many TCP connections as the limit allows.
abbrev pub AtConnLimit : ConnLimiter → String → Type 0
AtConnLimit c user =
    (c.conn_limit ≢ 0) × ((v : ℕ) × (lookup user c.count ≡ some v) × (c.conn_limit ≤ v))

-- The user is online from as many IPs as the limit allows, and not from this one.
abbrev pub AtIpLimit : ConnLimiter → String → String → Type 0
AtIpLimit c user ip =
    (c.ip_limit ≢ 0)
    × ((ips : Slots) × (lookup user c.ip ≡ some ips)
        × (lookup ip ips ≡ none)
        × (c.ip_limit ≤ length ips))

pub conn_full_iff :
    (c : ConnLimiter) (user : String) → (conn_full c user ≡ true) ↔ AtConnLimit c user
unfolding conn_full
conn_full_iff c user = elim (Option-cases (lookup user c.count)) [
  | inl e ↦ ground arith
  | inr (v, e) ↦ (λ h. (ground arith, (v, e, ground arith)), λ h. ground arith)
]

ip_full-some :
    (c : ConnLimiter) (ips : Slots) (ip : String)
    → c.ip_limit ≢ 0
    → (ip_full c (some ips) ip ≡ true) ↔ ((lookup ip ips ≡ none) × (c.ip_limit ≤ length ips))
unfolding ip_full
ip_full-some c ips ip h = ground (arith, count_ips-reaches c.ip_limit 0 ips)

pub existing_ips_off :
    (c : ConnLimiter) (user : String) → c.ip_limit ≡ 0 → existing_ips c user ≡ none
unfolding existing_ips
existing_ips_off c user h = ground arith

pub existing_ips_on :
    (c : ConnLimiter) (user : String) → c.ip_limit ≢ 0 → existing_ips c user ≡ lookup user c.ip
unfolding existing_ips
existing_ips_on c user h = ground arith

ip_full-none : (c : ConnLimiter) (ip : String) → ip_full c none ip ≡ false
unfolding ip_full
ip_full-none c ip = refl

pub ip_full_iff :
    (c : ConnLimiter) (user ip : String)
    → (ip_full c (existing_ips c user) ip ≡ true) ↔ AtIpLimit c user ip
ip_full_iff c user ip = elim (Bool-cases (c.ip_limit == 0)) [
  | inl off ↦ ground (arith, existing_ips_off c user, ip_full-none c ip)
  | inr on ↦ elim (Option-cases (lookup user c.ip)) [
    | inl e ↦ ground (arith, existing_ips_on c user, ip_full-none c ip)
    | inr (ips, e) ↦ (
      λ h. (
        ground arith,
        (
          ips,
          e,
          ground (arith, existing_ips_on c user, ip_full-some c ips ip),
          ground (arith, existing_ips_on c user, ip_full-some c ips ip),
        ),
      ),
      λ h. ground (arith, existing_ips_on c user, ip_full-some c ips ip),
    )
  ]
]

-- A connection that does not panic is rejected exactly when the user is at the connection limit,
-- or at the IP limit with a new IP.
pub add_conn_count-rejects_iff :
    (c c' : ConnLimiter) (user ip : String) (is_tcp rejected : Bool) (now : ℕ)
    → add_conn_count c user ip is_tcp now ≡ some (c', rejected)
    → (rejected ≡ true) ↔ (AtConnLimit c user ⊎ AtIpLimit c user ip)
unfolding add_conn_count
add_conn_count-rejects_iff c c' user ip is_tcp rejected now h =
    ground (arith, conn_full_iff c user, ip_full_iff c user ip)

-- A rejected connection changes no counter.
pub add_conn_count_rejected :
    (c c' : ConnLimiter) (user ip : String) (is_tcp : Bool) (now : ℕ)
    → add_conn_count c user ip is_tcp now ≡ some (c', true)
    → c' ≡ c
unfolding add_conn_count
add_conn_count_rejected c c' user ip is_tcp now h = ground arith
