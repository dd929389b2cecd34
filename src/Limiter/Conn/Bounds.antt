-- ===== src/Limiter/Conn/Bounds.antt =====
-- The invariant of ConnLimiter (limiter/conn.go): no counter passes its limit, each inner map is
-- in the form of the limiter's mode, and so no type assertion panics.
pub mod Release
pub mod Runs
use yunzes_node.Base.{
  ℕ, ◌+◌, ◌-◌, ◌≤◌, ◌<◌, ◌≡◌, refl, sym, ◌∙◌, ◌≢◌, inl, inr, String, Bool, true, false, not, ◌&&◌,
  Option, none, some, [], length, arith, leb, ◌==◌, lookup, insert, Values, Values-lookup,
  Values-insert, Values-erase, Bool-cases, Option-cases, nat_eq, string_eq, Returns,
  length-insert_new, length-insert_old, lookup-nil, ◌>>=◌, if◌then◌else◌,
}
use yunzes_node.Limiter.Conn.{
  ConnLimiter, Slots, Slot, online, stamp, new_conn_limiter, conn_full, existing_ips, ip_full,
  as_int, bump_count, new_slot, store_ip_slot, touch_slot, next_ips, add_conn_count, drop_count,
}
use yunzes_node.Limiter.Conn.Admission.{existing_ips_on, count_ips-reaches}

-- Realtime entries are positive weights, the others are times.
abbrev pub FitsMode : Bool → Slot → Type 0
FitsMode true (online n) = 1 ≤ n
FitsMode false (stamp t) = Unit
FitsMode _ _ = ⊥

abbrev pub IpsOk : Bool → ℕ → Slots → Type 0
IpsOk realtime limit ips = Values (FitsMode realtime) ips × (length ips ≤ limit)

abbrev pub CountOk : ℕ → ℕ → Type 0
CountOk limit v = (1 ≤ v) × (v ≤ limit)

pub record IsBounded (conn ip : ℕ) (realtime : Bool) (c : ConnLimiter) : Type 0 where
  pub same_conn : c.conn_limit ≡ conn
  pub same_ip : c.ip_limit ≡ ip
  pub same_mode : c.realtime ≡ realtime
  pub counts : Values (CountOk conn) c.count
  pub slots : Values (IpsOk realtime ip) c.ip

pub new_conn_limiter-IsBounded :
    (conn ip : ℕ) (realtime : Bool) → IsBounded conn ip realtime (new_conn_limiter conn ip realtime)
unfolding new_conn_limiter
new_conn_limiter-IsBounded conn ip realtime = record {
  same_conn = refl;
  same_ip = refl;
  same_mode = refl;
  counts = tt;
  slots = tt;
}

slot-FitsMode :
    (realtime is_tcp : Bool) (now : ℕ)
    → FitsMode realtime (if realtime then (if is_tcp then online 2 else online 1) else stamp now)
slot-FitsMode true true now = omega arith
slot-FitsMode true false now = omega arith
slot-FitsMode false is_tcp now = tt

pub overwrite-IpsOk :
    (realtime : Bool) (limit : ℕ) (ips : Slots) (addr : String) (s t : Slot)
    → lookup addr ips ≡ some s
    → IpsOk realtime limit ips
    → FitsMode realtime t
    → IpsOk realtime limit (insert addr t ips)
overwrite-IpsOk realtime limit ips addr s t e h fit = (
  Values-insert (FitsMode realtime) addr t ips h.0 fit,
  omega (arith, length-insert_old addr t s ips e, h.1),
)

-- An IP that is online keeps its place in the inner map, and the assertion on it does not panic.
touch_slot-IpsOk :
    (realtime : Bool) (limit : ℕ) (c : ConnLimiter) (ips : Slots) (addr : String) (s : Slot)
    (is_tcp : Bool) (now : ℕ)
    → c.realtime ≡ realtime
    → lookup addr ips ≡ some s
    → IpsOk realtime limit ips
    → FitsMode realtime s
    → Returns (IpsOk realtime limit) (touch_slot c ips addr s is_tcp now)
unfolding touch_slot as_int
touch_slot-IpsOk true limit c ips addr (online n) true now m e h fit =
    rw m (overwrite-IpsOk true limit ips addr (online n) (online (n + 2)) e h (omega arith))
touch_slot-IpsOk true limit c ips addr (online n) false now m e h fit = rw m h
touch_slot-IpsOk true limit c ips addr (stamp t) is_tcp now m e h fit = absurd fit
touch_slot-IpsOk false limit c ips addr (online n) is_tcp now m e h fit = absurd fit
touch_slot-IpsOk false limit c ips addr (stamp t) is_tcp now m e h fit =
    rw m (overwrite-IpsOk false limit ips addr (stamp t) (stamp now) e h tt)

module _ (conn ip : ℕ) (realtime : Bool) (c : ConnLimiter) (b : IsBounded conn ip realtime c) where
  bump_count-counts :
      (user : String) (is_tcp : Bool)
      → conn_full c user ≡ false
      → Values (CountOk conn) (bump_count c user is_tcp)
  unfolding bump_count conn_full
  bump_count-counts user is_tcp h = elim (Bool-cases (not (c.conn_limit == 0) && is_tcp)) [
    | inr off ↦ rw off b.counts
    | inl on ↦ rw on (elim (Option-cases (lookup user c.count)) [
      | inl e ↦ rw e (Values-insert (CountOk conn) user 1 c.count b.counts (ground (arith, b)))
      | inr (v, e) ↦
          rw e (Values-insert (CountOk conn) user (v + 1) c.count b.counts (ground (arith, b)))
    ])
  ]

  new_slot-FitsMode : (is_tcp : Bool) (now : ℕ) → FitsMode realtime (new_slot c is_tcp now)
  unfolding new_slot
  new_slot-FitsMode is_tcp now = rw b.same_mode (slot-FitsMode realtime is_tcp now)

  store_ip_slot-IpsOk :
      (ips : Slots) (addr : String) (is_tcp : Bool) (now : ℕ)
      → Values (FitsMode realtime) ips
      → lookup addr ips ≡ none
      → length ips < ip
      → IpsOk realtime ip (store_ip_slot c ips addr is_tcp now)
  unfolding store_ip_slot
  store_ip_slot-IpsOk ips addr is_tcp now h new room = (
    Values-insert (FitsMode realtime) addr _ ips h (new_slot-FitsMode is_tcp now),
    omega (arith, length-insert_new addr (new_slot c is_tcp now) ips new),
  )

  ip_room :
      (ips : Slots) (addr : String)
      → c.ip_limit ≢ 0
      → lookup addr ips ≡ none
      → ip_full c (some ips) addr ≡ false
      → length ips < ip
  unfolding ip_full
  ip_room ips addr on new h = ground (arith, count_ips-reaches c.ip_limit 0 ips, b)

  next_ips-IpsOk :
      (ips : Option Slots) (addr : String) (is_tcp : Bool) (now : ℕ)
      → c.ip_limit ≢ 0
      → ((l : Slots) → ips ≡ some l → IpsOk realtime ip l)
      → ip_full c ips addr ≡ false
      → Returns (IpsOk realtime ip) (next_ips c ips addr is_tcp now)
  unfolding next_ips
  next_ips-IpsOk none addr is_tcp now on h free =
      store_ip_slot-IpsOk [] addr is_tcp now tt (lookup-nil addr) (omega (arith, b.same_ip))
  next_ips-IpsOk (some ips) addr is_tcp now on h free = elim (Option-cases (lookup addr ips)) [
    | inl e ↦
        rw (e, next_ips)
          (store_ip_slot-IpsOk ips addr is_tcp now (h ips refl).0 e (ip_room ips addr on e free))
    | inr (s, e) ↦
        rw (e, next_ips)
          (touch_slot-IpsOk realtime ip c ips addr s is_tcp now b.same_mode e (h ips refl)
            (Values-lookup (FitsMode realtime) addr s ips (h ips refl).0 e))
  ]

  admit-IsBounded :
      (user addr : String) (is_tcp : Bool) (now : ℕ) (o : Option Slots)
      → conn_full c user ≡ false
      → Returns (IpsOk realtime ip) o
      → Returns
          (λ (r : ConnLimiter × Bool). IsBounded conn ip realtime r.0)
          (do
            ips ← o
            some (record c { count = bump_count c user is_tcp; ip = insert user ips c.ip }, false))
  admit-IsBounded user addr is_tcp now none h r = r
  admit-IsBounded user addr is_tcp now (some ips) h r = record {
    same_conn = b.same_conn;
    same_ip = b.same_ip;
    same_mode = b.same_mode;
    counts = bump_count-counts user is_tcp h;
    slots = Values-insert (IpsOk realtime ip) user ips c.ip b.slots r;
  }

  -- AddConnCount returns, and keeps every count and every number of IPs within its limit.
  pub add_conn_count-IsBounded :
      (user addr : String) (is_tcp : Bool) (now : ℕ)
      → Returns
          (λ (r : ConnLimiter × Bool). IsBounded conn ip realtime r.0)
          (add_conn_count c user addr is_tcp now)
  unfolding add_conn_count
  add_conn_count-IsBounded user addr is_tcp now = elim (Bool-cases (conn_full c user)) [
    | inl full ↦ rw full b
    | inr free ↦ rw free (elim (Bool-cases (ip_full c (existing_ips c user) addr)) [
      | inl full ↦ rw full b
      | inr open_ip ↦ rw open_ip (elim (Bool-cases (c.ip_limit == 0)) [
        | inl off ↦ rw off (record {
          same_conn = b.same_conn;
          same_ip = b.same_ip;
          same_mode = b.same_mode;
          counts = bump_count-counts user is_tcp free;
          slots = b.slots;
        })
        | inr on ↦ rw on (
            admit-IsBounded user addr is_tcp now _ free (
              next_ips-IpsOk (existing_ips c user) addr is_tcp now (ground arith)
                (λ l e.
                  Values-lookup (IpsOk realtime ip) user l c.ip b.slots
                    (sym (existing_ips_on c user (ground arith)) ∙ e))
                open_ip))
      ])
    ])
  ]

  pub drop_count-counts : (user : String) → Values (CountOk conn) (drop_count c user)
  unfolding drop_count
  drop_count-counts user = elim (Bool-cases (c.conn_limit == 0)) [
    | inl off ↦ rw off b.counts
    | inr on ↦ rw on (elim (Option-cases (lookup user c.count)) [
      | inl e ↦ rw e b.counts
      | inr (v, e) ↦ rw e (elim (Bool-cases (leb v 1)) [
        | inl last ↦ rw last (Values-erase (CountOk conn) user c.count b.counts)
        | inr more ↦
            let old = Values-lookup (CountOk conn) user v c.count b.counts e in
            rw more
              (Values-insert (CountOk conn) user (v - 1) c.count b.counts (ground (arith, old)))
      ])
    ])
  ]
