-- ===== src/Limiter/Conn/Bounds/Release.antt =====
-- DelConnCount (limiter/conn.go) keeps the invariant of the limiter.
use yunzes_node.Base.{
  ℕ, ◌-◌, ◌≡◌, inl, inr, String, Bool, true, false, not, Option, none, some, [], ◌∷◌, arith, leb,
  ◌==◌, lookup, Map, Values, Values-lookup, Values-insert, Values-erase, Bool-cases, Option-cases,
  nat_eq, string_eq, Returns, length-erase-le, Returns-if, ◌>>=◌,
}
use yunzes_node.Limiter.Conn.{
  ConnLimiter, Slots, Slot, online, stamp, as_int, drop_count, release_slot, put_or_reap, drop_ip,
  del_conn_count,
}
use yunzes_node.Limiter.Conn.Bounds.{FitsMode, IpsOk, IsBounded, overwrite-IpsOk, drop_count-counts}

release_slot-IpsOk :
    (limit : ℕ) (ips : Slots) (addr : String) (v : ℕ)
    → lookup addr ips ≡ some (online v)
    → IpsOk true limit ips
    → IpsOk true limit (release_slot ips addr v)
unfolding release_slot
release_slot-IpsOk limit ips addr v e h = elim (Bool-cases (leb v 2)) [
  | inl last ↦
      rw last
        (Values-erase (FitsMode true) addr ips h.0, omega (arith, length-erase-le addr ips, h.1))
  | inr more ↦
      rw more (overwrite-IpsOk true limit ips addr (online v) (online (v - 2)) e h (ground arith))
]

put_or_reap-IpsOk :
    (limit : ℕ) (m : Map String Slots) (user : String) (ips : Slots)
    → Values (IpsOk true limit) m
    → IpsOk true limit ips
    → Values (IpsOk true limit) (put_or_reap m user ips)
unfolding put_or_reap
put_or_reap-IpsOk limit m user [] h k = Values-erase (IpsOk true limit) user m h
put_or_reap-IpsOk limit m user (x ∷ xs) h k = Values-insert (IpsOk true limit) user (x ∷ xs) m h k

drop_found-IpsOk :
    (limit : ℕ) (m : Map String Slots) (user addr : String) (ips : Slots) (s : Slot)
    → Values (IpsOk true limit) m
    → lookup addr ips ≡ some s
    → IpsOk true limit ips
    → FitsMode true s
    → Returns
        (Values (IpsOk true limit))
        (do v ← as_int s; some (put_or_reap m user (release_slot ips addr v)))
unfolding as_int
drop_found-IpsOk limit m user addr ips (online v) h e k fit =
    put_or_reap-IpsOk limit m user _ h (release_slot-IpsOk limit ips addr v e k)
drop_found-IpsOk limit m user addr ips (stamp t) h e k fit = absurd fit

module _ (conn ip : ℕ) (c : ConnLimiter) (b : IsBounded conn ip true c) where
  drop_ip-IpsOk : (user addr : String) → Returns (Values (IpsOk true ip)) (drop_ip c user addr)
  unfolding drop_ip
  drop_ip-IpsOk user addr = elim (Option-cases (lookup user c.ip)) [
    | inl e ↦ rw (e, drop_ip) b.slots
    | inr (ips, e) ↦
        rw (e, drop_ip)
          (elim (Option-cases (lookup addr ips)) [
            | inl e' ↦ rw e' b.slots
            | inr (s, e') ↦
                let ok = Values-lookup (IpsOk true ip) user ips c.ip b.slots e in
                rw e' (
                  drop_found-IpsOk ip c.ip user addr ips s b.slots e' ok
                    (Values-lookup (FitsMode true) addr s ips ok.0 e'))
          ])
  ]

  put_back-IsBounded :
      (user : String) (o : Option (Map String Slots))
      → Returns (Values (IpsOk true ip)) o
      → Returns
          (IsBounded conn ip true)
          (do m ← o; some (record c { count = drop_count c user; ip = m }))
  put_back-IsBounded user none r = r
  put_back-IsBounded user (some m) r = record {
    same_conn = b.same_conn;
    same_ip = b.same_ip;
    same_mode = b.same_mode;
    counts = drop_count-counts conn ip true c b user;
    slots = r;
  }

drop_only-IsBounded :
    (conn ip : ℕ) (realtime : Bool) (c : ConnLimiter) (user : String)
    → IsBounded conn ip realtime c
    → IsBounded conn ip realtime (record c { count = drop_count c user })
drop_only-IsBounded conn ip realtime c user b = record {
  same_conn = b.same_conn;
  same_ip = b.same_ip;
  same_mode = b.same_mode;
  counts = drop_count-counts conn ip realtime c b user;
  slots = b.slots;
}

realtime_drop-IsBounded :
    (conn ip : ℕ) (realtime : Bool) (c : ConnLimiter) (user addr : String)
    → c.realtime ≡ true
    → IsBounded conn ip realtime c
    → Returns
        (IsBounded conn ip realtime)
        (do m ← drop_ip c user addr; some (record c { count = drop_count c user; ip = m }))
realtime_drop-IsBounded conn ip true c user addr e b =
    put_back-IsBounded conn ip c b user _ (drop_ip-IpsOk conn ip c b user addr)
realtime_drop-IsBounded conn ip false c user addr e b = absurd (ground (arith, e, b.same_mode))

-- DelConnCount returns, and keeps the invariant, also for a release that no admission paired.
pub del_conn_count-IsBounded :
    (conn ip : ℕ) (realtime : Bool) (c : ConnLimiter) (user addr : String)
    → IsBounded conn ip realtime c
    → Returns (IsBounded conn ip realtime) (del_conn_count c user addr)
unfolding del_conn_count
del_conn_count-IsBounded conn ip realtime c user addr b = elim (Bool-cases (c.ip_limit == 0)) [
  | inl off ↦ rw off (drop_only-IsBounded conn ip realtime c user b)
  | inr on ↦ rw on (
      Returns-if (IsBounded conn ip realtime) (not c.realtime) _ _
        (λ _. drop_only-IsBounded conn ip realtime c user b)
        (λ e. realtime_drop-IsBounded conn ip realtime c user addr (ground (arith, e)) b))
]
