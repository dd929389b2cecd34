-- ===== src/Limiter/Conn/Pairing.antt =====
-- An admitted TCP connection and its release (limiter/conn.go: AddConnCount, DelConnCount).
use yunzes_node.Base.{
  ℕ, ◌+◌, ◌-◌, ◌≤◌, ◌≡◌, refl, ◌≢◌, ◌⊎◌, inl, inr, String, Bool, true, false, not, Option, none,
  some, [], ◌∷◌, arith, leb, ◌==◌, lookup, insert, Map, Values, Values-lookup, Bool-cases,
  Option-cases, nat_eq, string_eq, Returns, Returns-if, sym, subst, ◌>>=◌, if◌then◌else◌,
  lookup-insert, lookup-erase, eq_iff, lookup-nil, lookup-insert_self,
}
use yunzes_node.Limiter.Conn.{
  ConnLimiter, Slots, Slot, online, stamp, existing_ips, bump_count, new_slot, store_ip_slot,
  touch_slot, next_ips, add_conn_count, drop_count, release_slot, put_or_reap, drop_ip,
  del_conn_count, as_int,
}
use yunzes_node.Limiter.Conn.Bounds.{IsBounded, CountOk, IpsOk, FitsMode}

-- The entry of one user at one IP.
abbrev pub slot_at : Map String Slots → String → String → Option Slot
slot_at m user addr = do ips ← lookup user m; lookup addr ips

-- Two limiters answer every question about a user or an IP in the same way.
pub record SameView (c d : ConnLimiter) : Type 0 where
  pub same_count : (u : String) → lookup u c.count ≡ lookup u d.count
  pub same_slot : (u a : String) → slot_at c.ip u a ≡ slot_at d.ip u a

drop_count-bump_count :
    (c : ConnLimiter) (m : Map String Slots) (user u : String)
    → Values (CountOk c.conn_limit) c.count
    → lookup u (drop_count (record c { count = bump_count c user true; ip = m }) user)
      ≡ lookup u c.count
unfolding drop_count bump_count
drop_count-bump_count c m user u h = elim (Option-cases (lookup user c.count)) [
  | inl e ↦ ground (
    arith,
    eq_iff user u,
    lookup-insert user user 1 c.count,
    eq_iff user user,
    lookup-erase user u (insert user 1 c.count),
    lookup-insert user u 1 c.count,
  )
  | inr (v, e) ↦
      let old = Values-lookup (CountOk c.conn_limit) user v c.count h e in
      ground (
        arith,
        eq_iff user u,
        eq_iff user user,
        lookup-insert user user (v + 1) c.count,
        lookup-insert user u (v + 1 - 1) (insert user (v + 1) c.count),
        lookup-insert user u (v + 1) c.count,
      )
]

put_or_reap-slot_at :
    (m : Map String Slots) (user : String) (ips : Slots) (u a : String)
    → slot_at (put_or_reap m user ips) u a ≡ (if user == u then lookup a ips else slot_at m u a)
unfolding put_or_reap
put_or_reap-slot_at m user [] u a = ground (arith, lookup-erase user u m, lookup-nil {V = Slot} a)
put_or_reap-slot_at m user (x ∷ xs) u a = ground (arith, lookup-insert user u (x ∷ xs) m)

release_slot-insert :
    (base : Slots) (addr a : String) (w : ℕ)
    → lookup a (release_slot (insert addr (online w) base) addr w)
      ≡ (if addr == a then (if leb w 2 then none else some (online (w - 2))) else lookup a base)
unfolding release_slot
release_slot-insert base addr a w = ground (
  arith,
  lookup-erase addr a (insert addr (online w) base),
  lookup-insert addr a (online w) base,
  lookup-insert addr a (online (w - 2)) (insert addr (online w) base),
)

-- What the user has online before the connect.
abbrev base_of : ConnLimiter → String → Slots
base_of c user = elim (lookup user c.ip) [ none ↦ [] | some ips ↦ ips ]

-- An admitted TCP connect in realtime mode writes one entry, which its release takes back.
next_ips-tcp :
    (c : ConnLimiter) (user addr : String) (now : ℕ) (ips : Slots)
    → c.realtime ≡ true
    → c.ip_limit ≢ 0
    → next_ips c (existing_ips c user) addr true now ≡ some ips
    → ((lookup addr (base_of c user) ≡ none) × (ips ≡ insert addr (online 2) (base_of c user)))
      ⊎ ((n : ℕ) × (lookup addr (base_of c user) ≡ some (online n))
          × (ips ≡ insert addr (online (n + 2)) (base_of c user)))
unfolding next_ips existing_ips store_ip_slot new_slot touch_slot as_int
next_ips-tcp c user addr now ips live on h = elim (Option-cases (lookup user c.ip)) [
  | inl e ↦ inl (ground (arith, lookup-nil {V = Slot} addr), ground arith)
  | inr (l, e) ↦ elim (Option-cases (lookup addr l)) [
    | inl e' ↦ inl (ground arith, ground arith)
    | inr (online n, e') ↦ inr (n, ground arith, ground arith)
    | inr (stamp t, e') ↦ absurd (ground arith)
  ]
]

add_admitted :
    (c c' : ConnLimiter) (user addr : String) (now : ℕ)
    → c.ip_limit ≢ 0
    → add_conn_count c user addr true now ≡ some (c', false)
    → (ips : Slots) × (next_ips c (existing_ips c user) addr true now ≡ some ips)
      × (c' ≡ record c { count = bump_count c user true; ip = insert user ips c.ip })
unfolding add_conn_count
add_admitted c c' user addr now on h =
    elim (Option-cases (next_ips c (existing_ips c user) addr true now)) [
      | inl e ↦ absurd (ground arith)
      | inr (ips, e) ↦ (ips, e, ground arith)
    ]

-- The release of an entry of weight `w` in the user's inner map.
drop_ip-found :
    (c : ConnLimiter) (user addr : String) (base : Slots) (w : ℕ) (m : Map String Slots)
    → c.ip ≡ insert user (insert addr (online w) base) m
    → drop_ip c user addr
      ≡ some (put_or_reap c.ip user (release_slot (insert addr (online w) base) addr w))
unfolding drop_ip as_int
drop_ip-found c user addr base w m e = ground (
  arith,
  lookup-insert_self user (insert addr (online w) base) m,
  lookup-insert_self addr (online w) base,
)

slot_at-base_of :
    (c : ConnLimiter) (user a : String) → slot_at c.ip user a ≡ lookup a (base_of c user)
slot_at-base_of c user a = elim (Option-cases (lookup user c.ip)) [
  | inl e ↦ ground (arith, lookup-nil {V = Slot} a)
  | inr (l, e) ↦ ground arith
]

-- After the release every entry is what it was before the connect.
released-slot_at :
    (c : ConnLimiter) (user addr u a : String) (w : ℕ)
    → (lookup addr (base_of c user) ≡ none) × (w ≡ 2)
      ⊎ ((n : ℕ) × (lookup addr (base_of c user) ≡ some (online n)) × (1 ≤ n) × (w ≡ n + 2))
    → let ips = insert addr (online w) (base_of c user) in
      slot_at (put_or_reap (insert user ips c.ip) user (release_slot ips addr w)) u a
      ≡ slot_at c.ip u a
released-slot_at c user addr u a w h =
    let ips = insert addr (online w) (base_of c user) in
    ground (
      arith,
      put_or_reap-slot_at (insert user ips c.ip) user (release_slot ips addr w) u a,
      release_slot-insert (base_of c user) addr a w,
      slot_at-base_of c user a,
      lookup-insert user u ips c.ip,
      eq_iff user u,
      eq_iff addr a,
    )

weight-pos :
    (conn ip : ℕ) (c : ConnLimiter) (user addr : String) (n : ℕ)
    → IsBounded conn ip true c
    → lookup addr (base_of c user) ≡ some (online n)
    → 1 ≤ n
weight-pos conn ip c user addr n b h = elim (Option-cases (lookup user c.ip)) [
  | inl e ↦ absurd (ground (arith, lookup-nil {V = Slot} addr))
  | inr (l, e) ↦
      let ok = Values-lookup (IpsOk true ip) user l c.ip b.slots e in
      Values-lookup (FitsMode true) addr (online n) l ok.0 (ground arith)
]

-- With an IP limit, the entry that the connect wrote, in the form that its release needs.
wrote :
    (conn ip : ℕ) (c : ConnLimiter) (user addr : String) (now : ℕ) (ips : Slots)
    → IsBounded conn ip true c
    → c.ip_limit ≢ 0
    → next_ips c (existing_ips c user) addr true now ≡ some ips
    → (w : ℕ) × (ips ≡ insert addr (online w) (base_of c user))
      × ((lookup addr (base_of c user) ≡ none) × (w ≡ 2)
          ⊎ ((n : ℕ) × (lookup addr (base_of c user) ≡ some (online n)) × (1 ≤ n) × (w ≡ n + 2)))
wrote conn ip c user addr now ips b on h =
    elim (next_ips-tcp c user addr now ips b.same_mode on h) [
      | inl (fresh, e) ↦ (2, e, inl (fresh, refl))
      | inr (n, old, e) ↦ (n + 2, e, inr (n, old, weight-pos conn ip c user addr n b old, refl))
    ]

same_conn_counts :
    (conn ip : ℕ) (realtime : Bool) (c : ConnLimiter)
    → IsBounded conn ip realtime c
    → Values (CountOk c.conn_limit) c.count
same_conn_counts conn ip realtime c b =
    subst (λ l. Values (CountOk l) c.count) (sym b.same_conn) b.counts

release-off :
    (conn ip : ℕ) (c : ConnLimiter) (user addr : String)
    → IsBounded conn ip true c
    → c.ip_limit ≡ 0
    → Returns
        (λ d. SameView d c)
        (del_conn_count (record c { count = bump_count c user true }) user addr)
unfolding del_conn_count
release-off conn ip c user addr b off =
    Returns-if (λ d. SameView d c) (c.ip_limit == 0) _ _
      (λ _. record {
        same_count = λ u. drop_count-bump_count c c.ip user u (same_conn_counts conn ip true c b);
        same_slot = λ u a. refl;
      })
      (λ on. absurd (ground arith))

release-on :
    (conn ip : ℕ) (c : ConnLimiter) (user addr : String) (now : ℕ) (ips : Slots)
    → IsBounded conn ip true c
    → c.ip_limit ≢ 0
    → next_ips c (existing_ips c user) addr true now ≡ some ips
    → Returns
        (λ d. SameView d c)
        (del_conn_count
          (record c { count = bump_count c user true; ip = insert user ips c.ip })
          user
          addr)
unfolding del_conn_count
release-on conn ip c user addr now ips b on h =
    let (w, e, old) = wrote conn ip c user addr now ips b on h in
    let entries = insert addr (online w) (base_of c user) in
    let c' : ConnLimiter = record c {
      count = bump_count c user true;
      ip = insert user entries c.ip;
    } in
    let found = drop_ip-found c' user addr (base_of c user) w c.ip refl in
    rw e (
      Returns-if (λ d. SameView d c) (c.ip_limit == 0) _ _ (λ off. absurd (ground arith))
        (λ _.
          Returns-if (λ d. SameView d c) (not c.realtime) _ _
            (λ dead. absurd (ground (arith, dead, b.same_mode)))
            (λ _. rw found (record {
              same_count =
                  λ u. drop_count-bump_count c c'.ip user u (same_conn_counts conn ip true c b);
              same_slot = λ u a. released-slot_at c user addr u a w old;
            }))))

-- An admitted TCP connect, in a realtime limiter that satisfies the invariant, and then its
-- release from the limiter that is left: the release returns, and every count and every IP entry
-- is as before the connect.
pub add_conn_count-del_conn_count :
    (conn ip : ℕ) (c c' : ConnLimiter) (user addr : String) (now : ℕ)
    → IsBounded conn ip true c
    → add_conn_count c user addr true now ≡ some (c', false)
    → Returns (λ d. SameView d c) (del_conn_count c' user addr)
unfolding add_conn_count
add_conn_count-del_conn_count conn ip c c' user addr now b h = elim (Bool-cases (c.ip_limit == 0)) [
  | inl off ↦
      let e : c' ≡ record c { count = bump_count c user true } = ground arith in
      subst (λ x. Returns (λ d. SameView d c) (del_conn_count x user addr)) (sym e)
        (release-off conn ip c user addr b (ground arith))
  | inr on ↦
      let limited : c.ip_limit ≢ 0 = ground arith in
      let (ips, e, e') = add_admitted c c' user addr now limited h in
      subst (λ x. Returns (λ d. SameView d c) (del_conn_count x user addr)) (sym e')
        (release-on conn ip c user addr now ips b limited e)
]
