-- ===== src/Core/Slices/Credit.antt =====
-- Reading a tag's traffic and adding it back (core/xray/user.go, core/sing/user.go): the counters
-- conserve each user's bytes if the reverse map leads from a user's uid back to that user.
use yunzes_node.Base.{
  ℕ, ◌+◌, ◌≡◌, refl, inl, inr, String, true, none, some, List, [], ◌∷◌, ◌==◌, ltb, if◌then◌else◌,
  Map, lookup, insert, string_eq, nat_eq, All, All-mono, arith, eq_iff, lookup-insert,
  lookup-insert_self, Option-cases, Bool-cases, sym, subst,
}
use yunzes_node.Panel.{UserTraffic}
use yunzes_node.Counter.{TrafficCounter, TrafficStorage, zeroed}
use yunzes_node.Core.Interface.{VCore, Conserves, bytes, total}
use yunzes_node.Core.Slices.{
  Traffics, uid_of, slice_of, drained, get_user_traffic_slice, reverse_map, credit_one, credit,
  add_user_traffic_slice, core_of, with_counters,
}

-- The bytes that a counter holds for a uid.
abbrev pub held_in : Map String ℕ → ℕ → TrafficCounter → ℕ
held_in uids uid [] = 0
held_in uids uid ((user, s) ∷ m) =
    (if uid_of uids user == uid then s.up + s.down else 0) + held_in uids uid m

abbrev pub Present : TrafficCounter → String → Type 0
Present m user = (s : TrafficStorage) × (lookup user m ≡ some s)

-- The reverse map leads from the uid of each user of the counter back to the user.
abbrev pub Covered : Map String ℕ → TrafficCounter → Type 0
Covered uids = All (λ e. lookup (uid_of uids e.0) (reverse_map [] uids) ≡ some e.0)

-- An entry of a slice that finds its user.
abbrev pub Finds : Map String ℕ → TrafficCounter → UserTraffic → Type 0
Finds uids m t =
    (user : String) × (lookup t.uid (reverse_map [] uids) ≡ some user)
    × (uid_of uids user ≡ t.uid)
    × Present m user

module _ (uids : Map String ℕ) where
  drained-held :
      (uid : ℕ) (m : TrafficCounter)
      → held_in uids uid (drained m) + total uid (slice_of uids m) ≡ held_in uids uid m
  unfolding drained slice_of
  drained-held uid [] = omega arith
  drained-held uid ((user, s) ∷ m) = ground (arith, drained-held uid m)

  drained-Covered : (m : TrafficCounter) → Covered uids m → Covered uids (drained m)
  unfolding drained
  drained-Covered [] h = tt
  drained-Covered ((user, s) ∷ m) h = elim (Bool-cases (ltb 0 (s.up + s.down))) [
    | inl e ↦ rw e (h.0, drained-Covered m h.1)
    | inr e ↦ rw e (h.0, drained-Covered m h.1)
  ]

  Present-tail :
      (m : TrafficCounter) (j : String) (v : TrafficStorage) (user : String)
      → Present m user
      → Present ((j, v) ∷ m) user
  unfolding lookup
  Present-tail m j v user (s, e) = elim (Bool-cases (j == user)) [
    | inl hit ↦ (v, ground arith)
    | inr miss ↦ (s, ground arith)
  ]

  Present-head : (m : TrafficCounter) (j : String) (v : TrafficStorage) → Present ((j, v) ∷ m) j
  unfolding lookup
  Present-head m j v = (v, ground (arith, eq_iff j j))

  slice-Finds :
      (m : TrafficCounter) → Covered uids m → All (Finds uids (drained m)) (slice_of uids m)
  unfolding drained slice_of
  slice-Finds [] h = tt
  slice-Finds ((user, s) ∷ m) h = elim (Bool-cases (ltb 0 (s.up + s.down))) [
    | inl e ↦ rw e (
      (user, h.0, refl, Present-head (drained m) user zeroed),
      widen user zeroed m (slice-Finds m h.1),
    )
    | inr e ↦ rw e (widen user s m (slice-Finds m h.1))
  ]
    where
      widen :
          (j : String) (v : TrafficStorage) (m' : TrafficCounter)
          → All (Finds uids (drained m')) (slice_of uids m')
          → All (Finds uids ((j, v) ∷ drained m')) (slice_of uids m')
      widen j v m' =
          All-mono (Finds uids (drained m')) (Finds uids ((j, v) ∷ drained m')) (slice_of uids m')
            (λ t (u, a, b, p). (u, a, b, Present-tail (drained m') j v u p))

  held-insert :
      (uid : ℕ) (user : String) (s s' : TrafficStorage) (m : TrafficCounter)
      → lookup user m ≡ some s
      → held_in uids uid (insert user s' m) + (if uid_of uids user == uid then s.up + s.down else 0)
        ≡ held_in uids uid m + (if uid_of uids user == uid then s'.up + s'.down else 0)
  unfolding lookup insert
  held-insert uid user s s' [] h = absurd (ground arith)
  held-insert uid user s s' ((j, w) ∷ m) h =
      ground (arith, held-insert uid user s s' m, eq_iff j user)

  credit_one-held :
      (uid : ℕ) (t : UserTraffic) (m : TrafficCounter)
      → Finds uids m t
      → held_in uids uid (credit_one (reverse_map [] uids) t m)
        ≡ held_in uids uid m + (if t.uid == uid then bytes t else 0)
  unfolding credit_one
  credit_one-held uid t m (user, r, o, (s, e)) = ground (
    arith,
    held-insert uid user s (record { up = s.up + t.upload; down = s.down + t.download }) m e,
  )

  credit_one-Present :
      (t : UserTraffic) (m : TrafficCounter) (user : String)
      → Present m user
      → Present (credit_one (reverse_map [] uids) t m) user
  unfolding credit_one
  credit_one-Present t m user (s, e) = elim (Option-cases (lookup t.uid (reverse_map [] uids))) [
    | inl n ↦ rw (n, credit_one) (s, e)
    | inr (u, r) ↦
        rw (r, credit_one)
          (elim (Option-cases (lookup u m)) [
            | inl n ↦ rw n (s, e)
            | inr (w, f) ↦
                let new : TrafficStorage = record {
                  up = w.up + t.upload;
                  down = w.down + t.download;
                } in
                rw f (elim (Bool-cases (u == user)) [
                  | inl hit ↦ (new, ground (arith, lookup-insert u user new m))
                  | inr miss ↦ (s, ground (arith, lookup-insert u user new m))
                ])
          ])
  ]

  credit-held :
      (uid : ℕ) (ts : List UserTraffic) (m : TrafficCounter)
      → All (Finds uids m) ts
      → held_in uids uid (credit (reverse_map [] uids) ts m) ≡ held_in uids uid m + total uid ts
  unfolding credit
  credit-held uid [] m h = omega arith
  credit-held uid (t ∷ ts) m h =
      let m' = credit_one (reverse_map [] uids) t m in
      let later : All (Finds uids m') ts =
        All-mono (Finds uids m) (Finds uids m') ts
          (λ x (u, a, b, p). (u, a, b, credit_one-Present t m u p)) h.1 in
      omega (arith, credit-held uid ts m' later, credit_one-held uid t m h.0)

module _ {R : Type 0} (base : VCore (Traffics × R)) (tag : String) where
  abbrev pub held_at : Traffics × R → ℕ → ℕ
  held_at s uid = elim (lookup tag s.0.counters) [ none ↦ 0 | some m ↦ held_in s.0.uid_map uid m ]

  abbrev pub ReadyAt : Traffics × R → Type 0
  ReadyAt s = elim (lookup tag s.0.counters) [ none ↦ Unit | some m ↦ Covered s.0.uid_map m ]

  abbrev pub FindsAt : Traffics × R → UserTraffic → Type 0
  FindsAt s t = (m : TrafficCounter) × (lookup tag s.0.counters ≡ some m) × Finds s.0.uid_map m t

  get_user_traffic_slice_none :
      (t : Traffics) → lookup tag t.counters ≡ none → get_user_traffic_slice t tag true ≡ (t, [])
  unfolding get_user_traffic_slice
  get_user_traffic_slice_none t e = rw (e, get_user_traffic_slice) refl

  get_user_traffic_slice_some :
      (t : Traffics) (m : TrafficCounter)
      → lookup tag t.counters ≡ some m
      → get_user_traffic_slice t tag true
        ≡ (record t { counters = insert tag (drained m) t.counters }, slice_of t.uid_map m)
  unfolding get_user_traffic_slice
  get_user_traffic_slice_some t m e = rw (e, get_user_traffic_slice) refl

  -- The read from `s` has led to the counters and the slice of `g`.
  abbrev pub Drained : Traffics × R → Traffics × List UserTraffic → Type 0
  Drained s g =
      ReadyAt (g.0, s.1)
      × All (FindsAt (g.0, s.1)) g.1
      × ((uid : ℕ) → held_at (g.0, s.1) uid + total uid g.1 ≡ held_at s uid)

  pub drains_lem : (s : Traffics × R) → ReadyAt s → Drained s (get_user_traffic_slice s.0 tag true)
  drains_lem s r = elim (Option-cases (lookup tag s.0.counters)) [
    | inl e ↦
        subst (Drained s) (sym (get_user_traffic_slice_none s.0 e)) (r, tt, λ uid. omega arith)
    | inr (m, e) ↦
        let at : lookup tag (insert tag (drained m) s.0.counters) ≡ some (drained m) =
          lookup-insert_self tag (drained m) s.0.counters in
        let covered : Covered s.0.uid_map m = rw (e, ReadyAt) at r in
        subst (Drained s) (sym (get_user_traffic_slice_some s.0 m e)) (
          rw (at, ReadyAt) (drained-Covered s.0.uid_map m covered),
          All-mono (Finds s.0.uid_map (drained m)) _ (slice_of s.0.uid_map m)
              (λ t f. (drained m, at, f)) (slice-Finds s.0.uid_map m covered),
          λ uid. rw (at, e, held_at) (drained-held s.0.uid_map uid m),
        )
  ]

  add_user_traffic_slice_some :
      (c : Traffics) (t : UserTraffic) (ts : List UserTraffic) (m : TrafficCounter)
      → lookup tag c.counters ≡ some m
      → add_user_traffic_slice c tag (t ∷ ts)
        ≡ some (record c {
          counters = insert tag (credit (reverse_map [] c.uid_map) (t ∷ ts) m) c.counters;
        })
  unfolding add_user_traffic_slice
  add_user_traffic_slice_some c t ts m e = rw (e, add_user_traffic_slice) refl

  pub credits_lem :
      (s : Traffics × R) (ts : List UserTraffic)
      → ReadyAt s
      → All (FindsAt s) ts
      → (uid : ℕ)
      → held_at ((core_of base).add_user_traffic_slice s tag ts).0 uid
        ≡ held_at s uid + total uid ts
  unfolding add_user_traffic_slice
  credits_lem s [] r h uid = omega arith
  credits_lem s (t ∷ ts) r h uid = elim (Option-cases (lookup tag s.0.counters)) [
    | inl e ↦ let (m, e', _) = h.0 in absurd (ground (arith, e', e))
    | inr (m, e) ↦
        let uids = s.0.uid_map in
        let new = credit (reverse_map [] uids) (t ∷ ts) m in
        let here : All (Finds uids m) (t ∷ ts) =
          All-mono (FindsAt s) (Finds uids m) (t ∷ ts)
            (λ x (m', e', f).
              let same : m' ≡ m = ground (arith, e, e') in subst (λ k. Finds uids k x) same f)
            h in
        let credited : held_at (record s.0 { counters = insert tag new s.0.counters }, s.1) uid
            ≡ held_at s uid + total uid (t ∷ ts) =
          rw (lookup-insert_self tag new s.0.counters, e, held_at)
            (credit-held uids uid (t ∷ ts) m here) in
        subst (λ o. held_at (with_counters s o).0 uid ≡ held_at s uid + total uid (t ∷ ts))
          (sym (add_user_traffic_slice_some s.0 t ts m e)) credited
  ]

  -- The counters of one core conserve the traffic of a tag whose users the reverse map covers.
  abbrev pub core_conserves : Conserves (core_of base) tag
  core_conserves = record {
    held = held_at;
    IsReady = ReadyAt;
    Creditable = FindsAt;
    drains = drains_lem;
    credits = credits_lem;
  }
