-- ===== src/Node/Users.antt =====
-- compareUserList and userKey of node/user.go. The comparison is over any key of a user; where the code
-- stores the index of an old user, the map here holds that user.
use yunzes_node.Base.{
  ◌≡◌, refl, inl, inr, String, Bool, true, false, not, none, some, List, [], ◌∷◌, ◌==◌,
  if◌then◌else◌, Map, lookup, insert, erase, filter, any, string_eq, All, arith, eq_iff,
  lookup-insert, lookup-erase, itoa, ◌<>◌, Option-cases, Bool-cases, ◌∙◌,
}
use yunzes_node.Panel.{UserInfo}

unfoldable pub user_key : UserInfo → String
user_key u = u.uuid <> "|" <> itoa u.speed_limit <> "|" <> itoa u.device_limit

module _ (key_of : UserInfo → String) where
  unfoldable pub old_map : Map String UserInfo → List UserInfo → Map String UserInfo
  old_map m [] = m
  old_map m (u ∷ us) = old_map (insert (key_of u) u m) us

  -- What is left of the map, and the new users that it does not have.
  unfoldable pub scan : Map String UserInfo → List UserInfo → Map String UserInfo × List UserInfo
  scan m [] = (m, [])
  scan m (u ∷ us) = elim (lookup (key_of u) m) [
    | none ↦ let (m', added) = scan m us in (m', u ∷ added)
    | some _ ↦ scan (erase (key_of u) m) us
  ]

  unfoldable pub users_of : Map String UserInfo → List UserInfo
  users_of [] = []
  users_of ((k, u) ∷ m) = u ∷ users_of m

  -- The deleted and the added users.
  unfoldable pub compare_user_list : List UserInfo → List UserInfo → List UserInfo × List UserInfo
  compare_user_list old new =
      let (left, added) = scan (old_map [] old) new in (users_of left, added)

  -- The list has a user of the key.
  abbrev pub has_key : String → List UserInfo → Bool
  has_key k = any (λ u. key_of u == k)

  abbrev has : String → Map String UserInfo → Bool
  has k m = elim (lookup k m) [ none ↦ false | some _ ↦ true ]

  -- No two users of the list have the same key.
  abbrev pub DistinctKeys : List UserInfo → Type 0
  DistinctKeys [] = Unit
  DistinctKeys (u ∷ us) = All (λ v. (key_of u == key_of v) ≡ false) us × DistinctKeys us

  old_map-has :
      (k : String) (m : Map String UserInfo) (us : List UserInfo)
      → has k (old_map m us) ≡ (if has_key k us then true else has k m)
  unfolding old_map
  old_map-has k m [] = refl
  old_map-has k m (u ∷ us) =
      old_map-has k (insert (key_of u) u m) us ∙ ground (arith, lookup-insert (key_of u) k u m)

  filter-same :
      (p q : UserInfo → Bool) (us : List UserInfo)
      → All (λ u. p u ≡ q u) us
      → filter p us ≡ filter q us
  filter-same p q [] h = refl
  filter-same p q (u ∷ us) h = ground (arith, h.0, filter-same p q us h.1)

  erase-has :
      (u : UserInfo) (m : Map String UserInfo) (us : List UserInfo)
      → All (λ v. (key_of u == key_of v) ≡ false) us
      → All (λ v. not (has (key_of v) (erase (key_of u) m)) ≡ not (has (key_of v) m)) us
  erase-has u m [] h = tt
  erase-has u m (v ∷ us) h =
      (ground (arith, h.0, lookup-erase (key_of u) (key_of v) m), erase-has u m us h.1)

  scan-added :
      (m : Map String UserInfo) (us : List UserInfo)
      → DistinctKeys us
      → (scan m us).1 ≡ filter (λ u. not (has (key_of u) m)) us
  unfolding scan
  scan-added m [] d = refl
  scan-added m (u ∷ us) d = elim (Option-cases (lookup (key_of u) m)) [
    | inl e ↦ ground (arith, scan-added m us d.1)
    | inr (v, e) ↦ ground (
      arith,
      scan-added (erase (key_of u) m) us d.1,
      filter-same _ (λ w. not (has (key_of w) m)) us (erase-has u m us d.0),
    )
  ]

  scan-left :
      (k : String) (m : Map String UserInfo) (us : List UserInfo)
      → has k (scan m us).0 ≡ (if has_key k us then false else has k m)
  unfolding scan
  scan-left k m [] = refl
  scan-left k m (u ∷ us) = elim (Option-cases (lookup (key_of u) m)) [
    | inl e ↦ ground (arith, scan-left k m us, eq_iff (key_of u) k)
    | inr (v, e) ↦ ground (arith, scan-left k (erase (key_of u) m) us, lookup-erase (key_of u) k m)
  ]

  abbrev Keyed : Map String UserInfo → Type 0
  Keyed = All (λ e. key_of e.1 ≡ e.0)

  Keyed-insert : (u : UserInfo) (m : Map String UserInfo) → Keyed m → Keyed (insert (key_of u) u m)
  unfolding insert
  Keyed-insert u [] h = (refl, tt)
  Keyed-insert u ((k, v) ∷ m) h = elim (Bool-cases (k == key_of u)) [
    | inl e ↦ rw e (refl, h.1)
    | inr e ↦ rw e (h.0, Keyed-insert u m h.1)
  ]

  Keyed-erase : (k : String) (m : Map String UserInfo) → Keyed m → Keyed (erase k m)
  unfolding erase
  Keyed-erase k [] h = tt
  Keyed-erase k ((j, v) ∷ m) h = elim (Bool-cases (j == k)) [
    | inl e ↦ rw e (Keyed-erase k m h.1)
    | inr e ↦ rw e (h.0, Keyed-erase k m h.1)
  ]

  old_map-Keyed : (m : Map String UserInfo) (us : List UserInfo) → Keyed m → Keyed (old_map m us)
  unfolding old_map
  old_map-Keyed m [] h = h
  old_map-Keyed m (u ∷ us) h = old_map-Keyed (insert (key_of u) u m) us (Keyed-insert u m h)

  scan-Keyed : (m : Map String UserInfo) (us : List UserInfo) → Keyed m → Keyed (scan m us).0
  unfolding scan
  scan-Keyed m [] h = h
  scan-Keyed m (u ∷ us) h = elim (Option-cases (lookup (key_of u) m)) [
    | inl e ↦ rw (e, scan) (scan-Keyed m us h)
    | inr (v, e) ↦ rw (e, scan) (scan-Keyed (erase (key_of u) m) us (Keyed-erase (key_of u) m h))
  ]

  users_of-has : (k : String) (m : Map String UserInfo) → Keyed m → has_key k (users_of m) ≡ has k m
  unfolding users_of lookup
  users_of-has k [] h = refl
  users_of-has k ((j, u) ∷ m) h = ground (arith, h.0, users_of-has k m h.1)

  -- If no two new users have the same key, then the added users are the new ones whose key no old
  -- user has, in their order, and the keys of the deleted users are the keys of old users that no
  -- new user has.
  pub compare_user_list_lem :
      (old new : List UserInfo) (k : String)
      → DistinctKeys new
      → let (deleted, added) = compare_user_list old new in
        (added ≡ filter (λ u. not (has_key (key_of u) old)) new)
        × (has_key k deleted ≡ (if has_key k new then false else has_key k old))
  unfolding compare_user_list lookup
  compare_user_list_lem old new k d =
      let m = old_map [] old in
      (
        scan-added m new d ∙ filter-same _ _ new (known new),
        users_of-has k (scan m new).0 (scan-Keyed m new (old_map-Keyed [] old tt))
            ∙ ground (arith, scan-left k m new, old_map-has k [] old),
      )
    where
      known :
          (us : List UserInfo)
          → All (λ u. not (has (key_of u) (old_map [] old)) ≡ not (has_key (key_of u) old)) us
      known [] = tt
      known (u ∷ us) = (ground (arith, old_map-has (key_of u) [] old), known us)
