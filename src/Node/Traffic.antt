-- ===== src/Node/Traffic.antt =====
-- trafficStore of node/traffic_store.go: bytes by uuid. `none` is a nil store, whose methods do
-- nothing. The lock is not modelled: each operation is one step.
use yunzes_node.Base.{
  ℕ, ◌+◌, ◌≤◌, ◌≡◌, refl, inl, inr, String, false, not, Option, none, some, List, [], ◌∷◌, leb,
  ◌==◌, if◌then◌else◌, Map, Distinct, lookup, insert, erase, filter, any, length, nat_eq, string_eq,
  arith, lookup-insert, lookup-erase, lookup-filter, eq_iff, Option-cases,
}

abbrev pub TrafficStore : Type 0
TrafficStore = Option (Map String ℕ)

unfoldable pub new_traffic_store : TrafficStore
new_traffic_store = some []

-- A key that is missing from the map reads as 0.
unfoldable pub count_in : Map String ℕ → String → ℕ
count_in m uuid = elim (lookup uuid m) [ none ↦ 0 | some n ↦ n ]

unfoldable pub add : TrafficStore → String → ℕ → TrafficStore
add none uuid n = none
add (some m) uuid n = some (insert uuid (count_in m uuid + n) m)

unfoldable pub delete : TrafficStore → String → TrafficStore
delete none uuid = none
delete (some m) uuid = some (erase uuid m)

unfoldable pub reset : TrafficStore → TrafficStore
reset none = none
reset (some m) = some []

unfoldable pub get : TrafficStore → String → ℕ
get none uuid = 0
get (some m) uuid = count_in m uuid

unfoldable pub len : TrafficStore → ℕ
len none = 0
len (some m) = length m

-- The uuids of the entries at or above the threshold.
unfoldable pub over : ℕ → Map String ℕ → List String
over threshold [] = []
over threshold ((uuid, n) ∷ m) =
    if leb threshold n then uuid ∷ over threshold m else over threshold m

-- The store afterwards and the uuids that were taken out of it.
unfoldable pub drain : TrafficStore → ℕ → TrafficStore × List String
drain none threshold = (none, [])
drain (some m) threshold =
    if threshold == 0
    then (some m, [])
    else (some (filter (λ e. not (leb threshold e.1)) m), over threshold m)

-- Some entry of the uuid is at or above the threshold.
over-any :
    (threshold : ℕ) (m : Map String ℕ) (uuid : String)
    → Distinct m
    → any (λ u. u == uuid) (over threshold m)
      ≡ elim (lookup uuid m) [ none ↦ false | some n ↦ leb threshold n ]
unfolding over lookup
over-any threshold [] uuid d = refl
over-any threshold ((u, n) ∷ m) uuid d =
    ground (arith, d.0, over-any threshold m uuid d.1, eq_iff u uuid)

-- With a positive threshold and one entry for each uuid, a uuid is drained exactly if it has at
-- least that many bytes; a drained one has none afterwards, and any other uuid keeps its bytes.
pub drain_lem :
    (m : Map String ℕ) (threshold : ℕ) (uuid : String)
    → Distinct m
    → 1 ≤ threshold
    → let (s, out) = drain (some m) threshold in
      (any (λ u. u == uuid) out ≡ leb threshold (get (some m) uuid))
      × (get s uuid ≡ (if leb threshold (get (some m) uuid) then 0 else get (some m) uuid))
unfolding drain get count_in
drain_lem m threshold uuid d h =
    let left = lookup-filter (λ n. not (leb threshold n)) uuid m d in
    let taken = over-any threshold m uuid d in
    elim (Option-cases (lookup uuid m)) [
      | inl e ↦ (ground (arith, taken, e), ground (arith, left, e))
      | inr (n, e) ↦ (ground (arith, taken, e), ground (arith, left, e))
    ]

-- Added bytes come on top of those of the uuid and touch no other; deleted and reset ones are gone.
pub add-delete-reset_counts :
    (m : Map String ℕ) (uuid other : String) (n : ℕ)
    → (get (add (some m) uuid n) other
        ≡ (if uuid == other then get (some m) other + n else get (some m) other))
      × (get (delete (some m) uuid) other ≡ (if uuid == other then 0 else get (some m) other))
      × (get (reset (some m)) other ≡ 0)
unfolding add delete reset get count_in lookup
add-delete-reset_counts m uuid other n = (
  ground (arith, lookup-insert uuid other (count_in m uuid + n) m, eq_iff uuid other),
  ground (arith, lookup-erase uuid other m),
  refl,
)
