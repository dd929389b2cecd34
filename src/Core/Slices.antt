-- ===== src/Core/Slices.antt =====
-- GetUserTrafficSlice and AddUserTrafficSlice of core/xray/user.go and core/sing/user.go. The two
-- differ in the key of a user: a tag and a uuid (xray), or the uuid (sing). A map is walked in the
-- order of its list, which stands for Go's order.
pub mod Credit
pub mod Reverse
use yunzes_node.Base.{
  ℕ, ◌+◌, String, Bool, true, false, Option, none, some, List, [], ◌∷◌, ltb, if◌then◌else◌, Map,
  lookup, insert, string_eq, nat_eq,
}
use yunzes_node.Panel.{UserTraffic}
use yunzes_node.Core.Interface.{VCore}
use yunzes_node.Counter.{TrafficCounter, zeroed}

pub record Traffics : Type 0 where
  pub uid_map : Map String ℕ
  pub counters : Map String TrafficCounter

-- A key that is missing from the map reads as 0.
unfoldable pub uid_of : Map String ℕ → String → ℕ
uid_of uids user = elim (lookup user uids) [ none ↦ 0 | some uid ↦ uid ]

unfoldable pub slice_of : Map String ℕ → TrafficCounter → List UserTraffic
slice_of uids [] = []
slice_of uids ((user, s) ∷ m) =
    if ltb 0 (s.up + s.down)
    then (record { uid = uid_of uids user; upload = s.up; download = s.down }) ∷ slice_of uids m
    else slice_of uids m

-- The counters that the slice has read, at zero.
unfoldable pub drained : TrafficCounter → TrafficCounter
drained [] = []
drained ((user, s) ∷ m) =
    if ltb 0 (s.up + s.down) then (user, zeroed) ∷ drained m else (user, s) ∷ drained m

unfoldable pub get_user_traffic_slice : Traffics → String → Bool → Traffics × List UserTraffic
get_user_traffic_slice t tag reset = elim (lookup tag t.counters) [
  | none ↦ (t, [])
  | some m ↦ (
    if reset then record t { counters = insert tag (drained m) t.counters } else t,
    slice_of t.uid_map m,
  )
]

-- `for user, uid := range uidMap { reverseMap[uid] = user }`
unfoldable pub reverse_map : Map ℕ String → Map String ℕ → Map ℕ String
reverse_map acc [] = acc
reverse_map acc ((user, uid) ∷ m) = reverse_map (insert uid user acc) m

unfoldable pub credit_one : Map ℕ String → UserTraffic → TrafficCounter → TrafficCounter
credit_one reverse t m = elim (lookup t.uid reverse) [
  | none ↦ m
  | some user ↦ elim (lookup user m) [
    | none ↦ m
    | some s ↦ insert user (record { up = s.up + t.upload; down = s.down + t.download }) m
  ]
]

unfoldable pub credit : Map ℕ String → List UserTraffic → TrafficCounter → TrafficCounter
credit reverse [] m = m
credit reverse (t ∷ ts) m = credit reverse ts (credit_one reverse t m)

-- `none` is the error that the tag has no counter.
unfoldable pub add_user_traffic_slice : Traffics → String → List UserTraffic → Option Traffics
add_user_traffic_slice t tag [] = some t
add_user_traffic_slice t tag (x ∷ xs) = elim (lookup tag t.counters) [
  | none ↦ none
  | some m ↦
      some (record t {
        counters = insert tag (credit (reverse_map [] t.uid_map) (x ∷ xs) m) t.counters;
      })
]

abbrev pub with_counters : {R : Type 0} → Traffics × R → Option Traffics → (Traffics × R) × Bool
with_counters s none = (s, false)
with_counters s (some t) = ((t, s.1), true)

-- A core whose state holds the counters beside a rest `R`: the traffic operations are those above,
-- and all others are the operations of `base`.
abbrev pub core_of : {R : Type 0} → VCore (Traffics × R) → VCore (Traffics × R)
core_of base = record base {
  get_user_traffic_slice =
      λ s tag reset. let (t, ts) = get_user_traffic_slice s.0 tag reset in ((t, s.1), ts);
  add_user_traffic_slice = λ s tag ts. with_counters s (add_user_traffic_slice s.0 tag ts);
}
