-- ===== src/Counter.antt =====
-- The traffic counters of common/counter/traffic.go, by user. A counter is an int64 of bytes;
-- no total comes near 2 ^ 63, so a plain number stands for it.
pub mod Conns
use yunzes_node.Base.{
  ℕ, ◌+◌, ◌≡◌, String, none, some, [], ◌==◌, if◌then◌else◌, Map, lookup, insert, erase, string_eq,
  arith, eq_iff, lookup-insert, Option-cases, inl, inr,
}

pub record TrafficStorage : Type 0 where
  pub up : ℕ
  pub down : ℕ

abbrev pub TrafficCounter : Type 0
TrafficCounter = Map String TrafficStorage

abbrev pub zeroed : TrafficStorage
zeroed = record { up = 0; down = 0 }

unfoldable pub new_traffic_counter : TrafficCounter
new_traffic_counter = []

-- The user's storage, created on first use.
unfoldable pub get_counter : TrafficCounter → String → TrafficCounter × TrafficStorage
get_counter c uuid = elim (lookup uuid c) [
  | some s ↦ (c, s)
  | none ↦ (insert uuid zeroed c, zeroed)
]

unfoldable pub get_up_count : TrafficCounter → String → ℕ
get_up_count c uuid = elim (lookup uuid c) [ some s ↦ s.up | none ↦ 0 ]

unfoldable pub get_down_count : TrafficCounter → String → ℕ
get_down_count c uuid = elim (lookup uuid c) [ some s ↦ s.down | none ↦ 0 ]

unfoldable pub reset : TrafficCounter → String → TrafficCounter
reset c uuid = elim (lookup uuid c) [ some _ ↦ insert uuid zeroed c | none ↦ c ]

unfoldable pub delete : TrafficCounter → String → TrafficCounter
delete c uuid = erase uuid c

unfoldable pub rx : TrafficCounter → String → ℕ → TrafficCounter
rx c uuid n = let (c', s) = get_counter c uuid in insert uuid (record s { down = s.down + n }) c'

unfoldable pub tx : TrafficCounter → String → ℕ → TrafficCounter
tx c uuid n = let (c', s) = get_counter c uuid in insert uuid (record s { up = s.up + n }) c'

-- Received bytes go to the user's download count and sent bytes to the upload count, on top of
-- what was there; no other count changes.
pub rx-tx_counts :
    (c : TrafficCounter) (uuid other : String) (n : ℕ)
    → (get_down_count (rx c uuid n) other
        ≡ (if uuid == other then get_down_count c other + n else get_down_count c other))
      × (get_up_count (rx c uuid n) other ≡ get_up_count c other)
      × (get_up_count (tx c uuid n) other
          ≡ (if uuid == other then get_up_count c other + n else get_up_count c other))
      × (get_down_count (tx c uuid n) other ≡ get_down_count c other)
unfolding get_down_count get_up_count rx tx get_counter
rx-tx_counts c uuid other n = elim (Option-cases (lookup uuid c)) [
  | inl e ↦
      let laws = lookup-insert uuid other zeroed c in
      let down = lookup-insert uuid other (record zeroed { down = 0 + n }) (insert uuid zeroed c) in
      let up = lookup-insert uuid other (record zeroed { up = 0 + n }) (insert uuid zeroed c) in
      (
        ground (arith, laws, down, eq_iff uuid other),
        ground (arith, laws, down, eq_iff uuid other),
        ground (arith, laws, up, eq_iff uuid other),
        ground (arith, laws, up, eq_iff uuid other),
      )
  | inr (s, e) ↦
      let down = lookup-insert uuid other (record s { down = s.down + n }) c in
      let up = lookup-insert uuid other (record s { up = s.up + n }) c in
      (
        ground (arith, down, eq_iff uuid other),
        ground (arith, down, eq_iff uuid other),
        ground (arith, up, eq_iff uuid other),
        ground (arith, up, eq_iff uuid other),
      )
]
