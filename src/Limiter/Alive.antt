-- ===== src/Limiter/Alive.antt =====
-- AliveStore of limiter/alive.go: alive IPs by uid. A nil store is not modelled: each limiter has
-- one from its construction on.
use yunzes_node.Base.{
  ℕ, ◌≡◌, none, some, [], ◌==◌, if◌then◌else◌, Map, Distinct, fill, lookup, erase, nat_eq,
  lookup-nil, string_eq, arith, lookup-fill, lookup-erase,
}

abbrev pub AliveStore : Type 0
AliveStore = Map ℕ ℕ

unfoldable pub new_alive_store : Map ℕ ℕ → AliveStore
new_alive_store seed = fill [] seed

-- Zero for an unknown uid.
unfoldable pub get : AliveStore → ℕ → ℕ
get s uid = elim (lookup uid s) [ none ↦ 0 | some n ↦ n ]

unfoldable pub replace : AliveStore → Map ℕ ℕ → AliveStore
replace s next = fill [] next

unfoldable pub delete : AliveStore → ℕ → AliveStore
delete s uid = erase uid s

-- After a replacement the store answers from the new map alone.
pub get-replace :
    (s : AliveStore) (next : Map ℕ ℕ) (uid : ℕ)
    → Distinct next
    → get (replace s next) uid ≡ elim (lookup uid next) [ none ↦ 0 | some n ↦ n ]
unfolding get replace
get-replace s next uid d = ground (arith, lookup-fill uid [] next d, lookup-nil {V = ℕ} uid)

pub get-delete :
    (s : AliveStore) (uid other : ℕ)
    → get (delete s uid) other ≡ (if uid == other then 0 else get s other)
unfolding get delete
get-delete s uid other = ground (arith, lookup-erase uid other s)
