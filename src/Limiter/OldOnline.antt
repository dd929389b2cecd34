-- ===== src/Limiter/OldOnline.antt =====
-- OldUserOnlineStore of limiter/old_online.go. A nil store is not modelled: each limiter has one
-- from its construction on.
use yunzes_node.Base.{
  ℕ, ◌+◌, ◌≡◌, String, Bool, false, not, Option, none, some, [], ◌∷◌, length, ltb, leb,
  if◌then◌else◌, Map, Distinct, lookup, insert, erase, filter, nat_eq, string_eq, arith,
  lookup-filter,
}

pub record OldEntry : Type 0 where
  pub uid : ℕ
  pub inserted_at : ℕ

abbrev pub OldUserOnlineStore : Type 0
OldUserOnlineStore = Map String OldEntry

-- Ten minutes, in nanoseconds.
abbrev pub old_user_online_ttl : ℕ
old_user_online_ttl = 600000000000

unfoldable pub store : OldUserOnlineStore → String → ℕ → ℕ → OldUserOnlineStore
store s ip uid now = insert ip (record { uid = uid; inserted_at = now }) s

unfoldable pub load : OldUserOnlineStore → String → Option ℕ
load s ip = elim (lookup ip s) [ none ↦ none | some e ↦ some e.uid ]

unfoldable pub delete : OldUserOnlineStore → String → OldUserOnlineStore
delete s ip = erase ip s

-- `insertedAt.Before(now - maxAge)`
unfoldable pub stale : ℕ → ℕ → OldEntry → Bool
stale now max_age e = ltb (e.inserted_at + max_age) now

unfoldable pub gc_stale : ℕ → ℕ → OldUserOnlineStore → OldUserOnlineStore × ℕ
gc_stale now max_age s = if leb max_age 0 then (s, 0) else (
  filter (λ x. not (stale now max_age x.1)) s,
  length (filter (λ x. stale now max_age x.1) s),
)

split-length :
    (p : OldEntry → Bool) (s : OldUserOnlineStore)
    → length (filter (λ x. not (p x.1)) s) + length (filter (λ x. p x.1) s) ≡ length s
split-length p [] = omega arith
split-length p (x ∷ xs) = ground (arith, split-length p xs)

-- What is left and what is reported as evicted are together all there was.
pub gc_stale-length :
    (now max_age : ℕ) (s : OldUserOnlineStore)
    → length (gc_stale now max_age s).0 + (gc_stale now max_age s).1 ≡ length s
unfolding gc_stale
gc_stale-length now max_age s = ground (arith, split-length (stale now max_age) s)

-- With a positive age and one entry for each IP, an IP is still loaded exactly if its entry is
-- not older than that age.
pub load-gc_stale :
    (now max_age : ℕ) (s : OldUserOnlineStore) (ip : String)
    → Distinct s
    → leb max_age 0 ≡ false
    → load (gc_stale now max_age s).0 ip ≡ elim (lookup ip s) [
      | none ↦ none
      | some e ↦ if ltb (e.inserted_at + max_age) now then none else some e.uid
    ]
unfolding load gc_stale stale
load-gc_stale now max_age s ip d h =
    ground (arith, lookup-filter (λ e. not (stale now max_age e)) ip s d)
