-- ===== src/Limiter/Registry.antt =====
-- The global map of limiters (limiter/limiter.go, limiter/clear.go), by runtime key. The lock is
-- not modelled: each operation is one step.
use yunzes_node.Base.{
  ℕ, ◌+◌, ◌≡◌, refl, String, Option, none, some, List, [], ◌∷◌, ◌==◌, Map, lookup, insert, erase,
  string_eq, arith, lookup-insert, lookup-insert_self, lookup-erase, eq_iff, if◌then◌else◌,
}
use yunzes_node.Format.{runtime_key}
use yunzes_node.Panel.{UserInfo}
use yunzes_node.Conf.{LimitConfig}
use yunzes_node.Limiter.Conn.{clear_online_ip}
use yunzes_node.Limiter.OldOnline
use yunzes_node.Limiter.OldOnline.{old_user_online_ttl}
use yunzes_node.Limiter.State.{Limiter, new_limiter}

abbrev pub Registry : Type 0 → Type 0
Registry B = Map String (Limiter B)

module _ {B : Type 0} where
  -- The registry and the new limiter.
  unfoldable pub add_limiter :
      Registry B → String → String → LimitConfig → List UserInfo → Map ℕ ℕ → Registry B × Limiter B
  add_limiter r core_type logical_tag l users alive =
      let rk = runtime_key core_type logical_tag in
      let info : Limiter B = new_limiter rk l users alive in (insert rk info r, info)

  unfoldable pub get_limiter_by_runtime_key : Registry B → String → Option (Limiter B)
  get_limiter_by_runtime_key r rk = lookup rk r

  -- What is seen of a method call on the limiter object that stands under a key: its entry is what the
  -- method has made of it. Where there is none, the map stays as it is.
  unfoldable pub change_limiter : (Limiter B → Limiter B) → String → Registry B → Registry B
  change_limiter f rk r = elim (lookup rk r) [ none ↦ r | some l ↦ insert rk (f l) r ]

  pub lookup-change_limiter :
      (f : Limiter B → Limiter B) (rk : String) (r : Registry B) (l : Limiter B)
      → lookup rk r ≡ some l
      → lookup rk (change_limiter f rk r) ≡ some (f l)
  unfolding change_limiter
  lookup-change_limiter f rk r l h = rw (h, change_limiter) (lookup-insert_self rk (f l) r)

  unfoldable pub delete_limiter : Registry B → String → String → Registry B
  delete_limiter r core_type logical_tag = erase (runtime_key core_type logical_tag) r

  -- One limiter's share of the sweep, and the number of recent users that it evicts.
  unfoldable pub clear_limiter : ℕ → Limiter B → Limiter B × ℕ
  clear_limiter now l =
      let (old, evicted) = OldOnline.gc_stale now old_user_online_ttl l.old_user_online in
      (
        record l { conn_limiter = clear_online_ip now l.conn_limiter; old_user_online = old },
        evicted,
      )

  unfoldable pub clear_online_ips : ℕ → Registry B → Registry B × ℕ
  clear_online_ips now [] = ([], 0)
  clear_online_ips now ((rk, l) ∷ r) =
      let (l', n) = clear_limiter now l in
      let (r', total) = clear_online_ips now r in ((rk, l') ∷ r', n + total)

  -- A limiter is found under its key after it is added, and not any more after it is deleted;
  -- the limiters under other keys stay as they were.
  pub get_limiter-add_limiter :
      (r : Registry B) (core_type logical_tag rk : String) (l : LimitConfig) (users : List UserInfo)
      (alive : Map ℕ ℕ)
      → let (r', info) = add_limiter r core_type logical_tag l users alive in
        (get_limiter_by_runtime_key r' rk ≡ (
          if runtime_key core_type logical_tag == rk
          then some info
          else get_limiter_by_runtime_key r rk))
        × (get_limiter_by_runtime_key (delete_limiter r' core_type logical_tag) rk ≡ (
            if runtime_key core_type logical_tag == rk
            then none
            else get_limiter_by_runtime_key r rk))
  unfolding get_limiter_by_runtime_key add_limiter delete_limiter
  get_limiter-add_limiter r core_type logical_tag rk l users alive =
      let k = runtime_key core_type logical_tag in
      let info : Limiter B = new_limiter k l users alive in
      (
        lookup-insert k rk info r,
        ground (arith, lookup-erase k rk (insert k info r), lookup-insert k rk info r),
      )

  -- The sweep reaches every limiter under its key, and no other.
  pub lookup-clear_online_ips :
      (now : ℕ) (r : Registry B) (rk : String)
      → lookup rk (clear_online_ips now r).0
        ≡ elim (lookup rk r) [ none ↦ none | some l ↦ some (clear_limiter now l).0 ]
  unfolding clear_online_ips lookup
  lookup-clear_online_ips now [] rk = refl
  lookup-clear_online_ips now ((k, l) ∷ r) rk =
      ground (arith, lookup-clear_online_ips now r rk, eq_iff k rk)
