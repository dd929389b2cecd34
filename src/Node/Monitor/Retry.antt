-- ===== src/Node/Monitor/Retry.antt =====
-- What a pull (nodeInfoMonitor of node/task.go) leaves of the controller.
use yunzes_node.Base.{
  ℕ, ◌≡◌, ◌⊎◌, inl, inr, String, Bool, true, false, not, ◌&&◌, Option, none, some, List, [], ◌∷◌,
  if◌then◌else◌, Map, lookup, string_eq, Bool-cases,
}
use yunzes_node.Format.{user_tag}
use yunzes_node.Panel.{UserInfo, NodeInfo}
use yunzes_node.Core.Interface.{VCore}
use yunzes_node.Limiter.State.{UserLimitInfo, update_user}
use yunzes_node.Limiter.Registry.{Registry, lookup-change_limiter}
use yunzes_node.Limiter.Users.{latest, listed, sent_limits}
use yunzes_node.Node.Traffic
use yunzes_node.Node.Controller.{Controller}
use yunzes_node.Node.Users.{compare_user_list}
use yunzes_node.Node.Reload.{replace_alive, add_some_users}
use yunzes_node.Node.Reload.Outcomes.{Coherent, reload_node_config-Coherent}
use yunzes_node.Node.Monitor.{
  del_some_users, follow, change_users, update_users, with_alive, apply, node_info_monitor,
}

module _ {S B : Type 0} (core : VCore S) (key_of : UserInfo → String) where
  module _ (c : Controller S B) (r : Registry B) (new : List UserInfo) where
    abbrev deleted : List UserInfo
    deleted = (compare_user_list key_of c.user_list new).0

    abbrev added : List UserInfo
    added = (compare_user_list key_of c.user_list new).1

    -- What the core answers to the deleted users, and then to the added ones; it is not asked about
    -- an empty list.
    abbrev gone : S × Bool
    gone = elim deleted [
      | [] ↦ (c.server, true)
      | u ∷ us ↦ core.del_users c.server c.runtime_key (u ∷ us)
    ]

    abbrev filled : S × Bool
    filled = elim added [
      | [] ↦ (gone.0, true)
      | u ∷ us ↦ core.add_users gone.0 c.runtime_key c.info (u ∷ us)
    ]

    -- An added user has the limits that the panel has sent, another deleted one has none, and all
    -- others keep theirs.
    abbrev limits_after : String → Option UserLimitInfo
    limits_after uuid = elim (latest uuid added) [
      | some u ↦ some (sent_limits u)
      | none ↦
          if listed uuid deleted
          then none
          else lookup (user_tag c.runtime_key uuid) c.limiter.user_limit_info
    ]

    abbrev pub Follows : Controller S B → Type 0
    Follows d =
        (d.user_list ≡ new)
        × (d.server ≡ filled.0)
        × ((uuid : String)
            → (lookup (user_tag c.runtime_key uuid) d.limiter.user_limit_info ≡ limits_after uuid)
              × (lookup (user_tag c.runtime_key uuid) d.limiter.speed_limiter ≡ (
                  if listed uuid deleted
                  then none
                  else lookup (user_tag c.runtime_key uuid) c.limiter.speed_limiter))
              × (Traffic.get d.traffic uuid ≡ (
                  if c.limit_config.enable_dynamic_speed_limit && listed uuid deleted
                  then 0
                  else Traffic.get c.traffic uuid)))

    abbrev pub Updated : Controller S B × Registry B → Type 0
    Updated (d, r') =
        ((new ≡ []) × (d ≡ c) × (r' ≡ r))
        ⊎ ((gone.1 ≡ false) × (d ≡ record c { server = gone.0 }) × (r' ≡ r))
        ⊎ ((gone.1 ≡ true) × (filled.1 ≡ false) × (d ≡ record c { server = filled.0 }) × (r' ≡ r))
        ⊎ ((gone.1 ≡ true) × (filled.1 ≡ true) × Follows d)

  abbrev CoherentPair : Controller S B × Registry B → Type 0
  CoherentPair (d, r) = Coherent d r

  follow-Coherent :
      (c : Controller S B) (r : Registry B) (s : S) (new deleted added : List UserInfo)
      → Coherent c r
      → CoherentPair (follow core key_of c r s new deleted added)
  unfolding follow
  follow-Coherent c r s new deleted added (k, h) = (
    k,
    lookup-change_limiter (λ l. update_user l c.runtime_key added deleted) c.runtime_key r _ h,
  )

  update_users-Coherent :
      (c : Controller S B) (r : Registry B) (new : List UserInfo)
      → Coherent c r
      → CoherentPair (update_users core key_of c r new)
  unfolding update_users change_users
  update_users-Coherent c r [] h = h
  update_users-Coherent c r (u ∷ us) h =
      let del = del_some_users core c.server c.runtime_key (deleted c r (u ∷ us)) in
      let fill = add_some_users core del.0 c.runtime_key c.info (added c r (u ∷ us)) in
      elim (Bool-cases (not del.1)) [
        | inl e ↦ rw e h
        | inr e ↦ rw e (elim (Bool-cases (not fill.1)) [
          | inl f ↦ rw f h
          | inr f ↦ rw f (follow-Coherent c r fill.0 (u ∷ us) _ _ h)
        ])
      ]

  with_alive-Coherent :
      (c : Controller S B) (r : Registry B) (alive : Option (Map ℕ ℕ))
      → Coherent c r
      → CoherentPair (with_alive core key_of c r alive)
  unfolding with_alive
  with_alive-Coherent c r alive (k, h) =
      (k, lookup-change_limiter (λ l. replace_alive l alive) c.runtime_key r _ h)

  -- A pull, whatever the panel and the core answer, leaves the controller's limiter under the
  -- controller's key in the global map, if it stood there before.
  pub node_info_monitor-Coherent :
      (c : Controller S B) (r : Registry B) (built_tag : String) (cert_ok : Bool)
      (n : Option (Option NodeInfo)) (users : Option (List UserInfo))
      (alive : Option (Option (Map ℕ ℕ)))
      → Coherent c r
      → let (d, r') = node_info_monitor core key_of c r built_tag cert_ok n users alive in
        Coherent d r'
  unfolding node_info_monitor apply
  node_info_monitor-Coherent c r built_tag cert_ok none users alive h = h
  node_info_monitor-Coherent c r built_tag cert_ok (some n) none alive h = h
  node_info_monitor-Coherent c r built_tag cert_ok (some n) (some users) none h = h
  node_info_monitor-Coherent c r built_tag cert_ok (some none) (some users) (some alive) h =
      update_users-Coherent _ _ users (with_alive-Coherent c r alive h)
  node_info_monitor-Coherent c r built_tag cert_ok (some (some n)) (some users) (some alive) h =
      reload_node_config-Coherent core c r built_tag n users alive cert_ok h
