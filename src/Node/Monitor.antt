-- ===== src/Node/Monitor.antt =====
-- nodeInfoMonitor of node/task.go: one pull from the panel. Inputs are the answers of the three
-- requests, `none` for an error; a node that is nil means that the configuration has not changed. The
-- adjustment of the tasks' intervals is not modelled. The controller's limiter is the same object as
-- its entry in the global map, if there is one: a method that changes it is applied to both, and no
-- entry is made or replaced by that.
pub mod Retry
use yunzes_node.Base.{
  ℕ, String, Bool, true, not, Option, none, some, List, [], ◌∷◌, if◌then◌else◌, Map, string_eq,
}
use yunzes_node.Panel.{UserInfo, NodeInfo}
use yunzes_node.Core.Interface.{VCore}
use yunzes_node.Limiter.State.{update_user}
use yunzes_node.Limiter.Registry.{Registry, change_limiter}
use yunzes_node.Node.Traffic
use yunzes_node.Node.Traffic.{TrafficStore}
use yunzes_node.Node.Users.{compare_user_list}
use yunzes_node.Node.Controller.{Controller}
use yunzes_node.Node.Reload.{replace_alive, add_some_users, reload_node_config}

-- Deleted users lose their bytes.
unfoldable pub forget : TrafficStore → List UserInfo → TrafficStore
forget s [] = s
forget s (u ∷ us) = forget (Traffic.delete s u.uuid) us

-- Empty user lists are not passed on.
unfoldable pub del_some_users : {S : Type 0} → VCore S → S → String → List UserInfo → S × Bool
del_some_users core s rk [] = (s, true)
del_some_users core s rk (u ∷ us) = core.del_users s rk (u ∷ us)

module _ {S B : Type 0} (core : VCore S) (key_of : UserInfo → String) where
  -- The new list, with the limiter and the traffic store following the difference.
  unfoldable pub follow :
      Controller S B
      → Registry B
      → S
      → List UserInfo
      → List UserInfo
      → List UserInfo
      → Controller S B × Registry B
  follow c r s new deleted added = (
    record c {
      server = s;
      limiter = update_user c.limiter c.runtime_key added deleted;
      traffic =
          if c.limit_config.enable_dynamic_speed_limit then forget c.traffic deleted else c.traffic;
      user_list = new;
    },
    change_limiter (λ l. update_user l c.runtime_key added deleted) c.runtime_key r,
  )

  -- A call that fails ends the update, with what the core has done of it.
  unfoldable pub change_users :
      Controller S B
      → Registry B
      → List UserInfo
      → List UserInfo
      → List UserInfo
      → Controller S B × Registry B
  change_users c r new deleted added =
      let (s, gone) = del_some_users core c.server c.runtime_key deleted in
      let (s', there) = add_some_users core s c.runtime_key c.info added in
      if not gone
      then (record c { server = s }, r)
      else if not there
      then (record c { server = s' }, r)
      else follow c r s' new deleted added

  -- An empty list changes nothing.
  unfoldable pub update_users :
      Controller S B → Registry B → List UserInfo → Controller S B × Registry B
  update_users c r [] = (c, r)
  update_users c r (u ∷ us) =
      let (deleted, added) = compare_user_list key_of c.user_list (u ∷ us) in
      change_users c r (u ∷ us) deleted added

  unfoldable pub with_alive :
      Controller S B → Registry B → Option (Map ℕ ℕ) → Controller S B × Registry B
  with_alive c r alive = (
    record c { limiter = replace_alive c.limiter alive },
    change_limiter (λ l. replace_alive l alive) c.runtime_key r,
  )

  -- All three answers are there.
  unfoldable pub apply :
      Controller S B
      → Registry B
      → String
      → Bool
      → Option NodeInfo
      → List UserInfo
      → Option (Map ℕ ℕ)
      → Controller S B × Registry B
  apply c r built_tag cert_ok none users alive =
      let (c', r') = with_alive c r alive in update_users c' r' users
  apply c r built_tag cert_ok (some n) users alive =
      let (c', r', _) = reload_node_config core c r built_tag n users alive cert_ok in (c', r')

  unfoldable pub node_info_monitor :
      Controller S B
      → Registry B
      → String
      → Bool
      → Option (Option NodeInfo)
      → Option (List UserInfo)
      → Option (Option (Map ℕ ℕ))
      → Controller S B × Registry B
  node_info_monitor c r built_tag cert_ok (some n) (some users) (some alive) =
      apply c r built_tag cert_ok n users alive
  node_info_monitor c r built_tag cert_ok _ _ _ = (c, r)
