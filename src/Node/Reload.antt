-- ===== src/Node/Reload.antt =====
-- reloadNodeConfig of node/reload.go. Inputs are what the panel sent, whether the certificate could
-- be ensured, and the tag that is built from the panel's host and the node. The limiters are the
-- global map. The controller's limiter is the same object as its entry there, if there is one: a method
-- that changes it is applied to both, and no entry is made or replaced by that.
pub mod Outcomes
pub mod Answers
pub mod Pinned
use yunzes_node.Base.{
  ℕ, String, Bool, true, false, not, ◌&&◌, Option, none, some, List, [], ◌∷◌, ◌==◌, if◌then◌else◌,
  Map, string_eq, Result, ok, err,
}
use yunzes_node.Format.{runtime_key}
use yunzes_node.Panel.{UserInfo, NodeInfo}
use yunzes_node.Core.Interface.{VCore}
use yunzes_node.Limiter.Alive
use yunzes_node.Limiter.State.{Limiter}
use yunzes_node.Limiter.Registry.{Registry, add_limiter, delete_limiter, change_limiter}
use yunzes_node.Node.Ports.{listener_specs_for}
use yunzes_node.Node.Traffic
use yunzes_node.Node.Controller.{Controller, protocol_security, needs_cert}

-- What the log says of a reload.
pub data Outcome : Type 0 where
  aborted : Outcome
  rolled_back : Outcome
  reloaded : Outcome

abbrev pub entries : Option (Map ℕ ℕ) → Map ℕ ℕ
entries none = []
entries (some m) = m

abbrev pub is_ok {ℓ κ} : {E : Type ℓ} {A : Type κ} → Result E A → Bool
is_ok (ok _) = true
is_ok (err _) = false

-- A nil alive map replaces nothing.
unfoldable pub replace_alive : {B : Type 0} → Limiter B → Option (Map ℕ ℕ) → Limiter B
replace_alive l none = l
replace_alive l (some m) = record l { alive_list = Alive.replace l.alive_list m }

-- The controller, the global map of limiters and the outcome.
abbrev pub Reloaded : Type 0 → Type 0 → Type 0
Reloaded S B = Controller S B × Registry B × Outcome

-- Empty user lists are not passed on.
unfoldable pub add_some_users :
    {S : Type 0} → VCore S → S → String → Option NodeInfo → List UserInfo → S × Bool
add_some_users core s rk n [] = (s, true)
add_some_users core s rk n (u ∷ us) = core.add_users s rk n (u ∷ us)

module _ {S B : Type 0} (core : VCore S) where
  unfoldable pub valid : Controller S B → NodeInfo → Bool → Bool
  valid c n cert_ok =
      (if needs_cert (protocol_security n) && c.has_cert_config then cert_ok else true)
      && is_ok (listener_specs_for n c.listen_ip)

  -- The limiter of the new tag: the old one if the tag stays.
  unfoldable pub swap_limiter :
      Controller S B
      → Registry B
      → String
      → List UserInfo
      → Option (Map ℕ ℕ)
      → Registry B × Limiter B
  swap_limiter c r tag users alive =
      if tag == c.logical_tag
      then (r, c.limiter)
      else add_limiter (delete_limiter r c.core_type c.logical_tag) c.core_type tag c.limit_config
          users (entries alive)

  -- The old limiter, rebuilt if the tag had changed.
  unfoldable pub restore_limiter : Controller S B → Registry B → String → Registry B × Limiter B
  restore_limiter c r tag =
      if tag == c.logical_tag
      then (r, c.limiter)
      else add_limiter (delete_limiter r c.core_type tag) c.core_type c.logical_tag c.limit_config
          c.user_list (entries c.alive_map)

  -- AddNode and AddUsers of the old node, whose failures are only logged.
  unfoldable pub restore_server : Controller S B → S → S
  restore_server c s =
      let (s', added) = core.add_node s c.runtime_key c.info in
      if added then (add_some_users core s' c.runtime_key c.info c.user_list).0 else s'

  unfoldable pub rollback : Controller S B → Registry B → String → S → Reloaded S B
  rollback c r tag s =
      let (r', l) = restore_limiter c r tag in
      (record c { limiter = l; server = restore_server c s }, r', rolled_back)

  unfoldable pub commit :
      Controller S B
      → Registry B
      → String
      → String
      → NodeInfo
      → List UserInfo
      → Option (Map ℕ ℕ)
      → S
      → Limiter B
      → Reloaded S B
  commit c r tag rk n users alive s l = (
    record c {
      server = s;
      info = some n;
      user_list = users;
      alive_map = alive;
      runtime_key = rk;
      logical_tag = tag;
      limiter = replace_alive l alive;
      traffic = Traffic.reset c.traffic;
    },
    change_limiter (λ x. replace_alive x alive) rk r,
    reloaded,
  )

  -- From the new inbound on, with the old one and its limiter gone.
  unfoldable pub bring_up :
      Controller S B
      → Registry B
      → String
      → String
      → NodeInfo
      → List UserInfo
      → Option (Map ℕ ℕ)
      → S
      → Limiter B
      → Reloaded S B
  bring_up c r tag rk n users alive s l =
      let (s', added) = core.add_node s rk (some n) in
      let (s'', filled) = add_some_users core s' rk (some n) users in
      if not added
      then rollback c r tag s'
      else if not filled
      then rollback c r tag (core.del_node s'' rk).0
      else commit c r tag rk n users alive s'' l

  unfoldable pub reload_node_config :
      Controller S B
      → Registry B
      → String
      → NodeInfo
      → List UserInfo
      → Option (Map ℕ ℕ)
      → Bool
      → Reloaded S B
  reload_node_config c r built_tag n users alive cert_ok =
      let tag = if c.name == "" then built_tag else c.logical_tag in
      let rk = if c.name == "" then runtime_key c.core_type built_tag else c.runtime_key in
      let (s, deleted) = core.del_node c.server c.runtime_key in
      let (r', l) = swap_limiter c r tag users alive in
      if not (valid c n cert_ok)
      then (c, r, aborted)
      else if not deleted
      then (record c { server = s }, r, aborted)
      else bring_up c r' tag rk n users alive s l
