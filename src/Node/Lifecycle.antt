-- ===== src/Node/Lifecycle.antt =====
-- Start and Close of node/controller.go, with startTasks of node/task.go as far as it can fail. The
-- controller that Start is called on holds nothing yet but its options, the `Setup`; a Start that
-- fails yields no controller, and its caller drops the old one. What the panel sent is an input,
-- `none` if one of the three pulls failed; a panic of the core counts as a failure of the call.
pub mod Undo
pub mod Stale
use yunzes_node.Base.{
  ℕ, String, Bool, true, false, not, ◌&&◌, Option, none, some, List, ◌==◌, if◌then◌else◌, Map,
  string_eq, ok, err,
}
use yunzes_node.Format.{runtime_key}
use yunzes_node.Panel.{UserInfo, NodeInfo}
use yunzes_node.Conf.{LimitConfig}
use yunzes_node.Core.Interface.{VCore}
use yunzes_node.Limiter.State.{Limiter}
use yunzes_node.Limiter.Registry.{Registry, add_limiter, delete_limiter}
use yunzes_node.Node.Ports.{PortRegistry, listener_specs_for, reserve, release}
use yunzes_node.Node.Traffic.{new_traffic_store}
use yunzes_node.Node.Controller.{Controller, protocol_security, needs_cert}
use yunzes_node.Node.Reload.{entries, add_some_users}

pub record Setup : Type 0 where
  pub core_type : String
  pub name : String
  pub listen_ip : String
  pub has_cert_config : Bool
  pub limit_config : LimitConfig
  pub device_online_min_traffic : ℕ

pub record Pulled : Type 0 where
  pub node : NodeInfo
  pub users : List UserInfo
  pub alive : Option (Map ℕ ℕ)

-- What the controllers of a process share: the core, the limiters and the listeners.
pub record Shared (S B : Type 0) : Type 0 where
  pub server : S
  pub limiters : Registry B
  pub ports : PortRegistry

-- The tasks fail to start only if the dynamic limit is on and has no configuration.
unfoldable pub tasks_start : LimitConfig → Bool
tasks_start l =
    if l.enable_dynamic_speed_limit
    then elim l.dynamic_speed_limit_config [ none ↦ false | some _ ↦ true ]
    else true

module _ {S B : Type 0} (core : VCore S) (u : Setup) (pulled : Pulled) (tag : String) where
  -- The controller of the node, once it is up.
  unfoldable pub new_controller : S → Limiter B → Controller S B
  new_controller s l = record {
    server = s;
    core_type = u.core_type;
    logical_tag = tag;
    runtime_key = runtime_key u.core_type tag;
    limiter = l;
    traffic = if u.limit_config.enable_dynamic_speed_limit then new_traffic_store else none;
    report_failures = 0;
    user_list = pulled.users;
    alive_map = pulled.alive;
    info = some pulled.node;
    limit_config = u.limit_config;
    name = u.name;
    listen_ip = u.listen_ip;
    has_cert_config = u.has_cert_config;
    device_online_min_traffic = u.device_online_min_traffic;
  }

  -- The rollback without an inbound: the limiter goes, then the reservation.
  unfoldable pub undo : Shared S B → S → Shared S B
  undo w s = record {
    server = s;
    limiters = delete_limiter w.limiters u.core_type tag;
    ports = release w.ports (runtime_key u.core_type tag);
  }

  -- From the limiter on; `w` holds the reservation.
  unfoldable pub bring_up : Shared S B → Shared S B × Option (Controller S B)
  bring_up w =
      let rk = runtime_key u.core_type tag in
      let (limiters, l) =
        add_limiter w.limiters u.core_type tag u.limit_config pulled.users (entries pulled.alive) in
      let w' : Shared S B = record w { limiters = limiters } in
      let (s, added) = core.add_node w.server rk (some pulled.node) in
      let (s', filled) = add_some_users core s rk (some pulled.node) pulled.users in
      if not added
      then (undo w' s, none)
      else if not (filled && tasks_start u.limit_config)
      then (undo w' (core.del_node s' rk).0, none)
      else (record w' { server = s' }, some (new_controller s' l))

  -- From the reservation on.
  unfoldable pub start_reserved :
      Shared S B → PortRegistry → Bool → Shared S B × Option (Controller S B)
  start_reserved w ports cert_ok =
      if needs_cert (protocol_security pulled.node) && not cert_ok
      then (record w { ports = release ports (runtime_key u.core_type tag) }, none)
      else bring_up (record w { ports = ports })

  unfoldable pub start_pulled : Shared S B → Bool → Shared S B × Option (Controller S B)
  start_pulled w cert_ok = elim (listener_specs_for pulled.node u.listen_ip) [
    | err _ ↦ (w, none)
    | ok specs ↦ elim (reserve w.ports (runtime_key u.core_type tag) tag specs) [
      | err _ ↦ (w, none)
      | ok ports ↦ start_reserved w ports cert_ok
    ]
  ]

abbrev pub tag_for : Setup → String → String
tag_for u built_tag = if u.name == "" then built_tag else u.name

unfoldable pub start :
    {S B : Type 0}
    → VCore S
    → Setup
    → Option Pulled
    → String
    → Bool
    → Shared S B
    → Shared S B × Option (Controller S B)
start core u none built_tag cert_ok w = (w, none)
start core u (some pulled) built_tag cert_ok w =
    start_pulled core u pulled (tag_for u built_tag) w cert_ok

-- `false` for the error of DelNode.
unfoldable pub close : {S B : Type 0} → VCore S → Controller S B → Shared S B → Shared S B × Bool
close core c w =
    let (s, deleted) = core.del_node w.server c.runtime_key in
    if c.runtime_key == "" then (w, true) else (
      record {
        server = s;
        limiters = delete_limiter w.limiters c.core_type c.logical_tag;
        ports = release w.ports c.runtime_key;
      },
      deleted,
    )
