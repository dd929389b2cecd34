-- ===== src/Node/Startup.antt =====
-- node/node.go: the controllers of a process, made from what the panel or the local configuration
-- lists, started one by one, and closed. The client of each controller is not modelled: what it is
-- answered is an input of the start.
pub mod Rollback
use yunzes_node.Base.{
  ℕ, String, Bool, true, false, ◌||◌, Option, none, some, List, [], ◌∷◌, ◌==◌, if◌then◌else◌,
  string_eq, nat_eq, ok, err,
}
use yunzes_node.Base.Int.{ℤ, pos}
use yunzes_node.Panel.{BasicConfig, ProtocolConfig}
use yunzes_node.Conf.{LimitConfig}
use yunzes_node.Core.Interface.{VCore}
use yunzes_node.Node.Controller.{Controller}
use yunzes_node.Node.Lifecycle.{Setup, Pulled, Shared, start, close}
use yunzes_node.Node.Intervals.{resolve_intervals}
use yunzes_node.Node.Servers.{Built, default_core_for, build_server_controller}

abbrev no_limits : LimitConfig
no_limits = record {
  enable_realtime = false;
  speed_limit = 0;
  ip_limit = 0;
  conn_limit = 0;
  enable_dynamic_speed_limit = false;
  dynamic_speed_limit_config = none;
  max_report_failure_rollbacks = pos 0;
}

-- The controller before its start.
unfoldable pub setup_of : Built → Setup
setup_of b = record {
  core_type = b.options.core;
  name = "";
  listen_ip = b.options.listen_ip;
  has_cert_config = true;
  limit_config = no_limits;
  device_online_min_traffic = b.options.device_online_min_traffic;
}

-- The type that panel.New stores, of a node type in lower case; any other is an error.
unfoldable pub client_type : String → Option String
client_type t =
    if t == "v2ray"
    then some "vmess"
    else if t == "vmess"
        || t == "trojan"
        || t == "shadowsocks"
        || t == "tuic"
        || t == "hysteria2"
        || t == "anytls"
        || t == "vless"
    then some t
    else none

-- One controller to start, with what its requests are answered and how its certificate fares.
pub record Prepared : Type 0 where
  pub setup : Setup
  pub pulled : Option Pulled
  pub built_tag : String
  pub cert_ok : Bool

-- An entry of the local configuration; `core_type` is what the options say, or empty.
pub record LocalNode : Type 0 where
  pub node_type : String
  pub entry : Prepared

-- `none` is an error before the controller's own start.
unfoldable pub prepare_local : LocalNode → Option Prepared
prepare_local n = elim (client_type n.node_type) [
  | none ↦ none
  | some t ↦
      let given = n.entry.setup.core_type in
      let core_type = if given == "" then default_core_for t else given in
      if core_type == ""
      then none
      else some (record (n.entry) { setup = record (n.entry.setup) { core_type = core_type } })
]

-- What one protocol's requests are answered.
pub record Answered : Type 0 where
  pub protocol : ProtocolConfig
  pub pulled : Option Pulled
  pub built_tag : String
  pub cert_ok : Bool

unfoldable pub prepare_server : ℕ → ℤ → ℤ → Answered → Option Prepared
prepare_server server_id push pull a =
    elim (build_server_controller server_id a.protocol push pull) [
      | err _ ↦ none
      | ok b ↦ some (record {
        setup = setup_of b;
        pulled = a.pulled;
        built_tag = a.built_tag;
        cert_ok = a.cert_ok;
      })
    ]

abbrev prepare_each : {A : Type 0} → (A → Option Prepared) → List A → List (Option Prepared)
prepare_each f [] = []
prepare_each f (x ∷ xs) = f x ∷ prepare_each f xs

module _ {S B : Type 0} (core : VCore S) where
  -- The controllers are listed with the latest first, so that they go in reverse order.
  unfoldable pub rollback_controllers : List (Controller S B) → Shared S B → Shared S B
  rollback_controllers [] w = w
  rollback_controllers (c ∷ cs) w = rollback_controllers cs (close core c w).0

  -- The loop of both starts: an error takes back what was started.
  unfoldable pub start_each :
      List (Controller S B)
      → List (Option Prepared)
      → Shared S B
      → Shared S B × Option (List (Controller S B))
  start_each started [] w = (w, some started)
  start_each started (none ∷ rest) w = (rollback_controllers started w, none)
  start_each started (some p ∷ rest) w =
      let (w', up) = start core p.setup p.pulled p.built_tag p.cert_ok w in
      elim up [
        | none ↦ (rollback_controllers started w', none)
        | some c ↦ start_each (c ∷ started) rest w'
      ]

  -- The node is its controllers, the latest first; a start that fails leaves them.
  unfoldable pub finish :
      List (Controller S B)
      → Shared S B × Option (List (Controller S B))
      → List (Controller S B) × Shared S B × Bool
  finish old (w, none) = (old, w, false)
  finish old (w, some started) = (started, w, true)

  unfoldable pub start_local :
      List (Controller S B)
      → List LocalNode
      → Shared S B
      → List (Controller S B) × Shared S B × Bool
  start_local old nodes w = finish old (start_each [] (prepare_each prepare_local nodes) w)

  -- `none` for the list if the panel's answer is an error; an empty list is one too.
  unfoldable pub start_nodes :
      List (Controller S B)
      → ℕ
      → Option (List Answered × Option BasicConfig)
      → Shared S B
      → List (Controller S B) × Shared S B × Bool
  start_nodes old server_id none w = (old, w, false)
  start_nodes old server_id (some ([], basic)) w = (old, w, false)
  start_nodes old server_id (some (p ∷ ps, basic)) w =
      let (push, pull) = resolve_intervals basic in
      finish old (start_each [] (prepare_each (prepare_server server_id push pull) (p ∷ ps)) w)

  -- The errors of the controllers are logged.
  unfoldable pub close_node :
      List (Controller S B) → Shared S B → List (Controller S B) × Shared S B
  close_node controllers w = ([], rollback_controllers controllers w)
