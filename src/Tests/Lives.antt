-- ===== src/Tests/Lives.antt =====
-- Runs of a controller's start and of a reload of the process, and the theorems applied to them.
use yunzes_node.Base.{
  ℕ, ◌≡◌, refl, String, Bool, true, false, not, Option, none, some, List, [], ◌∷◌, ◌==◌, lookup,
  insert, erase, string_eq,
}
use yunzes_node.Base.Int.{pos}
use yunzes_node.Format.{runtime_key}
use yunzes_node.Panel.{NodeInfo}
use yunzes_node.Conf.{LimitConfig}
use yunzes_node.Core.Interface.{VCore}
use yunzes_node.Limiter.State.{Limiter}
use yunzes_node.Limiter.Registry.{change_limiter, add_limiter, delete_limiter}
use yunzes_node.Node.Ports.{
  PortRegistry, ListenerOwner, new_port_registry, normalize_listen_addr, wild4, wild6, specific_v4,
  listener_conflict, normalized, find_conflict, first_conflict, owners, reserve, tag_of, drop_tag,
  release, listener_specs_for, common_port, payload_port, protocol_transports, specs_of, specs_on,
}
use yunzes_node.Node.Ports
use yunzes_node.Node.Ports.Exclusive.{new_port_registry-IsExclusive}
use yunzes_node.Node.Traffic
use yunzes_node.Node.Controller.{Controller, common_security, protocol_security, needs_cert}
use yunzes_node.Node.Reload
use yunzes_node.Node.Reload.{reloaded, reload_node_config}
use yunzes_node.Node.Lifecycle.{
  Setup, Pulled, Shared, tasks_start, new_controller, undo, bring_up, start_reserved, start_pulled,
  start, close,
}
use yunzes_node.Node.Lifecycle.Undo.{IsTidy, Undone, start-Undone}
use yunzes_node.Node.Lifecycle.Stale.{reload-close_keeps_ports}
use yunzes_node.Process.{
  restored_old, started, failed, core_built, core_closed, nodes_built, nodes_closed, close_nodes,
  close_core, tear_down, drop, restore, swap, reload_process,
}
use yunzes_node.Process.NoLeak.{Balanced, reload_process-Balanced}

program : Unit {0}
unfolding lookup insert erase runtime_key add_limiter delete_limiter new_port_registry
    normalize_listen_addr wild4 wild6 specific_v4 listener_conflict normalized find_conflict
    first_conflict owners reserve tag_of drop_tag release listener_specs_for common_port
    payload_port protocol_transports specs_of specs_on Ports.commit common_security
    protocol_security needs_cert Reload.replace_alive Reload.valid Reload.swap_limiter
    Reload.restore_limiter Reload.add_some_users Reload.restore_server Reload.rollback Reload.commit
    change_limiter Reload.bring_up reload_node_config Traffic.reset Traffic.new_traffic_store
    tasks_start new_controller undo bring_up start_reserved start_pulled start close close_nodes
    close_core tear_down drop restore swap reload_process
program = tt

abbrev allowed : String → String → Bool
allowed key tag = not (key == tag)

-- The calls that the core has seen, the latest first; it refuses the nodes of a key.
abbrev core_refusing : String → VCore (List String)
core_refusing key = record {
  add_node = λ s tag n. ("add" ∷ s, allowed key tag);
  del_node = λ s tag. ("del" ∷ s, true);
  add_users = λ s tag n us. ("users" ∷ s, true);
  del_users = λ s tag us. (s, true);
  get_user_traffic_slice = λ s tag reset. (s, []);
  add_user_traffic_slice = λ s tag ts. (s, true);
}

abbrev node : NodeInfo
node = record {
  id = 1;
  node_type = "shadowsocks";
  push_interval = 60;
  pull_interval = 60;
  common = some (record {
    basic = none;
    protocol = "shadowsocks";
    vless = none;
    vmess = none;
    shadowsocks = some (record { port = 443; cipher = "aes-128-gcm"; server_key = "" });
    trojan = none;
    anytls = none;
    tuic = none;
    hysteria2 = none;
  });
}

abbrev config : LimitConfig
config = record {
  enable_realtime = true;
  speed_limit = 0;
  ip_limit = 0;
  conn_limit = 0;
  enable_dynamic_speed_limit = false;
  dynamic_speed_limit_config = none;
  max_report_failure_rollbacks = pos 0;
}

abbrev setup : Setup
setup = record {
  core_type = "xray";
  name = "";
  listen_ip = "";
  has_cert_config = false;
  limit_config = config;
  device_online_min_traffic = 0;
}

abbrev pulled : Pulled
pulled = record { node = node; users = []; alive = none }

abbrev nothing : Shared (List String) ℕ
nothing = record { server = []; limiters = []; ports = new_port_registry }

-- A node that the core refuses: the reservation and the limiter are gone again.
start_refused :
    start (core_refusing "xray|t") setup (some pulled) "t" true nothing
    ≡ (record nothing { server = "add" ∷ [] }, none)
unfolding program
start_refused = refl

tidy : IsTidy nothing
unfolding program
tidy = (new_port_registry-IsExclusive, λ k h. refl)

start-Undone_example :
    Undone
      (core_refusing "xray|t")
      nothing
      (start (core_refusing "xray|t") setup (some pulled) "t" true nothing)
start-Undone_example =
    start-Undone (core_refusing "xray|t") setup (some pulled) "t" true nothing tidy

abbrev limiter : Limiter ℕ
limiter = record {
  speed_limit = 0;
  user_online_ip = [];
  old_user_online = [];
  uuid_to_uid = [];
  user_limit_info = [];
  conn_limiter = record { realtime = true; ip_limit = 0; conn_limit = 0; count = []; ip = [] };
  speed_limiter = [];
  alive_list = [];
}

abbrev running : Controller (List String) ℕ
running = record {
  server = [];
  core_type = "xray";
  logical_tag = "t";
  runtime_key = "xray|t";
  limiter = limiter;
  traffic = none;
  report_failures = 0;
  user_list = [];
  alive_map = none;
  info = some node;
  limit_config = config;
  name = "";
  listen_ip = "";
  has_cert_config = false;
  device_online_min_traffic = 0;
}

abbrev after_reload : Reload.Reloaded (List String) ℕ
after_reload =
    reload_node_config (core_refusing "") running (("xray|t", limiter) ∷ []) "u" node [] none true

abbrev reserved : PortRegistry
reserved = record {
  listeners = [];
  logical_tags = ("t", "xray|t") ∷ [];
  runtime_keys = ("xray|t", tt) ∷ [];
}

abbrev with_reservation : Shared (List String) ℕ
with_reservation = record { server = []; limiters = []; ports = reserved }

new_key_free : lookup (runtime_key "xray" "u") reserved.runtime_keys ≡ none
unfolding program
new_key_free = refl

is_reloaded : after_reload ≡ (after_reload.0, after_reload.1, reloaded)
unfolding program
is_reloaded = refl

reload-close_keeps_ports_example :
    (close (core_refusing "") after_reload.0 with_reservation).0.ports ≡ reserved
reload-close_keeps_ports_example =
    reload-close_keeps_ports (core_refusing "") running (("xray|t", limiter) ∷ []) "u" node [] none
      true refl after_reload.0 after_reload.1 with_reservation new_key_free is_reloaded

-- The new nodes fail with a runner, and the old runtime is built again.
restores :
    reload_process {K = ℕ} {N = String}
      (some 1)
      (some "old")
      (some 2)
      (failed (some "new"))
      (some 3)
      (started "again")
    ≡ record {
      core = some 3;
      nodes = some "again";
      outcome = restored_old;
      events =
          core_built 2
          ∷ nodes_closed "old"
          ∷ core_closed 1
          ∷ nodes_built "new"
          ∷ nodes_closed "new"
          ∷ core_closed 2
          ∷ core_built 3
          ∷ nodes_built "again"
          ∷ [];
    }
unfolding program
restores = refl

abbrev core_one : Option ℕ
core_one = some 1

abbrev old_runner : Option String
old_runner = some "old"

reload_process-Balanced_example :
    Balanced 1 1
      (reload_process core_one old_runner (some 2) (failed (some "new")) (some 3) (started "again"))
reload_process-Balanced_example =
    reload_process-Balanced core_one old_runner (some 2) (failed (some "new")) (some 3)
      (started "again")
