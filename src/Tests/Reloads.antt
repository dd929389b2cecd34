-- ===== src/Tests/Reloads.antt =====
-- Runs of a reload, and the theorems applied to them.
use yunzes_node.Base.{
  ℕ, ◌≡◌, refl, String, Bool, true, false, Option, none, some, List, [], ◌∷◌, lookup, insert, erase,
  trim_prefix, strip_prefix, not, ◌==◌, string_eq,
}
use yunzes_node.Base.Int.{pos}
use yunzes_node.Format.{user_tag, runtime_key}
use yunzes_node.Panel.{UserInfo, NodeInfo}
use yunzes_node.Conf.{LimitConfig}
use yunzes_node.Core.Interface.{VCore}
use yunzes_node.Limiter.Alive
use yunzes_node.Limiter.Conn.{
  conn_full, existing_ips, ip_full, bump_count, next_ips, store_ip_slot, new_slot, add_conn_count,
}
use yunzes_node.Limiter.State.{Limiter, UserLimitInfo}
use yunzes_node.Limiter.Registry.{Registry, add_limiter, delete_limiter, change_limiter}
use yunzes_node.Limiter.Check.{check_admitted, check_limit}
use yunzes_node.Node.Ports.{
  listener_specs_for, common_port, payload_port, protocol_transports, specs_of, specs_on,
}
use yunzes_node.Node.Traffic
use yunzes_node.Node.Controller.{Controller, common_security, protocol_security, needs_cert}
use yunzes_node.Node.Reload.{
  reloaded, replace_alive, valid, swap_limiter, restore_limiter, add_some_users, restore_server,
  rollback, commit, bring_up, reload_node_config,
}
use yunzes_node.Node.Reload.Outcomes.{Coherent, reload_node_config-Coherent}
use yunzes_node.Node.Reload.Answers.{Ends, reload_node_config-Ends}
use yunzes_node.Node.Users.{user_key, compare_user_list, old_map, scan, users_of}
use yunzes_node.Node.Monitor.{del_some_users, follow, change_users, update_users, node_info_monitor}
use yunzes_node.Node.Monitor.Retry.{node_info_monitor-Coherent}
use yunzes_node.Node.Reload.Pinned.{pinned_reload-rejects}

program : Unit {0}
unfolding lookup insert erase strip_prefix trim_prefix user_tag runtime_key conn_full existing_ips
    ip_full bump_count next_ips store_ip_slot new_slot add_conn_count add_limiter delete_limiter
    change_limiter check_admitted check_limit listener_specs_for common_port payload_port
    protocol_transports specs_of specs_on Traffic.reset common_security protocol_security needs_cert
    replace_alive valid swap_limiter restore_limiter add_some_users restore_server rollback commit
    bring_up reload_node_config Alive.replace
program = tt

abbrev allowed : String → String → Bool
allowed key tag = not (key == tag)

-- The calls that the core has seen, by their first letters, the latest first; it refuses the nodes of
-- a key.
abbrev core_refusing : String → VCore (List String)
core_refusing key = record {
  add_node = λ s tag n. ("add" ∷ s, allowed key tag);
  del_node = λ s tag. ("del" ∷ s, true);
  add_users = λ s tag n us. ("users" ∷ s, true);
  del_users = λ s tag us. (s, true);
  get_user_traffic_slice = λ s tag reset. (s, []);
  add_user_traffic_slice = λ s tag ts. (s, true);
}

abbrev node : NodeInfo
node = record {
  id = 1;
  node_type = "shadowsocks";
  push_interval = 60;
  pull_interval = 60;
  common = some (record {
    basic = none;
    protocol = "shadowsocks";
    vless = none;
    vmess = none;
    shadowsocks = some (record { port = 443; cipher = "aes-128-gcm"; server_key = "" });
    trojan = none;
    anytls = none;
    tuic = none;
    hysteria2 = none;
  });
}

abbrev config : LimitConfig
config = record {
  enable_realtime = true;
  speed_limit = 0;
  ip_limit = 0;
  conn_limit = 0;
  enable_dynamic_speed_limit = false;
  dynamic_speed_limit_config = none;
  max_report_failure_rollbacks = pos 0;
}

abbrev limiter : Limiter ℕ
limiter = record {
  speed_limit = 0;
  user_online_ip = [];
  old_user_online = [];
  uuid_to_uid = [];
  user_limit_info = [];
  conn_limiter = record { realtime = true; ip_limit = 0; conn_limit = 0; count = []; ip = [] };
  speed_limiter = [];
  alive_list = [];
}

abbrev user_a : UserInfo
user_a = record { id = 1; uuid = "a"; speed_limit = 8; device_limit = 1 }

abbrev pinned : Controller (List String) ℕ
pinned = record {
  server = [];
  core_type = "xray";
  logical_tag = "t";
  runtime_key = "xray|t";
  limiter = limiter;
  traffic = none;
  report_failures = 0;
  user_list = [];
  alive_map = none;
  info = some node;
  limit_config = config;
  name = "t";
  listen_ip = "";
  has_cert_config = false;
  device_online_min_traffic = 0;
}

abbrev unnamed : Controller (List String) ℕ
unnamed = record pinned { name = "" }

abbrev limiters : Registry ℕ
limiters = ("xray|t", limiter) ∷ []

abbrev with_user : Controller (List String) ℕ
with_user = record pinned { server = "users" ∷ "add" ∷ "del" ∷ []; user_list = user_a ∷ [] }

succeeds :
    reload_node_config (core_refusing "") pinned limiters "u" node (user_a ∷ []) none true
    ≡ (with_user, limiters, reloaded)
unfolding program
succeeds = refl

-- The new node is refused, and the old one is added again.
rolls_back :
    (reload_node_config
      (core_refusing "xray|u")
      unnamed
      limiters
      "u"
      node
      (user_a ∷ [])
      none
      true).0.server
    ≡ "add" ∷ "add" ∷ "del" ∷ []
unfolding program
rolls_back = refl

rejected_afterwards :
    check_limit (λ rate. rate) limiter (user_tag "xray|t" "a") "1.1.1.1" true true 0
    ≡ some (limiter, none, true)
unfolding program
rejected_afterwards = refl

not_on_record : ◌≡◌ {A = Option UserLimitInfo} (lookup (user_tag "xray|t" "a") []) none
unfolding program
not_on_record = refl

pinned_reload-rejects_example : ((user_a ∷ []) ≡ (user_a ∷ [])) × (true ≡ true)
pinned_reload-rejects_example =
    pinned_reload-rejects (core_refusing "") pinned limiters "u" node (user_a ∷ []) none true refl
      (λ rate. rate) with_user limiters "a" "1.1.1.1" true true true 0 limiter none not_on_record
      succeeds rejected_afterwards

unnamed-Coherent : Coherent unnamed limiters
unfolding program
unnamed-Coherent = (refl, refl)

reload_node_config-Coherent_example :
    let (d, r, o) =
      reload_node_config
        (core_refusing "xray|u")
        unnamed
        limiters
        "u"
        node
        (user_a ∷ [])
        none
        true in
    Coherent d r
reload_node_config-Coherent_example =
    reload_node_config-Coherent (core_refusing "xray|u") unnamed limiters "u" node (user_a ∷ [])
      none true unnamed-Coherent

-- The new node is refused: the answers of the core decide on a rollback.
reload_node_config-Ends_example :
    Ends (core_refusing "xray|u") unnamed limiters "u" node (user_a ∷ []) none true (
      reload_node_config (core_refusing "xray|u") unnamed limiters "u" node (user_a ∷ []) none true)
reload_node_config-Ends_example =
    reload_node_config-Ends (core_refusing "xray|u") unnamed limiters "u" node (user_a ∷ []) none
      true

pulls_a_user :
    (update_users (core_refusing "") user_key unnamed limiters (user_a ∷ [])).0.server
    ≡ "users" ∷ []
unfolding update_users compare_user_list old_map scan users_of change_users del_some_users
    add_some_users follow lookup
pulls_a_user = refl

node_info_monitor-Coherent_example :
    let (d, r) =
      node_info_monitor
        (core_refusing "")
        user_key
        unnamed
        limiters
        "u"
        true
        (some none)
        (some (user_a ∷ []))
        (some none) in
    Coherent d r
node_info_monitor-Coherent_example =
    node_info_monitor-Coherent (core_refusing "") user_key unnamed limiters "u" true (some none)
      (some (user_a ∷ [])) (some none) unnamed-Coherent
