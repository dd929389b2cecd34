-- ===== src/Tests/Starts.antt =====
-- Runs of the start of a node from the panel's answer, and the theorems applied to them.
use yunzes_node.Base.{
  ℕ, ◌+◌, ◌≤◌, ◌≡◌, ◌≢◌, refl, String, true, false, Option, none, some, List, [], ◌∷◌, ◌==◌, Map,
  lookup, insert, fill, string_eq, arith, cut, split, trim_left, trim_right, trim_space, eq_iff,
}
use yunzes_node.Base.Int.{pos}
use yunzes_node.Panel.{BasicConfig, AnyNumber, ProtocolConfig, NodeInfo}
use yunzes_node.Core.Interface.{VCore}
use yunzes_node.Node.Ports.{new_port_registry}
use yunzes_node.Node.Ports.Exclusive.{new_port_registry-IsExclusive}
use yunzes_node.Node.Lifecycle.{Shared}
use yunzes_node.Node.Lifecycle.Undo.{IsTidy}
use yunzes_node.Node.Certs.Resolve.{env_entry, read_lines, parse_flat_dns_env}
use yunzes_node.Node.Certs.Resolve.Env.{IsPlain, render, parse_flat_dns_env-render}
use yunzes_node.Node.Startup.{Answered, start_nodes}
use yunzes_node.Node.Intervals.{above_zero, resolve_intervals}
use yunzes_node.Node.Servers.{build_server_controller}
use yunzes_node.Node.Intervals.Bounds.{IsInterval, resolve_intervals-IsInterval}
use yunzes_node.Node.Servers.Building.{IsBuilt, is_ok, build_server_controller_lem}
use yunzes_node.Node.Startup.Rollback.{Reversible, start_nodes-Reversible}

program : Unit {0}
unfolding lookup insert fill cut split trim_left trim_right trim_space env_entry read_lines
    parse_flat_dns_env above_zero
program = tt

abbrev vmess : ProtocolConfig
vmess = record {
  type = "vmess";
  port = 443;
  security = "tls";
  sni = "a.org";
  reality_server_addr = "";
  reality_server_port = 0;
  reality_private_key = "";
  reality_short_id = "";
  reality_mldsa65seed = "";
  transport = "tcp";
  host = "";
  path = "";
  service_name = "";
  xhttp_mode = "";
  xhttp_extra = "";
  cipher = "";
  server_key = "";
  flow = "";
  obfs_password = "";
  padding_scheme = "";
  up_mbps = 0;
  down_mbps = 0;
  enable_proxy_protocol = false;
  cert_mode = "dns";
  cert_dns_provider = "p";
  cert_dns_env = "";
  cert_config = none;
}

-- A core that takes every node.
abbrev willing : VCore ℕ
willing = record {
  add_node = λ s tag n. (s + 1, true);
  del_node = λ s tag. (s, true);
  add_users = λ s tag n us. (s, true);
  del_users = λ s tag us. (s, true);
  get_user_traffic_slice = λ s tag reset. (s, []);
  add_user_traffic_slice = λ s tag ts. (s, true);
}

abbrev nothing : Shared ℕ ℕ
nothing = record { server = 0; limiters = []; ports = new_port_registry }

abbrev node : NodeInfo
node = record {
  id = 1;
  node_type = "shadowsocks";
  push_interval = 60;
  pull_interval = 60;
  common = some (record {
    basic = none;
    protocol = "shadowsocks";
    vless = none;
    vmess = none;
    shadowsocks = some (record { port = 443; cipher = "aes-128-gcm"; server_key = "" });
    trojan = none;
    anytls = none;
    tuic = none;
    hysteria2 = none;
  });
}

abbrev answered : String → Answered
answered tag = record {
  protocol = record vmess { type = "shadowsocks"; security = "none" };
  pulled = some (record { node = node; users = []; alive = none });
  built_tag = tag;
  cert_ok = true;
}

-- The second node wants the port of the first.
abbrev both : Option (List Answered × Option BasicConfig)
both = some (answered "t" ∷ answered "u" ∷ [], none)

tidy : IsTidy nothing
unfolding lookup new_port_registry
tidy = (new_port_registry-IsExclusive, λ k h. refl)

start_nodes-Reversible_example : Reversible willing nothing (start_nodes willing [] 1 both nothing)
start_nodes-Reversible_example = start_nodes-Reversible willing [] 1 both nothing tidy

build_server_controller_lem_example :
    IsBuilt vmess 1 (build_server_controller 1 vmess (pos 30) (pos 15))
    × (is_ok (build_server_controller 1 vmess (pos 30) (pos 15)) ≡ true)
build_server_controller_lem_example = build_server_controller_lem 1 vmess (pos 30) (pos 15)

abbrev basic : BasicConfig
basic = record {
  push_interval = some (AnyNumber.float64 true 60);
  pull_interval = none;
  traffic_report_threshold = 0;
}

sixty : (n : ℕ) → above_zero (AnyNumber.float64 true 60) ≡ some n → (1 ≤ n) × (n ≤ 9223372036)
unfolding program
sixty n h = ground (arith, h)

resolve_intervals-IsInterval_example :
    let (push, pull) = resolve_intervals (some basic) in IsInterval push × IsInterval pull
resolve_intervals-IsInterval_example = resolve_intervals-IsInterval basic sixty tt

abbrev pairs : Map String String
pairs = ("TOKEN", "a=b") ∷ ("KEY", "c") ∷ []

ne_empty : (a : String) → (a == "") ≡ false → a ≢ ""
ne_empty a h e = absurd (ground (arith, h, eq_iff a "", e))

token-IsPlain : IsPlain ("TOKEN", "a=b")
unfolding program
token-IsPlain = record {
  has_key = ne_empty _ refl;
  trimmed = ((refl, refl), (refl, refl));
  no_separator = (refl, (refl, (refl, (refl, (refl, tt)))));
  one_line = ((refl, (refl, (refl, (refl, (refl, tt))))), (refl, (refl, (refl, tt))));
}

key-IsPlain : IsPlain ("KEY", "c")
unfolding program
key-IsPlain = record {
  has_key = ne_empty _ refl;
  trimmed = ((refl, refl), (refl, refl));
  no_separator = (refl, (refl, (refl, tt)));
  one_line = ((refl, (refl, (refl, tt))), (refl, tt));
}

parse_flat_dns_env-render_example : parse_flat_dns_env (render pairs) ≡ fill [] pairs
parse_flat_dns_env-render_example =
    parse_flat_dns_env-render pairs (token-IsPlain, (key-IsPlain, tt))

-- Blank lines and lines with no key are skipped.
skips : parse_flat_dns_env "A=1\n\n =2\n B = x=y \n" ≡ ("A", "1") ∷ ("B", "x=y") ∷ []
unfolding program
skips = refl
