-- ===== src/Tests/Reports.antt =====
-- Runs of the report task and of the dynamic speed limit, and the theorems applied to them.
use yunzes_node.Base.{
  ℕ, ◌+◌, ◌≡◌, refl, ◌⊎◌, String, true, false, not, none, some, [], ◌∷◌, leb, ◌==◌, if◌then◌else◌,
  lookup, insert, filter, any, string_eq, nat_eq, arith, Distinct, Map,
}
use yunzes_node.Base.Int.{pos}
use yunzes_node.Format.{user_tag}
use yunzes_node.Panel.{UserInfo, NodeInfo, CommonNode}
use yunzes_node.Conf.{LimitConfig, DynamicSpeedLimitConfig}
use yunzes_node.Counter
use yunzes_node.Counter.{TrafficCounter, rx-tx_counts}
use yunzes_node.Core.Interface.{VCore, total}
use yunzes_node.Core.Slices.{
  Traffics, uid_of, slice_of, drained, get_user_traffic_slice, reverse_map, credit_one, credit,
  add_user_traffic_slice, core_of,
}
use yunzes_node.Core.Slices.Credit.{held_in, held_at, core_conserves}
use yunzes_node.Limiter.State.{Limiter, UserLimitInfo}
use yunzes_node.Node.Traffic
use yunzes_node.Node.Traffic.{drain_lem, add-delete-reset_counts}
use yunzes_node.Node.Controller.{Controller}
use yunzes_node.Node.Report.{
  report_failure_cap, report_rollback_decision, split_user_traffic_by_threshold, report_threshold,
  feed_each, uid_to_uuid, feed_dynamic_traffic, roll_back, on_failure, on_success, push, split_for,
  read_slice, report_traffic,
}
use yunzes_node.Node.Report.NoLoss.{Drops, report_traffic-conserves}
use yunzes_node.Node.Report.Cores.{report_traffic-no_loss}
use yunzes_node.Node.Users.{user_key, compare_user_list, has_key, compare_user_list_lem}
use yunzes_node.Node.Dynamic.{speed_checker, slowed, expiry, when_found, speed_checker_lem}

program : Unit {0}
unfolding lookup insert uid_of slice_of drained get_user_traffic_slice reverse_map credit_one credit
    add_user_traffic_slice report_failure_cap report_rollback_decision
    split_user_traffic_by_threshold report_threshold feed_each uid_to_uuid feed_dynamic_traffic
    roll_back on_failure on_success push split_for read_slice report_traffic Traffic.add
    Traffic.count_in
program = tt

-- A core that accepts every node and every user.
abbrev base : VCore (Traffics × ℕ)
base = record {
  add_node = λ s tag n. (s, true);
  del_node = λ s tag. (s, true);
  add_users = λ s tag n us. (s, true);
  del_users = λ s tag us. (s, true);
  get_user_traffic_slice = λ s tag reset. (s, []);
  add_user_traffic_slice = λ s tag ts. (s, true);
}

abbrev counter : TrafficCounter
counter = ("a", record { up = 30; down = 70 }) ∷ ("b", record { up = 1; down = 4 }) ∷ []

abbrev traffics : Traffics
traffics = record { uid_map = ("a", 1) ∷ ("b", 2) ∷ []; counters = ("xray|t", counter) ∷ [] }

abbrev limits : UserLimitInfo
limits = record {
  uid = 1;
  speed_limit = 8;
  device_limit = 1;
  dynamic_speed_limit = 0;
  expire_time = 0;
  over_limit = false;
}

abbrev limiter : Limiter ℕ
limiter = record {
  speed_limit = 0;
  user_online_ip = [];
  old_user_online = [];
  uuid_to_uid = ("a", 1) ∷ [];
  user_limit_info = ("xray|t|a", limits) ∷ [];
  conn_limiter = record { realtime = true; ip_limit = 0; conn_limit = 0; count = []; ip = [] };
  speed_limiter = [];
  alive_list = [];
}

abbrev dynamic : DynamicSpeedLimitConfig
dynamic = record { periodic = 60; traffic = 50; speed_limit = 1; expire_time = 10 }

abbrev config : LimitConfig
config = record {
  enable_realtime = true;
  speed_limit = 0;
  ip_limit = 0;
  conn_limit = 0;
  enable_dynamic_speed_limit = true;
  dynamic_speed_limit_config = some dynamic;
  max_report_failure_rollbacks = pos 0;
}

abbrev common : CommonNode
common = record {
  basic =
      some (record { push_interval = none; pull_interval = none; traffic_report_threshold = 10 });
  protocol = "shadowsocks";
  vless = none;
  vmess = none;
  shadowsocks = none;
  trojan = none;
  anytls = none;
  tuic = none;
  hysteria2 = none;
}

abbrev node : NodeInfo
node = record {
  id = 1;
  node_type = "shadowsocks";
  push_interval = 60;
  pull_interval = 60;
  common = some common;
}

abbrev user_a : UserInfo
user_a = record { id = 1; uuid = "a"; speed_limit = 8; device_limit = 1 }

abbrev user_b : UserInfo
user_b = record { id = 2; uuid = "b"; speed_limit = 0; device_limit = 0 }

abbrev bytes_seen : Map String ℕ
bytes_seen = ("a", 60) ∷ ("b", 3) ∷ []

abbrev controller : Controller (Traffics × ℕ) ℕ
controller = record {
  server = (traffics, 0);
  core_type = "xray";
  logical_tag = "t";
  runtime_key = "xray|t";
  limiter = limiter;
  traffic = some bytes_seen;
  report_failures = 2;
  user_list = user_a ∷ user_b ∷ [];
  alive_map = none;
  info = some node;
  limit_config = config;
  name = "";
  listen_ip = "";
  has_cert_config = false;
  device_online_min_traffic = 1;
}

-- The entry at the threshold goes back to the core, the other one to the panel and the store.
reports : report_traffic (core_of base) controller true ≡ (
  record controller {
    server = (
      record traffics {
        counters =
            ("xray|t", ("a", record { up = 0; down = 0 }) ∷ ("b", record { up = 1; down = 4 }) ∷ [])
            ∷ [];
      },
      0,
    );
    report_failures = 0;
    traffic = some (("a", 160) ∷ ("b", 3) ∷ []);
  },
  record { uid = 1; upload = 30; download = 70 } ∷ [],
)
unfolding program
reports = refl

counted : lookup "xray|t" traffics.counters ≡ some counter
unfolding program
counted = refl

a_has_uid : lookup "a" traffics.uid_map ≡ some 1
unfolding program
a_has_uid = refl

b_has_uid : lookup "b" traffics.uid_map ≡ some 2
unfolding program
b_has_uid = refl

report_traffic-no_loss_example :
    let (c', sent) = report_traffic (core_of base) controller false in
    ((false ≡ false) × Drops controller)
    ⊎ (held_at base "xray|t" c'.server 1 + total 1 sent ≡ held_in traffics.uid_map 1 counter)
report_traffic-no_loss_example =
    report_traffic-no_loss base controller false 1 counter counted
      (((λ e. absurd (omega arith)), tt), (tt, tt)) ((1, a_has_uid), ((2, b_has_uid), tt))

covers : (core_conserves base "xray|t").IsReady controller.server
unfolding program
covers = (refl, (refl, tt))

report_traffic-conserves_example :
    let laws = core_conserves base "xray|t" in
    let (c', sent) = report_traffic (core_of base) controller true in
    ((true ≡ false) × Drops controller)
    ⊎ (laws.held c'.server 2 + total 2 sent ≡ laws.held controller.server 2)
report_traffic-conserves_example =
    report_traffic-conserves (core_of base) "xray|t" (core_conserves base "xray|t") controller true
      2 refl covers

bytes_seen-Distinct : Distinct bytes_seen
unfolding program
bytes_seen-Distinct = (refl, (refl, tt))

drain_lem_example :
    let (s, out) = Traffic.drain (some bytes_seen) 50 in
    (any (λ u. u == "a") out ≡ leb 50 (Traffic.get (some bytes_seen) "a"))
    × (Traffic.get s "a" ≡ (
        if leb 50 (Traffic.get (some bytes_seen) "a")
        then 0
        else Traffic.get (some bytes_seen) "a"))
drain_lem_example = drain_lem bytes_seen 50 "a" bytes_seen-Distinct (omega arith)

add-delete-reset_counts_example :
    let a : String = "a" in
    let b : String = "b" in
    (Traffic.get (Traffic.add (some bytes_seen) "b" 4) "a" ≡ (
      if b == a then Traffic.get (some bytes_seen) "a" + 4 else Traffic.get (some bytes_seen) "a"))
    × (Traffic.get (Traffic.delete (some bytes_seen) "b") "a"
        ≡ (if b == a then 0 else Traffic.get (some bytes_seen) "a"))
    × (Traffic.get (Traffic.reset (some bytes_seen)) "a" ≡ 0)
add-delete-reset_counts_example = add-delete-reset_counts bytes_seen "b" "a" 4

speed_checker_lem_example :
    let c' = speed_checker controller 0 in
    let over = leb 50 (Traffic.get (some bytes_seen) "a") in
    (lookup (user_tag "xray|t" "a") c'.limiter.user_limit_info ≡ (
      if over
      then when_found
          (slowed 1 (expiry 0 10))
          (lookup (user_tag "xray|t" "a") limiter.user_limit_info)
      else lookup (user_tag "xray|t" "a") limiter.user_limit_info))
    × (Traffic.get c'.traffic "a" ≡ (if over then 0 else Traffic.get (some bytes_seen) "a"))
speed_checker_lem_example =
    speed_checker_lem controller 0 dynamic bytes_seen "a" refl refl bytes_seen-Distinct
      (omega arith)

compare_user_list_lem_example :
    let (deleted, added) = compare_user_list user_key (user_a ∷ []) (user_b ∷ []) in
    (added ≡ filter (λ u. not (has_key user_key (user_key u) (user_a ∷ []))) (user_b ∷ []))
    × (has_key user_key "a|8|1" deleted ≡ (
        if has_key user_key "a|8|1" (user_b ∷ [])
        then false
        else has_key user_key "a|8|1" (user_a ∷ [])))
compare_user_list_lem_example =
    compare_user_list_lem user_key (user_a ∷ []) (user_b ∷ []) "a|8|1" (tt, tt)

rx-tx_counts_example :
    let a : String = "a" in
    let b : String = "b" in
    (Counter.get_down_count (Counter.rx counter "a" 5) "b" ≡ (
      if a == b
      then Counter.get_down_count counter "b" + 5
      else Counter.get_down_count counter "b"))
    × (Counter.get_up_count (Counter.rx counter "a" 5) "b" ≡ Counter.get_up_count counter "b")
    × (Counter.get_up_count (Counter.tx counter "a" 5) "b" ≡ (
        if a == b then Counter.get_up_count counter "b" + 5 else Counter.get_up_count counter "b"))
    × (Counter.get_down_count (Counter.tx counter "a" 5) "b" ≡ Counter.get_down_count counter "b")
rx-tx_counts_example = rx-tx_counts counter "a" "b" 5
