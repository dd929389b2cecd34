-- ===== src/Node/Report.antt =====
-- The report task of node/user.go, with the rollback policy of node/config_validation.go. Whether
-- the panel accepts a push is an input. The report of the machine's status is not modelled: it
-- depends on nothing here and changes nothing here.
pub mod NoLoss
pub mod Cores
use yunzes_node.Base.{
  ℕ, ◌+◌, ◌*◌, String, Bool, true, false, not, none, some, List, [], ◌∷◌, ◌++◌, ltb, ◌==◌,
  if◌then◌else◌, Map, lookup, insert, filter, any, nat_eq, string_eq,
}
use yunzes_node.Base.Int.{ℤ, pos, negsuc}
use yunzes_node.Panel.{UserInfo, UserTraffic, OnlineUser}
use yunzes_node.Core.Interface.{VCore, bytes}
use yunzes_node.Limiter.State.{get_online_device}
use yunzes_node.Node.Traffic
use yunzes_node.Node.Controller.{Controller}

abbrev pub default_report_failure_cap : ℕ
default_report_failure_cap = 5

-- -1 for a guard that is disabled.
unfoldable pub report_failure_cap : ℤ → ℤ
report_failure_cap (pos n) = if n == 0 then pos default_report_failure_cap else pos n
report_failure_cap (negsuc n) = negsuc 0

-- `true` to drop the traffic.
unfoldable pub report_rollback_decision : ℕ → ℤ → Bool
report_rollback_decision failures configured = elim (report_failure_cap configured) [
  | negsuc _ ↦ false
  | pos cap ↦ ltb cap failures
]

-- The entries above the threshold, and those at or below it.
unfoldable pub split_user_traffic_by_threshold :
    List UserTraffic → ℕ → List UserTraffic × List UserTraffic
split_user_traffic_by_threshold [] threshold = ([], [])
split_user_traffic_by_threshold (t ∷ ts) threshold =
    let (above, below) = split_user_traffic_by_threshold ts threshold in
    if ltb threshold (bytes t) then (t ∷ above, below) else (above, t ∷ below)

-- `for i := range c.userList { uidToUuid[c.userList[i].Id] = c.userList[i].Uuid }`
unfoldable pub uid_to_uuid : Map ℕ String → List UserInfo → Map ℕ String
uid_to_uuid m [] = m
uid_to_uuid m (u ∷ us) = uid_to_uuid (insert u.id u.uuid m) us

unfoldable pub feed_each :
    Map ℕ String → List UserTraffic → Traffic.TrafficStore → Traffic.TrafficStore
feed_each uuids [] s = s
feed_each uuids (t ∷ ts) s = elim (lookup t.uid uuids) [
  | none ↦ feed_each uuids ts s
  | some uuid ↦ feed_each uuids ts (Traffic.add s uuid (bytes t))
]

-- The uids of the entries below the threshold of the online report.
unfoldable pub nocount_uids : ℕ → List UserTraffic → List ℕ
nocount_uids least [] = []
nocount_uids least (t ∷ ts) =
    if ltb (bytes t) least then t.uid ∷ nocount_uids least ts else nocount_uids least ts

module _ {S B : Type 0} (core : VCore S) where
  -- 0 if the panel has not set one.
  unfoldable pub report_threshold : Controller S B → ℕ
  report_threshold c = elim c.info [
    | none ↦ 0
    | some i ↦ elim i.common [
      | none ↦ 0
      | some n ↦ elim n.basic [ none ↦ 0 | some b ↦ b.traffic_report_threshold ]
    ]
  ]

  unfoldable pub feed_dynamic_traffic : Controller S B → List UserTraffic → Controller S B
  feed_dynamic_traffic c ts = record c {
    traffic = feed_each (uid_to_uuid [] c.user_list) ts c.traffic;
  }

  -- A failed rollback is only logged.
  unfoldable pub roll_back : Controller S B → List UserTraffic → Controller S B
  roll_back c [] = c
  roll_back c (t ∷ ts) = record c {
    server = (core.add_user_traffic_slice c.server c.runtime_key (t ∷ ts)).0;
  }

  unfoldable pub on_failure : Controller S B → List UserTraffic → List UserTraffic → Controller S B
  on_failure c above skipped =
      let failures = c.report_failures + 1 in
      let c' : Controller S B = record c { report_failures = failures } in
      if report_rollback_decision failures c.limit_config.max_report_failure_rollbacks
      then c'
      else roll_back c' (above ++ skipped)

  unfoldable pub on_success : Controller S B → List UserTraffic → List UserTraffic → Controller S B
  on_success c above skipped =
      let c' : Controller S B = record c { report_failures = 0 } in
      if c.limit_config.enable_dynamic_speed_limit
      then roll_back (feed_dynamic_traffic c' above) skipped
      else roll_back c' skipped

  -- The controller, and the traffic that the panel has accepted.
  unfoldable pub push :
      Controller S B
      → List UserTraffic
      → List UserTraffic
      → Bool
      → Controller S B × List UserTraffic
  push c [] skipped reported = (roll_back c skipped, [])
  push c (t ∷ ts) skipped true = (on_success c (t ∷ ts) skipped, t ∷ ts)
  push c (t ∷ ts) skipped false = (on_failure c (t ∷ ts) skipped, [])

  unfoldable pub split_for : Controller S B → List UserTraffic → List UserTraffic × List UserTraffic
  split_for c slice =
      if ltb 0 (report_threshold c)
      then split_user_traffic_by_threshold slice (report_threshold c)
      else (slice, [])

  -- The controller with the slice read and reset, and the two parts of the slice.
  unfoldable pub read_slice : Controller S B → Controller S B × List UserTraffic × List UserTraffic
  read_slice c =
      let (s, slice) = core.get_user_traffic_slice c.server c.runtime_key true in
      let (above, skipped) = split_for c slice in (record c { server = s }, above, skipped)

  -- The traffic half of the task.
  unfoldable pub report_traffic : Controller S B → Bool → Controller S B × List UserTraffic
  report_traffic c reported =
      let (c', above, skipped) = read_slice c in push c' above skipped reported

  -- The online half: the users online since the last report that moved enough bytes, if there are
  -- users online at all.
  unfoldable pub report_online :
      Controller S B → List UserTraffic → List UserTraffic → ℕ → Controller S B × List OnlineUser
  report_online c above skipped now =
      let (l, online) = get_online_device c.limiter now in
      let least = c.device_online_min_traffic * 1000 in
      let nocount = nocount_uids least above ++ nocount_uids least skipped in
      (record c { limiter = l }, filter (λ o. not (any (λ uid. uid == o.uid) nocount)) online)

  -- The controller, the accepted traffic and the online users that are reported.
  unfoldable pub report_user_traffic_task :
      Controller S B → Bool → ℕ → Controller S B × List UserTraffic × List OnlineUser
  report_user_traffic_task c reported now =
      let (c', above, skipped) = read_slice c in
      let (c'', sent) = push c' above skipped reported in
      let (c''', online) = report_online c'' above skipped now in (c''', sent, online)
