-- ===== src/Node/Controller.antt =====
-- The state of a Controller (node/controller.go), over a core state `S` and buckets `B`, and the
-- tests on a node's security. The four periodic tasks are not part of it: they run the operations
-- of the modules beside this one.
use yunzes_node.Base.{
  ℕ, String, Bool, Option, none, some, List, Map, ◌==◌, ◌||◌, string_eq, if◌then◌else◌,
}
use yunzes_node.Panel.{UserInfo, NodeInfo, CommonNode}
use yunzes_node.Conf.{LimitConfig}
use yunzes_node.Limiter.State.{Limiter}
use yunzes_node.Node.Traffic.{TrafficStore}

pub record Controller (S B : Type 0) : Type 0 where
  pub server : S
  pub core_type : String
  pub logical_tag : String
  pub runtime_key : String
  pub limiter : Limiter B
  pub traffic : TrafficStore
  pub report_failures : ℕ
  pub user_list : List UserInfo
  pub alive_map : Option (Map ℕ ℕ)
  pub info : Option NodeInfo
  pub limit_config : LimitConfig
  pub name : String
  pub listen_ip : String
  pub has_cert_config : Bool
  pub device_online_min_traffic : ℕ

unfoldable pub common_security : CommonNode → String
common_security c =
    if c.protocol == "vless"
    then elim c.vless [ none ↦ "" | some n ↦ n.security ]
    else if c.protocol == "vmess"
    then elim c.vmess [ none ↦ "" | some n ↦ n.security ]
    else if c.protocol == "trojan"
    then elim c.trojan [ none ↦ "" | some n ↦ n.security ]
    else if c.protocol == "tuic"
        || c.protocol == "hysteria"
        || c.protocol == "hysteria2"
        || c.protocol == "anytls"
    then "tls"
    else ""

-- A node without its common part, on which the code panics, reads as cleartext.
unfoldable pub protocol_security : NodeInfo → String
protocol_security n = elim n.common [ none ↦ "" | some c ↦ common_security c ]

unfoldable pub needs_cert : String → Bool
needs_cert security = security == "tls"
