-- ===== src/Panel.antt =====
-- The messages of api/panel/user.go and api/panel/node.go. Numbers that the code keeps as `any`
-- stand in their decoded forms; durations are in seconds.
pub mod Client
use yunzes_node.Base.{ℕ, String, Bool, Option, Map}
use yunzes_node.Base.Int.{ℤ}

pub record UserInfo : Type 0 where
  pub id : ℕ
  pub uuid : String
  pub speed_limit : ℕ
  pub device_limit : ℕ

pub record OnlineUser : Type 0 where
  pub uid : ℕ
  pub ip : String

pub record UserTraffic : Type 0 where
  pub uid : ℕ
  pub upload : ℕ
  pub download : ℕ

-- A value of the types that a field of type `any` can hold; of a float, whether it is above zero,
-- and its whole part.
pub data AnyNumber : Type 0 where
  int : ℤ → AnyNumber
  int64 : ℤ → AnyNumber
  float64 : Bool → ℕ → AnyNumber
  string : String → AnyNumber
  other : AnyNumber

pub record BasicConfig : Type 0 where
  pub push_interval : Option AnyNumber
  pub pull_interval : Option AnyNumber
  pub traffic_report_threshold : ℕ

pub record SecurityConfig : Type 0 where
  pub sni : String
  pub reality_server_address : String
  pub reality_server_port : ℕ
  pub reality_private_key : String
  pub reality_short_id : String
  pub reality_mldsa65seed : String

pub record TransportConfig : Type 0 where
  pub path : String
  pub host : String
  pub service_name : String
  pub mode : String
  pub extra : String
  pub disable_sni : Bool
  pub reduce_rtt : Bool
  pub udp_relay_mode : String
  pub congestion_controller : String

pub record VlessNode : Type 0 where
  pub port : ℕ
  pub flow : String
  pub network : String
  pub transport_config : Option TransportConfig
  pub security : String
  pub security_config : Option SecurityConfig

pub record VmessNode : Type 0 where
  pub port : ℕ
  pub network : String
  pub transport_config : Option TransportConfig
  pub security : String
  pub security_config : Option SecurityConfig

pub record ShadowsocksNode : Type 0 where
  pub port : ℕ
  pub cipher : String
  pub server_key : String

pub record TrojanNode : Type 0 where
  pub port : ℕ
  pub network : String
  pub transport_config : Option TransportConfig
  pub security : String
  pub security_config : Option SecurityConfig

pub record AnyTlsNode : Type 0 where
  pub port : ℕ
  pub security_config : Option SecurityConfig
  pub padding_scheme : String

pub record TuicNode : Type 0 where
  pub port : ℕ
  pub security_config : Option SecurityConfig

pub record Hysteria2Node : Type 0 where
  pub port : ℕ
  pub obfs_password : String
  pub up_mbps : ℕ
  pub down_mbps : ℕ
  pub security_config : Option SecurityConfig

pub record CommonNode : Type 0 where
  pub basic : Option BasicConfig
  pub protocol : String
  pub vless : Option VlessNode
  pub vmess : Option VmessNode
  pub shadowsocks : Option ShadowsocksNode
  pub trojan : Option TrojanNode
  pub anytls : Option AnyTlsNode
  pub tuic : Option TuicNode
  pub hysteria2 : Option Hysteria2Node

pub record NodeInfo : Type 0 where
  pub id : ℕ
  pub node_type : String
  pub push_interval : ℕ
  pub pull_interval : ℕ
  pub common : Option CommonNode

pub record CertProtocolConfig : Type 0 where
  pub cert_mode : String
  pub cert_domain : String
  pub cert_file : String
  pub key_file : String
  pub provider : String
  pub email : String
  pub dns_env : Map String String
  pub renew_before_days : ℤ

pub record ProtocolConfig : Type 0 where
  pub type : String
  pub port : ℕ
  pub security : String
  pub sni : String
  pub reality_server_addr : String
  pub reality_server_port : ℕ
  pub reality_private_key : String
  pub reality_short_id : String
  pub reality_mldsa65seed : String
  pub transport : String
  pub host : String
  pub path : String
  pub service_name : String
  pub xhttp_mode : String
  pub xhttp_extra : String
  pub cipher : String
  pub server_key : String
  pub flow : String
  pub obfs_password : String
  pub padding_scheme : String
  pub up_mbps : ℕ
  pub down_mbps : ℕ
  pub enable_proxy_protocol : Bool
  pub cert_mode : String
  pub cert_dns_provider : String
  pub cert_dns_env : String
  pub cert_config : Option CertProtocolConfig
