-- ===== src/Node/Servers.antt =====
-- buildServerController of node/node.go: what a node is made of, from one protocol of the panel's list.
pub mod Building
use yunzes_node.Base.{
  ℕ, String, Bool, false, ◌||◌, Option, none, some, [], ◌==◌, if◌then◌else◌, string_eq, nat_eq,
  Result, ok, err,
}
use yunzes_node.Base.Int.{ℤ, pos}
use yunzes_node.Panel.{
  CommonNode, ProtocolConfig, TransportConfig, SecurityConfig, VlessNode, VmessNode, TrojanNode,
}
use yunzes_node.Node.Certs.{CertConfig}
use yunzes_node.Node.Certs.Resolve.{resolve_cert_config}

unfoldable pub default_core_for : String → String
default_core_for protocol =
    if protocol == "tuic"
      || protocol == "hysteria"
      || protocol == "hysteria2"
      || protocol == "anytls"
    then "sing"
    else if protocol == "vmess"
        || protocol == "vless"
        || protocol == "trojan"
        || protocol == "shadowsocks"
    then "xray"
    else ""

-- The fields of conf.Options that the start sets; the others are zero.
pub record Options : Type 0 where
  pub core : String
  pub listen_ip : String
  pub device_online_min_traffic : ℕ
  pub proxy_protocol : Option Bool
  pub cert_config : CertConfig

-- The node's own description is made, and only its type and id are used.
pub record Built : Type 0 where
  pub node_id : ℕ
  pub node_type : String
  pub push_interval : ℤ
  pub pull_interval : ℤ
  pub common : CommonNode
  pub options : Options

pub data BuildError : Type 0 where
  unknown_protocol : String → BuildError
  unsupported_node_type : String → BuildError
  unsupported_security : String → BuildError

abbrev no_security : SecurityConfig
no_security = record {
  sni = "";
  reality_server_address = "";
  reality_server_port = 0;
  reality_private_key = "";
  reality_short_id = "";
  reality_mldsa65seed = "";
}

abbrev sni_only : String → Option SecurityConfig
sni_only sni = some (record no_security { sni = sni })

-- The transport of a protocol that has no mode.
abbrev plain_transport : ProtocolConfig → TransportConfig
plain_transport p = record {
  path = p.path;
  host = p.host;
  service_name = p.service_name;
  mode = "";
  extra = "";
  disable_sni = false;
  reduce_rtt = false;
  udp_relay_mode = "";
  congestion_controller = "";
}

abbrev xhttp_transport : ProtocolConfig → TransportConfig
xhttp_transport p = record (plain_transport p) { mode = p.xhttp_mode; extra = p.xhttp_extra }

abbrev no_payload : String → CommonNode
no_payload protocol = record {
  basic = none;
  protocol = protocol;
  vless = none;
  vmess = none;
  shadowsocks = none;
  trojan = none;
  anytls = none;
  tuic = none;
  hysteria2 = none;
}

unfoldable pub vless_of : ProtocolConfig → VlessNode
vless_of p = record {
  port = p.port;
  flow = p.flow;
  network = p.transport;
  transport_config = some (xhttp_transport p);
  security = p.security;
  security_config = some (record {
    sni = p.sni;
    reality_server_address = p.reality_server_addr;
    reality_server_port = p.reality_server_port;
    reality_private_key = p.reality_private_key;
    reality_short_id = p.reality_short_id;
    reality_mldsa65seed = p.reality_mldsa65seed;
  });
}

unfoldable pub vmess_of : ProtocolConfig → VmessNode
vmess_of p = record {
  port = p.port;
  network = p.transport;
  transport_config = some (xhttp_transport p);
  security = p.security;
  security_config = sni_only p.sni;
}

unfoldable pub trojan_of : ProtocolConfig → TrojanNode
trojan_of p = record {
  port = p.port;
  network = p.transport;
  transport_config = some (plain_transport p);
  security = p.security;
  security_config = sni_only p.sni;
}

unfoldable pub payload_of : ProtocolConfig → Option CommonNode
payload_of p =
    let base = no_payload p.type in
    if p.type == "vless"
    then some (record base { vless = some (vless_of p) })
    else if p.type == "vmess"
    then some (record base { vmess = some (vmess_of p) })
    else if p.type == "trojan"
    then some (record base { trojan = some (trojan_of p) })
    else if p.type == "shadowsocks"
    then some (record base {
      shadowsocks = some (record { port = p.port; cipher = p.cipher; server_key = p.server_key });
    })
    else if p.type == "tuic"
    then some
        (record base { tuic = some (record { port = p.port; security_config = sni_only p.sni }) })
    else if p.type == "hysteria" || p.type == "hysteria2"
    then some (record base {
      hysteria2 = some (record {
        port = p.port;
        obfs_password = p.obfs_password;
        up_mbps = p.up_mbps;
        down_mbps = p.down_mbps;
        security_config = sni_only p.sni;
      });
    })
    else if p.type == "anytls"
    then some (record base {
      anytls = some (record {
        port = p.port;
        security_config = sni_only p.sni;
        padding_scheme = p.padding_scheme;
      });
    })
    else none

-- The options by the core, but for the certificate.
unfoldable pub core_options : ProtocolConfig → CertConfig → Option Options
core_options p cert =
    let core = default_core_for p.type in
    if core == "sing"
    then some (record {
      core = core;
      listen_ip = "::";
      device_online_min_traffic = 0;
      proxy_protocol = none;
      cert_config = cert;
    })
    else if core == "xray"
    then some (record {
      core = core;
      listen_ip = "0.0.0.0";
      device_online_min_traffic = 0;
      proxy_protocol = some p.enable_proxy_protocol;
      cert_config = cert;
    })
    else none

abbrev no_cert : CertConfig
no_cert = record {
  cert_mode = "none";
  reject_unknown_sni = false;
  cert_domain = "";
  cert_file = "";
  key_file = "";
  provider = "";
  email = "";
  dns_env = [];
  renew_before_days = pos 0;
}

unfoldable pub cert_for : ProtocolConfig → ℕ → Option CertConfig
cert_for p node_id =
    if p.security == "tls"
    then some (resolve_cert_config p p.type node_id)
    else if p.security == "reality" || p.security == "" || p.security == "none"
    then some no_cert
    else none

unfoldable pub build_server_controller : ℕ → ProtocolConfig → ℤ → ℤ → Result BuildError Built
build_server_controller server_id p push pull = elim (payload_of p) [
  | none ↦ err (unknown_protocol p.type)
  | some common ↦ elim (core_options p no_cert) [
    | none ↦ err (unsupported_node_type p.type)
    | some options ↦ elim (cert_for p server_id) [
      | none ↦ err (unsupported_security p.security)
      | some cert ↦ ok (record {
        node_id = server_id;
        node_type = p.type;
        push_interval = push;
        pull_interval = pull;
        common = common;
        options = record options { cert_config = cert };
      })
    ]
  ]
]
