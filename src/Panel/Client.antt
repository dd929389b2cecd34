-- ===== src/Panel/Client.antt =====
-- The client of api/panel: GetNodeInfo of node.go, with checkResponse of utils.go. The HTTP client
-- and the JSON decoders are outside packages: a reply and what a text decodes to are inputs, and so
-- is SHA-256. Of the intervals only is modelled whether intervalToTime can read them, not the durations.
pub mod News
use yunzes_node.Base.{
  ℕ, String, Bool, true, false, not, ◌||◌, ◌&&◌, Option, none, some, ◌==◌, leb, nat_eq, string_eq,
  if◌then◌else◌,
}
use mathlib.Core.Option
use yunzes_node.Panel.{
  AnyNumber, BasicConfig, CommonNode, VlessNode, VmessNode, ShadowsocksNode, TrojanNode, AnyTlsNode,
  TuicNode, Hysteria2Node,
}

pub record Client : Type 0 where
  pub node_etag : String
  pub response_body_hash : String

-- `failed` is the error of the request; without a response the status is 0 and the texts are empty.
pub record Reply : Type 0 where
  pub failed : Bool
  pub status : ℕ
  pub body : String
  pub etag : String

-- A node before its config is decoded.
pub record Envelope : Type 0 where
  pub basic : Option BasicConfig
  pub protocol : String
  pub config : String

-- json.Unmarshal into the types of a node; `none` is an error.
pub record Decoders : Type 0 where
  pub envelope : String → Option Envelope
  pub vless : String → Option VlessNode
  pub vmess : String → Option VmessNode
  pub shadowsocks : String → Option ShadowsocksNode
  pub trojan : String → Option TrojanNode
  pub anytls : String → Option AnyTlsNode
  pub tuic : String → Option TuicNode
  pub hysteria2 : String → Option Hysteria2Node

-- `unchanged` is the answer without a node and without an error. A node is here what it has beside the
-- id and the type, which are the client's, and the intervals.
pub data Answer : Type 0 where
  unchanged : Answer
  node : CommonNode → Answer
  failure : Answer
  panic : Answer

unfoldable pub check_response : Reply → Bool
check_response r = not r.failed && not (leb 400 r.status)

-- The reflection of nil, and the integer of a value that is none, panic.
unfoldable pub is_readable : Option AnyNumber → Bool
is_readable none = false
is_readable (some AnyNumber.other) = false
is_readable (some _) = true

unfoldable pub has_intervals : Option BasicConfig → Bool
has_intervals none = false
has_intervals (some b) = is_readable b.push_interval && is_readable b.pull_interval

unfoldable pub decode_config : Decoders → Envelope → Option CommonNode
decode_config d e =
    let base : CommonNode = record {
      basic = e.basic;
      protocol = e.protocol;
      vless = none;
      vmess = none;
      shadowsocks = none;
      trojan = none;
      anytls = none;
      tuic = none;
      hysteria2 = none;
    } in
    if e.protocol == "vless"
    then Option.map (λ n. record base { vless = some n }) (d.vless e.config)
    else if e.protocol == "vmess"
    then Option.map (λ n. record base { vmess = some n }) (d.vmess e.config)
    else if e.protocol == "trojan"
    then Option.map (λ n. record base { trojan = some n }) (d.trojan e.config)
    else if e.protocol == "shadowsocks"
    then Option.map (λ n. record base { shadowsocks = some n }) (d.shadowsocks e.config)
    else if e.protocol == "tuic"
    then Option.map (λ n. record base { tuic = some n }) (d.tuic e.config)
    else if e.protocol == "hysteria" || e.protocol == "hysteria2"
    then Option.map (λ n. record base { hysteria2 = some n }) (d.hysteria2 e.config)
    else if e.protocol == "anytls"
    then Option.map (λ n. record base { anytls = some n }) (d.anytls e.config)
    else none

unfoldable pub read_node : Decoders → Reply → Answer
read_node d r =
    if check_response r
    then elim (d.envelope r.body) [
      | none ↦ failure
      | some e ↦
          if has_intervals e.basic
          then elim (decode_config d e) [ none ↦ failure | some n ↦ node n ]
          else panic
    ]
    else failure

-- The hash and the tag are stored before the reply is looked at.
unfoldable pub get_node_info : (String → String) → Decoders → Client → Reply → Client × Answer
get_node_info hash d c r =
    if r.status == 304 || c.response_body_hash == hash r.body
    then (c, unchanged)
    else (record c { response_body_hash = hash r.body; node_etag = r.etag }, read_node d r)
