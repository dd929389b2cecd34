-- ===== src/Node/Ports.antt =====
-- The listener registry of node/port_registry.go. Its lock is not modelled: each operation is one
-- step.
pub mod Exclusive
pub mod Release
use yunzes_node.Base.{
  ℕ, ◌%◌, ◌^◌, String, Bool, true, false, not, ◌&&◌, ◌||◌, Option, none, some, List, [], ◌∷◌, ◌++◌,
  filter, ◌==◌, if◌then◌else◌, Map, lookup, insert, erase, string_eq, nat_eq, Result, ok, err,
}
use yunzes_node.Panel.{NodeInfo, CommonNode}

pub record ListenerSpec : Type 0 where
  pub addr : String
  pub port : ℕ
  pub transport : String

pub record ListenerOwner : Type 0 where
  pub spec : ListenerSpec
  pub runtime_key : String
  pub logical_tag : String

pub record PortRegistry : Type 0 where
  pub listeners : List ListenerOwner
  pub logical_tags : Map String String
  pub runtime_keys : Map String (Unit {0})

unfoldable pub new_port_registry : PortRegistry
new_port_registry = record { listeners = []; logical_tags = []; runtime_keys = [] }

pub data ReserveError : Type 0 where
  duplicate_runtime_key : String → ReserveError
  duplicate_logical_tag : String → String → ReserveError
  listener_conflicts : ListenerSpec → ListenerOwner → ReserveError

unfoldable pub normalize_listen_addr : String → String
normalize_listen_addr addr = if addr == "" then "0.0.0.0" else addr

unfoldable pub wild4 : String → Bool
wild4 s = s == "0.0.0.0"

unfoldable pub wild6 : String → Bool
wild6 s = s == "::"

unfoldable pub specific_v4 : String → Bool
specific_v4 s = not (wild4 s) && not (wild6 s)

unfoldable pub listener_conflict : ListenerSpec → ListenerSpec → Bool
listener_conflict a b =
    if not (a.transport == b.transport) || not (a.port == b.port)
    then false
    else if a.addr == b.addr
    then true
    else if (wild4 a.addr && specific_v4 b.addr) || (specific_v4 a.addr && wild4 b.addr)
    then true
    else if (wild4 a.addr && wild6 b.addr) || (wild6 a.addr && wild4 b.addr)
    then true
    else false

unfoldable pub normalized : ListenerSpec → ListenerSpec
normalized s = record s { addr = normalize_listen_addr s.addr }

-- The first listener that a specification conflicts with.
unfoldable pub find_conflict : ListenerSpec → List ListenerOwner → Option ListenerOwner
find_conflict s [] = none
find_conflict s (e ∷ es) = if listener_conflict s e.spec then some e else find_conflict s es

unfoldable pub first_conflict :
    List ListenerSpec → List ListenerOwner → Option (ListenerSpec × ListenerOwner)
first_conflict [] es = none
first_conflict (s ∷ ss) es =
    let rest = first_conflict ss es in
    elim (find_conflict (normalized s) es) [ some e ↦ some (normalized s, e) | none ↦ rest ]

unfoldable pub owners : String → String → List ListenerSpec → List ListenerOwner
owners rk tag [] = []
owners rk tag (s ∷ ss) =
    record { spec = normalized s; runtime_key = rk; logical_tag = tag } ∷ owners rk tag ss

unfoldable pub commit : PortRegistry → String → String → List ListenerSpec → PortRegistry
commit r rk tag specs = record {
  listeners = r.listeners ++ owners rk tag specs;
  logical_tags = insert tag rk r.logical_tags;
  runtime_keys = insert rk tt r.runtime_keys;
}

-- A failed reservation leaves the registry as it was.
unfoldable pub reserve :
    PortRegistry → String → String → List ListenerSpec → Result ReserveError PortRegistry
reserve r rk tag specs = elim (lookup rk r.runtime_keys) [
  | some _ ↦ err (duplicate_runtime_key rk)
  | none ↦ elim (lookup tag r.logical_tags) [
    | some owner ↦ err (duplicate_logical_tag tag owner)
    | none ↦ elim (first_conflict specs r.listeners) [
      | some (s, e) ↦ err (listener_conflicts s e)
      | none ↦ ok (commit r rk tag specs)
    ]
  ]
]

-- The first logical tag of a runtime key, in the order of the map.
unfoldable pub tag_of : String → Map String String → Option String
tag_of rk [] = none
tag_of rk ((tag, owner) ∷ m) = if owner == rk then some tag else tag_of rk m

unfoldable pub drop_tag : String → Map String String → Map String String
drop_tag rk m = elim (tag_of rk m) [ none ↦ m | some tag ↦ erase tag m ]

unfoldable pub release : PortRegistry → String → PortRegistry
release r rk = elim (lookup rk r.runtime_keys) [
  | none ↦ r
  | some _ ↦ record {
    listeners = filter (λ e. not (e.runtime_key == rk)) r.listeners;
    logical_tags = drop_tag rk r.logical_tags;
    runtime_keys = erase rk r.runtime_keys;
  }
]

unfoldable pub protocol_transports : String → List String
protocol_transports proto =
    if proto == "shadowsocks"
    then "tcp" ∷ "udp" ∷ []
    else if proto == "hysteria" || proto == "hysteria2" || proto == "tuic"
    then "udp" ∷ []
    else if proto == "vless" || proto == "vmess" || proto == "trojan" || proto == "anytls"
    then "tcp" ∷ []
    else []

pub data PortError : Type 0 where
  no_common : PortError
  missing_payload : String → PortError
  unsupported_protocol : String → PortError
  no_transport : String → PortError

-- `uint16(port)` of a payload, if there is one.
unfoldable pub payload_port : String → Option ℕ → Result PortError ℕ
payload_port proto none = err (missing_payload proto)
payload_port proto (some port) = ok (port % 2 ^ 16)

abbrev port_of {ℓ} : {A : Type ℓ} → (A → ℕ) → Option A → Option ℕ
port_of f none = none
port_of f (some a) = some (f a)

unfoldable pub common_port : CommonNode → Result PortError ℕ
common_port c =
    if c.protocol == "vless"
    then payload_port "vless" (port_of (λ n. n.port) c.vless)
    else if c.protocol == "vmess"
    then payload_port "vmess" (port_of (λ n. n.port) c.vmess)
    else if c.protocol == "trojan"
    then payload_port "trojan" (port_of (λ n. n.port) c.trojan)
    else if c.protocol == "shadowsocks"
    then payload_port "shadowsocks" (port_of (λ n. n.port) c.shadowsocks)
    else if c.protocol == "tuic"
    then payload_port "tuic" (port_of (λ n. n.port) c.tuic)
    else if c.protocol == "hysteria" || c.protocol == "hysteria2"
    then payload_port "hysteria2" (port_of (λ n. n.port) c.hysteria2)
    else if c.protocol == "anytls"
    then payload_port "anytls" (port_of (λ n. n.port) c.anytls)
    else err (unsupported_protocol c.protocol)

unfoldable pub protocol_port : NodeInfo → Result PortError ℕ
protocol_port n = elim n.common [ none ↦ err no_common | some c ↦ common_port c ]

unfoldable pub specs_on : String → ℕ → List String → List ListenerSpec
specs_on addr port [] = []
specs_on addr port (t ∷ ts) =
    record { addr = addr; port = port; transport = t } ∷ specs_on addr port ts

unfoldable pub specs_of : String → String → ℕ → List String → Result PortError (List ListenerSpec)
specs_of proto addr port [] = err (no_transport proto)
specs_of proto addr port (t ∷ ts) = ok (specs_on addr port (t ∷ ts))

unfoldable pub listener_specs_for : NodeInfo → String → Result PortError (List ListenerSpec)
listener_specs_for n listen_ip = elim n.common [
  | none ↦ err no_common
  | some c ↦ elim (common_port c) [
    | err e ↦ err e
    | ok port ↦ specs_of c.protocol listen_ip port (protocol_transports c.protocol)
  ]
]
