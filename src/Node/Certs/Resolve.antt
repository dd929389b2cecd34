-- ===== src/Node/Certs/Resolve.antt =====
-- What the panel says about a certificate, made into its configuration: node/cert_resolve.go.
pub mod Env
pub mod Defaults
use yunzes_node.Base.{
  ℕ, String, false, ◌||◌, Option, none, some, List, [], ◌∷◌, ◌==◌, if◌then◌else◌, Map, insert,
  string_eq, ◌<>◌, cut, split, trim_space, itoa,
}
use yunzes_node.Base.Int.{pos}
use yunzes_node.Panel.{ProtocolConfig, CertProtocolConfig}
use yunzes_node.Node.Certs.{CertConfig}

-- The pair of one line, if there is one: a key that is not blank, `=` and a value.
unfoldable pub env_entry : String → Option (String × String)
env_entry line = elim (cut 61 (trim_space line)) [
  | none ↦ none
  | some (before, after) ↦
      let key = trim_space before in
      if before == "" || key == "" then none else some (key, trim_space after)
]

unfoldable pub read_lines : Map String String → List String → Map String String
read_lines m [] = m
read_lines m (line ∷ lines) = elim (env_entry line) [
  | none ↦ read_lines m lines
  | some (key, value) ↦ read_lines (insert key value m) lines
]

-- A map with no entries stands for Go's nil too.
unfoldable pub parse_flat_dns_env : String → Map String String
parse_flat_dns_env raw = if trim_space raw == "" then [] else read_lines [] (split 10 raw)

unfoldable pub default_panel_cert_file : String → ℕ → String
default_panel_cert_file node_type node_id =
    "/etc/yunzes-node/certs/" <> node_type <> itoa node_id <> ".crt"

unfoldable pub default_panel_cert_key : String → ℕ → String
default_panel_cert_key node_type node_id =
    "/etc/yunzes-node/certs/" <> node_type <> itoa node_id <> ".key"

abbrev or_default : String → String → String
or_default s default = if s == "" then default else s

unfoldable pub flat_cert_config : ProtocolConfig → String → ℕ → CertConfig
flat_cert_config p node_type node_id = record {
  cert_mode = or_default p.cert_mode "http";
  reject_unknown_sni = false;
  cert_domain = p.sni;
  cert_file = default_panel_cert_file node_type node_id;
  key_file = default_panel_cert_key node_type node_id;
  provider = p.cert_dns_provider;
  email = "";
  dns_env = parse_flat_dns_env p.cert_dns_env;
  renew_before_days = pos 0;
}

unfoldable pub nested_cert_config : CertProtocolConfig → ProtocolConfig → String → ℕ → CertConfig
nested_cert_config cc p node_type node_id = record {
  cert_mode = or_default cc.cert_mode "http";
  reject_unknown_sni = false;
  cert_domain = or_default cc.cert_domain p.sni;
  cert_file = or_default cc.cert_file (default_panel_cert_file node_type node_id);
  key_file = or_default cc.key_file (default_panel_cert_key node_type node_id);
  provider = cc.provider;
  email = cc.email;
  dns_env = cc.dns_env;
  renew_before_days = cc.renew_before_days;
}

unfoldable pub resolve_cert_config : ProtocolConfig → String → ℕ → CertConfig
resolve_cert_config p node_type node_id = elim p.cert_config [
  | none ↦ flat_cert_config p node_type node_id
  | some cc ↦ nested_cert_config cc p node_type node_id
]
