-- ===== src/Node/Servers/Building.antt =====
-- buildServerController of node/node.go: which protocols it takes, and what it makes of them.
use yunzes_node.Base.{
  ℕ, ◌≡◌, ◌↔◌, ◌⊎◌, refl, inl, inr, String, Bool, true, false, ◌||◌, ◌&&◌, none, some, ◌==◌,
  string_eq, if◌then◌else◌, Result, ok, err, arith, Bool-cases, Option-cases,
}
use yunzes_node.Base.Int.{ℤ}
use yunzes_node.Panel.{ProtocolConfig}
use yunzes_node.Node.Certs.{CertConfig}
use yunzes_node.Node.Certs.Resolve.{resolve_cert_config}
use yunzes_node.Node.Servers.{
  default_core_for, payload_of, core_options, cert_for, no_cert, Options, Built, BuildError,
  build_server_controller,
}

abbrev pub is_protocol : String → Bool
is_protocol t =
    t == "vless"
    || t == "vmess"
    || t == "trojan"
    || t == "shadowsocks"
    || t == "tuic"
    || t == "hysteria"
    || t == "hysteria2"
    || t == "anytls"

abbrev pub is_security : String → Bool
is_security s = s == "tls" || s == "reality" || s == "" || s == "none"

abbrev pub is_ok : Result BuildError Built → Bool
is_ok (ok b) = true
is_ok (err e) = false

abbrev pub IsBuilt : ProtocolConfig → ℕ → Result BuildError Built → Type 0
IsBuilt p server_id (ok b) =
    ((b.options.core ≡ "sing") × (b.options.listen_ip ≡ "::")
      ⊎ (b.options.core ≡ "xray") × (b.options.listen_ip ≡ "0.0.0.0"))
    × (b.options.core ≡ default_core_for p.type)
    × (b.options.cert_config
        ≡ (if p.security == "tls" then resolve_cert_config p p.type server_id else no_cert))
IsBuilt p server_id (err e) = Unit

payload_iff : (p : ProtocolConfig) → (payload_of p ≡ none) ↔ (is_protocol p.type ≡ false)
unfolding payload_of
payload_iff p = ground arith

pub core_cases :
    (t : String)
    → is_protocol t ≡ true
    → (default_core_for t ≡ "sing") ⊎ (default_core_for t ≡ "xray")
unfolding default_core_for
core_cases t h = ground (arith, h)

no_core : (t : String) → is_protocol t ≡ false → default_core_for t ≡ ""
unfolding default_core_for
no_core t h = ground (arith, h)

core_options_total :
    (p : ProtocolConfig) (c : CertConfig)
    → is_protocol p.type ≡ true
    → (o : Options) × (core_options p c ≡ some o)
      × (o.core ≡ default_core_for p.type)
      × ((o.core ≡ "sing") × (o.listen_ip ≡ "::") ⊎ (o.core ≡ "xray") × (o.listen_ip ≡ "0.0.0.0"))
unfolding core_options
core_options_total p c h = elim (core_cases p.type h) [
  | inl e ↦ rw (e, core_options) (_, refl, refl, inl (refl, refl))
  | inr e ↦ rw (e, core_options) (_, refl, refl, inr (refl, refl))
]

cert_for_lem :
    (p : ProtocolConfig) (server_id : ℕ)
    → cert_for p server_id ≡ (
        if is_security p.security
        then some (if p.security == "tls" then resolve_cert_config p p.type server_id else no_cert)
        else none)
unfolding cert_for
cert_for_lem p server_id = ground arith

-- For every protocol and security that the panel may send: a controller is built exactly if both are
-- known ones; it is for sing on "::" or for xray on "0.0.0.0", by the protocol's default core, and
-- its certificate's configuration is the resolved one if the security is TLS, and mode "none" else.
pub build_server_controller_lem :
    (server_id : ℕ) (p : ProtocolConfig) (push pull : ℤ)
    → IsBuilt p server_id (build_server_controller server_id p push pull)
      × (is_ok (build_server_controller server_id p push pull)
          ≡ (is_protocol p.type && is_security p.security))
unfolding build_server_controller
build_server_controller_lem server_id p push pull = elim (Bool-cases (is_protocol p.type)) [
  | inr e ↦ rw ((payload_iff p).1 e, build_server_controller) (tt, ground (arith, e))
  | inl e ↦
      let (o, f, core, listen) = core_options_total p no_cert e in
      elim (Option-cases (payload_of p)) [
        | inl none_there ↦ absurd (ground (arith, (payload_iff p).0 none_there, e))
        | inr (common, g) ↦ elim (Bool-cases (is_security p.security)) [
          | inl k ↦
              rw (g, build_server_controller, f, cert_for_lem p server_id, k)
                ((listen, core, refl), ground (arith, e, k))
          | inr k ↦
              rw (g, build_server_controller, f, cert_for_lem p server_id, k)
                (tt, ground (arith, e, k))
        ]
      ]
]
