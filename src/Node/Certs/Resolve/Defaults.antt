-- ===== src/Node/Certs/Resolve/Defaults.antt =====
-- resolveCertConfig of node/cert_resolve.go leaves nothing unset that a certificate needs.
use yunzes_node.Base.{
  ℕ, ◌≢◌, inl, inr, String, ◌==◌, string_eq, ◌<>◌, itoa, arith, eq_iff, Bool-cases, Option-cases,
}
use Prim.Native.String.append
use yunzes_node.Panel.{ProtocolConfig}
use yunzes_node.Node.Certs.{CertConfig}
use yunzes_node.Node.Certs.Resolve.{
  or_default, default_panel_cert_file, default_panel_cert_key, flat_cert_config, nested_cert_config,
  resolve_cert_config,
}

or_default-ne-empty : (s d : String) → d ≢ "" → or_default s d ≢ ""
or_default-ne-empty s d n = elim (Bool-cases (s == "")) [
  | inl e ↦ rw e n
  | inr e ↦ rw e (λ f. absurd (ground (arith, e, eq_iff s "", f)))
]

default_file-ne-empty : (t : String) (n : ℕ) → default_panel_cert_file t n ≢ ""
unfolding default_panel_cert_file
default_file-ne-empty t n h =
    let e = append.cons "/" "etc/yunzes-node/certs/" (t <> itoa n <> ".crt") in cc

default_key-ne-empty : (t : String) (n : ℕ) → default_panel_cert_key t n ≢ ""
unfolding default_panel_cert_key
default_key-ne-empty t n h =
    let e = append.cons "/" "etc/yunzes-node/certs/" (t <> itoa n <> ".key") in cc

-- The mode, the domain and the two paths are there.
pub record IsComplete (c : CertConfig) : Type 0 where
  pub has_mode : c.cert_mode ≢ ""
  pub has_domain : c.cert_domain ≢ ""
  pub has_cert_file : c.cert_file ≢ ""
  pub has_key_file : c.key_file ≢ ""

-- Whatever the panel leaves empty, if it names a server name then the configuration of the
-- certificate has a mode, a domain and two paths, so that no run of the certificate manager fails
-- for lack of one.
pub resolve_cert_config-IsComplete :
    (p : ProtocolConfig) (node_type : String) (node_id : ℕ)
    → p.sni ≢ ""
    → IsComplete (resolve_cert_config p node_type node_id)
unfolding resolve_cert_config flat_cert_config nested_cert_config
resolve_cert_config-IsComplete p t n h = elim (Option-cases p.cert_config) [
  | inl e ↦
      rw (e, resolve_cert_config)
        (record {
          has_mode = or_default-ne-empty p.cert_mode "http" (λ f. cc);
          has_domain = h;
          has_cert_file = default_file-ne-empty t n;
          has_key_file = default_key-ne-empty t n;
        })
  | inr (cc', e) ↦
      rw (e, resolve_cert_config)
        (record {
          has_mode = or_default-ne-empty cc'.cert_mode "http" (λ f. cc);
          has_domain = or_default-ne-empty cc'.cert_domain p.sni h;
          has_cert_file = or_default-ne-empty cc'.cert_file _ (default_file-ne-empty t n);
          has_key_file = or_default-ne-empty cc'.key_file _ (default_key-ne-empty t n);
        })
]
