-- ===== src/Node/Certs/Ensure.antt =====
-- EnsureCertificate, ensureLifecycle and ensureFileMode of node/cert_manager.go. `parse` is the PEM
-- and x509 decoder; a file that is there and cannot be read counts as one that does not decode. The
-- sharing of concurrent calls by singleflight is not modelled, and the log is not.
pub mod Decisions
pub mod Again
pub mod Placeholders
use yunzes_node.Base.{
  ℕ, String, Bool, true, false, not, ◌||◌, Option, none, some, ◌==◌, if◌then◌else◌, lookup,
  string_eq, Result, ok, err,
}
use yunzes_node.Node.Certs.{
  CertConfig, CertError, Certificate, Claims, nil_config, unsupported_mode, files_unset,
  domain_unset, not_found, unparseable, not_covered, claim_cert_files, cert_covers_domain,
  renew_before, until, has_expired, below,
}
use yunzes_node.Node.Certs.Files.{Disk}
use yunzes_node.Node.Certs.Issue.{
  CertAction, no_action, issue, renew, reuse, reissue, Attempt, Host, Acquired, failed, acquire,
}

pub data Parsed : Type 0 where
  absent : Parsed
  broken : Parsed
  parsed : Certificate → Parsed

pub record Ensured (X : Type 0) : Type 0 where
  pub claims : Claims
  pub host : Host X
  pub answer : Result CertError CertAction

module _ {X : Type 0} (parse : X → Option Certificate) where
  unfoldable pub parse_disk_cert : String → Disk X → Parsed
  parse_disk_cert p d = elim (lookup p d) [
    | none ↦ absent
    | some f ↦ elim (parse f.content) [ none ↦ broken | some c ↦ parsed c ]
  ]

  unfoldable pub file_exists : String → Disk X → Bool
  file_exists p d = elim (lookup p d) [ none ↦ false | some _ ↦ true ]

  unfoldable pub ensure_file_mode : CertConfig → Disk X → Result CertError CertAction
  ensure_file_mode cfg d =
      if cfg.cert_file == "" || cfg.key_file == ""
      then err files_unset
      else if not (file_exists cfg.cert_file d) || not (file_exists cfg.key_file d)
      then err not_found
      else elim (parse_disk_cert cfg.cert_file d) [
        | absent ↦ err unparseable
        | broken ↦ err unparseable
        | parsed c ↦
            if not (cert_covers_domain c cfg.cert_domain) then err not_covered else ok reuse
      ]

  -- No file is written, and none is asked for.
  unfoldable pub untouched : Host X → Result CertError CertAction → Acquired X
  untouched h answer = record { run = failed h.disk; env = h.env; answer = answer }

  unfoldable pub ensure_lifecycle : ℕ → CertConfig → Attempt X → Host X → Acquired X
  ensure_lifecycle now cfg t h = elim (parse_disk_cert cfg.cert_file h.disk) [
    | absent ↦ acquire cfg t issue h
    | broken ↦ acquire cfg t reissue h
    | parsed c ↦
        let remaining = until now c.not_after in
        if not (cert_covers_domain c cfg.cert_domain)
        then untouched h (err not_covered)
        else if has_expired remaining
        then acquire cfg t renew h
        else if below remaining (renew_before cfg)
        then acquire cfg t renew h
        else untouched h (ok reuse)
  ]

  unfoldable pub ensure_claimed : ℕ → CertConfig → Attempt X → Claims → Host X → Ensured X
  ensure_claimed now cfg t m h =
      let claimed = claim_cert_files m cfg.cert_file cfg.key_file cfg.cert_domain in
      let a = ensure_lifecycle now cfg t h in
      if cfg.cert_file == "" || cfg.key_file == ""
      then record { claims = m; host = h; answer = err files_unset }
      else if cfg.cert_domain == ""
      then record { claims = m; host = h; answer = err domain_unset }
      else elim claimed [
        | err e ↦ record { claims = m; host = h; answer = err e }
        | ok m' ↦ record {
          claims = m';
          host = record { disk = a.run.disk; env = a.env };
          answer = a.answer;
        }
      ]

  unfoldable pub ensure_certificate :
      ℕ → Option CertConfig → Attempt X → Claims → Host X → Ensured X
  ensure_certificate now none t m h = record { claims = m; host = h; answer = err nil_config }
  ensure_certificate now (some cfg) t m h =
      let mode = cfg.cert_mode in
      if mode == "" || mode == "none"
      then record { claims = m; host = h; answer = ok no_action }
      else if mode == "file"
      then record { claims = m; host = h; answer = ensure_file_mode cfg h.disk }
      else if mode == "self" || mode == "http" || mode == "dns"
      then ensure_claimed now cfg t m h
      else record { claims = m; host = h; answer = err (unsupported_mode mode) }
