-- ===== src/Node/Certs/Issue.antt =====
-- How a certificate is obtained: SetProvider, Obtain, Renew and writeCert of node/lego.go,
-- writeSelfSignedCert of node/cert.go, and acquire of node/cert_manager.go. The ACME client, the
-- account of NewLegoUser, the making of keys and x509 are inputs. The mutex that keeps ACME calls
-- apart is not modelled: each call is one step.
pub mod Torn
use yunzes_node.Base.{
  ℕ, zero, suc, String, Bool, true, false, not, Option, none, some, [], ◌∷◌, ◌==◌, if◌then◌else◌,
  Map, lookup, fill, string_eq, Result, ok, err, ◌<>◌, strip_prefix,
}
use Prim.Native.String
use yunzes_node.Node.Certs.{
  CertConfig, Certificate, CertError, self_signed_failed, lego_failed, obtain_failed,
}
use yunzes_node.Node.Certs.Files.{Disk, Calls, Run, and_then, write_file_atomic}

pub data CertAction : Type 0 where
  no_action : CertAction
  issue : CertAction
  renew : CertAction
  reuse : CertAction
  reissue : CertAction

-- What the libraries answer during one call. A pair is a certificate and its key. `clock` is what
-- time.Now answers when a certificate is made, `add_date` is time.Time.AddDate of a time and years,
-- months and days, and `self_signed` the certificate that x509 makes of a template with a new key,
-- both encoded.
pub record Answers (X : Type 0) : Type 0 where
  pub clock : ℕ
  pub add_date : ℕ → ℕ → ℕ → ℕ → ℕ
  pub self_signed : Certificate → Option (X × X)
  pub client : Bool
  pub http_provider : Bool
  pub dns_provider : String → Map String String → Bool
  pub obtain : String → Option (X × X)
  pub renew : String → X → Option (X × X)

-- How the calls of the two writes of a pair end.
pub record Writes (X : Type 0) : Type 0 where
  pub cert : Calls X
  pub key : Calls X

pub record Attempt (X : Type 0) : Type 0 where
  pub answers : Answers X
  pub renewal : Writes X
  pub fresh : Writes X

-- What the rest of the process sees: the files and the environment.
pub record Host (X : Type 0) : Type 0 where
  pub disk : Disk X
  pub env : Map String String

pub record Acquired (X : Type 0) : Type 0 where
  pub run : Run X
  pub env : Map String String
  pub answer : Result CertError CertAction

-- strings.NewReplacer with the two placeholders; the number counts the characters left of a
-- placeholder that has been replaced.
unfoldable pub replace : String → String → ℕ → String → String
replace domain email skip String.[] = String.[]
replace domain email (suc skip) (String.◌∷◌ c s) = replace domain email skip s
replace domain email zero (String.◌∷◌ c s) =
    let of_domain = domain <> replace domain email 7 s in
    let of_email = email <> replace domain email 6 s in
    let kept = String.◌∷◌ c (replace domain email zero s) in
    elim (strip_prefix "{domain}" (String.◌∷◌ c s)) [
      | some _ ↦ of_domain
      | none ↦ elim (strip_prefix "{email}" (String.◌∷◌ c s)) [ some _ ↦ of_email | none ↦ kept ]
    ]

unfoldable pub parse_params : CertConfig → String → String
parse_params cfg p = replace cfg.cert_domain cfg.email 0 p

abbrev answer_for : Bool → CertError → CertAction → Result CertError CertAction
answer_for success e action = if success then ok action else err e

module _ {X : Type 0} where
  unfoldable pub failed : Disk X → Run X
  failed d = record { trail = []; disk = d; success = false }

  -- The certificate first, with mode 0644, then the key, with mode 0600.
  unfoldable pub write_pair : Writes X → String → String → X × X → Disk X → Run X
  write_pair w cert_path key_path (cert, key) d =
      and_then (write_file_atomic w.cert cert_path cert 420 d)
        (write_file_atomic w.key key_path key 384)

  -- The fields of the template that the code reads again: CommonName, DNSNames and NotAfter.
  unfoldable pub self_signed_template : Answers X → String → Certificate
  self_signed_template a domain = record {
    dns_names = domain ∷ [];
    common_name = domain;
    not_after = a.add_date a.clock 30 0 0;
  }

  unfoldable pub write_self_signed_cert :
      Answers X → Writes X → String → String → String → Disk X → Run X
  write_self_signed_cert a w domain cert_path key_path d =
      elim (a.self_signed (self_signed_template a domain)) [
        | none ↦ failed d
        | some pair ↦ write_pair w cert_path key_path pair d
      ]

  unfoldable pub write_cert : CertConfig → Writes X → X × X → Disk X → Run X
  write_cert cfg w res d =
      write_pair w (parse_params cfg cfg.cert_file) (parse_params cfg cfg.key_file) res d

  unfoldable pub set_provider :
      CertConfig → Answers X → Map String String → Map String String × Bool
  set_provider cfg a env =
      if cfg.cert_mode == "http"
      then (env, a.http_provider)
      else if cfg.cert_mode == "dns"
      then (let env' = fill env cfg.dns_env in (env', a.dns_provider cfg.provider env'))
      else (env, true)

  unfoldable pub new_lego : CertConfig → Answers X → Map String String → Map String String × Bool
  new_lego cfg a env = if a.client then set_provider cfg a env else (env, false)

  unfoldable pub obtain_cert : CertConfig → Answers X → Writes X → Disk X → Run X
  obtain_cert cfg a w d = elim (a.obtain cfg.cert_domain) [
    | none ↦ failed d
    | some res ↦ write_cert cfg w res d
  ]

  unfoldable pub renew_cert : CertConfig → Answers X → Writes X → Disk X → Run X
  renew_cert cfg a w d = elim (lookup cfg.cert_file d) [
    | none ↦ failed d
    | some f ↦ elim (a.renew cfg.cert_domain f.content) [
      | none ↦ failed d
      | some res ↦ write_cert cfg w res d
    ]
  ]

  -- A renewal that fails falls back to a fresh certificate, on the disk that it left.
  unfoldable pub renew_or_obtain : CertConfig → Attempt X → Disk X → Run X
  renew_or_obtain cfg t d =
      let r = renew_cert cfg t.answers t.renewal d in
      if r.success then r else obtain_cert cfg t.answers t.fresh r.disk

  unfoldable pub call_acme : CertConfig → Attempt X → CertAction → Disk X → Run X
  call_acme cfg t renew d = renew_or_obtain cfg t d
  call_acme cfg t _ d = obtain_cert cfg t.answers t.fresh d

  unfoldable pub acquire : CertConfig → Attempt X → CertAction → Host X → Acquired X
  acquire cfg t action h =
      let own =
        write_self_signed_cert t.answers t.fresh cfg.cert_domain cfg.cert_file cfg.key_file
          h.disk in
      let (env, ready) = new_lego cfg t.answers h.env in
      let acme = call_acme cfg t action h.disk in
      if cfg.cert_mode == "self"
      then record {
        run = own;
        env = h.env;
        answer = answer_for own.success self_signed_failed action;
      }
      else if not ready
      then record { run = failed h.disk; env = env; answer = err lego_failed }
      else record { run = acme; env = env; answer = answer_for acme.success obtain_failed action }
