-- ===== src/Node/Certs.antt =====
-- Certificates: the claims on files and the tests of node/cert_manager.go, and conf/cert.go. Times and
-- durations are in nanoseconds; a duration is an int64 with its wrap-around. The mutex of the claims
-- is not modelled: each call is one step.
pub mod Owners
pub mod Window
pub mod Files
pub mod Issue
pub mod Ensure
pub mod Resolve
use yunzes_node.Base.{
  ℕ, ◌-◌, ◌*◌, ◌^◌, String, Bool, true, false, not, Option, none, some, List, any, ◌==◌,
  if◌then◌else◌, ltb, leb, Map, lookup, insert, string_eq, Result, ok, err, ◌<>◌,
}
use yunzes_node.Base.Int.{ℤ, pos, negsuc, int64}

pub record CertConfig : Type 0 where
  pub cert_mode : String
  pub reject_unknown_sni : Bool
  pub cert_domain : String
  pub cert_file : String
  pub key_file : String
  pub provider : String
  pub email : String
  pub dns_env : Map String String
  pub renew_before_days : ℤ

-- What the code reads of a parsed certificate.
pub record Certificate : Type 0 where
  pub dns_names : List String
  pub common_name : String
  pub not_after : ℕ

pub record CertClaim : Type 0 where
  pub domain : String
  pub key_file : String

abbrev pub Claims : Type 0
Claims = Map String CertClaim

pub data CertError : Type 0 where
  nil_config : CertError
  unsupported_mode : String → CertError
  files_unset : CertError
  domain_unset : CertError
  cert_file_claimed : String → CertError
  cert_file_paired : String → CertError
  key_file_claimed : String → CertError
  not_found : CertError
  unparseable : CertError
  not_covered : CertError
  self_signed_failed : CertError
  lego_failed : CertError
  obtain_failed : CertError

unfoldable pub check_cert_owner : Claims → String → String → String → Option CertError
check_cert_owner m cert_file key_file domain = elim (lookup cert_file m) [
  | none ↦ none
  | some c ↦
      if not (c.domain == domain)
      then some (cert_file_claimed c.domain)
      else if not (c.key_file == key_file)
      then some (cert_file_paired c.key_file)
      else none
]

unfoldable pub check_key_owner : Claims → String → String → Option CertError
check_key_owner m key_file domain = elim (lookup key_file m) [
  | none ↦ none
  | some c ↦ if not (c.domain == domain) then some (key_file_claimed c.domain) else none
]

-- A claim that is refused leaves the table as it was.
unfoldable pub claim_cert_files : Claims → String → String → String → Result CertError Claims
claim_cert_files m cert_file key_file domain = elim (check_cert_owner m cert_file key_file domain) [
  | some e ↦ err e
  | none ↦ elim (check_key_owner m key_file domain) [
    | some e ↦ err e
    | none ↦
        let claim : CertClaim = record { domain = domain; key_file = key_file } in
        ok (insert key_file claim (insert cert_file claim m))
  ]
]

unfoldable pub cert_covers_domain : Certificate → String → Bool
cert_covers_domain c domain =
    if domain == ""
    then true
    else if any (λ n. n == domain) c.dns_names
    then true
    else c.common_name == domain

abbrev default_renew_before_days : ℕ
default_renew_before_days = 30

unfoldable pub effective_renew_before_days : CertConfig → ℕ
effective_renew_before_days c = elim c.renew_before_days [
  | pos d ↦ if ltb 0 d then d else default_renew_before_days
  | negsuc _ ↦ default_renew_before_days
]

abbrev pub day : ℕ
day = 86400000000000

unfoldable pub renew_before : CertConfig → ℤ
renew_before c = int64 (effective_renew_before_days c * day)

abbrev at_most : ℕ → ℕ → ℕ
at_most n limit = if ltb limit n then limit else n

-- time.Until, which stops at the bounds of a duration.
unfoldable pub until : ℕ → ℕ → ℤ
until now t =
    if leb now t
    then pos (at_most (t - now) (2 ^ 63 - 1))
    else negsuc (at_most (now - t - 1) (2 ^ 63 - 1))

unfoldable pub has_expired : ℤ → Bool
has_expired (pos n) = not (ltb 0 n)
has_expired (negsuc n) = true

unfoldable pub below : ℤ → ℤ → Bool
below (pos a) (pos b) = ltb a b
below (pos a) (negsuc b) = false
below (negsuc a) (pos b) = true
below (negsuc a) (negsuc b) = ltb b a

-- The key under which concurrent calls share one run.
unfoldable pub cert_task_key : CertConfig → String
cert_task_key c =
    c.cert_mode <> "\0" <> c.cert_domain <> "\0" <> c.cert_file <> "\0" <> c.key_file <> "\0"
    <> c.provider <> "\0" <> c.email
