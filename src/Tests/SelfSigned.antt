-- ===== src/Tests/SelfSigned.antt =====
-- Runs of the certificate manager in self mode, on a disk whose files are certificates, and the theorem
-- applied to them.
use yunzes_node.Base.{
  ◌+◌, ◌*◌, String, true, false, Option, none, some, [], lookup, insert, erase, string_eq,
  strip_prefix,
}
use yunzes_node.Base.Int.{pos}
use yunzes_node.Node.Certs.{
  CertConfig, Certificate, check_cert_owner, check_key_owner, claim_cert_files, cert_covers_domain,
  effective_renew_before_days, renew_before, until, has_expired, below, day,
}
use yunzes_node.Node.Certs.Files.{
  Calls, call, and_then, set_perm, flush, move, write_contents, fill_and_move, clean_up,
  write_file_atomic,
}
use yunzes_node.Node.Certs.Issue.{
  Answers, Attempt, Writes, Host, replace, parse_params, failed, write_pair, self_signed_template,
  write_self_signed_cert, write_cert, set_provider, new_lego, obtain_cert, renew_cert,
  renew_or_obtain, call_acme, acquire,
}
use yunzes_node.Node.Certs.Ensure.{
  parse_disk_cert, file_exists, ensure_file_mode, untouched, ensure_lifecycle, ensure_claimed,
  ensure_certificate,
}

program : Unit {0}
unfolding lookup insert erase strip_prefix check_cert_owner check_key_owner claim_cert_files
    cert_covers_domain effective_renew_before_days renew_before until has_expired below call
    and_then set_perm flush move write_contents fill_and_move clean_up write_file_atomic replace
    parse_params failed write_pair self_signed_template write_self_signed_cert write_cert
    set_provider new_lego obtain_cert renew_cert renew_or_obtain call_acme acquire parse_disk_cert
    file_exists ensure_file_mode untouched ensure_lifecycle ensure_claimed ensure_certificate
program = tt

abbrev self_cfg : CertConfig
self_cfg = record {
  cert_mode = "self";
  reject_unknown_sni = false;
  cert_domain = "a.org";
  cert_file = "/c.crt";
  key_file = "/c.key";
  provider = "";
  email = "";
  dns_env = [];
  renew_before_days = pos 0;
}

abbrev blank : Certificate
blank = record { dns_names = []; common_name = ""; not_after = 0 }

abbrev self_calls : String → Calls Certificate
self_calls tmp = record {
  tmp = tmp;
  nothing = blank;
  partial = blank;
  mkdir = true;
  create = true;
  write = true;
  sync = true;
  close = true;
  chmod = true;
  rename = true;
  remove = true;
}

abbrev self_answers : Answers Certificate
self_answers = record {
  clock = 7;
  add_date = λ time years months days. time + years * (365 * day);
  self_signed = λ c. some (c, blank);
  client = false;
  http_provider = false;
  dns_provider = λ p env. false;
  obtain = λ d. none;
  renew = λ d old. none;
}

abbrev self_writes : Writes Certificate
self_writes = record { cert = self_calls "/1.tmp"; key = self_calls "/2.tmp" }

abbrev self_attempt : Attempt Certificate
self_attempt = record { answers = self_answers; renewal = self_writes; fresh = self_writes }

abbrev self_host : Host Certificate
self_host = record { disk = []; env = [] }

abbrev read_back : Certificate → Option Certificate
read_back c = some c
