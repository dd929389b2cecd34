-- ===== src/Tests/Certs.antt =====
-- Runs of the certificate manager on a small disk, and the theorems applied to them. The contents of a
-- file are a text; "new" decodes to a certificate.
use yunzes_node.Base.{
  ◌+◌, ◌*◌, ◌<◌, ◌≤◌, ◌≡◌, ◌≢◌, ◌↔◌, ◌⊎◌, refl, inl, inr, String, true, false, Option, none, some,
  [], ◌∷◌, ◌==◌, if◌then◌else◌, lookup, insert, erase, string_eq, ok, arith, eq_iff, subst,
  strip_prefix,
}
use yunzes_node.Base.Int.{pos}
use yunzes_node.Node.Certs.{
  CertConfig, Certificate, Claims, check_cert_owner, check_key_owner, claim_cert_files,
  cert_covers_domain, effective_renew_before_days, renew_before, until, has_expired, below, day,
}
use yunzes_node.Node.Certs.Owners.{Request, after, after_all, granted_claims_agree}
use yunzes_node.Node.Certs.Window.{days_before, is_due, is_due_iff}
use yunzes_node.Node.Certs.Files.{
  File, Calls, call, and_then, set_perm, flush, move, write_contents, fill_and_move, clean_up,
  write_file_atomic,
}
use yunzes_node.Node.Certs.Files.Atomic.{
  Passes, IsWhole, Untouched, IsReplaced, write_file_atomic_safe,
}
use yunzes_node.Node.Certs.Issue.{
  CertAction, reuse, Answers, Attempt, Writes, Host, replace, parse_params, failed, write_pair,
  self_signed_template, write_self_signed_cert, write_cert, set_provider, new_lego, obtain_cert,
  renew_cert, renew_or_obtain, call_acme, acquire,
}
use yunzes_node.Node.Certs.Issue.Torn.{AreApart}
use yunzes_node.Node.Certs.Ensure.{
  parsed, parse_disk_cert, file_exists, ensure_file_mode, untouched, ensure_lifecycle,
  ensure_claimed, ensure_certificate,
}
use yunzes_node.Node.Certs.Ensure.Decisions.{reuses_only_good, mismatch-Blocks}
use yunzes_node.Node.Certs.Ensure.Again.{Serves, IsSound, acquired_then_reused, torn_pair_is_reused}
use yunzes_node.Node.Certs.Ensure.Placeholders.{IsMissed, placeholder_issues_again}

program : Unit {0}
unfolding lookup insert erase strip_prefix check_cert_owner check_key_owner claim_cert_files
    cert_covers_domain effective_renew_before_days renew_before until has_expired below after
    after_all call and_then set_perm flush move write_contents fill_and_move clean_up
    write_file_atomic replace parse_params failed write_pair self_signed_template
    write_self_signed_cert write_cert set_provider new_lego obtain_cert renew_cert renew_or_obtain
    call_acme acquire parse_disk_cert file_exists ensure_file_mode untouched ensure_lifecycle
    ensure_claimed ensure_certificate
program = tt

abbrev cfg : CertConfig
cfg = record {
  cert_mode = "http";
  reject_unknown_sni = false;
  cert_domain = "a.org";
  cert_file = "/c.crt";
  key_file = "/c.key";
  provider = "";
  email = "";
  dns_env = [];
  renew_before_days = pos 0;
}

abbrev good : Certificate
good = record { dns_names = "a.org" ∷ []; common_name = ""; not_after = 90 * day }

abbrev parse : String → Option Certificate
parse s = if s == "new" then some good else none

abbrev calls : String → Calls String
calls tmp = record {
  tmp = tmp;
  nothing = "";
  partial = "ne";
  mkdir = true;
  create = true;
  write = true;
  sync = true;
  close = true;
  chmod = true;
  rename = true;
  remove = true;
}

abbrev answers : Answers String
answers = record {
  clock = 0;
  add_date = λ time years months days. time + years * (365 * day);
  self_signed = λ c. none;
  client = true;
  http_provider = true;
  dns_provider = λ p env. false;
  obtain = λ d. some ("new", "new key");
  renew = λ d old. none;
}

abbrev writes : Writes String
writes = record { cert = calls "/1.tmp"; key = calls "/2.tmp" }

abbrev attempt : Attempt String
attempt = record { answers = answers; renewal = writes; fresh = writes }

abbrev host : Host String
host = record { disk = []; env = [] }

-- The first call issues a certificate.
issued : (ensure_certificate parse 0 (some cfg) attempt [] host).answer ≡ ok CertAction.issue
unfolding program
issued = refl

distinct : (a b : String) → (a == b) ≡ false → a ≢ b
distinct a b h e = absurd (ground (arith, h, eq_iff a b, e))

Serves-new : Serves parse day cfg "new"
unfolding program
Serves-new = (good, refl, (refl, refl))

abbrev new_pair : Option (String × String)
new_pair = some ("new", "new key")

only_new : (x k : String) → new_pair ≡ some (x, k) → Serves parse day cfg x
only_new x k h =
    let same : "new" ≡ x = ground (arith, h) in subst (Serves parse day cfg) same Serves-new

writes_apart : AreApart writes "/c.crt" "/c.key"
unfolding program
writes_apart = record {
  paths = distinct _ _ refl;
  cert_tmp = distinct _ _ refl;
  key_tmp = distinct _ _ refl;
  cert_other = distinct _ _ refl;
  key_other = distinct _ _ refl;
}

sound : IsSound parse day cfg attempt
unfolding program
sound = record {
  same_cert = refl;
  same_key = refl;
  renewal_apart = writes_apart;
  fresh_apart = writes_apart;
  self_parsed = λ c x k h. absurd (ground (arith, h));
  year_days = λ time years. omega arith;
  self_in_time = λ h. absurd (distinct "http" "self" refl h);
  obtain_serves = only_new;
  renew_serves = λ old x k h. absurd (ground (arith, h));
}

acme_reused :
    let first = ensure_certificate parse 0 (some cfg) attempt [] host in
    let second = ensure_certificate parse day (some cfg) attempt first.claims first.host in
    (second.answer ≡ ok reuse) × (second.host ≡ first.host)
acme_reused =
    acquired_then_reused parse day cfg 0 attempt attempt [] host CertAction.issue (inr (inl refl))
      sound (λ h. absurd (ground (arith, h))) issued

-- The key cannot be written.
abbrev torn_writes : Writes String
torn_writes = record writes { key = record (calls "/2.tmp") { sync = false } }

torn_apart : AreApart torn_writes "/c.crt" "/c.key"
torn_apart = record {
  paths = distinct _ _ refl;
  cert_tmp = distinct _ _ refl;
  key_tmp = distinct _ _ refl;
  cert_other = distinct _ _ refl;
  key_other = distinct _ _ refl;
}

cert_written : (write_file_atomic torn_writes.cert "/c.crt" "new" 420 []).success ≡ true
unfolding program
cert_written = refl

key_not_written : (write_pair torn_writes "/c.crt" "/c.key" ("new", "new key") []).success ≡ false
unfolding program
key_not_written = refl

torn_pair_is_reused_example :
    let torn : Host String = record host {
      disk = (write_pair torn_writes "/c.crt" "/c.key" ("new", "new key") []).disk;
    } in
    let next = ensure_lifecycle parse day cfg attempt torn in
    (next.answer ≡ ok reuse)
    × (lookup "/c.crt" next.run.disk ≡ some (record { content = "new"; perm = 420; synced = true }))
    × (lookup "/c.key" next.run.disk ≡ lookup "/c.key" host.disk)
torn_pair_is_reused_example =
    torn_pair_is_reused parse day cfg torn_writes "new" "new key" attempt host torn_apart Serves-new
      cert_written key_not_written

-- A path with the domain as a placeholder.
abbrev with_placeholder : CertConfig
with_placeholder = record cfg { cert_file = "/{domain}.crt" }

replaced : parse_params with_placeholder "/{domain}.crt" ≡ "/a.org.crt"
unfolding program
replaced = refl

missed : IsMissed parse with_placeholder writes
unfolding program
missed = record {
  apart = record {
    paths = distinct _ _ refl;
    cert_tmp = distinct _ _ refl;
    key_tmp = distinct _ _ refl;
    cert_other = distinct _ _ refl;
    key_other = distinct _ _ refl;
  };
  other_cert = distinct _ _ refl;
  other_key = distinct _ _ refl;
  other_cert_tmp = distinct _ _ refl;
  other_key_tmp = distinct _ _ refl;
}

nothing_there : lookup with_placeholder.cert_file host.disk ≡ none
unfolding program
nothing_there = refl

placeholder_issues_again_example :
    (ensure_lifecycle parse day with_placeholder attempt host
      ≡ acquire with_placeholder attempt CertAction.issue host)
    × (lookup "/{domain}.crt" (ensure_lifecycle parse day with_placeholder attempt host).run.disk
        ≡ none)
placeholder_issues_again_example =
    placeholder_issues_again parse with_placeholder attempt missed missed day host refl
      nothing_there

-- The certificate on the disk is for another domain.
abbrev other_domain : CertConfig
other_domain = record cfg { cert_domain = "b.org" }

abbrev with_cert : Host String
with_cert = record {
  disk = ("/c.crt", record { content = "new"; perm = 420; synced = true }) ∷ [];
  env = [];
}

there_parsed : parse_disk_cert parse "/c.crt" with_cert.disk ≡ parsed good
unfolding program
there_parsed = refl

not_for_b : cert_covers_domain good "b.org" ≡ false
unfolding program
not_for_b = refl

mismatch-Blocks_example :
    ((ensure_certificate parse day (some other_domain) attempt [] with_cert).host ≡ with_cert)
    × ((act : CertAction)
        → act ≢ CertAction.no_action
        → (ensure_certificate parse day (some other_domain) attempt [] with_cert).answer ≢ ok act)
mismatch-Blocks_example =
    mismatch-Blocks parse day other_domain attempt [] with_cert good there_parsed not_for_b

reused_there : (ensure_certificate parse day (some cfg) attempt [] with_cert).answer ≡ ok reuse
unfolding program
reused_there = refl

reuses_only_good_example :
    ((ensure_certificate parse day (some cfg) attempt [] with_cert).host ≡ with_cert)
    × ((c : Certificate) × (parse_disk_cert parse "/c.crt" with_cert.disk ≡ parsed c)
        × (cert_covers_domain c "a.org" ≡ true)
        × ((cfg.cert_mode ≡ "file") ⊎ (is_due (until day c.not_after) cfg ≡ false)))
reuses_only_good_example = reuses_only_good parse day cfg attempt [] with_cert reused_there

-- The write of a key that fails when it is moved into place.
abbrev failing : Calls String
failing = record (calls "/1.tmp") { rename = false }

write_file_atomic_safe_example :
    let new : File String = record { content = "new key"; perm = 384; synced = true } in
    Passes
      (IsWhole with_cert.disk failing "/c.key" new)
      (Untouched with_cert.disk failing "/c.key" new)
      (IsReplaced with_cert.disk failing "/c.key" new)
      (write_file_atomic failing "/c.key" "new key" 384 with_cert.disk)
write_file_atomic_safe_example =
    write_file_atomic_safe failing "/c.key" "new key" 384 with_cert.disk (distinct _ _ refl)

thirty_days : days_before cfg.renew_before_days ≤ 106751
thirty_days = omega arith

is_due_iff_example :
    (is_due (until day (30 * day)) cfg ≡ true)
    ↔ (30 * day < day + days_before cfg.renew_before_days * day)
is_due_iff_example = is_due_iff cfg day (30 * day) thirty_days

abbrev one_owner : Claims
one_owner =
    ("/c.crt", record { domain = "a.org"; key_file = "/c.key" })
    ∷ ("/c.key", record { domain = "a.org"; key_file = "/c.key" })
    ∷ []

abbrev own : Request
own = record { cert_file = "/c.crt"; key_file = "/c.key"; domain = "a.org" }

abbrev foreign : Request
foreign = record { cert_file = "/d.crt"; key_file = "/c.key"; domain = "b.org" }

granted_first : claim_cert_files [] "/c.crt" "/c.key" "a.org" ≡ ok one_owner
unfolding program
granted_first = refl

granted_again :
    claim_cert_files (after_all one_owner (foreign ∷ [])) "/c.crt" "/c.key" "a.org" ≡ ok one_owner
unfolding program
granted_again = refl

granted_claims_agree_example : own.domain ≡ own.domain
granted_claims_agree_example =
    granted_claims_agree [] one_owner one_owner own (foreign ∷ []) own "/c.key" granted_first
      (inr refl) granted_again (inr refl)
