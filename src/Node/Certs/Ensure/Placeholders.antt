-- ===== src/Node/Certs/Ensure/Placeholders.antt =====
-- Paths with placeholders (writeCert of node/lego.go): the certificate is written under the path with
-- the placeholders replaced, and looked for under the path as configured.
use yunzes_node.Base.{
  ℕ, ◌≡◌, ◌≢◌, refl, ◌∙◌, inl, inr, false, not, Option, none, lookup, string_eq, ◌==◌, Bool-cases,
  Option-cases,
}
use yunzes_node.Node.Certs.{CertConfig, Certificate}
use yunzes_node.Node.Certs.Files.{Disk}
use yunzes_node.Node.Certs.Issue.{
  CertAction, no_action, issue, renew, reuse, reissue, Attempt, Writes, Host, failed, parse_params,
  write_cert, obtain_cert, renew_cert, renew_or_obtain, call_acme, new_lego, acquire,
}
use yunzes_node.Node.Certs.Issue.Torn.{AreApart, write_pair-keeps}
use yunzes_node.Node.Certs.Ensure.{parse_disk_cert, ensure_lifecycle}

module _ {X : Type 0} (parse : X → Option Certificate) (cfg : CertConfig) where
  -- The configured path is none of those that a write touches.
  pub record IsMissed (w : Writes X) : Type 0 where
    pub apart : AreApart w (parse_params cfg cfg.cert_file) (parse_params cfg cfg.key_file)
    pub other_cert : cfg.cert_file ≢ parse_params cfg cfg.cert_file
    pub other_key : cfg.cert_file ≢ parse_params cfg cfg.key_file
    pub other_cert_tmp : cfg.cert_file ≢ w.cert.tmp
    pub other_key_tmp : cfg.cert_file ≢ w.key.tmp

  IsAbsent : Disk X → Type 0
  IsAbsent d = lookup cfg.cert_file d ≡ none

  cert-IsAbsent :
      (w : Writes X) (x k : X) (d : Disk X)
      → IsMissed w
      → IsAbsent d
      → IsAbsent (write_cert cfg w (x, k) d).disk
  unfolding write_cert IsAbsent
  cert-IsAbsent w x k d i a =
      write_pair-keeps w _ _ x k d i.apart cfg.cert_file i.other_cert i.other_key i.other_cert_tmp
        i.other_key_tmp
      ∙ a

  module _ (t : Attempt X) (renewal : IsMissed t.renewal) (fresh : IsMissed t.fresh) where
    obtain-IsAbsent :
        (d : Disk X) → IsAbsent d → IsAbsent (obtain_cert cfg t.answers t.fresh d).disk
    unfolding obtain_cert failed IsAbsent
    obtain-IsAbsent d a = elim (Option-cases (t.answers.obtain cfg.cert_domain)) [
      | inl e ↦ rw (e, obtain_cert) a
      | inr ((x, k), e) ↦ rw (e, obtain_cert) (cert-IsAbsent t.fresh x k d fresh a)
    ]

    -- A renewal reads the file first, and there is none.
    call_acme-IsAbsent :
        (act : CertAction) (d : Disk X) → IsAbsent d → IsAbsent (call_acme cfg t act d).disk
    unfolding call_acme renew_or_obtain renew_cert IsAbsent failed
    call_acme-IsAbsent renew d a = rw (a, renew_cert) (obtain-IsAbsent d a)
    call_acme-IsAbsent no_action d a = obtain-IsAbsent d a
    call_acme-IsAbsent issue d a = obtain-IsAbsent d a
    call_acme-IsAbsent reuse d a = obtain-IsAbsent d a
    call_acme-IsAbsent reissue d a = obtain-IsAbsent d a

    acquire-IsAbsent :
        (act : CertAction) (h : Host X)
        → (cfg.cert_mode == "self") ≡ false
        → IsAbsent h.disk
        → IsAbsent (acquire cfg t act h).run.disk
    unfolding acquire failed
    acquire-IsAbsent act h mode a = elim (Bool-cases (not (new_lego cfg t.answers h.env).1)) [
      | inl f ↦ rw (mode, f) a
      | inr f ↦ rw (mode, f) (call_acme-IsAbsent act h.disk a)
    ]

    lifecycle-absent :
        (now : ℕ) (h : Host X)
        → lookup cfg.cert_file h.disk ≡ none
        → ensure_lifecycle parse now cfg t h ≡ acquire cfg t issue h
    unfolding ensure_lifecycle parse_disk_cert
    lifecycle-absent now h a = rw (a, ensure_lifecycle, parse_disk_cert) refl

    -- In the ACME modes, if the configured path of the certificate differs from both paths with
    -- their placeholders replaced, and from the temporary names, and there is no file under it, then
    -- a run of the lifecycle, whatever it obtains, asks for a new certificate, and there is no file
    -- under the configured path after it: the next run asks again.
    pub placeholder_issues_again :
        (now : ℕ) (h : Host X)
        → (cfg.cert_mode == "self") ≡ false
        → lookup cfg.cert_file h.disk ≡ none
        → (ensure_lifecycle parse now cfg t h ≡ acquire cfg t issue h)
          × (lookup cfg.cert_file (ensure_lifecycle parse now cfg t h).run.disk ≡ none)
    unfolding IsAbsent
    placeholder_issues_again now h mode a =
        let asked : ensure_lifecycle parse now cfg t h ≡ acquire cfg t issue h =
          lifecycle-absent now h a in
        (asked, rw asked (acquire-IsAbsent issue h mode a))
