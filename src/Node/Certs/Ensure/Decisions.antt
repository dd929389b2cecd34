-- ===== src/Node/Certs/Ensure/Decisions.antt =====
-- When EnsureCertificate of node/cert_manager.go leaves a certificate alone, and when it must.
use yunzes_node.Base.{
  ℕ, ◌≡◌, ◌≢◌, ◌⊎◌, refl, inl, inr, true, false, not, ◌||◌, Option, some, ok, err, string_eq, ◌==◌,
  if◌then◌else◌, arith, Bool-cases, Result-cases, eq_iff,
}
use yunzes_node.Node.Certs.{
  CertConfig, Certificate, CertError, Claims, not_covered, files_unset, domain_unset,
  unsupported_mode, cert_covers_domain, until, has_expired, below, renew_before, claim_cert_files,
}
use yunzes_node.Node.Certs.Window.{is_due}
use yunzes_node.Node.Certs.Files.{Disk}
use yunzes_node.Node.Certs.Issue.{
  CertAction, no_action, issue, renew, reuse, reissue, Attempt, Host, Acquired, failed, acquire,
}
use yunzes_node.Node.Certs.Ensure.{
  Parsed, parsed, absent, broken, Ensured, parse_disk_cert, ensure_file_mode, ensure_lifecycle,
  ensure_claimed, ensure_certificate, untouched,
}

pub Parsed-cases :
    (p : Parsed) → ((p ≡ absent) ⊎ (p ≡ broken)) ⊎ ((c : Certificate) × (p ≡ parsed c))
Parsed-cases absent = inl (inl refl)
Parsed-cases broken = inl (inr refl)
Parsed-cases (parsed c) = inr (c, refl)

-- The certificate serves the configured domain and is not due for a renewal.
abbrev pub IsGood : CertConfig → ℕ → Certificate → Type 0
IsGood cfg now c =
    (cert_covers_domain c cfg.cert_domain ≡ true) × (is_due (until now c.not_after) cfg ≡ false)

module _ {X : Type 0} (parse : X → Option Certificate) (now : ℕ) where
  module _ (cfg : CertConfig) (t : Attempt X) (h : Host X) where
    acquire-ne-reuse : (act : CertAction) → act ≢ reuse → (acquire cfg t act h).answer ≢ ok reuse
    unfolding acquire
    acquire-ne-reuse act n e = ground (arith, n, e)

    pub lifecycle-parsed :
        (c : Certificate)
        → parse_disk_cert parse cfg.cert_file h.disk ≡ parsed c
        → IsGood cfg now c
        → ensure_lifecycle parse now cfg t h ≡ untouched parse h (ok reuse)
    unfolding ensure_lifecycle
    lifecycle-parsed c e (covers, early) = ground (arith, e, covers, early)

    -- What follows a certificate that was parsed.
    IsGood-if_reused :
        (c : Certificate)
        → (if not (cert_covers_domain c cfg.cert_domain)
            then untouched parse h (err not_covered)
            else if has_expired (until now c.not_after)
            then acquire cfg t renew h
            else if below (until now c.not_after) (renew_before cfg)
            then acquire cfg t renew h
            else untouched parse h (ok reuse)).answer
          ≡ ok reuse
        → IsGood cfg now c
    unfolding untouched failed
    IsGood-if_reused c r =
        let not_renewed = acquire-ne-reuse renew (λ f. absurd (ground arith)) in
        elim (Bool-cases (cert_covers_domain c cfg.cert_domain)) [
          | inr f ↦ absurd (ground (arith, rw f at r))
          | inl f ↦ elim (Bool-cases (has_expired (until now c.not_after))) [
            | inl g ↦ absurd (not_renewed (rw (f, g) at r))
            | inr g ↦ elim (Bool-cases (below (until now c.not_after) (renew_before cfg))) [
              | inl k ↦ absurd (not_renewed (rw (f, g, k) at r))
              | inr k ↦ (f, rw (g, k) refl)
            ]
          ]
        ]

    lifecycle_reuse :
        (ensure_lifecycle parse now cfg t h).answer ≡ ok reuse
        → (c : Certificate) × (parse_disk_cert parse cfg.cert_file h.disk ≡ parsed c)
          × IsGood cfg now c
    unfolding ensure_lifecycle
    lifecycle_reuse r = elim (Parsed-cases (parse_disk_cert parse cfg.cert_file h.disk)) [
      | inl (inl e) ↦
          absurd
            (acquire-ne-reuse issue (λ f. absurd (ground arith)) (rw (e, ensure_lifecycle) at r))
      | inl (inr e) ↦
          absurd
            (acquire-ne-reuse reissue (λ f. absurd (ground arith)) (rw (e, ensure_lifecycle) at r))
      | inr (c, e) ↦ (c, e, IsGood-if_reused c (rw (e, ensure_lifecycle) at r))
    ]

    -- A run of the lifecycle acquires a certificate, refuses, or keeps a good one.
    pub lifecycle-elim :
        (P : Acquired X → Type 0)
        → ((act : CertAction) → P (acquire cfg t act h))
        → P (untouched parse h (err not_covered))
        → ((c : Certificate)
            → parse_disk_cert parse cfg.cert_file h.disk ≡ parsed c
            → IsGood cfg now c
            → P (untouched parse h (ok reuse)))
        → P (ensure_lifecycle parse now cfg t h)
    unfolding ensure_lifecycle
    lifecycle-elim P acquired refused kept =
        elim (Parsed-cases (parse_disk_cert parse cfg.cert_file h.disk)) [
          | inl (inl e) ↦ rw (e, ensure_lifecycle) (acquired issue)
          | inl (inr e) ↦ rw (e, ensure_lifecycle) (acquired reissue)
          | inr (c, e) ↦
              rw (e, ensure_lifecycle)
                (elim (Bool-cases (cert_covers_domain c cfg.cert_domain)) [
                  | inr f ↦ rw f refused
                  | inl f ↦ rw f (elim (Bool-cases (has_expired (until now c.not_after))) [
                    | inl g ↦ rw g (acquired renew)
                    | inr g ↦
                        rw g (elim (Bool-cases (below (until now c.not_after) (renew_before cfg))) [
                          | inl k ↦ rw k (acquired renew)
                          | inr k ↦ rw k (kept c e (f, rw (g, k) refl))
                        ])
                  ])
                ])
        ]

    lifecycle_not_covered :
        (c : Certificate)
        → parse_disk_cert parse cfg.cert_file h.disk ≡ parsed c
        → cert_covers_domain c cfg.cert_domain ≡ false
        → ensure_lifecycle parse now cfg t h ≡ untouched parse h (err not_covered)
    unfolding ensure_lifecycle
    lifecycle_not_covered c e f = ground (arith, e, f)

    -- A call of one of the three modes ends with an error and no change, or after a claim.
    pub ensure_claimed-elim :
        (m : Claims) (P : Ensured X → Type 0)
        → ((e : CertError) → P (record { claims = m; host = h; answer = err e }))
        → ((m' : Claims)
            → claim_cert_files m cfg.cert_file cfg.key_file cfg.cert_domain ≡ ok m'
            → let a = ensure_lifecycle parse now cfg t h in
              P (record {
                claims = m';
                host = record { disk = a.run.disk; env = a.env };
                answer = a.answer;
              }))
        → P (ensure_claimed parse now cfg t m h)
    unfolding ensure_claimed
    ensure_claimed-elim m P refused granted =
        elim (Bool-cases (cfg.cert_file == "" || cfg.key_file == "")) [
          | inl f ↦ rw f (refused files_unset)
          | inr f ↦ rw f (elim (Bool-cases (cfg.cert_domain == "")) [
            | inl g ↦ rw g (refused domain_unset)
            | inr g ↦
                rw g
                  (elim (Result-cases
                    (claim_cert_files m cfg.cert_file cfg.key_file cfg.cert_domain)) [
                      | inl (e, k) ↦ rw k (refused e)
                      | inr (m', k) ↦ rw k (granted m' k)
                    ])
          ])
        ]

    ensure_certificate-elim :
        (m : Claims) (P : Ensured X → Type 0)
        → ((e : CertError) → P (record { claims = m; host = h; answer = err e }))
        → P (record { claims = m; host = h; answer = ok no_action })
        → (cfg.cert_mode ≡ "file"
            → P (record { claims = m; host = h; answer = ensure_file_mode parse cfg h.disk }))
        → P (ensure_claimed parse now cfg t m h)
        → P (ensure_certificate parse now (some cfg) t m h)
    unfolding ensure_certificate
    ensure_certificate-elim m P refused none_needed file_mode claimed =
        elim (Bool-cases (cfg.cert_mode == "" || cfg.cert_mode == "none")) [
          | inl f ↦ rw f none_needed
          | inr f ↦ rw f (elim (Bool-cases (cfg.cert_mode == "file")) [
            | inl g ↦ rw g (file_mode ((eq_iff cfg.cert_mode "file").0 g))
            | inr g ↦
                let ours =
                  cfg.cert_mode == "self" || cfg.cert_mode == "http" || cfg.cert_mode == "dns" in
                rw g (elim (Bool-cases ours) [
                  | inl k ↦ rw k claimed
                  | inr k ↦ rw k (refused (unsupported_mode cfg.cert_mode))
                ])
          ])
        ]

  file_mode_reuse :
      (cfg : CertConfig) (d : Disk X)
      → ensure_file_mode parse cfg d ≡ ok reuse
      → (c : Certificate) × (parse_disk_cert parse cfg.cert_file d ≡ parsed c)
        × (cert_covers_domain c cfg.cert_domain ≡ true)
  unfolding ensure_file_mode
  file_mode_reuse cfg d r = elim (Parsed-cases (parse_disk_cert parse cfg.cert_file d)) [
    | inl (inl e) ↦ absurd (ground (arith, r, e))
    | inl (inr e) ↦ absurd (ground (arith, r, e))
    | inr (c, e) ↦ (c, e, ground (arith, r, e))
  ]

  file_mode_covered :
      (cfg : CertConfig) (d : Disk X) (c : Certificate) (act : CertAction)
      → parse_disk_cert parse cfg.cert_file d ≡ parsed c
      → cert_covers_domain c cfg.cert_domain ≡ false
      → ensure_file_mode parse cfg d ≢ ok act
  unfolding ensure_file_mode
  file_mode_covered cfg d c act e f r = ground (arith, e, f, r)

  -- What an answer of `reuse` says, and that nothing has changed but the claims.
  abbrev ReusesOnly : CertConfig → Host X → Ensured X → Type 0
  ReusesOnly cfg h r =
      r.answer ≡ ok reuse
      → (r.host ≡ h)
        × ((c : Certificate) × (parse_disk_cert parse cfg.cert_file h.disk ≡ parsed c)
            × (cert_covers_domain c cfg.cert_domain ≡ true)
            × ((cfg.cert_mode ≡ "file") ⊎ (is_due (until now c.not_after) cfg ≡ false)))

  -- Whatever the libraries answer and the claims are, a call that answers `reuse` has written no
  -- file and set no variable, and the certificate file then decodes to a certificate that covers
  -- the configured domain, and, unless the mode is `file`, one that is not due for a renewal.
  pub reuses_only_good :
      (cfg : CertConfig) (t : Attempt X) (m : Claims) (h : Host X)
      → (ensure_certificate parse now (some cfg) t m h).answer ≡ ok reuse
      → ((ensure_certificate parse now (some cfg) t m h).host ≡ h)
        × ((c : Certificate) × (parse_disk_cert parse cfg.cert_file h.disk ≡ parsed c)
            × (cert_covers_domain c cfg.cert_domain ≡ true)
            × ((cfg.cert_mode ≡ "file") ⊎ (is_due (until now c.not_after) cfg ≡ false)))
  unfolding untouched failed
  reuses_only_good cfg t m h =
      ensure_certificate-elim cfg t h m (ReusesOnly cfg h) (λ e r. absurd (ground (arith, r)))
        (λ r. absurd (ground (arith, r)))
        (λ mode r. let (c, e, f) = file_mode_reuse cfg h.disk r in (refl, (c, e, f, inl mode)))
        (ensure_claimed-elim cfg t h m (ReusesOnly cfg h) (λ e r. absurd (ground (arith, r)))
          λ m' k r.
            let (c, e, good) = lifecycle_reuse cfg t h r in
            let same = lifecycle-parsed cfg t h c e good in
            (rw same refl, (c, e, good.0, inr good.1)))

  abbrev Blocks : Host X → Ensured X → Type 0
  Blocks h r = (r.host ≡ h) × ((act : CertAction) → act ≢ no_action → r.answer ≢ ok act)

  -- If the certificate on the disk decodes and does not cover the configured domain, then the call
  -- writes no file and sets no variable, in every mode, and no certificate is issued, renewed or
  -- reused.
  pub mismatch-Blocks :
      (cfg : CertConfig) (t : Attempt X) (m : Claims) (h : Host X) (c : Certificate)
      → parse_disk_cert parse cfg.cert_file h.disk ≡ parsed c
      → cert_covers_domain c cfg.cert_domain ≡ false
      → Blocks h (ensure_certificate parse now (some cfg) t m h)
  unfolding untouched failed
  mismatch-Blocks cfg t m h c e f =
      ensure_certificate-elim cfg t h m (Blocks h) (λ er. (refl, λ act n r. ground (arith, r)))
        (refl, λ act n r. ground (arith, r, n))
        (λ mode. (refl, λ act n. file_mode_covered cfg h.disk c act e f))
        (ensure_claimed-elim cfg t h m (Blocks h) (λ er. (refl, λ act n r. ground (arith, r)))
          λ m' k. rw (lifecycle_not_covered cfg t h c e f) (refl, λ act n r. ground (arith, r)))
