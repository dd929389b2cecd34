-- ===== src/Node/Certs/Ensure/Again.antt =====
-- What one call of EnsureCertificate leaves for the next (node/cert_manager.go, node/lego.go).
use yunzes_node.Base.{
  ℕ, ◌+◌, ◌*◌, ◌≤◌, eq_iff, ==_refl, ◌≡◌, ◌≢◌, ◌⊎◌, ◌||◌, ◌&&◌, refl, sym, ◌∙◌, inl, inr, Bool,
  true, false, not, Option, some, ok, subst, lookup, string_eq, ◌==◌, if◌then◌else◌, arith,
  Bool-cases, Option-cases, Result-cases,
}
use yunzes_node.Node.Certs.{
  CertConfig, Certificate, Claims, claim_cert_files, cert_covers_domain, day,
}
use yunzes_node.Node.Certs.Window.{days_before, is_due_iff}
use yunzes_node.Node.Certs.Files.{File, Disk, write_file_atomic}
use yunzes_node.Node.Certs.Issue.{
  CertAction, no_action, issue, renew, reuse, reissue, Attempt, Writes, Host, failed, parse_params,
  write_pair, self_signed_template, write_self_signed_cert, write_cert, obtain_cert, renew_cert,
  renew_or_obtain, call_acme, new_lego, acquire,
}
use yunzes_node.Node.Certs.Issue.Torn.{AreApart, write_pair-success, write_pair-torn}
use yunzes_node.Node.Certs.Ensure.{
  parse_disk_cert, ensure_lifecycle, ensure_claimed, ensure_certificate, untouched,
}
use yunzes_node.Node.Certs.Ensure.Decisions.{IsGood, lifecycle-parsed, lifecycle-elim}
use yunzes_node.Node.Certs.Owners.{claim_again}

module _ {X : Type 0} (parse : X → Option Certificate) (now : ℕ) (cfg : CertConfig) where
  -- The bytes decode to a certificate that serves the domain, and is not due at `now`.
  abbrev pub Serves : X → Type 0
  Serves x = (c : Certificate) × (parse x ≡ some c) × IsGood cfg now c

  -- What the certificate file holds serves.
  abbrev pub IsServed : Disk X → Type 0
  IsServed d = (f : File X) × (lookup cfg.cert_file d ≡ some f) × Serves f.content

  pub IsServed-reused :
      (t : Attempt X) (h : Host X)
      → IsServed h.disk
      → ensure_lifecycle parse now cfg t h ≡ untouched parse h (ok reuse)
  unfolding parse_disk_cert
  IsServed-reused t h (f, e, (c, p, good)) =
      lifecycle-parsed parse now cfg t h c (rw (e, p, parse_disk_cert) refl) good

  -- The paths have no placeholders, the names of temporary files are new, x509 reads the fields of a
  -- template back from the certificate it has made of it, AddDate adds at least 365 days for a year,
  -- in self mode `now` is at least the configured days before 30 of these years after the clock, and
  -- whatever certificate the ACME client hands over serves.
  pub record IsSound (t : Attempt X) : Type 0 where
    pub same_cert : parse_params cfg cfg.cert_file ≡ cfg.cert_file
    pub same_key : parse_params cfg cfg.key_file ≡ cfg.key_file
    pub renewal_apart : AreApart t.renewal cfg.cert_file cfg.key_file
    pub fresh_apart : AreApart t.fresh cfg.cert_file cfg.key_file
    pub self_parsed :
        (c : Certificate) (x k : X) → t.answers.self_signed c ≡ some (x, k) → parse x ≡ some c
    pub year_days :
        (time years : ℕ) → time + years * (365 * day) ≤ t.answers.add_date time years 0 0
    pub self_in_time :
        cfg.cert_mode ≡ "self"
        → (days_before cfg.renew_before_days ≤ 106751)
          × (now + days_before cfg.renew_before_days * day ≤ t.answers.clock + 30 * (365 * day))
    pub obtain_serves : (x k : X) → t.answers.obtain cfg.cert_domain ≡ some (x, k) → Serves x
    pub renew_serves : (old x k : X) → t.answers.renew cfg.cert_domain old ≡ some (x, k) → Serves x

  module _ (t : Attempt X) (s : IsSound t) where
    pair-IsServed :
        (w : Writes X) (x k : X) (d : Disk X)
        → AreApart w cfg.cert_file cfg.key_file
        → Serves x
        → (write_pair w cfg.cert_file cfg.key_file (x, k) d).success ≡ true
        → IsServed (write_pair w cfg.cert_file cfg.key_file (x, k) d).disk
    pair-IsServed w x k d apart good done =
        (_, write_pair-success w cfg.cert_file cfg.key_file x k d apart done, good)

    cert-IsServed :
        (w : Writes X) (x k : X) (d : Disk X)
        → AreApart w cfg.cert_file cfg.key_file
        → Serves x
        → (write_cert cfg w (x, k) d).success ≡ true
        → IsServed (write_cert cfg w (x, k) d).disk
    unfolding write_cert
    cert-IsServed w x k d apart good =
        rw (s.same_cert, s.same_key) (pair-IsServed w x k d apart good)

    obtain-IsServed :
        (d : Disk X)
        → (obtain_cert cfg t.answers t.fresh d).success ≡ true
        → IsServed (obtain_cert cfg t.answers t.fresh d).disk
    unfolding obtain_cert failed
    obtain-IsServed d done = elim (Option-cases (t.answers.obtain cfg.cert_domain)) [
      | inl e ↦ absurd (ground (arith, e, done))
      | inr ((x, k), e) ↦
          rw (e, obtain_cert)
            (cert-IsServed t.fresh x k d s.fresh_apart (s.obtain_serves x k e)
              (rw (e, obtain_cert) at done))
    ]

    renew-IsServed :
        (d : Disk X)
        → (renew_cert cfg t.answers t.renewal d).success ≡ true
        → IsServed (renew_cert cfg t.answers t.renewal d).disk
    unfolding renew_cert failed
    renew-IsServed d done = elim (Option-cases (lookup cfg.cert_file d)) [
      | inl e ↦ absurd (ground (arith, e, done))
      | inr (f, e) ↦ elim (Option-cases (t.answers.renew cfg.cert_domain f.content)) [
        | inl g ↦ absurd (ground (arith, e, g, done))
        | inr ((x, k), g) ↦
            rw (e, g, renew_cert)
              (cert-IsServed t.renewal x k d s.renewal_apart (s.renew_serves f.content x k g)
                (rw (e, g, renew_cert) at done))
      ]
    ]

    renew_or_obtain-IsServed :
        (d : Disk X)
        → (renew_or_obtain cfg t d).success ≡ true
        → IsServed (renew_or_obtain cfg t d).disk
    unfolding renew_or_obtain
    renew_or_obtain-IsServed d done =
        let first = renew_cert cfg t.answers t.renewal d in
        elim (Bool-cases first.success) [
          | inl e ↦
              let second = obtain_cert cfg t.answers t.fresh first.disk in
              subst (λ b. IsServed (if b then first else second).disk) (sym e) (renew-IsServed d e)
          | inr e ↦ rw e (obtain-IsServed first.disk (rw e at done))
        ]

    call_acme-IsServed :
        (act : CertAction) (d : Disk X)
        → (call_acme cfg t act d).success ≡ true
        → IsServed (call_acme cfg t act d).disk
    unfolding call_acme
    call_acme-IsServed renew d done = renew_or_obtain-IsServed d done
    call_acme-IsServed no_action d done = obtain-IsServed d done
    call_acme-IsServed issue d done = obtain-IsServed d done
    call_acme-IsServed reuse d done = obtain-IsServed d done
    call_acme-IsServed reissue d done = obtain-IsServed d done

    template-IsGood :
        cfg.cert_mode ≡ "self" → IsGood cfg now (self_signed_template t.answers cfg.cert_domain)
    unfolding self_signed_template cert_covers_domain
    template-IsGood mode =
        let (small, later) = s.self_in_time mode in
        let ends = t.answers.add_date t.answers.clock 30 0 0 in
        (
          ground (arith, ==_refl cfg.cert_domain),
          ground (arith, is_due_iff cfg now ends small, s.year_days t.answers.clock 30, later),
        )

    self-IsServed :
        cfg.cert_mode ≡ "self"
        → (d : Disk X)
        → let r =
            write_self_signed_cert t.answers t.fresh cfg.cert_domain cfg.cert_file cfg.key_file d in
          r.success ≡ true → IsServed r.disk
    unfolding write_self_signed_cert failed
    self-IsServed mode d done =
        elim (Option-cases
          (t.answers.self_signed (self_signed_template t.answers cfg.cert_domain))) [
            | inl e ↦ absurd (ground (arith, e, done))
            | inr ((x, k), e) ↦
                rw (e, write_self_signed_cert)
                  (pair-IsServed t.fresh x k d s.fresh_apart
                    (_, s.self_parsed _ x k e, template-IsGood mode)
                    (rw (e, write_self_signed_cert) at done))
          ]

    acquire-IsServed :
        (act wanted : CertAction) (h : Host X)
        → (acquire cfg t act h).answer ≡ ok wanted
        → IsServed (acquire cfg t act h).run.disk
    unfolding acquire
    acquire-IsServed act wanted h done = elim (Bool-cases (cfg.cert_mode == "self")) [
      | inl e ↦
          rw e (self-IsServed ((eq_iff cfg.cert_mode "self").0 e) h.disk (ground (arith, e, done)))
      | inr e ↦ elim (Bool-cases (not (new_lego cfg t.answers h.env).1)) [
        | inl f ↦ absurd (ground (arith, e, f, done))
        | inr f ↦ rw (e, f) (call_acme-IsServed act h.disk (ground (arith, e, f, done)))
      ]
    ]

    -- A call that has issued or renewed leaves a certificate that serves.
    lifecycle-IsServed :
        (earlier : ℕ) (act : CertAction) (h : Host X)
        → act ≢ reuse
        → (ensure_lifecycle parse earlier cfg t h).answer ≡ ok act
        → IsServed (ensure_lifecycle parse earlier cfg t h).run.disk
    unfolding untouched
    lifecycle-IsServed earlier act h n =
        lifecycle-elim parse earlier cfg t h (λ a. a.answer ≡ ok act → IsServed a.run.disk)
          (λ tried done. acquire-IsServed tried act h done) (λ done. absurd (ground (arith, done)))
          λ c e good done. absurd (ground (arith, n, done))

  -- The modes in which the program looks after the certificate.
  abbrev pub IsManaged : Type 0
  IsManaged = (cfg.cert_mode ≡ "self") ⊎ (cfg.cert_mode ≡ "http") ⊎ (cfg.cert_mode ≡ "dns")

  managed :
      (time : ℕ) (t : Attempt X) (m : Claims) (h : Host X)
      → IsManaged
      → ensure_certificate parse time (some cfg) t m h ≡ ensure_claimed parse time cfg t m h
  unfolding ensure_certificate
  managed time t m h (inl e) = rw (e, ensure_certificate) refl
  managed time t m h (inr (inl e)) = rw (e, ensure_certificate) refl
  managed time t m h (inr (inr e)) = rw (e, ensure_certificate) refl

  -- Paths and a domain are set.
  abbrev is_set : Bool
  is_set = not (cfg.cert_file == "" || cfg.key_file == "") && not (cfg.cert_domain == "")

  module _ (time : ℕ) (t : Attempt X) (m : Claims) (h : Host X) where
    granted :
        (m' : Claims)
        → is_set ≡ true
        → claim_cert_files m cfg.cert_file cfg.key_file cfg.cert_domain ≡ ok m'
        → let a = ensure_lifecycle parse time cfg t h in
          ensure_claimed parse time cfg t m h ≡ record {
            claims = m';
            host = record { disk = a.run.disk; env = a.env };
            answer = a.answer;
          }
    unfolding ensure_claimed
    granted m' set e = elim (Bool-cases (cfg.cert_file == "" || cfg.key_file == "")) [
      | inl f ↦ absurd (ground (arith, f, set))
      | inr f ↦ elim (Bool-cases (cfg.cert_domain == "")) [
        | inl g ↦ absurd (ground (arith, f, g, set))
        | inr g ↦ rw (f, g, e) refl
      ]
    ]

    success_granted :
        (act : CertAction)
        → (ensure_claimed parse time cfg t m h).answer ≡ ok act
        → (is_set ≡ true)
          × ((m' : Claims) × (claim_cert_files m cfg.cert_file cfg.key_file cfg.cert_domain
                ≡ ok m'))
    unfolding ensure_claimed
    success_granted act done = elim (Bool-cases (cfg.cert_file == "" || cfg.key_file == "")) [
      | inl f ↦ absurd (ground (arith, f, done))
      | inr f ↦ elim (Bool-cases (cfg.cert_domain == "")) [
        | inl g ↦ absurd (ground (arith, f, g, done))
        | inr g ↦
            elim (Result-cases (claim_cert_files m cfg.cert_file cfg.key_file cfg.cert_domain)) [
              | inl (x, e) ↦ absurd (ground (arith, f, g, e, done))
              | inr (m', e) ↦ (ground (arith, f, g), (m', e))
            ]
      ]
    ]

  pub acquired_then_reused :
      (earlier : ℕ) (t t' : Attempt X) (m : Claims) (h : Host X) (act : CertAction)
      → IsManaged
      → IsSound t
      → act ≢ reuse
      → (ensure_certificate parse earlier (some cfg) t m h).answer ≡ ok act
      → let first = ensure_certificate parse earlier (some cfg) t m h in
        let second = ensure_certificate parse now (some cfg) t' first.claims first.host in
        (second.answer ≡ ok reuse) × (second.host ≡ first.host)
  unfolding untouched failed
  acquired_then_reused earlier t t' m h act mode s n done =
      let first = ensure_lifecycle parse earlier cfg t h in
      let host : Host X = record { disk = first.run.disk; env = first.env } in
      let (set, (m', e)) =
        success_granted earlier t m h act (rw (managed earlier t m h mode) at done) in
      let run = managed earlier t m h mode ∙ granted earlier t m h m' set e in
      let (m'', e') = claim_again m m' _ _ _ e in
      let served = lifecycle-IsServed t s earlier act h n (rw run at done) in
      rw
        (
          run,
          managed now t' m' host mode,
          granted now t' m' host m'' set e',
          IsServed-reused t' host served,
        )
        (refl, refl)

  -- If the two writes of a pair go wrong after the certificate is in place, and it serves, then the
  -- next run of the lifecycle answers `reuse`, with the new certificate and the old key on the disk.
  pub torn_pair_is_reused :
      (w : Writes X) (cert key : X) (t : Attempt X) (h : Host X)
      → AreApart w cfg.cert_file cfg.key_file
      → Serves cert
      → (write_file_atomic w.cert cfg.cert_file cert 420 h.disk).success ≡ true
      → (write_pair w cfg.cert_file cfg.key_file (cert, key) h.disk).success ≡ false
      → let torn : Host X = record h {
        disk = (write_pair w cfg.cert_file cfg.key_file (cert, key) h.disk).disk;
      } in
        let next = ensure_lifecycle parse now cfg t torn in
        (next.answer ≡ ok reuse)
        × (lookup cfg.cert_file next.run.disk
            ≡ some (record { content = cert; perm = 420; synced = true }))
        × (lookup cfg.key_file next.run.disk ≡ lookup cfg.key_file h.disk)
  unfolding untouched failed
  torn_pair_is_reused w cert key t h apart good written broke =
      let (new_cert, old_key) =
        write_pair-torn w cfg.cert_file cfg.key_file cert key h.disk apart written broke in
      let torn : Host X = record h {
        disk = (write_pair w cfg.cert_file cfg.key_file (cert, key) h.disk).disk;
      } in
      rw (IsServed-reused t torn (_, new_cert, good)) (refl, new_cert, old_key)
