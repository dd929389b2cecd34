-- ===== src/Node/Certs/Window.antt =====
-- The renewal window of node/cert_manager.go, within the range of a duration.
use yunzes_node.Base.{
  ℕ, zero, suc, if◌then◌else◌, refl, ltb, ◌+◌, ◌*◌, ◌≤◌, ◌<◌, ◌≡◌, ◌↔◌, Bool, true, ◌||◌, arith,
}
use yunzes_node.Base.Int.{ℤ, pos, negsuc, int64_small}
use yunzes_node.Node.Certs.{
  CertConfig, default_renew_before_days, effective_renew_before_days, day, renew_before, until,
  has_expired, below,
}

-- The number of days that a configuration asks for.
abbrev pub days_before : ℤ → ℕ
days_before (pos zero) = 30
days_before (pos (suc n)) = suc n
days_before (negsuc _) = 30

effective_lem :
    (cfg : CertConfig) → effective_renew_before_days cfg ≡ days_before cfg.renew_before_days
unfolding effective_renew_before_days
effective_lem cfg = of_setting cfg.renew_before_days
  where
    of_setting :
        (z : ℤ)
        → elim z [
          | pos d ↦ if ltb 0 d then d else default_renew_before_days
          | negsuc _ ↦ default_renew_before_days
        ]
          ≡ days_before z
    of_setting (pos zero) = refl
    of_setting (pos (suc n)) = ground arith
    of_setting (negsuc _) = refl

days_positive : (z : ℤ) → 1 ≤ days_before z
days_positive (pos zero) = omega arith
days_positive (pos (suc n)) = omega arith
days_positive (negsuc _) = omega arith

-- The code renews for one of these two reasons.
abbrev pub is_due : ℤ → CertConfig → Bool
is_due remaining cfg = has_expired remaining || below remaining (renew_before cfg)

due_iff :
    (now t w : ℕ)
    → 1 ≤ w
    → w < 9223372036854775808
    → (has_expired (until now t) || below (until now t) (pos w) ≡ true) ↔ (t < now + w)
unfolding until has_expired below
due_iff now t w h k = ground arith

-- With at most 106751 days, which is what a duration can hold, a certificate is due exactly if it
-- ends before the configured number of days, or 30 if that is not positive, has passed from now;
-- no time is too far away or too long ago for that.
pub is_due_iff :
    (cfg : CertConfig) (now t : ℕ)
    → days_before cfg.renew_before_days ≤ 106751
    → (is_due (until now t) cfg ≡ true) ↔ (t < now + days_before cfg.renew_before_days * day)
unfolding renew_before
is_due_iff cfg now t h =
    let days = days_before cfg.renew_before_days in
    rw (effective_lem cfg, int64_small (days * day) (omega arith))
      (due_iff now t (days * day) (omega (arith, days_positive cfg.renew_before_days))
        (omega arith))
