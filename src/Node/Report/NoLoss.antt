-- ===== src/Node/Report/NoLoss.antt =====
-- What becomes of a user's bytes in one cycle of the report task (node/user.go).
use yunzes_node.Base.{
  ℕ, ◌+◌, ◌≤◌, ◌<◌, ◌≡◌, refl, ◌⊎◌, inl, inr, String, Bool, true, false, List, [], ◌∷◌, ◌++◌, ltb,
  All, All-append, nat_eq, arith, Bool-cases, sym, ◌∙◌,
}
use yunzes_node.Panel.{UserTraffic}
use yunzes_node.Core.Interface.{VCore, Conserves, bytes, total}
use yunzes_node.Node.Controller.{Controller}
use yunzes_node.Node.Report.{
  report_rollback_decision, split_user_traffic_by_threshold, report_threshold, feed_dynamic_traffic,
  roll_back, on_failure, on_success, push, split_for, read_slice, report_traffic,
}

total-append :
    (uid : ℕ) (xs ys : List UserTraffic) → total uid (xs ++ ys) ≡ total uid xs + total uid ys
total-append uid [] ys = omega arith
total-append uid (x ∷ xs) ys = omega (arith, total-append uid xs ys)

-- The two parts of a slice hold all of it, and what is above the threshold is so strictly.
pub split-total :
    (ts : List UserTraffic) (threshold uid : ℕ)
    → let (above, below) = split_user_traffic_by_threshold ts threshold in
      total uid above + total uid below ≡ total uid ts
unfolding split_user_traffic_by_threshold
split-total [] threshold uid = refl
split-total (t ∷ ts) threshold uid = ground (arith, split-total ts threshold uid)

pub split-All :
    (P : UserTraffic → Type 0) (ts : List UserTraffic) (threshold : ℕ)
    → All P ts
    → let (above, below) = split_user_traffic_by_threshold ts threshold in All P above × All P below
unfolding split_user_traffic_by_threshold
split-All P [] threshold h = (tt, tt)
split-All P (t ∷ ts) threshold h =
    let (a, b) = split-All P ts threshold h.1 in
    elim (Bool-cases (ltb threshold (bytes t))) [
      | inl e ↦ rw e ((h.0, a), b)
      | inr e ↦ rw e (a, (h.0, b))
    ]

pub split-above :
    (ts : List UserTraffic) (threshold : ℕ)
    → let (above, below) = split_user_traffic_by_threshold ts threshold in
      All (λ t. threshold < bytes t) above × All (λ t. bytes t ≤ threshold) below
unfolding split_user_traffic_by_threshold
split-above [] threshold = (tt, tt)
split-above (t ∷ ts) threshold =
    let (a, b) = split-above ts threshold in
    elim (Bool-cases (ltb threshold (bytes t))) [
      | inl e ↦ rw e ((ground arith, a), b)
      | inr e ↦ rw e (a, (ground arith, b))
    ]

-- The drop policy decides to drop on one more failure.
abbrev pub Drops : {S B : Type 0} → Controller S B → Type 0
Drops c =
    report_rollback_decision (c.report_failures + 1) c.limit_config.max_report_failure_rollbacks
    ≡ true

module _ {S B : Type 0} (core : VCore S) (tag : String) (laws : Conserves core tag) where
  split_for-total :
      (c : Controller S B) (ts : List UserTraffic) (uid : ℕ)
      → let (above, skipped) = split_for core c ts in
        total uid above + total uid skipped ≡ total uid ts
  unfolding split_for
  split_for-total c ts uid = elim (Bool-cases (ltb 0 (report_threshold core c))) [
    | inl e ↦ rw e (split-total ts (report_threshold core c) uid)
    | inr e ↦ rw e (omega arith)
  ]

  split_for-All :
      (P : UserTraffic → Type 0) (c : Controller S B) (ts : List UserTraffic)
      → All P ts
      → let (above, skipped) = split_for core c ts in All P above × All P skipped
  unfolding split_for
  split_for-All P c ts h = elim (Bool-cases (ltb 0 (report_threshold core c))) [
    | inl e ↦ rw e (split-All P ts (report_threshold core c) h)
    | inr e ↦ rw e (h, tt)
  ]

  -- What is rolled back is held again.
  roll_back-held :
      (c : Controller S B) (ts : List UserTraffic) (uid : ℕ)
      → c.runtime_key ≡ tag
      → laws.IsReady c.server
      → All (laws.Creditable c.server) ts
      → laws.held (roll_back core c ts).server uid ≡ laws.held c.server uid + total uid ts
  unfolding roll_back
  roll_back-held c [] uid k r h = omega arith
  roll_back-held c (t ∷ ts) uid k r h = rw k (laws.credits c.server (t ∷ ts) r h uid)

  on_success-held :
      (c : Controller S B) (above skipped : List UserTraffic) (uid : ℕ)
      → c.runtime_key ≡ tag
      → laws.IsReady c.server
      → All (laws.Creditable c.server) skipped
      → laws.held (on_success core c above skipped).server uid
        ≡ laws.held c.server uid + total uid skipped
  unfolding on_success feed_dynamic_traffic
  on_success-held c above skipped uid k r h =
      elim (Bool-cases c.limit_config.enable_dynamic_speed_limit) [
        | inl e ↦ rw e (roll_back-held _ skipped uid k r h)
        | inr e ↦ rw e (roll_back-held _ skipped uid k r h)
      ]

  on_failure-held :
      (c : Controller S B) (above skipped : List UserTraffic) (uid : ℕ)
      → c.runtime_key ≡ tag
      → laws.IsReady c.server
      → All (laws.Creditable c.server) above
      → All (laws.Creditable c.server) skipped
      → Drops c
        ⊎ (laws.held (on_failure core c above skipped).server uid
            ≡ laws.held c.server uid + (total uid above + total uid skipped))
  unfolding on_failure
  on_failure-held c above skipped uid k r h h' =
      elim (Bool-cases (
        report_rollback_decision (c.report_failures + 1)
          c.limit_config.max_report_failure_rollbacks)) [
            | inl e ↦ inl e
            | inr e ↦ inr (
                rw e (
                  roll_back-held _ (above ++ skipped) uid k r
                    (All-append (laws.Creditable c.server) above skipped h h')
                  ∙ omega (arith, total-append uid above skipped)))
          ]

  push-held :
      (c : Controller S B) (above skipped : List UserTraffic) (reported : Bool) (uid : ℕ)
      → c.runtime_key ≡ tag
      → laws.IsReady c.server
      → All (laws.Creditable c.server) above
      → All (laws.Creditable c.server) skipped
      → let (c', sent) = push core c above skipped reported in
        ((reported ≡ false) × Drops c)
        ⊎ (laws.held c'.server uid + total uid sent
            ≡ laws.held c.server uid + (total uid above + total uid skipped))
  unfolding push
  push-held c [] skipped reported uid k r h h' =
      inr (omega (arith, roll_back-held c skipped uid k r h'))
  push-held c (t ∷ ts) skipped true uid k r h h' =
      inr (omega (arith, on_success-held c (t ∷ ts) skipped uid k r h'))
  push-held c (t ∷ ts) skipped false uid k r h h' =
      elim (on_failure-held c (t ∷ ts) skipped uid k r h h') [
        | inl d ↦ inl (refl, d)
        | inr e ↦ inr (omega (arith, e))
      ]

  -- On a core that conserves traffic, one cycle loses no byte of any user: what the core held is
  -- what it holds afterwards and what the panel has accepted, unless the push failed and this
  -- failure is over the cap of the drop policy.
  pub report_traffic-conserves :
      (c : Controller S B) (reported : Bool) (uid : ℕ)
      → c.runtime_key ≡ tag
      → laws.IsReady c.server
      → let (c', sent) = report_traffic core c reported in
        ((reported ≡ false) × Drops c)
        ⊎ (laws.held c'.server uid + total uid sent ≡ laws.held c.server uid)
  unfolding report_traffic read_slice
  report_traffic-conserves c reported uid k r =
      let slice = (core.get_user_traffic_slice c.server c.runtime_key true).1 in
      let (ready, fit, kept) = rw (sym k) at (laws.drains c.server r) in
      let (a, b) = split_for-All _ c slice fit in
      elim (push-held (record c { server = _ }) _ _ reported uid k ready a b) [
        | inl d ↦ inl d
        | inr e ↦ inr (e ∙ omega (arith, split_for-total c slice uid, kept uid))
      ]
