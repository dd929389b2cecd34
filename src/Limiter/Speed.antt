-- ===== src/Limiter/Speed.antt =====
-- determineSpeedLimit of limiter/dynamic.go.
use yunzes_node.Base.{ℕ, ◌≤◌, ◌≡◌, ◌≢◌, ◌⊎◌, ◌||◌, ltb, ◌==◌, nat_eq, if◌then◌else◌, arith}

unfoldable pub determine_speed_limit : ℕ → ℕ → ℕ
determine_speed_limit limit1 limit2 =
    if limit1 == 0 || limit2 == 0
    then (if ltb limit2 limit1 then limit1 else if ltb limit1 limit2 then limit2 else 0)
    else (if ltb limit2 limit1 then limit2 else if ltb limit1 limit2 then limit1 else limit1)

-- The result is one of the two limits, no unlimited (zero) result comes from a limit, and it is at
-- most each limit that is set.
pub determine_speed_limit_lem :
    (a b : ℕ)
    → let r = determine_speed_limit a b in
      ((r ≡ a) ⊎ (r ≡ b)) × (r ≡ 0 → (a ≡ 0) × (b ≡ 0)) × (a ≢ 0 → r ≤ a) × (b ≢ 0 → r ≤ b)
unfolding determine_speed_limit
determine_speed_limit_lem a b =
    (ground arith, λ h. ground arith, λ h. ground arith, λ h. ground arith)
