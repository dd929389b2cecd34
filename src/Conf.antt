-- ===== src/Conf.antt =====
-- The limits of conf/limit.go that the node reads.
use yunzes_node.Base.{ℕ, Bool, Option}
use yunzes_node.Base.Int.{ℤ}

pub record DynamicSpeedLimitConfig : Type 0 where
  pub periodic : ℕ
  pub traffic : ℕ
  pub speed_limit : ℕ
  pub expire_time : ℕ

pub record LimitConfig : Type 0 where
  pub enable_realtime : Bool
  pub speed_limit : ℕ
  pub ip_limit : ℕ
  pub conn_limit : ℕ
  pub enable_dynamic_speed_limit : Bool
  pub dynamic_speed_limit_config : Option DynamicSpeedLimitConfig
  pub max_report_failure_rollbacks : ℤ
