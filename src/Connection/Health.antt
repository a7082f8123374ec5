-- ===== src/Connection/Health.antt =====
-- connection/health_manager.go: the health statuses.
-- connection/config_enhanced.go: the fields of the configuration that the health check reads.
pub mod Classify
use zabbix_ddl_monitor.Base.{ℕ, Bool, ◌==◌}

pub data HealthStatus : Type 0 where
  unknown healthy degraded unhealthy : HealthStatus

-- The value of the constant (`iota`).
abbrev pub health_code : HealthStatus → ℕ
health_code unknown = 0
health_code healthy = 1
health_code degraded = 2
health_code unhealthy = 3

infix 50 ◌=ₕ◌
abbrev pub ◌=ₕ◌ : HealthStatus → HealthStatus → Bool
s =ₕ t = health_code s == health_code t

-- Thresholds are Go ints, as bit patterns.
pub record HealthConfig : Type 0 where
  pub unhealthy_failure_threshold : ℕ
  pub degraded_failure_threshold : ℕ
  pub health_check_trigger_rebuild : Bool
  pub rebuild_on_degraded : Bool
