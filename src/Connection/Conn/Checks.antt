-- ===== src/Connection/Conn/Checks.antt =====
-- The health bookkeeping of connection/pooled_connection.go: what a row of health checks leaves.
use zabbix_ddl_monitor.Base.{
  ℕ, ◌+◌, true, false, some, List, [], ◌∷◌, ◌≡◌, ◌≢◌, ◌↔◌, ◌⊎◌, arith, leb, length, if◌then◌else◌,
}
use zabbix_ddl_monitor.Base.Int32
use zabbix_ddl_monitor.Base.Int64
use zabbix_ddl_monitor.Base.Int64.{IsNonneg, leb64_nonneg}
use zabbix_ddl_monitor.Connection.State.{idle, acquired, checking, ◌=ₛ◌, can_transition}
use zabbix_ddl_monitor.Connection.Health.{HealthStatus, healthy, degraded, unhealthy, HealthConfig}
use zabbix_ddl_monitor.Connection.Conn.{Conn, try_acquire_for_task, release, record_health_check}

-- Failed checks at the given times, one after the other.
abbrev pub fail_all : HealthConfig → List ℕ → Conn → Conn
fail_all cfg [] c = c
fail_all cfg (t ∷ ts) c = fail_all cfg ts (record_health_check cfg t false c)

-- The health that n failures in a row amount to.
abbrev pub verdict : HealthConfig → ℕ → HealthStatus
verdict cfg n =
    if leb cfg.unhealthy_failure_threshold n
    then unhealthy
    else if leb cfg.degraded_failure_threshold n
    then degraded
    else healthy

one_failure :
    (cfg : HealthConfig) (t : ℕ) (c : Conn)
    → IsNonneg cfg.unhealthy_failure_threshold
    → IsNonneg cfg.degraded_failure_threshold
    → IsNonneg (c.consecutive_failures + 1)
    → let d = record_health_check cfg t false c in
      (d.consecutive_failures ≡ c.consecutive_failures + 1)
      × (d.health_status ≡ verdict cfg (c.consecutive_failures + 1))
unfolding record_health_check
one_failure cfg t c u d n = ground arith

-- After a row of failed checks the counter has grown by their number, and the health status is the
-- verdict on the counter: unhealthy from the unhealthy threshold on, else degraded from the
-- degraded threshold on, else healthy; for thresholds that are not negative and a counter that
-- does not overflow.
pub fail_all-verdict :
    (cfg : HealthConfig) (t : ℕ) (ts : List ℕ) (c : Conn)
    → IsNonneg cfg.unhealthy_failure_threshold
    → IsNonneg cfg.degraded_failure_threshold
    → IsNonneg (c.consecutive_failures + length (t ∷ ts))
    → let d = fail_all cfg (t ∷ ts) c in
      (d.consecutive_failures ≡ c.consecutive_failures + length (t ∷ ts))
      × (d.health_status ≡ verdict cfg (c.consecutive_failures + length (t ∷ ts)))
fail_all-verdict cfg t [] c u d n = one_failure cfg t c u d (omega arith)
fail_all-verdict cfg t (s ∷ ts) c u d n =
    let (e, _) = one_failure cfg t c u d (omega arith) in
    let ih = fail_all-verdict cfg s ts (record_health_check cfg t false c) u d (omega arith) in
    let k : c.consecutive_failures + length (t ∷ s ∷ ts)
        ≡ (record_health_check cfg t false c).consecutive_failures + length (s ∷ ts) =
      omega arith in
    rw k ih

-- One passed check makes the connection healthy with no failures counted, whatever came before;
-- a check never changes the mark unless it fails.
pub passed_check_resets :
    (cfg : HealthConfig) (t : ℕ) (c : Conn)
    → let d = record_health_check cfg t true c in
      (d.health_status ≡ healthy)
      × (d.consecutive_failures ≡ 0)
      × (d.last_health_check ≡ some t)
      × (d.marked_for_rebuild ≡ c.marked_for_rebuild)
      × (d.usage_count ≡ c.usage_count)
      × (d.state ≡ (if c.state =ₛ checking then acquired else c.state))
unfolding record_health_check can_transition
passed_check_resets cfg t c = ground arith

-- Exactly when the connection is acquired: idle, not unhealthy, not being rebuilt, and with no use
-- counted.
pub try_acquire_iff :
    (now : ℕ) (c : Conn)
    → ((try_acquire_for_task now c).1 ≡ true) ↔ (
        (c.state ≡ idle)
        × (c.health_status ≢ unhealthy)
        × (c.rebuilding ≡ false)
        × (Int32.ltb32 0 c.using_count ≡ false))
unfolding try_acquire_for_task can_transition
try_acquire_iff now c = (ground arith, ground arith)

-- An acquisition either succeeds, moves the connection to `acquired`, stamps it and counts one use,
-- so that a later release gives it back with all but the stamp and the usage count as they were; or
-- it is refused and changes nothing.
pub acquire_effect :
    (now later : ℕ) (c : Conn)
    → let r = try_acquire_for_task now c in
      ((r.1 ≡ true)
        × (r.0.state ≡ acquired)
        × (r.0.last_used ≡ now)
        × (r.0.usage_count ≡ Int64.inc c.usage_count)
        × (release later r.0
            ≡ record c { last_used = later; usage_count = Int64.inc c.usage_count }))
      ⊎ ((r.1 ≡ false) × (r.0 ≡ c))
unfolding try_acquire_for_task release can_transition
acquire_effect now later c = ground arith
