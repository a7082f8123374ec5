-- ===== src/Connection/Pool/Driver.antt =====
-- connection/pool_enhanced.go: MonitoredDriver.Connect and Execute around a call of the driver, and
-- the health check of one connection. Each is cut where the driver runs, since other goroutines may
-- act then: `begin_…` stands before the call and `end_…` after it.
pub mod Balance
use zabbix_ddl_monitor.Base.{ℕ, ◌-◌, ◌*◌, Bool, true, false, not, ltb, if◌then◌else◌}
use zabbix_ddl_monitor.Connection.Conn
use zabbix_ddl_monitor.Connection.Conn.{Conn}
use zabbix_ddl_monitor.Connection.State.{
  ConnectionState, idle, connecting, acquired, executing, ◌=ₛ◌,
}
use zabbix_ddl_monitor.Connection.Health.{HealthConfig}

-- Execute up to the driver's call: whether the connection went from acquired to executing, which
-- decides on the deferred way back.
unfoldable pub begin_execute : Conn → Conn × Bool
begin_execute c =
    let d = Conn.acquire_use c in
    if d.state =ₛ acquired then Conn.transition_state d executing else (d, false)

unfoldable pub end_execute : Bool → Bool → Conn → Conn
end_execute moved success c =
    let d = Conn.count_request success c in
    Conn.release_use (if moved then (Conn.transition_state d acquired).0 else d)

-- Execute, with nothing else in between.
unfoldable pub execute : Bool → Conn → Conn
unfolding begin_execute end_execute
execute success c = let (d, moved) = begin_execute c in end_execute moved success d

-- Connect up to the driver's call; `false` is the error that the state cannot change.
unfoldable pub begin_connect : Conn → Conn × Bool
begin_connect c =
    let (d, moved) = Conn.transition_state (Conn.acquire_use c) connecting in
    if moved then (d, true) else (Conn.release_use d, false)

unfoldable pub end_connect : Bool → Conn → Conn
end_connect success c =
    Conn.release_use
      (if success then (Conn.transition_state c acquired).0 else (Conn.transition_state c idle).0)

-- Connect, with nothing else in between, and whether it succeeds.
unfoldable pub connect : Bool → Conn → Conn × Bool
unfolding begin_connect end_connect
connect success c =
    let (d, moved) = begin_connect c in
    if moved then (end_connect success d, success) else (d, false)

pub data CheckResult : Type 0 where
  passed too_young cannot_begin check_failed : CheckResult

-- 15 seconds.
abbrev pub min_age : ℕ
min_age = 15 * 1000000000

-- checkConnectionHealthWithContext; `success` says whether the probe of the driver passes.
unfoldable pub check_connection_health : HealthConfig → ℕ → Bool → Conn → Conn × CheckResult
check_connection_health cfg now success c =
    if ltb (now - c.created_at) min_age
    then (c, too_young)
    else let (d, began) = Conn.begin_health_check c in
      if not began
      then (d, cannot_begin)
      else (Conn.record_health_check cfg now success d, if success then passed else check_failed)

-- performHealthCheckForProtocol, from the acquired connection to its release: the check is skipped
-- in a state other than acquired and idle. The release counts a request without an error.
unfoldable pub check_and_release : HealthConfig → ℕ → ℕ → Bool → Conn → Conn
unfolding check_connection_health
check_and_release cfg now later success c = Conn.count_request true (
    Conn.release later (
      if not (c.state =ₛ acquired)
      then (if not (c.state =ₛ idle) then c else (check_connection_health cfg now success c).0)
      else (check_connection_health cfg now success c).0))
