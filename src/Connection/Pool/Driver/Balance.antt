-- ===== src/Connection/Pool/Driver/Balance.antt =====
-- What MonitoredDriver's methods and a health check leave of a connection.
use zabbix_ddl_monitor.Base.{ℕ, ◌<◌, Bool, false, ◌≡◌, ◌≢◌, ◌⊎◌, arith, if◌then◌else◌}
use zabbix_ddl_monitor.Base.Int32
use zabbix_ddl_monitor.Connection.Conn
use zabbix_ddl_monitor.Connection.Conn.{Conn}
use zabbix_ddl_monitor.Connection.State.{idle, connecting, acquired, can_transition}
use zabbix_ddl_monitor.Connection.Health.{HealthConfig}
use zabbix_ddl_monitor.Connection.Pool.Driver.{execute, connect, check_and_release}

-- Execute gives a connection in any state back as it was, but for the two request counters.
pub execute-count_request :
    (success : Bool) (c : Conn)
    → c.using_count < Int32.word
    → execute success c ≡ Conn.count_request success c
unfolding execute Conn.acquire_use Conn.release_use Conn.count_request Conn.transition_state
    can_transition
execute-count_request success c h = ground arith

-- Connect works on an idle connection only: there a success acquires it, and a failure leaves it
-- connecting, since no transition leads back to idle. In any other state it fails and changes
-- nothing.
pub connect_effect :
    (success : Bool) (c : Conn)
    → c.using_count < Int32.word
    → ((c.state ≡ idle)
        × (connect success c
            ≡ (record c { state = if success then acquired else connecting }, success)))
      ⊎ ((c.state ≢ idle) × (connect success c ≡ (c, false)))
unfolding connect Conn.acquire_use Conn.release_use Conn.transition_state can_transition
connect_effect success c h = ground arith

-- A health check of an acquired connection always gives it back idle, whether it passes, fails, or
-- is not made.
pub check_and_release_idle :
    (cfg : HealthConfig) (now later : ℕ) (success : Bool) (c : Conn)
    → c.state ≡ acquired
    → (check_and_release cfg now later success c).state ≡ idle
unfolding check_and_release Conn.count_request Conn.release Conn.begin_health_check
    Conn.record_health_check can_transition
check_and_release_idle cfg now later success c h = ground arith
