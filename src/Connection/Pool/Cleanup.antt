-- ===== src/Connection/Pool/Cleanup.antt =====
-- connection/pool_enhanced.go: which connections the cleanup task removes. Timeouts are nanoseconds
-- and not negative; a negative idle time counts as none, which compares alike.
pub mod Deadline
use zabbix_ddl_monitor.Base.{
  ℕ, ◌-◌, ◌*◌, Bool, true, false, not, String, Option, none, some, List, [], ◌∷◌, ltb, ◌==◌,
  if◌then◌else◌,
}
use zabbix_ddl_monitor.Base.Int32
use zabbix_ddl_monitor.Base.Int64
use zabbix_ddl_monitor.Base.Map.{lookup}
use zabbix_ddl_monitor.Connection.Conn.{Conn}
use zabbix_ddl_monitor.Connection.State.{
  ConnectionState, idle, connecting, acquired, executing, checking, closing, closed, ◌=ₛ◌,
}
use zabbix_ddl_monitor.Connection.Health.{unhealthy, ◌=ₕ◌}
use zabbix_ddl_monitor.Connection.Pool.{DriverPool, DriverPoolStats, has_name, without_name}

pub record CleanupConfig : Type 0 where
  pub stuck_timeout_closing : ℕ
  pub stuck_timeout_connecting : ℕ
  pub stuck_timeout_acquired : ℕ
  pub stuck_timeout_executing : ℕ
  pub stuck_timeout_checking : ℕ
  pub stuck_timeout_rebuild_idle : ℕ
  pub idle_timeout : ℕ

abbrev pub seconds : ℕ → ℕ
seconds n = n * 1000000000

-- A timeout of 0 means the default.
abbrev pub or_default : ℕ → ℕ → ℕ
or_default timeout default = if timeout == 0 then default else timeout

-- The switch on a state that is not idle: has the connection been stuck too long?
unfoldable pub is_stuck : CleanupConfig → ConnectionState → ℕ → Bool
is_stuck cfg closing age = ltb (or_default cfg.stuck_timeout_closing (seconds 60)) age
is_stuck cfg connecting age = ltb (or_default cfg.stuck_timeout_connecting (seconds 30)) age
is_stuck cfg acquired age = ltb (or_default cfg.stuck_timeout_acquired (seconds 600)) age
is_stuck cfg executing age = ltb (or_default cfg.stuck_timeout_executing (seconds 600)) age
is_stuck cfg checking age = ltb (or_default cfg.stuck_timeout_checking (seconds 120)) age
is_stuck cfg closed age = true
is_stuck cfg idle age = ltb (seconds 360) age

-- shouldCleanupConnection
unfoldable pub should_cleanup : CleanupConfig → ℕ → Conn → Bool
unfolding is_stuck
should_cleanup cfg now c =
    if Int32.ltb32 0 c.using_count
    then false
    else if c.health_status =ₕ unhealthy
    then true
    else if not (c.state =ₛ idle)
    then is_stuck cfg c.state (now - c.last_used)
    else if c.rebuilding
    then ltb (or_default cfg.stuck_timeout_rebuild_idle (seconds 120)) (now - c.last_used)
    else ltb cfg.idle_timeout (now - c.last_used)

-- The statistics, by the state that was read before the removal; a counter stops at 0.
abbrev pub removed_from : Bool → DriverPoolStats → DriverPoolStats
removed_from was_idle s =
    if was_idle
    then record s {
      idle_connections =
          if Int64.ltb64 0 s.idle_connections
          then Int64.dec s.idle_connections
          else s.idle_connections;
    }
    else record s {
      active_connections =
          if Int64.ltb64 0 s.active_connections
          then Int64.dec s.active_connections
          else s.active_connections;
    }

abbrev pub remove_object : CleanupConfig → ℕ → String → DriverPool → Option Conn → DriverPool
remove_object cfg now id p none = p
remove_object cfg now id p (some c) =
    if should_cleanup cfg now c
    then record p {
      members = without_name id p.members;
      stats = record (removed_from (c.state =ₛ idle) p.stats) {
        destroyed_connections = Int64.inc p.stats.destroyed_connections;
      };
    }
    else p

-- One turn of the loop of cleanupConnections. The forced close runs later, in a goroutine; it does
-- not change the connection's state, and its count of a destroyed connection is made here.
unfoldable pub cleanup_member : CleanupConfig → ℕ → String → DriverPool → DriverPool
unfolding should_cleanup
cleanup_member cfg now id p =
    if has_name id p.members then remove_object cfg now id p (lookup id p.objects) else p

abbrev pub cleanup_all : CleanupConfig → ℕ → List String → DriverPool → DriverPool
cleanup_all cfg now [] p = p
cleanup_all cfg now (id ∷ ids) p = cleanup_all cfg now ids (cleanup_member cfg now id p)

-- cleanupConnections, for one protocol.
unfoldable pub cleanup_connections : CleanupConfig → ℕ → DriverPool → DriverPool
unfolding cleanup_member
cleanup_connections cfg now p = cleanup_all cfg now p.members p
