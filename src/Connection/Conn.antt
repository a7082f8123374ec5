-- ===== src/Connection/Conn.antt =====
-- connection/pooled_connection.go: a pooled connection and its methods. Each method holds the
-- connection's lock or is one atomic instruction, so it is one step from a state to a state.
-- Times are nanoseconds since a fixed start (`none` is Go's zero time); logging is left out.
pub mod Steps
pub mod Checks
use zabbix_ddl_monitor.Base.{
  ℕ, zero, suc, Bool, true, false, String, Option, none, some, ◌==◌, ◌&&◌, ◌||◌, not, if◌then◌else◌,
}
use zabbix_ddl_monitor.Base.Int32
use zabbix_ddl_monitor.Base.Int64
use zabbix_ddl_monitor.Connection.State.{
  ConnectionState, idle, acquired, checking, closing, closed, ◌=ₛ◌, can_transition,
}
use zabbix_ddl_monitor.Connection.Health.{
  HealthStatus, healthy, degraded, unhealthy, ◌=ₕ◌, HealthConfig,
}

-- Why a connection was marked: the text that the code formats, as the values that it prints.
pub data RebuildReason : Type 0 where
  no_reason : RebuildReason
  usage_count_exceeded : ℕ → ℕ → RebuildReason
  age_exceeded : ℕ → ℕ → RebuildReason
  error_rate_exceeded : ℕ → ℕ → RebuildReason
  all_conditions_met : ℕ → ℕ → ℕ → ℕ → RebuildReason
  health_check_failed : ℕ → RebuildReason
  health_check_degraded : ℕ → RebuildReason

pub record Conn : Type 0 where
  pub id : String
  pub protocol : String
  pub created_at : ℕ
  pub last_used : ℕ
  pub usage_count : ℕ  -- int64
  pub state : ConnectionState
  pub rebuilding : Bool
  pub last_rebuilt_at : Option ℕ
  pub marked_for_rebuild : ℕ  -- int32, 0 or 1
  pub rebuild_reason : RebuildReason
  pub health_status : HealthStatus
  pub last_health_check : Option ℕ
  pub consecutive_failures : ℕ  -- int
  pub total_requests : ℕ  -- int64
  pub total_errors : ℕ  -- int64
  pub using_count : ℕ  -- int32

-- transitionStateLocked, and transitionState, which takes the lock around it.
unfoldable pub transition_state : Conn → ConnectionState → Conn × Bool
unfolding can_transition
transition_state c target =
    if can_transition c.state target then (record c { state = target }, true) else (c, false)

-- tryAcquireForTask
unfoldable pub try_acquire_for_task : ℕ → Conn → Conn × Bool
unfolding transition_state
try_acquire_for_task now c =
    if Int32.ltb32 0 c.using_count
    then (c, false)
    else if not (c.state =ₛ idle)
    then (c, false)
    else if c.health_status =ₕ unhealthy
    then (c, false)
    else if c.rebuilding
    then (c, false)
    else let (d, moved) = transition_state c acquired in
      if moved
      then (record d { last_used = now; usage_count = Int64.inc d.usage_count }, true)
      else (c, false)

-- release
unfoldable pub release : ℕ → Conn → Conn
unfolding transition_state
release now c =
    if not (c.state =ₛ acquired)
    then c
    else let (d, moved) = transition_state c idle in
      if moved then record d { last_used = now } else (transition_state d closing).0

-- markForRebuildWithReason and markForRebuildWithReasonLocked: a compare-and-swap of the mark. The
-- first of them writes the reason after it, under a lock of its own, which is one step here.
unfoldable pub mark_for_rebuild_with_reason : RebuildReason → Conn → Conn × Bool
mark_for_rebuild_with_reason reason c =
    if c.marked_for_rebuild == 0
    then (record c { marked_for_rebuild = 1; rebuild_reason = reason }, true)
    else (c, false)

unfoldable pub clear_rebuild_mark : Conn → Conn
clear_rebuild_mark c = record c { marked_for_rebuild = 0 }

unfoldable pub is_marked_for_rebuild : Conn → Bool
is_marked_for_rebuild c = c.marked_for_rebuild == 1

-- setHealthLocked: the flag `valid` is ignored by the code.
unfoldable pub set_health : HealthStatus → Conn → Conn
set_health status c = record c { health_status = status }

abbrev mark_if : Bool → RebuildReason → Conn → Conn
mark_if trigger reason c = if trigger then (mark_for_rebuild_with_reason reason c).0 else c

-- The failed branch of recordHealthCheck, after the counter was raised.
unfoldable pub judge_failure : HealthConfig → Conn → Conn
unfolding set_health mark_for_rebuild_with_reason
judge_failure cfg c =
    if Int64.leb64 cfg.unhealthy_failure_threshold n
    then mark_if cfg.health_check_trigger_rebuild (health_check_failed n) (set_health unhealthy c)
    else if Int64.leb64 cfg.degraded_failure_threshold n
    then mark_if cfg.rebuild_on_degraded (health_check_degraded n) (set_health degraded c)
    else set_health healthy c
  where
    open c use {consecutive_failures as n}

-- The end of recordHealthCheck: a connection under check becomes acquired.
unfoldable pub leave_checking : Conn → Conn
unfolding transition_state
leave_checking c = if c.state =ₛ checking then (transition_state c acquired).0 else c

-- recordHealthCheck; the error's text is only logged.
unfoldable pub record_health_check : HealthConfig → ℕ → Bool → Conn → Conn
unfolding judge_failure leave_checking set_health
record_health_check cfg now success c = leave_checking (
    if success
    then set_health healthy (record c { last_health_check = some now; consecutive_failures = 0 })
    else judge_failure cfg (record c {
      last_health_check = some now;
      consecutive_failures = Int64.inc c.consecutive_failures;
    }))

unfoldable pub begin_health_check : Conn → Conn × Bool
unfolding transition_state
begin_health_check c = transition_state c checking

unfoldable pub complete_health_check : Bool → Conn → Conn × Bool
unfolding transition_state
complete_health_check success c =
    if not (c.state =ₛ checking)
    then (c, false)
    else transition_state c (if success then idle else closing)

unfoldable pub begin_rebuild : Conn → Conn × Bool
begin_rebuild c =
    if c.rebuilding
    then (c, false)
    else if c.state =ₛ closing || c.state =ₛ closed
    then (c, false)
    else (record c { rebuilding = true }, true)

unfoldable pub complete_rebuild : Bool → Conn → Conn
complete_rebuild success c =
    if not c.rebuilding
    then c
    else if success
    then record c { rebuilding = false; marked_for_rebuild = 0 }
    else record c { rebuilding = false }

unfoldable pub begin_close : Conn → Conn × Bool
unfolding transition_state
begin_close c = transition_state c closing

unfoldable pub complete_close : Conn → Conn × Bool
unfolding transition_state
complete_close c = if not (c.state =ₛ closing) then (c, false) else transition_state c closed

-- acquireUse and releaseUse: atomic additions to an int32.
unfoldable pub acquire_use : Conn → Conn
acquire_use c = record c { using_count = Int32.inc c.using_count }

unfoldable pub release_use : Conn → Conn
release_use c = record c { using_count = Int32.dec c.using_count }

-- The two counters of recordRequest and of MonitoredDriver.Execute.
unfoldable pub count_request : Bool → Conn → Conn
count_request success c = record c {
  total_requests = Int64.inc c.total_requests;
  total_errors = if success then c.total_errors else Int64.inc c.total_errors;
}

unfoldable pub set_last_rebuilt_at : ℕ → Conn → Conn
set_last_rebuilt_at t c = record c { last_rebuilt_at = some t }

unfoldable pub is_available : Conn → Bool
is_available c = c.state =ₛ idle && not (c.health_status =ₕ unhealthy)

unfoldable pub is_idle : Conn → Bool
is_idle c = c.state =ₛ idle

unfoldable pub is_healthy : Conn → Bool
is_healthy c = not (c.health_status =ₕ unhealthy)
