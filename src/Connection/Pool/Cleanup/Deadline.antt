-- ===== src/Connection/Pool/Cleanup/Deadline.antt =====
-- When the cleanup task of connection/pool_enhanced.go removes a connection, and when it must not.
use zabbix_ddl_monitor.Base.{
  ℕ, ◌+◌, ◌-◌, ◌<◌, Bool, true, false, List, [], ◌∷◌, ◌≡◌, ◌⊎◌, ◌↔◌, refl, arith, if◌then◌else◌,
}
use zabbix_ddl_monitor.Base.Int32
use zabbix_ddl_monitor.Connection.Conn
use zabbix_ddl_monitor.Connection.Conn.{Conn}
use zabbix_ddl_monitor.Connection.Conn.Steps.{Op, step, run}
use zabbix_ddl_monitor.Connection.Conn.Steps.Exclusion.{none_of}
use zabbix_ddl_monitor.Connection.State.{
  ConnectionState, idle, connecting, acquired, executing, checking, closing, closed,
}
use zabbix_ddl_monitor.Connection.Health.{HealthConfig, unhealthy}
use zabbix_ddl_monitor.Connection.Pool.Driver.{begin_execute}
use zabbix_ddl_monitor.Connection.Pool.Cleanup.{CleanupConfig, seconds, or_default, should_cleanup}

-- The time after which a connection in this state is removed; a closed one is removed at once.
abbrev pub limit : CleanupConfig → ConnectionState → Bool → ℕ
limit cfg closing r = or_default cfg.stuck_timeout_closing (seconds 60)
limit cfg connecting r = or_default cfg.stuck_timeout_connecting (seconds 30)
limit cfg acquired r = or_default cfg.stuck_timeout_acquired (seconds 600)
limit cfg executing r = or_default cfg.stuck_timeout_executing (seconds 600)
limit cfg checking r = or_default cfg.stuck_timeout_checking (seconds 120)
limit cfg closed r = 0
limit cfg idle r =
    if r then or_default cfg.stuck_timeout_rebuild_idle (seconds 120) else cfg.idle_timeout

by_state :
    (cfg : CleanupConfig) (now : ℕ) (s : ConnectionState) (c : Conn)
    → c.state ≡ s
    → (should_cleanup cfg now c ≡ true) ↔ (
        (Int32.ltb32 0 c.using_count ≡ false)
        × ((c.health_status ≡ unhealthy)
            ⊎ (s ≡ closed)
            ⊎ (limit cfg s c.rebuilding < now - c.last_used)))
unfolding should_cleanup
by_state cfg now idle c h = ground arith
by_state cfg now connecting c h = ground arith
by_state cfg now acquired c h = ground arith
by_state cfg now executing c h = ground arith
by_state cfg now checking c h = ground arith
by_state cfg now closing c h = ground arith
by_state cfg now closed c h = ground arith

-- shouldCleanupConnection asks for the removal of a connection exactly when no use of it is counted
-- and it is unhealthy, or closed, or was last used longer ago than the limit of its state. The limit
-- is the configured time, or where this is 0, what the code puts in its place: 10 minutes for an
-- acquired and for an executing connection, and 2 for an idle one that is being rebuilt, which are
-- not the defaults that the configuration's comments give. It applies to connections that are not
-- idle too.
pub should_cleanup_iff :
    (cfg : CleanupConfig) (now : ℕ) (c : Conn)
    → (should_cleanup cfg now c ≡ true) ↔ (
        (Int32.ltb32 0 c.using_count ≡ false)
        × ((c.health_status ≡ unhealthy)
            ⊎ (c.state ≡ closed)
            ⊎ (limit cfg c.state c.rebuilding < now - c.last_used)))
should_cleanup_iff cfg now c = by_state cfg now c.state c refl

-- The operations that change the count of uses.
abbrev pub counts_uses : Op → Bool
counts_uses Op.acquire_use = true
counts_uses Op.release_use = true
counts_uses _ = false

using_count-step :
    (cfg : HealthConfig) (c : Conn) (op : Op)
    → counts_uses op ≡ false
    → (step cfg c op).using_count ≡ c.using_count
unfolding step
using_count-step cfg c Op.acquire_use h = ground arith
using_count-step cfg c op h = ground arith

using_count-run :
    (cfg : HealthConfig) (c : Conn) (ops : List Op)
    → none_of counts_uses ops ≡ true
    → (run cfg c ops).using_count ≡ c.using_count
unfolding run
using_count-run cfg c [] h = refl
using_count-run cfg c (op ∷ ops) h =
    ground (arith, using_count-run cfg (step cfg c op) ops, using_count-step cfg c op)

in_use_survives :
    (cfg : CleanupConfig) (now : ℕ) (c : Conn)
    → Int32.ltb32 0 c.using_count ≡ true
    → should_cleanup cfg now c ≡ false
unfolding should_cleanup
in_use_survives cfg now c h = ground arith

-- While a task runs an operation on a connection, the cleanup task does not remove it, whatever
-- methods are called on it meanwhile and however late it is; for a count of uses that is not
-- negative and does not overflow.
pub executing_survives :
    (cfg : CleanupConfig) (health : HealthConfig) (now : ℕ) (c : Conn) (ops : List Op)
    → c.using_count + 1 < Int32.half_word
    → none_of counts_uses ops ≡ true
    → should_cleanup cfg now (run health (begin_execute c).0 ops) ≡ false
unfolding begin_execute Conn.acquire_use Conn.transition_state
executing_survives cfg health now c ops h n =
    in_use_survives cfg now _ (ground (arith, using_count-run health (begin_execute c).0 ops))
