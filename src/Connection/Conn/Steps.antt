-- ===== src/Connection/Conn/Steps.antt =====
-- The methods of connection/pooled_connection.go as the steps of one machine, in any order: each
-- method is atomic, so a list of operations is an interleaving of the goroutines that share the
-- connection.
pub mod Lifecycle
pub mod Exclusion
use zabbix_ddl_monitor.Base.{ℕ, Bool, true, false, List, [], ◌∷◌}
use zabbix_ddl_monitor.Connection.State.{ConnectionState}
use zabbix_ddl_monitor.Connection.Health.{HealthStatus, HealthConfig}
use zabbix_ddl_monitor.Connection.Conn
use zabbix_ddl_monitor.Connection.Conn.{Conn, RebuildReason}

pub data Op : Type 0 where
  try_acquire : ℕ → Op
  release : ℕ → Op
  transition : ConnectionState → Op
  set_health : HealthStatus → Op
  record_health_check : ℕ → Bool → Op
  begin_health_check : Op
  complete_health_check : Bool → Op
  mark : RebuildReason → Op
  clear_mark : Op
  begin_rebuild : Op
  complete_rebuild : Bool → Op
  begin_close : Op
  complete_close : Op
  acquire_use : Op
  release_use : Op
  count_request : Bool → Op

module _ (cfg : HealthConfig) where
  -- The state after a method call; what the call returns is dropped.
  unfoldable pub step : Conn → Op → Conn
  unfolding Conn.try_acquire_for_task Conn.release Conn.transition_state Conn.set_health
      Conn.record_health_check Conn.begin_health_check Conn.complete_health_check
      Conn.mark_for_rebuild_with_reason Conn.clear_rebuild_mark Conn.begin_rebuild
      Conn.complete_rebuild Conn.begin_close Conn.complete_close Conn.acquire_use Conn.release_use
      Conn.count_request
  step c (try_acquire now) = (Conn.try_acquire_for_task now c).0
  step c (release now) = Conn.release now c
  step c (transition target) = (Conn.transition_state c target).0
  step c (set_health status) = Conn.set_health status c
  step c (record_health_check now success) = Conn.record_health_check cfg now success c
  step c begin_health_check = (Conn.begin_health_check c).0
  step c (complete_health_check success) = (Conn.complete_health_check success c).0
  step c (mark reason) = (Conn.mark_for_rebuild_with_reason reason c).0
  step c clear_mark = Conn.clear_rebuild_mark c
  step c begin_rebuild = (Conn.begin_rebuild c).0
  step c (complete_rebuild success) = Conn.complete_rebuild success c
  step c begin_close = (Conn.begin_close c).0
  step c complete_close = (Conn.complete_close c).0
  step c acquire_use = Conn.acquire_use c
  step c release_use = Conn.release_use c
  step c (count_request success) = Conn.count_request success c

  unfoldable pub run : Conn → List Op → Conn
  run c [] = c
  run c (op ∷ ops) = run (step c op) ops
