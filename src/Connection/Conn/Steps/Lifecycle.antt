-- ===== src/Connection/Conn/Steps/Lifecycle.antt =====
-- What no interleaving of the methods of connection/pooled_connection.go can do to a connection.
use zabbix_ddl_monitor.Base.{ℕ, true, false, List, [], ◌∷◌, ◌≡◌, ◌⊎◌, inl, inr, arith}
use zabbix_ddl_monitor.Connection.State.{ConnectionState, closing, closed, can_transition}
use zabbix_ddl_monitor.Connection.State.Reach.{Reach, here, next, Reach-iff, reachable}
use zabbix_ddl_monitor.Connection.Health.{HealthConfig}
use zabbix_ddl_monitor.Connection.Conn
use zabbix_ddl_monitor.Connection.Conn.{Conn, RebuildReason}
use zabbix_ddl_monitor.Connection.Conn.Steps.{Op, step, run}

-- A step keeps the state or follows the transition table.
step_cases :
    (cfg : HealthConfig) (c : Conn) (op : Op)
    → ((step cfg c op).state ≡ c.state) ⊎ (can_transition c.state (step cfg c op).state ≡ true)
unfolding step can_transition
step_cases cfg c (Op.release now) = ground arith
step_cases cfg c (Op.try_acquire now) = ground arith
step_cases cfg c (Op.transition t) = ground arith
step_cases cfg c (Op.record_health_check now s) = ground arith
step_cases cfg c op = ground arith

Reach-step :
    {s : ConnectionState} (cfg : HealthConfig) (c : Conn) (op : Op)
    → Reach s c.state
    → Reach s (step cfg c op).state
Reach-step cfg c op r = elim (step_cases cfg c op) [ inl e ↦ rw e r | inr st ↦ next r st ]

Reach-run_from :
    {s : ConnectionState} (cfg : HealthConfig) (c : Conn) (ops : List Op)
    → Reach s c.state
    → Reach s (run cfg c ops).state
unfolding run
Reach-run_from cfg c [] r = r
Reach-run_from cfg c (op ∷ ops) r = Reach-run_from cfg (step cfg c op) ops (Reach-step cfg c op r)

-- Whatever methods run in whatever order, the connection's state at the end is reached from its
-- state at the start by transitions that `CanTransition` allows.
pub Reach-run :
    (cfg : HealthConfig) (c : Conn) (ops : List Op) → Reach c.state (run cfg c ops).state
Reach-run cfg c ops = Reach-run_from cfg c ops here

refused_when_closing :
    (now : ℕ) (c : Conn) (s : ConnectionState)
    → (s ≡ closing) ⊎ (s ≡ closed)
    → reachable s c.state ≡ true
    → ((Conn.try_acquire_for_task now c).1 ≡ false)
      × ((Conn.begin_rebuild c).1 ≡ false)
      × ((Conn.begin_health_check c).1 ≡ false)
unfolding Conn.try_acquire_for_task Conn.begin_rebuild Conn.begin_health_check can_transition
refused_when_closing now c s h r = ground arith

-- A connection that is closing or closed is never handed out again, rebuilt or checked, whatever
-- methods run in between.
pub closing_is_final :
    (cfg : HealthConfig) (c : Conn) (ops : List Op) (now : ℕ)
    → (c.state ≡ closing) ⊎ (c.state ≡ closed)
    → let d = run cfg c ops in
      ((Conn.try_acquire_for_task now d).1 ≡ false)
      × ((Conn.begin_rebuild d).1 ≡ false)
      × ((Conn.begin_health_check d).1 ≡ false)
closing_is_final cfg c ops now h =
    refused_when_closing now (run cfg c ops) c.state h ((Reach-iff _ _).0 (Reach-run cfg c ops))
