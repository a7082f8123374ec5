-- ===== src/Tests/Connections.antt =====
-- Runs of the connection's methods and of the rebuild decision.
use zabbix_ddl_monitor.Base.{ℕ, ◌*◌, true, false, ◌&&◌, none, some, List, [], ◌∷◌, ◌≡◌, refl, leb}
use zabbix_ddl_monitor.Connection.State.{idle, closing, can_transition}
use zabbix_ddl_monitor.Connection.Health.{HealthConfig, healthy}
use zabbix_ddl_monitor.Connection.Conn.{Conn, no_reason, usage_count_exceeded, try_acquire_for_task}
use zabbix_ddl_monitor.Connection.Conn.Steps.{Op, run}
use zabbix_ddl_monitor.Connection.Conn.Steps.Exclusion.{acquire_exclusive}
use zabbix_ddl_monitor.Connection.Float.{Float64}
use zabbix_ddl_monitor.Connection.Events.{Sink}
use zabbix_ddl_monitor.Connection.Rebuild.{RebuildConfig, strategy_of, evaluate_and_mark}
use zabbix_ddl_monitor.Connection.Rebuild.Decision.{did_mark-evaluate_and_mark, allowed, asks}

abbrev fresh : Conn
fresh = record {
  id = "conn-1";
  protocol = "ssh";
  created_at = 0;
  last_used = 0;
  usage_count = 7;
  state = idle;
  rebuilding = false;
  last_rebuilt_at = none;
  marked_for_rebuild = 0;
  rebuild_reason = no_reason;
  health_status = healthy;
  last_health_check = none;
  consecutive_failures = 0;
  total_requests = 20;
  total_errors = 1;
  using_count = 0;
}

abbrev settings : HealthConfig
settings = record {
  unhealthy_failure_threshold = 3;
  degraded_failure_threshold = 1;
  health_check_trigger_rebuild = true;
  rebuild_on_degraded = false;
}

abbrev busy_ops : List Op
busy_ops =
    Op.record_health_check 6 false ∷ Op.mark (usage_count_exceeded 8 5) ∷ Op.begin_rebuild ∷ []

acquire_exclusive_example :
    (try_acquire_for_task 9 (run settings (try_acquire_for_task 5 fresh).0 busy_ops)).1 ≡ false
unfolding try_acquire_for_task can_transition
acquire_exclusive_example = acquire_exclusive settings fresh busy_ops 5 9 refl refl

abbrev ending : Conn
ending = record fresh { state = closing }

-- Fractions of naturals in place of Go's float64.
abbrev pub fractions : Float64
fractions = record {
  Float = ℕ × ℕ;
  of_int = λ n. (n, 1);
  div = λ (a, b) (c, d). (a * d, b * c);
  leb = λ (a, b) (c, d). leb (a * d) (c * b);
}

abbrev rebuilds : RebuildConfig (ℕ × ℕ)
rebuilds = record {
  smart_rebuild_enabled = true;
  rebuild_max_usage_count = 5;
  rebuild_max_age = 100;
  rebuild_max_error_rate = (1, 5);
  rebuild_min_interval = 10;
  rebuild_min_requests_for_error_rate = 10;
  rebuild_strategy = "usage";
}

abbrev quiet : Sink
quiet = record { event_chan = some (record { capacity = 1; queued = [] }); collector = some [] }

did_mark-evaluate_and_mark_example :
    (evaluate_and_mark fractions rebuilds fresh 50 quiet).did_mark ≡ (
      allowed fractions rebuilds fresh 50 && asks fractions rebuilds (strategy_of "usage") fresh 50)
did_mark-evaluate_and_mark_example = did_mark-evaluate_and_mark fractions rebuilds fresh 50 quiet
