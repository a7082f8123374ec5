-- ===== src/Connection/Rebuild.antt =====
-- connection/rebuild_manager.go: the decision that a connection is due for a rebuild, and its mark.
-- An evaluation is one step: it reads the connection and the clock once.
pub mod Decision
pub mod Reason
use zabbix_ddl_monitor.Base.{
  ℕ, ◌+◌, ◌-◌, Bool, true, false, String, Option, none, some, List, [], ◌∷◌, ◌==◌, ◌&&◌, ◌||◌, not,
  leb, ltb, str_eq, if◌then◌else◌,
}
use zabbix_ddl_monitor.Base.Int64
use zabbix_ddl_monitor.Connection.State.{closing, closed, ◌=ₛ◌}
use zabbix_ddl_monitor.Connection.Conn.{
  Conn, RebuildReason, no_reason, usage_count_exceeded, age_exceeded, error_rate_exceeded,
  all_conditions_met, mark_for_rebuild_with_reason, is_marked_for_rebuild, is_idle,
}
use zabbix_ddl_monitor.Connection.Float.{Float64}
use zabbix_ddl_monitor.Connection.Events.{
  Sink, send_event, collect, rebuild_marked, rebuild_started, rebuild_completed,
  increment_rebuild_marked, increment_connections_needing_rebuild, increment_rebuild_started,
  increment_rebuilding_connections, decrement_rebuilding_connections, record_rebuild_duration,
  increment_rebuild_completed, increment_rebuild_failed,
}

-- The values of RebuildStrategy (connection/types.go).
pub data Strategy : Type 0 where
  usage age error all any : Strategy

-- The switch of evaluateByStrategyAndMark: anything else means `any`.
unfoldable pub strategy_of : String → Strategy
strategy_of s =
    if str_eq s "usage"
    then usage
    else if str_eq s "age"
    then age
    else if str_eq s "error"
    then error
    else if str_eq s "all"
    then all
    else any

-- The fields of EnhancedConnectionConfig that the manager reads. Counts are int64 patterns,
-- durations are nanoseconds and not negative.
pub record RebuildConfig (F : Type 0) : Type 0 where
  pub smart_rebuild_enabled : Bool
  pub rebuild_max_usage_count : ℕ
  pub rebuild_max_age : ℕ
  pub rebuild_max_error_rate : F
  pub rebuild_min_interval : ℕ
  pub rebuild_min_requests_for_error_rate : ℕ
  pub rebuild_strategy : String

-- The second result of the evaluation, as the values that its text prints.
pub data Outcome : Type 0 where
  already_marked marked : RebuildReason → Outcome
  rebuild_disabled interval_too_short invalid_state already_marked_by_other : Outcome
  usage_count_ok age_ok insufficient_requests error_rate_ok : ℕ → ℕ → Outcome
  no_requests no_conditions_met : Outcome
  not_all_conditions : Bool → Bool → Bool → Outcome

pub record Verdict : Type 0 where
  pub conn : Conn
  pub sink : Sink
  pub did_mark : Bool
  pub outcome : Outcome

-- sendRebuildMarkedEvent
unfoldable pub send_rebuild_marked_event : Conn → RebuildReason → Sink → Sink
unfolding send_event collect
send_rebuild_marked_event c reason s =
    collect
      (increment_rebuild_marked c.protocol reason
        ∷ increment_connections_needing_rebuild c.protocol
        ∷ [])
      (send_event (rebuild_marked c.protocol c.id reason) s)

-- sendRebuildStartedEvent
unfoldable pub send_rebuild_started_event : Conn → Sink → Sink
unfolding send_event collect
send_rebuild_started_event c s =
    collect
      (increment_rebuild_started c.protocol ∷ increment_rebuilding_connections c.protocol ∷ [])
      (send_event (rebuild_started c.protocol c.id) s)

-- sendRebuildCompletedEvent
unfoldable pub send_rebuild_completed_event : Conn → ℕ → Bool → Sink → Sink
unfolding send_event collect
send_rebuild_completed_event c duration success s =
    collect
      (record_rebuild_duration c.protocol duration
        ∷ decrement_rebuilding_connections c.protocol
        ∷ (if success
            then increment_rebuild_completed c.protocol
            else increment_rebuild_failed c.protocol)
        ∷ [])
      (send_event (rebuild_completed c.protocol c.id success) s)

-- The tail that every strategy shares: mark, tell, and report.
unfoldable pub try_mark : Conn → Sink → RebuildReason → Verdict
unfolding mark_for_rebuild_with_reason send_rebuild_marked_event
try_mark c s reason =
    let (d, done) = mark_for_rebuild_with_reason reason c in
    if done
    then record {
      conn = d;
      sink = send_rebuild_marked_event d reason s;
      did_mark = true;
      outcome = marked reason;
    }
    else record { conn = d; sink = s; did_mark = false; outcome = already_marked_by_other }

abbrev pub refuse : Conn → Sink → Outcome → Verdict
refuse c s o = record { conn = c; sink = s; did_mark = false; outcome = o }

-- checkRebuildInterval: from the last rebuild, or from the creation if there was none.
unfoldable pub check_rebuild_interval : ℕ → Conn → ℕ → Bool
check_rebuild_interval min_interval c now =
    not (ltb now ((elim c.last_rebuilt_at [ none ↦ c.created_at | some t ↦ t ]) + min_interval))

-- checkConnectionState
unfoldable pub check_connection_state : Conn → Bool
unfolding is_idle
check_connection_state c =
    not (not (is_idle c) || c.rebuilding || c.state =ₛ closing || c.state =ₛ closed)

module _ (fl : Float64) where
  open fl use {Float, of_int, div, leb as leb_float}

  unfoldable error_rate : Conn → Float
  error_rate c = div (of_int c.total_errors) (of_int c.total_requests)

  module _ (cfg : RebuildConfig Float) where
    open cfg use {
      rebuild_max_usage_count as max_usage, rebuild_max_age as max_age,
      rebuild_max_error_rate as max_rate, rebuild_min_requests_for_error_rate as min_requests,
    }

    -- The three tests, as each strategy writes them.
    unfoldable pub usage_exceeded : Conn → Bool
    usage_exceeded c = Int64.leb64 max_usage c.usage_count

    unfoldable pub age_is_exceeded : Conn → ℕ → Bool
    age_is_exceeded c now = leb (c.created_at + max_age) now

    unfoldable pub rate_exceeded : Conn → Bool
    unfolding error_rate
    rate_exceeded c = leb_float max_rate (error_rate c)

    unfoldable pub evaluate_usage_and_mark : Conn → Sink → Verdict
    evaluate_usage_and_mark c s =
        if usage_exceeded c
        then try_mark c s (usage_count_exceeded c.usage_count max_usage)
        else refuse c s (usage_count_ok c.usage_count max_usage)

    unfoldable pub evaluate_age_and_mark : Conn → ℕ → Sink → Verdict
    evaluate_age_and_mark c now s =
        if age_is_exceeded c now
        then try_mark c s (age_exceeded (now - c.created_at) max_age)
        else refuse c s (age_ok (now - c.created_at) max_age)

    unfoldable pub evaluate_error_and_mark : Conn → Sink → Verdict
    evaluate_error_and_mark c s =
        if Int64.ltb64 c.total_requests min_requests
        then refuse c s (insufficient_requests c.total_requests min_requests)
        else if Int64.ltb64 0 c.total_requests
        then if rate_exceeded c
          then try_mark c s (error_rate_exceeded c.total_requests c.total_errors)
          else refuse c s (error_rate_ok c.total_requests c.total_errors)
        else refuse c s no_requests

    -- The nested error test of the strategies `all` and `any`.
    unfoldable pub error_condition : Conn → Bool
    unfolding rate_exceeded
    error_condition c =
        if Int64.leb64 min_requests c.total_requests
        then if Int64.ltb64 0 c.total_requests then rate_exceeded c else false
        else false

    abbrev one : Bool → ℕ
    one b = if b then 1 else 0

    unfoldable pub evaluate_all_and_mark : Conn → ℕ → Sink → Verdict
    evaluate_all_and_mark c now s =
        let u = usage_exceeded c in
        let a = age_is_exceeded c now in
        let e = error_condition c in
        if one u + one a + one e == 3
        then try_mark c s
            (all_conditions_met c.usage_count (now - c.created_at) c.total_requests c.total_errors)
        else refuse c s (not_all_conditions u a e)

    unfoldable pub evaluate_any_and_mark : Conn → ℕ → Sink → Verdict
    evaluate_any_and_mark c now s =
        if usage_exceeded c
        then try_mark c s (usage_count_exceeded c.usage_count max_usage)
        else if age_is_exceeded c now
        then try_mark c s (age_exceeded (now - c.created_at) max_age)
        else if error_condition c
        then try_mark c s (error_rate_exceeded c.total_requests c.total_errors)
        else refuse c s no_conditions_met

    unfoldable pub evaluate_by_strategy_and_mark : Strategy → Conn → ℕ → Sink → Verdict
    unfolding evaluate_usage_and_mark evaluate_age_and_mark evaluate_error_and_mark
        evaluate_all_and_mark evaluate_any_and_mark
    evaluate_by_strategy_and_mark usage c now s = evaluate_usage_and_mark c s
    evaluate_by_strategy_and_mark age c now s = evaluate_age_and_mark c now s
    evaluate_by_strategy_and_mark error c now s = evaluate_error_and_mark c s
    evaluate_by_strategy_and_mark all c now s = evaluate_all_and_mark c now s
    evaluate_by_strategy_and_mark any c now s = evaluate_any_and_mark c now s

    unfoldable pub evaluate_and_mark : Conn → ℕ → Sink → Verdict
    unfolding is_marked_for_rebuild check_rebuild_interval check_connection_state
        evaluate_by_strategy_and_mark
    evaluate_and_mark c now s =
        if is_marked_for_rebuild c
        then refuse c s (already_marked c.rebuild_reason)
        else if not cfg.smart_rebuild_enabled
        then refuse c s rebuild_disabled
        else if not (check_rebuild_interval cfg.rebuild_min_interval c now)
        then refuse c s interval_too_short
        else if not (check_connection_state c)
        then refuse c s invalid_state
        else evaluate_by_strategy_and_mark (strategy_of cfg.rebuild_strategy) c now s

    -- ShouldRebuild
    unfoldable pub should_rebuild : Conn → ℕ → Sink → Verdict
    should_rebuild c now s =
        if is_marked_for_rebuild c
        then record {
          conn = c;
          sink = s;
          did_mark = true;
          outcome = already_marked c.rebuild_reason;
        }
        else evaluate_and_mark c now s
