-- ===== src/Task/Executor/Statuses.antt =====
-- The statuses of the executor's results in task/executor.go, and the metrics they become.
use zabbix_ddl_monitor.Base.{
  ℕ, zero, suc, Bool, true, false, not, ◌||◌, String, Option, none, some, ◌≡◌, refl, ap, ◌∙◌,
  if◌then◌else◌, if_both, ◌==◌,
}
use zabbix_ddl_monitor.Base.Map.{Map, lookup}
use zabbix_ddl_monitor.Base.Text.{Text, codes, text_eq, contains, to_lower}
use zabbix_ddl_monitor.Task.Ping.{
  Value, text, int, duration, other, ParamError, validate_params, BuildResult, built,
  unsupported_platform, unsupported_type, missing_target, wrong_target, wrong_repeat, wrong_timeout,
  build_command,
}
use zabbix_ddl_monitor.Task.Ping.Output.{PingData}
use zabbix_ddl_monitor.Task.Ping.Output.H3c.{
  output, parsed, parse_output, parse_platform, parse_for,
}
use zabbix_ddl_monitor.Task.Ping.Verdicts.{IsSound, status_of}
use zabbix_ddl_monitor.Task.Ping.Loss.{parse_platform-IsSound}
use zabbix_ddl_monitor.Task.Ping.Results.{status_text, wrap, status-result_data}
use zabbix_ddl_monitor.Task.Executor.{
  Outcome, Answer, fails, answers, Surroundings, refused, error_status, of_parse, target_of,
  TaskContext, after_run, with_command, validate_capability, when_valid, core, is_good, pause,
  retry_loop, execute,
}

-- There is a status, and it is "CheckFinished" exactly for a success.
abbrev pub HasStatus : Outcome → Type 0
HasStatus o =
    (s : Text) × (lookup "status" o.values ≡ some (text s))
    × (text_eq s (codes "CheckFinished") ≡ o.success)

refused-HasStatus : (s : Text) → text_eq s (codes "CheckFinished") ≡ false → HasStatus (refused s)
unfolding lookup
refused-HasStatus s e = (s, refl, e)

error_status-other :
    (late : Bool) (m : Text) → text_eq (error_status late m) (codes "CheckFinished") ≡ false
error_status-other true m = refl
error_status-other false m =
    if_both (λ s. text_eq s (codes "CheckFinished") ≡ false)
      (contains (codes "connection") (to_lower m)
        || (contains (codes "connect") (to_lower m) || contains (codes "timeout") (to_lower m)))
      (codes "ConnectionError") (codes "ExecutionError") refl refl

-- The status of a parsed result.
parsed-HasStatus :
    (ip raw : Text) (r : Bool × PingData) → IsSound r → HasStatus (of_parse ip raw (parsed r.0 r.1))
parsed-HasStatus ip raw r h = (
  status_text (status_of r.0),
  status-result_data ip raw r.1 ∙ ap (wrap (λ s. text (status_text s))) h.0,
  finished r.0,
)
  where
    finished : (b : Bool) → text_eq (status_text (status_of b)) (codes "CheckFinished") ≡ b
    finished true = refl
    finished false = refl

failed-HasStatus : HasStatus (refused (codes "ParseResultFailed"))
failed-HasStatus = refused-HasStatus (codes "ParseResultFailed") refl

of_parse-HasStatus :
    (ip raw : Text) (p : String) (ps : Map Value)
    → HasStatus (of_parse ip raw (parse_output p ps (output raw)))
unfolding parse_output
of_parse-HasStatus ip raw p ps = by_target (lookup "target_ip" ps)
  where
    by_target : (o : Option Value) → HasStatus (of_parse ip raw (parse_for p raw o))
    by_target (some (text t)) =
        parsed-HasStatus ip raw (parse_platform p raw) (parse_platform-IsSound p raw)
    by_target none = failed-HasStatus
    by_target (some (int n)) = failed-HasStatus
    by_target (some (duration n)) = failed-HasStatus
    by_target (some other) = failed-HasStatus

execution-HasStatus : HasStatus (refused (codes "ExecutionError"))
execution-HasStatus = refused-HasStatus (codes "ExecutionError") refl

module _ {W : Type 0} (env : Surroundings W) where
  after_run-HasStatus : (c : TaskContext) (a : W × Answer) → HasStatus (after_run env c a).1
  after_run-HasStatus c (w, fails m) =
      refused-HasStatus (error_status (env.is_late w) m) (error_status-other (env.is_late w) m)
  after_run-HasStatus c (w, answers raw) =
      of_parse-HasStatus (target_of (lookup "target_ip" c.params)) raw c.platform c.params

  with_command-HasStatus :
      (c : TaskContext) (r : BuildResult) (w : W) → HasStatus (with_command env c r w).1
  with_command-HasStatus c (built command) w = after_run-HasStatus c (env.run command w)
  with_command-HasStatus c missing_target w = execution-HasStatus
  with_command-HasStatus c wrong_target w = execution-HasStatus
  with_command-HasStatus c wrong_repeat w = execution-HasStatus
  with_command-HasStatus c wrong_timeout w = execution-HasStatus
  with_command-HasStatus c unsupported_platform w = execution-HasStatus
  with_command-HasStatus c unsupported_type w = execution-HasStatus

  when_valid-HasStatus :
      (c : TaskContext) (o : Option ParamError) (w : W) → HasStatus (when_valid env c o w).1
  when_valid-HasStatus c (some e) w = execution-HasStatus
  when_valid-HasStatus c none w =
      if_both (λ (t : W × Outcome). HasStatus t.1) (not (validate_capability env c))
        (w, refused (codes "ConnectionError"))
        (with_command env c (build_command c.platform c.command_type c.params) w)
        (refused-HasStatus (codes "ConnectionError") refl)
        (with_command-HasStatus c (build_command c.platform c.command_type c.params) w)

  core-HasStatus : (c : TaskContext) (w : W) → HasStatus (core env c w).1
  unfolding core
  core-HasStatus c w = when_valid-HasStatus c (validate_params c.params) w

  pause-HasStatus :
      (next : W → W × Outcome) (last : Outcome) (t : W × Bool)
      → ((w : W) → HasStatus (next w).1)
      → HasStatus last
      → HasStatus (pause env next last t).1
  pause-HasStatus next last (w, true) f h = h
  pause-HasStatus next last (w, false) f h = f w

  retry_loop-HasStatus :
      (delay : ℕ → ℕ) (c : TaskContext) (left attempt : ℕ) (w : W)
      → HasStatus (retry_loop env delay c left attempt w).1
  unfolding retry_loop
  retry_loop-HasStatus delay c zero attempt w = core-HasStatus c w
  retry_loop-HasStatus delay c (suc left) attempt w =
      let first = core env c w in
      let next : W → W × Outcome = λ u. retry_loop env delay c left (suc attempt) u in
      if_both (λ (t : W × Outcome). HasStatus t.1) (is_good env first.1) (first.0, first.1)
        (pause env next first.1 (env.wait (delay attempt) first.0)) (core-HasStatus c w)
        (pause-HasStatus next first.1 (env.wait (delay attempt) first.0)
          (λ u. retry_loop-HasStatus delay c left (suc attempt) u) (core-HasStatus c w))

  -- Whatever the driver, the context and the device do, the result of the executor has a status, and
  -- this is "CheckFinished" exactly if the result is a success.
  pub execute-HasStatus :
      (timeout max_retries : ℕ) (delay : ℕ → ℕ) (c : TaskContext) (w : W)
      → HasStatus (execute env timeout max_retries delay c w).1
  unfolding execute
  execute-HasStatus timeout max_retries delay c w =
      retry_loop-HasStatus delay c max_retries 0
        (env.set_deadline (if timeout == 0 then 60000000000 else timeout) w)
