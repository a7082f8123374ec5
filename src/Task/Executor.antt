-- ===== src/Task/Executor.antt =====
-- task/executor.go: the executor of NewExecutor for the ping task, with the middlewares that the
-- asynchronous executor of a router is built with. The driver, the context and the clock act on a
-- world `W`: they are arguments. The texts of errors are for logs, but for the driver's, whose words
-- decide the status.
pub mod Statuses
use zabbix_ddl_monitor.Base.{
  ℕ, zero, suc, ◌+◌, Bool, true, false, not, ◌&&◌, ◌||◌, String, Option, none, some, List, [], ◌∷◌,
  str_eq, ◌==◌, if◌then◌else◌,
}
use zabbix_ddl_monitor.Base.Map.{Map, lookup}
use zabbix_ddl_monitor.Base.Text.{Text, codes, contains, to_lower}
use zabbix_ddl_monitor.Task.Ping.{
  Value, text, ParamError, validate_params, Command, BuildResult, built, build_command,
}
use zabbix_ddl_monitor.Task.Ping.Output.{PingData}
use zabbix_ddl_monitor.Task.Ping.Output.H3c.{
  Raw, output, ParseResult, parsed, unsupported_output, target_missing, parse_output,
}
use zabbix_ddl_monitor.Task.Ping.Results.{result_data}

-- A Result, and whether an error comes with it.
pub record Outcome : Type 0 where
  pub success : Bool
  pub values : Map Value
  pub has_error : Bool

-- What the driver answers: the text of an error, or the raw data.
pub data Answer : Type 0 where
  fails : Text → Answer
  answers : Text → Answer

-- The driver and its capability; the context's deadline; a wait, which says whether the context was
-- done first. `set_deadline` is context.WithTimeout and `drop_deadline` its cancel.
pub record Surroundings (W : Type 0) : Type 0 where
  pub platforms : List String
  pub command_types : List String
  pub run : Command → W → W × Answer
  pub is_late : W → Bool
  pub wait : ℕ → W → W × Bool
  pub set_deadline : ℕ → W → W
  pub drop_deadline : W → W

abbrev pub includes : List String → String → Bool
includes [] s = false
includes (x ∷ xs) s = let rest = includes xs s in if str_eq x s then true else rest

-- A result that is only a status, with an error.
abbrev pub refused : Text → Outcome
refused status = record { success = false; values = ("status", text status) ∷ []; has_error = true }

-- The status of an error of the driver.
abbrev pub error_status : Bool → Text → Text
error_status late message =
    if late
    then codes "CheckTimeout"
    else if contains (codes "connection") (to_lower message)
        || (contains (codes "connect") (to_lower message)
            || contains (codes "timeout") (to_lower message))
    then codes "ConnectionError"
    else codes "ExecutionError"

-- What comes from ParseOutput. Its errors bring the status with them.
abbrev pub of_parse : Text → Text → ParseResult → Outcome
of_parse ip raw (parsed ok d) = record {
  success = ok;
  values = result_data ip raw d;
  has_error = false;
}
of_parse ip raw unsupported_output = refused (codes "ParseResultFailed")
of_parse ip raw target_missing = refused (codes "ParseResultFailed")

abbrev pub target_of : Option Value → Text
target_of (some (text ip)) = ip
target_of _ = []

-- A context for one task: its platform, command type and parameters.
pub record TaskContext : Type 0 where
  pub platform : String
  pub command_type : String
  pub params : Map Value

module _ {W : Type 0} (env : Surroundings W) where
  open env use {platforms, command_types, run, is_late, wait, set_deadline, drop_deadline}

  -- validateCapability
  unfoldable pub validate_capability : TaskContext → Bool
  validate_capability c = includes platforms c.platform && includes command_types c.command_type

  abbrev pub after_run : TaskContext → W × Answer → W × Outcome
  after_run c (w, fails message) = (w, refused (error_status (is_late w) message))
  after_run c (w, answers raw) = (
    w,
    of_parse (target_of (lookup "target_ip" c.params)) raw
        (parse_output c.platform c.params (output raw)),
  )

  abbrev pub with_command : TaskContext → BuildResult → W → W × Outcome
  with_command c (built command) w = after_run c (run command w)
  with_command c r w = (w, refused (codes "ExecutionError"))

  abbrev pub when_valid : TaskContext → Option ParamError → W → W × Outcome
  when_valid c (some e) w = (w, refused (codes "ExecutionError"))
  when_valid c none w =
      if not (validate_capability c)
      then (w, refused (codes "ConnectionError"))
      else with_command c (build_command c.platform c.command_type c.params) w

  -- The core of NewExecutor.
  unfoldable pub core : TaskContext → W → W × Outcome
  core c w = when_valid c (validate_params c.params) w

  -- The loop of WithExponentialRetry, with the retries that are left, the number of the attempt and
  -- the delay after each; it makes at least one attempt, since the count of retries is not negative.
  abbrev pub is_good : Outcome → Bool
  is_good o = not o.has_error && o.success

  abbrev pub pause : (W → W × Outcome) → Outcome → W × Bool → W × Outcome
  pause next last (w, true) = (w, last)
  pause next last (w, false) = next w

  unfoldable pub retry_loop : (ℕ → ℕ) → TaskContext → ℕ → ℕ → W → W × Outcome
  retry_loop delay c zero attempt w = core c w
  retry_loop delay c (suc left) attempt w =
      let (v, o) = core c w in
      let more = pause (λ u. retry_loop delay c left (suc attempt) u) o (wait (delay attempt) v) in
      if is_good o then (v, o) else more

  -- The executor: WithSmartTimeout around WithExponentialRetry around the core. A timeout of 0
  -- becomes a minute.
  unfoldable pub execute : ℕ → ℕ → (ℕ → ℕ) → TaskContext → W → W × Outcome
  execute timeout max_retries delay c w =
      let (v, o) =
        retry_loop delay c max_retries 0
          (set_deadline (if timeout == 0 then 60000000000 else timeout) w) in
      (drop_deadline v, o)
