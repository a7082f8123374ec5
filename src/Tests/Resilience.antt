-- ===== src/Tests/Resilience.antt =====
-- Runs of the circuit breaker and the retrier.
use zabbix_ddl_monitor.Base.{
  ℕ, suc, ◌+◌, ◌*◌, ◌≤◌, true, false, none, some, ◌≡◌, [], ◌∷◌, ◌≢◌, refl, arith, ◌==◌,
}
use zabbix_ddl_monitor.Connection.Breaker.{
  CircuitBreakerConfig, CircuitBreaker, closed, open_, half_open, Attempt, execute_all,
}
use zabbix_ddl_monitor.Connection.Breaker.Recovery.{IsReset, never_closes_again, recovers}
use zabbix_ddl_monitor.Connection.Retry.{RetryPolicy, World}
use zabbix_ddl_monitor.Connection.Resilient as Resilient
use zabbix_ddl_monitor.Connection.Resilient.{ResilientExecutor, Errors}
use zabbix_ddl_monitor.Connection.Resilient.Sparing.{IsSpared, execute-IsSpared}
use zabbix_ddl_monitor.Connection.Retry.Bounds.{unrestricted}
use zabbix_ddl_monitor.Tests.Connections.{fractions}

abbrev defaults : CircuitBreakerConfig (ℕ × ℕ)
defaults = record {
  max_failures = 5;
  reset_timeout = 60;
  failure_threshold = (1, 2);
  min_requests = 30;
  max_requests = 5;
}

abbrev roomy : CircuitBreakerConfig (ℕ × ℕ)
roomy = record defaults { min_requests = 2; max_requests = 3 }

abbrev fresh : CircuitBreaker
fresh = record {
  state = closed;
  failures = 0;
  requests = 0;
  successes = 0;
  last_fail_time = none;
  next_retry_time = 0;
  half_open_requests = 0;
  half_open_failures = 0;
  changes = none;
}

abbrev opened : CircuitBreaker
opened = record fresh { state = open_; next_retry_time = 100 }

abbrev probing : CircuitBreaker
probing = record fresh { state = half_open }

abbrev early : Attempt
early = record { start = 90; finish = 95; succeeds = true }

abbrev late : Attempt
late = record { start = 110; finish = 115; succeeds = true }

never_closes_again_example :
    (execute_all fractions defaults (early ∷ late ∷ late ∷ []) opened).state ≢ closed
never_closes_again_example =
    never_closes_again fractions defaults (early ∷ late ∷ late ∷ []) opened (omega arith)
      (omega arith) (omega arith) refl

recovers_example : IsReset fractions roomy (execute_all fractions roomy (late ∷ late ∷ []) opened)
recovers_example =
    recovers fractions roomy late (late ∷ []) opened refl (omega arith) refl refl (omega arith)
      (omega arith)

-- A world with the time and the number of runs of an operation that always fails.
abbrev timed : World (ℕ × ℕ) ℕ
timed = record {
  operation = λ (t, runs). ((t, suc runs), some 7);
  is_done = λ w. false;
  count_retry = λ w. w;
  wait = λ d (t, runs). ((t + d, runs), false);
}

-- Nothing has run, and the time is at most 20 for each attempt made.
abbrev Untouched : ℕ → ℕ × ℕ → Type 0
Untouched n w = (w.0 ≤ 20 * n) × (w.1 ≡ 0)

abbrev numbered : Errors ℕ
numbered = record { circuit_open = 1; retry_cancelled = 2; retries_exceeded = λ last. 3 }

abbrev patient : RetryPolicy ℕ
patient = unrestricted (λ a b. a == b) (λ n. 20) 3

abbrev resilient : ResilientExecutor fractions (ℕ × ℕ) ℕ
resilient = record {
  retrier = some patient;
  circuit_breaker = some defaults;
  fallback_handler = none;
  count_fallback = λ w. w;
}

execute-IsSpared_example :
    IsSpared fractions numbered
      (λ w. w.0)
      timed
      defaults
      opened
      patient
      Untouched
      (Resilient.execute fractions numbered (λ w. w.0) timed resilient ((0, 0), opened))
execute-IsSpared_example =
    execute-IsSpared fractions numbered (λ w. w.0) timed defaults opened patient Untouched resilient
      (0, 0) refl refl refl refl (λ n w lt k. omega arith) (λ n w k. (omega arith, k.1))
      (λ n w k. k) (λ n w k. (omega arith, k.1)) (omega arith, refl)
