-- ===== src/Connection/Resilient.antt =====
-- connection/resilience.go: ResilientExecutor, which puts the circuit breaker inside the retrier and
-- a fallback behind both. The operation and the context act on a world `W`, as for the retrier; the
-- breaker reads the clock before and after the operation.
pub mod Sparing
use zabbix_ddl_monitor.Base.{ℕ, Bool, true, false, Option, none, some, if◌then◌else◌}
use zabbix_ddl_monitor.Connection.Float.{Float64}
use zabbix_ddl_monitor.Connection.Breaker.{
  CircuitBreaker, CircuitBreakerConfig, allow_request, record_result,
}
use zabbix_ddl_monitor.Connection.Retry as Retry
use zabbix_ddl_monitor.Connection.Retry.{
  World, RetryPolicy, RetryResult, success, cancelled, exceeded,
}

-- ErrCircuitBreakerOpen, ErrRetryContextCancelled, and ErrMaxRetriesExceeded around the last error.
pub record Errors (E : Type 0) : Type 0 where
  pub circuit_open : E
  pub retry_cancelled : E
  pub retries_exceeded : Option E → E

-- The parts that may be missing, each an argument of its own With method; `count_fallback` is the
-- call of the collector, the identity without one.
pub record ResilientExecutor (fl : Float64) (W E : Type 0) : Type 0 where
  pub retrier : Option (RetryPolicy E)
  pub circuit_breaker : Option (CircuitBreakerConfig (fl.Float))
  pub fallback_handler : Option (E → W → W × Option E)
  pub count_fallback : W → W

module _ (fl : Float64) {W E : Type 0} (errors : Errors E) (clock : W → ℕ) (env : World W E) where
  abbrev pub succeeded : Option E → Bool
  succeeded none = true
  succeeded (some e) = false

  -- The second half of the breaker's Execute, after the operation.
  abbrev pub finish :
      CircuitBreakerConfig (fl.Float)
      → CircuitBreaker
      → W × Option E
      → (W × CircuitBreaker) × Option E
  finish cfg cb (w, e) = ((w, record_result fl cfg (clock w) (succeeded e) cb), e)

  -- The operation as it is wrapped; the breaker is carried along where there is none.
  unfoldable pub guarded :
      Option (CircuitBreakerConfig (fl.Float))
      → W × CircuitBreaker
      → (W × CircuitBreaker) × Option E
  guarded none (w, cb) = let (v, e) = env.operation w in ((v, cb), e)
  guarded (some cfg) (w, cb) =
      let (d, allowed) = allow_request fl cfg (clock w) cb in
      if allowed then finish cfg d (env.operation w) else ((w, d), some errors.circuit_open)

  -- The world of the retrier.
  abbrev pub wrapped : Option (CircuitBreakerConfig (fl.Float)) → World (W × CircuitBreaker) E
  wrapped breaker = record {
    operation = guarded breaker;
    is_done = λ (w, cb). env.is_done w;
    count_retry = λ (w, cb). (env.count_retry w, cb);
    wait = λ d (w, cb). let (v, cut) = env.wait d w in ((v, cb), cut);
  }

  abbrev pub error_of : RetryResult E → Option E
  error_of success = none
  error_of cancelled = some errors.retry_cancelled
  error_of (exceeded last) = some (errors.retries_exceeded last)

  unfoldable pub retried :
      Option (RetryPolicy E)
      → Option (CircuitBreakerConfig (fl.Float))
      → W × CircuitBreaker
      → (W × CircuitBreaker) × Option E
  retried none breaker s = guarded breaker s
  retried (some policy) breaker s =
      let (t, r) = Retry.execute (wrapped breaker) policy s in (t, error_of r)

  abbrev pub fall_back :
      Option (E → W → W × Option E)
      → (W → W)
      → (W × CircuitBreaker) × Option E
      → (W × CircuitBreaker) × Option E
  fall_back (some handler) count ((w, cb), some e) =
      let (v, o) = handler e (count w) in ((v, cb), o)
  fall_back (some handler) count (s, none) = (s, none)
  fall_back none count x = x

  -- Execute
  unfoldable pub execute :
      ResilientExecutor fl W E → W × CircuitBreaker → (W × CircuitBreaker) × Option E
  execute re s =
      fall_back re.fallback_handler re.count_fallback (retried re.retrier re.circuit_breaker s)
