-- ===== src/Connection/Breaker.antt =====
-- connection/resilience.go: the circuit breaker. `allowRequest` and `recordResult` hold the lock, so
-- each is one step; `Execute` runs the operation between the two.
pub mod Trip
pub mod Recovery
use zabbix_ddl_monitor.Base.{
  ℕ, ◌+◌, ◌-◌, ◌%◌, Bool, true, false, Option, none, some, List, [], ◌∷◌, ◌++◌, ◌==◌, ltb, not,
  if◌then◌else◌,
}
use zabbix_ddl_monitor.Base.Int64
use zabbix_ddl_monitor.Connection.Float.{Float64}

pub data CircuitBreakerState : Type 0 where
  closed open_ half_open : CircuitBreakerState

-- The value of the constant (`iota`).
abbrev pub breaker_code : CircuitBreakerState → ℕ
breaker_code closed = 0
breaker_code open_ = 1
breaker_code half_open = 2

-- Counts are Go ints, as bit patterns; the timeout is in nanoseconds.
pub record CircuitBreakerConfig (F : Type 0) : Type 0 where
  pub max_failures : ℕ
  pub reset_timeout : ℕ
  pub failure_threshold : F
  pub min_requests : ℕ
  pub max_requests : ℕ

-- `changes` keeps the calls of the state-change callback, if one is set.
pub record CircuitBreaker : Type 0 where
  pub state : CircuitBreakerState
  pub failures : ℕ
  pub requests : ℕ
  pub successes : ℕ
  pub last_fail_time : Option ℕ
  pub next_retry_time : ℕ
  pub half_open_requests : ℕ
  pub half_open_failures : ℕ
  pub changes : Option (List (CircuitBreakerState × CircuitBreakerState))

-- NewCircuitBreaker
unfoldable pub new_circuit_breaker : CircuitBreaker
new_circuit_breaker = record {
  state = closed;
  failures = 0;
  requests = 0;
  successes = 0;
  last_fail_time = none;
  next_retry_time = 0;
  half_open_requests = 0;
  half_open_failures = 0;
  changes = none;
}

abbrev notify :
    CircuitBreakerState
    → CircuitBreakerState
    → Option (List (CircuitBreakerState × CircuitBreakerState))
    → Option (List (CircuitBreakerState × CircuitBreakerState))
notify from to none = none
notify from to (some calls) =
    if breaker_code from == breaker_code to then some calls else some (calls ++ (from, to) ∷ [])

-- setState
unfoldable pub set_state : CircuitBreakerState → CircuitBreaker → CircuitBreaker
set_state s cb = record cb { state = s; changes = notify cb.state s cb.changes }

-- reset
unfoldable pub reset : CircuitBreaker → CircuitBreaker
reset cb = record cb { requests = 0; successes = 0; failures = 0 }

-- A call of Execute: when it starts and ends, and whether the operation succeeds if it is run.
pub record Attempt : Type 0 where
  pub start : ℕ
  pub finish : ℕ
  pub succeeds : Bool

module _ (fl : Float64) where
  open fl use {Float, of_int, div, leb as leb_float}

  module _ (cfg : CircuitBreakerConfig Float) where
    -- shouldTrip
    unfoldable pub should_trip : CircuitBreaker → Bool
    should_trip cb =
        if Int64.leb64 cfg.max_failures cb.failures
        then true
        else if Int64.leb64 cfg.min_requests cb.requests
        then leb_float cfg.failure_threshold (
            div (of_int ((cb.requests + Int64.word - cb.successes) % Int64.word))
              (of_int cb.requests))
        else false

    -- allowRequest
    abbrev allow_in : CircuitBreakerState → ℕ → CircuitBreaker → CircuitBreaker × Bool
    allow_in closed now cb = (cb, true)
    allow_in open_ now cb =
        if ltb cb.next_retry_time now
        then (
          record (set_state half_open cb) { half_open_requests = 0; half_open_failures = 0 },
          true,
        )
        else (cb, false)
    allow_in half_open now cb = (cb, Int64.ltb64 cb.half_open_requests cfg.max_requests)

    unfoldable pub allow_request : ℕ → CircuitBreaker → CircuitBreaker × Bool
    unfolding set_state
    allow_request now cb = allow_in cb.state now cb

    -- The failure branch of recordResult in the closed state, counters raised.
    abbrev trip : ℕ → CircuitBreaker → CircuitBreaker
    trip now cb =
        if should_trip cb
        then record (set_state open_ cb) { next_retry_time = now + cfg.reset_timeout }
        else cb

    -- recordResult
    abbrev record_in : CircuitBreakerState → ℕ → Bool → CircuitBreaker → CircuitBreaker
    record_in closed now true cb = record cb {
      requests = Int64.inc cb.requests;
      successes = Int64.inc cb.successes;
      failures = 0;
    }
    record_in closed now false cb = trip now (record cb {
      requests = Int64.inc cb.requests;
      failures = Int64.inc cb.failures;
      last_fail_time = some now;
    })
    record_in half_open now true cb =
        if Int64.leb64 cfg.min_requests (Int64.inc cb.half_open_requests)
        then reset
            (set_state closed (record cb { half_open_requests = Int64.inc cb.half_open_requests }))
        else record cb { half_open_requests = Int64.inc cb.half_open_requests }
    record_in half_open now false cb = record (set_state open_ cb) {
      half_open_requests = Int64.inc cb.half_open_requests;
      half_open_failures = Int64.inc cb.half_open_failures;
      next_retry_time = now + cfg.reset_timeout;
    }
    record_in open_ now success cb = cb

    unfoldable pub record_result : ℕ → Bool → CircuitBreaker → CircuitBreaker
    unfolding set_state reset should_trip
    record_result now success cb = record_in cb.state now success cb

    -- Execute: `none` is ErrCircuitBreakerOpen, else whether the operation succeeded.
    unfoldable pub execute : Attempt → CircuitBreaker → CircuitBreaker × Option Bool
    execute a cb =
        let (d, allowed) = allow_request a.start cb in
        if allowed then (record_result a.finish a.succeeds d, some a.succeeds) else (d, none)

    -- Calls of Execute one after the other.
    unfoldable pub execute_all : List Attempt → CircuitBreaker → CircuitBreaker
    execute_all [] cb = cb
    execute_all (a ∷ as_) cb = execute_all as_ (execute a cb).0
