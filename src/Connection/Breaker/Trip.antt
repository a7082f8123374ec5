-- ===== src/Connection/Breaker/Trip.antt =====
-- How the circuit breaker of connection/resilience.go opens, and what it does while it is open.
use zabbix_ddl_monitor.Base.{
  ℕ, ◌+◌, ◌≤◌, ◌<◌, Bool, true, false, none, some, List, [], ◌∷◌, ◌≡◌, refl, ◌≢◌, ◌⊎◌, inl, inr,
  arith, length,
}
use zabbix_ddl_monitor.Base.Int64.{IsNonneg}
use zabbix_ddl_monitor.Connection.Float.{Float64}
use zabbix_ddl_monitor.Connection.Breaker.{
  CircuitBreaker, CircuitBreakerConfig, Attempt, closed, open_, half_open, allow_request,
  record_result, execute, should_trip,
}

module _ (fl : Float64) (cfg : CircuitBreakerConfig (fl.Float)) where
  -- Failures recorded at the given times, one after the other.
  abbrev pub fail_at : List ℕ → CircuitBreaker → CircuitBreaker
  fail_at [] cb = cb
  fail_at (t ∷ ts) cb = fail_at ts (record_result fl cfg t false cb)

  fail-open :
      (t : ℕ) (cb : CircuitBreaker) → cb.state ≡ open_ → record_result fl cfg t false cb ≡ cb
  unfolding record_result
  fail-open t cb h = ground arith

  fail_at-open : (ts : List ℕ) (cb : CircuitBreaker) → cb.state ≡ open_ → fail_at ts cb ≡ cb
  fail_at-open [] cb h = refl
  fail_at-open (t ∷ ts) cb h = rw (fail-open t cb h) (fail_at-open ts cb h)

  fail-closed :
      (t : ℕ) (cb : CircuitBreaker)
      → cb.state ≡ closed
      → IsNonneg (cb.failures + 1)
      → IsNonneg cfg.max_failures
      → let d = record_result fl cfg t false cb in
        (d.state ≡ open_)
        ⊎ ((d.state ≡ closed) × (d.failures ≡ cb.failures + 1) × (d.failures < cfg.max_failures))
  unfolding record_result should_trip
  fail-closed t cb h n m = ground arith

  -- A closed breaker opens when as many failures are recorded in a row as are missing to the limit
  -- `MaxFailures`, or earlier, and stays open under further failures; for a `MaxFailures` that is not
  -- negative and above the failures counted so far.
  pub fail_at_opens :
      (ts : List ℕ) (cb : CircuitBreaker)
      → cb.state ≡ closed
      → cb.failures < cfg.max_failures
      → cfg.max_failures ≤ cb.failures + length ts
      → IsNonneg cfg.max_failures
      → (fail_at ts cb).state ≡ open_
  fail_at_opens [] cb h low e m = absurd (omega arith)
  fail_at_opens (t ∷ ts) cb h low e m = elim (fail-closed t cb h (omega arith) m) [
    | inl o ↦ rw (fail_at-open ts (record_result fl cfg t false cb) o) o
    | inr r ↦ fail_at_opens ts _ r.0 r.2 (omega arith) m
  ]

  -- An open breaker runs no operation up to the retry time, and such calls leave it as it is.
  pub execute_open :
      (a : Attempt) (cb : CircuitBreaker)
      → cb.state ≡ open_
      → a.start ≤ cb.next_retry_time
      → execute fl cfg a cb ≡ (cb, none)
  unfolding execute allow_request
  execute_open a cb h t = ground arith

  -- What a call of Execute does to a half-open breaker: a failed operation opens it again for a full
  -- timeout, a successful one leaves it half open or closes it, and a refused call leaves it as it is.
  pub execute_half_open :
      (a : Attempt) (cb : CircuitBreaker)
      → cb.state ≡ half_open
      → let r = execute fl cfg a cb in
        ((r.1 ≡ some false)
          × (r.0.state ≡ open_)
          × (r.0.next_retry_time ≡ a.finish + cfg.reset_timeout))
        ⊎ ((r.1 ≡ some true) × (r.0.state ≢ open_))
        ⊎ ((r.1 ≡ none) × (r.0 ≡ cb))
  unfolding execute allow_request record_result
  execute_half_open a cb h = ground arith

  -- The counters of a breaker fit together.
  pub record IsCounted (cb : CircuitBreaker) : Type 0 where
    pub successes_le : cb.successes ≤ cb.requests
    pub failures_le : cb.failures + cb.successes ≤ cb.requests

  -- Recording a result keeps the counters fitting: the failures in a row and the successes together
  -- are at most the requests, as long as the requests do not overflow.
  pub record_result-IsCounted :
      (now : ℕ) (success : Bool) (cb : CircuitBreaker)
      → IsNonneg (cb.requests + 1)
      → IsCounted cb
      → IsCounted (record_result fl cfg now success cb)
  unfolding record_result
  record_result-IsCounted now success cb n v = ground arith
