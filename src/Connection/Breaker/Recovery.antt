-- ===== src/Connection/Breaker/Recovery.antt =====
-- How the circuit breaker of connection/resilience.go leaves the half-open state, or never does.
use zabbix_ddl_monitor.Base.{
  ◌+◌, ◌≤◌, ◌<◌, Bool, true, ◌&&◌, List, [], ◌∷◌, ◌≡◌, refl, sym, ap, subst, ◌≢◌, ◌⊎◌, inl, inr,
  arith, length,
}
use zabbix_ddl_monitor.Base.Int64.{IsNonneg}
use zabbix_ddl_monitor.Connection.Float.{Float64}
use zabbix_ddl_monitor.Connection.Breaker.{
  CircuitBreaker, CircuitBreakerConfig, Attempt, closed, open_, half_open, allow_request,
  record_result, execute, execute_all, set_state,
}

module _ (fl : Float64) (cfg : CircuitBreakerConfig (fl.Float)) where
  -- Not closed, and half open only with fewer probes counted than are let through.
  abbrev IsStuck : CircuitBreaker → Type 0
  IsStuck cb =
      (cb.state ≡ open_) ⊎ ((cb.state ≡ half_open) × (cb.half_open_requests ≤ cfg.max_requests))

  IsStuck-execute :
      (a : Attempt) (cb : CircuitBreaker)
      → IsNonneg cfg.min_requests
      → cfg.max_requests < cfg.min_requests
      → 0 < cfg.max_requests
      → IsStuck cb
      → IsStuck (execute fl cfg a cb).0
  unfolding execute allow_request record_result
  IsStuck-execute a cb n lt pos (inl h) = ground arith
  IsStuck-execute a cb n lt pos (inr h) = ground arith

  IsStuck-execute_all :
      (as_ : List Attempt) (cb : CircuitBreaker)
      → IsNonneg cfg.min_requests
      → cfg.max_requests < cfg.min_requests
      → 0 < cfg.max_requests
      → IsStuck cb
      → IsStuck (execute_all fl cfg as_ cb)
  unfolding execute_all
  IsStuck-execute_all [] cb n lt pos v = v
  IsStuck-execute_all (a ∷ as_) cb n lt pos v =
      IsStuck-execute_all as_ _ n lt pos (IsStuck-execute a cb n lt pos v)

  -- With fewer probes let through than successes asked for (`MaxRequests` positive and below
  -- `MinRequests`, as in the default configuration) a breaker that has opened never closes again,
  -- whatever calls are made one after the other and however they end.
  pub never_closes_again :
      (as_ : List Attempt) (cb : CircuitBreaker)
      → IsNonneg cfg.min_requests
      → cfg.max_requests < cfg.min_requests
      → 0 < cfg.max_requests
      → cb.state ≡ open_
      → (execute_all fl cfg as_ cb).state ≢ closed
  never_closes_again as_ cb n lt pos h = ground (arith, IsStuck-execute_all as_ cb n lt pos (inl h))

  probe_refused :
      (a : Attempt) (cb : CircuitBreaker)
      → cb.state ≡ half_open
      → IsNonneg cb.half_open_requests
      → cfg.max_requests ≤ cb.half_open_requests
      → (execute fl cfg a cb).0 ≡ cb
  unfolding execute allow_request
  probe_refused a cb h n le = ground arith

  -- A half-open breaker that has counted `MaxRequests` probes refuses every later call at any time
  -- and never changes again.
  pub half_open_stuck :
      (as_ : List Attempt) (cb : CircuitBreaker)
      → cb.state ≡ half_open
      → IsNonneg cb.half_open_requests
      → cfg.max_requests ≤ cb.half_open_requests
      → execute_all fl cfg as_ cb ≡ cb
  unfolding execute_all
  half_open_stuck [] cb h n le = refl
  half_open_stuck (a ∷ as_) cb h n le =
      rw (probe_refused a cb h n le) (half_open_stuck as_ cb h n le)

  abbrev pub all_succeed : List Attempt → Bool
  all_succeed [] = true
  all_succeed (a ∷ as_) = a.succeeds && all_succeed as_

  -- Closed, with the statistics reset.
  abbrev pub IsReset : CircuitBreaker → Type 0
  IsReset cb = (cb.state ≡ closed) × (cb.failures ≡ 0) × (cb.requests ≡ 0) × (cb.successes ≡ 0)

  probe :
      (a : Attempt) (cb : CircuitBreaker)
      → cb.state ≡ half_open
      → a.succeeds ≡ true
      → IsNonneg cfg.max_requests
      → cb.half_open_requests < cfg.min_requests
      → cfg.min_requests ≤ cfg.max_requests
      → let d = (execute fl cfg a cb).0 in
        ((cb.half_open_requests + 1 ≡ cfg.min_requests) × IsReset d)
        ⊎ ((cb.half_open_requests + 1 < cfg.min_requests)
            × (d.state ≡ half_open)
            × (d.half_open_requests ≡ cb.half_open_requests + 1))
  unfolding execute allow_request record_result
  probe a cb h s n lt le = ground arith

  probes :
      (a : Attempt) (as_ : List Attempt) (cb : CircuitBreaker)
      → cb.state ≡ half_open
      → all_succeed (a ∷ as_) ≡ true
      → IsNonneg cfg.max_requests
      → cb.half_open_requests + length (a ∷ as_) ≡ cfg.min_requests
      → cfg.min_requests ≤ cfg.max_requests
      → IsReset (execute_all fl cfg (a ∷ as_) cb)
  unfolding execute_all
  probes a [] cb h s n e le = ground (arith, probe a cb)
  probes a (b ∷ as_) cb h s n e le = elim (probe a cb h (ground arith) n (omega arith) le) [
    | inl x ↦ absurd (omega arith)
    | inr x ↦ probes b as_ (execute fl cfg a cb).0 x.1 (ground arith) n (omega arith) le
  ]

  abbrev half_opened : CircuitBreaker → CircuitBreaker
  half_opened cb = record (set_state half_open cb) {
    half_open_requests = 0;
    half_open_failures = 0;
  }

  reopens :
      (a : Attempt) (cb : CircuitBreaker)
      → cb.state ≡ open_
      → cb.next_retry_time < a.start
      → 0 < cfg.max_requests
      → IsNonneg cfg.max_requests
      → execute fl cfg a cb ≡ execute fl cfg a (half_opened cb)
  unfolding execute allow_request set_state record_result
  reopens a cb h t pos n = ground arith

  -- With enough probes let through, an open breaker closes with its statistics reset after
  -- `MinRequests` successful calls in a row, the first of them after the retry time; for a `MaxRequests`
  -- that is not negative.
  pub recovers :
      (a : Attempt) (as_ : List Attempt) (cb : CircuitBreaker)
      → cb.state ≡ open_
      → cb.next_retry_time < a.start
      → all_succeed (a ∷ as_) ≡ true
      → length (a ∷ as_) ≡ cfg.min_requests
      → cfg.min_requests ≤ cfg.max_requests
      → IsNonneg cfg.max_requests
      → IsReset (execute_all fl cfg (a ∷ as_) cb)
  unfolding execute_all set_state
  recovers a as_ cb h t s e le n =
      subst IsReset (ap (λ r. execute_all fl cfg as_ r.0) (sym (reopens a cb h t (omega arith) n)))
        (probes a as_ (half_opened cb) refl s n (omega arith) le)
