-- ===== src/Connection/Resilient/Sparing.antt =====
-- An open circuit breaker inside the retrier of connection/resilience.go.
use zabbix_ddl_monitor.Base.{
  ℕ, zero, suc, ◌+◌, ◌≤◌, ◌<◌, Bool, true, false, Option, none, some, ◌≡◌, refl, sym, ap, ◌∙◌,
  subst, arith, ◌==◌, if◌then◌else◌, if_both,
}
use zabbix_ddl_monitor.Connection.Float.{Float64}
use zabbix_ddl_monitor.Connection.Breaker.{
  CircuitBreaker, CircuitBreakerConfig, open_, allow_request,
}
use zabbix_ddl_monitor.Connection.Retry as Retry
use zabbix_ddl_monitor.Connection.Retry.{
  World, RetryPolicy, RetryResult, success, cancelled, exceeded, Round, finished, again, pause,
  judge, round, resume, retry_from,
}
use zabbix_ddl_monitor.Connection.Resilient.{
  succeeded, Errors, ResilientExecutor, guarded, wrapped, finish, error_of, retried, fall_back,
  execute,
}

allow_request-open :
    (fl : Float64) (cfg : CircuitBreakerConfig (fl.Float)) (now : ℕ) (cb : CircuitBreaker)
    → cb.state ≡ open_
    → now ≤ cb.next_retry_time
    → allow_request fl cfg now cb ≡ (cb, false)
unfolding allow_request
allow_request-open fl cfg now cb o early = ground arith

module _ (fl : Float64) {W E : Type 0} (errors : Errors E) (clock : W → ℕ) (env : World W E)
    (cfg : CircuitBreakerConfig (fl.Float)) (cb : CircuitBreaker) (policy : RetryPolicy E)
    (Keeps : ℕ → W → Type 0) where
  -- The retrier's world.
  abbrev inside : World (W × CircuitBreaker) E
  inside = wrapped fl errors clock env (some cfg)

  -- What is kept up to an attempt, with the breaker as it was.
  abbrev pub IsAt : ℕ → W × CircuitBreaker → Type 0
  IsAt n s = Keeps n s.0 × (s.1 ≡ cb)

  -- A call that failed, where something of this kind is kept.
  abbrev pub IsSpared : (W × CircuitBreaker) × Option E → Type 0
  IsSpared x = ((n : ℕ) × IsAt n x.0) × (succeeded fl errors clock env x.1 ≡ false)

  abbrev fails : Round E → Bool
  fails (finished success) = false
  fails (finished cancelled) = true
  fails (finished (exceeded last)) = true
  fails (again e) = true

  abbrev IsRejected : ℕ → (W × CircuitBreaker) × Round E → Type 0
  IsRejected n x = IsAt (suc n) x.0 × (fails x.1 ≡ true)

  abbrev conclude : (W × CircuitBreaker) × RetryResult E → (W × CircuitBreaker) × Option E
  conclude x = (x.0, error_of fl errors clock env x.1)

  guarded-open :
      (w : W)
      → cb.state ≡ open_
      → clock w ≤ cb.next_retry_time
      → guarded fl errors clock env (some cfg) (w, cb) ≡ ((w, cb), some errors.circuit_open)
  unfolding guarded
  guarded-open w o early =
      ap
        (λ (x : CircuitBreaker × Bool).
          if x.1
          then finish fl errors clock env cfg x.0 (env.operation w)
          else ((w, x.0), some errors.circuit_open))
        (allow_request-open fl cfg (clock w) cb o early)

  module _ (o : cb.state ≡ open_)
      (early : (n : ℕ) (w : W) → n < policy.max_attempts → Keeps n w → clock w ≤ cb.next_retry_time)
      (keeps_next : (n : ℕ) (w : W) → Keeps n w → Keeps (suc n) w)
      (keeps_count : (n : ℕ) (w : W) → Keeps n w → Keeps n (env.count_retry w))
      (keeps_wait : (n : ℕ) (w : W)
        → Keeps n w
        → Keeps (suc n) (env.wait (policy.next_delay (suc n)) w).0) where
    pause-IsRejected :
        (n : ℕ) (e : E) (w : W) → Keeps n w → IsRejected n (pause inside policy n e (w, cb))
    pause-IsRejected n e w k =
        if_both (IsRejected n) (policy.next_delay (suc n) == 0) ((w, cb), again e)
          (
            ((env.wait (policy.next_delay (suc n)) w).0, cb),
            if (env.wait (policy.next_delay (suc n)) w).1 then finished cancelled else again e,
          )
          ((keeps_next n w k, refl), refl)
          (
            (keeps_wait n w k, refl),
            if_both (λ r. fails r ≡ true) (env.wait (policy.next_delay (suc n)) w).1
                (finished cancelled) (again e) refl refl,
          )

    judge-IsRejected :
        (n : ℕ) (e : E) (x : (W × CircuitBreaker) × Option E) (w : W)
        → x ≡ ((w, cb), some e)
        → Keeps n w
        → IsRejected n (judge inside policy n x.1 x.0)
    judge-IsRejected n e x w p k =
        subst (λ y. IsRejected n (judge inside policy n y.1 y.0)) (sym p)
          (if_both (IsRejected n) (policy.should_retry_after (suc n) e)
            (pause inside policy n e (env.count_retry w, cb))
            ((w, cb), finished (exceeded (some e)))
            (pause-IsRejected n e (env.count_retry w) (keeps_count n w k))
            ((keeps_next n w k, refl), refl))

    round-IsRejected :
        (n : ℕ) (s : W × CircuitBreaker)
        → n < policy.max_attempts
        → IsAt n s
        → IsRejected n (round inside policy n s)
    unfolding round
    round-IsRejected n (w, b) lt (k, q) =
        if_both (IsRejected n) (env.is_done w) ((w, b), finished cancelled)
          (judge inside policy n (guarded fl errors clock env (some cfg) (w, b)).1
            (guarded fl errors clock env (some cfg) (w, b)).0)
          ((keeps_next n w k, q), refl)
          (judge-IsRejected n errors.circuit_open (guarded fl errors clock env (some cfg) (w, b)) w
            (ap (λ c. guarded fl errors clock env (some cfg) (w, c)) q
              ∙ guarded-open w o (early n w lt k))
            k)

    resume-IsSpared :
        (n : ℕ) (next : E → W × CircuitBreaker → (W × CircuitBreaker) × RetryResult E)
        → ((e : E) (s : W × CircuitBreaker) → IsAt (suc n) s → IsSpared (conclude (next e s)))
        → (x : (W × CircuitBreaker) × Round E) → IsRejected n x
        → IsSpared (conclude (resume inside policy next x))
    resume-IsSpared n next f (s, finished success) (h, q) = absurd (ground arith)
    resume-IsSpared n next f (s, finished cancelled) (h, q) = ((suc n, h), refl)
    resume-IsSpared n next f (s, finished (exceeded last)) (h, q) = ((suc n, h), refl)
    resume-IsSpared n next f (s, again e) (h, q) = f e s h

    retry_from-IsSpared :
        (rounds n : ℕ) (last : Option E) (s : W × CircuitBreaker)
        → rounds + n ≡ policy.max_attempts
        → IsAt n s
        → IsSpared (conclude (retry_from inside policy rounds n last s))
    unfolding retry_from
    retry_from-IsSpared zero n last s m h = ((n, h), refl)
    retry_from-IsSpared (suc rounds) n last s m h =
        resume-IsSpared n (λ e v. retry_from inside policy rounds (suc n) (some e) v)
          (λ e v g. retry_from-IsSpared rounds (suc n) (some e) v (omega arith) g)
          (round inside policy n s) (round-IsRejected n s (omega arith) h)

    retried-IsSpared :
        (w : W)
        → Keeps 0 w
        → IsSpared (retried fl errors clock env (some policy) (some cfg) (w, cb))
    unfolding retried Retry.execute
    retried-IsSpared w k =
        retry_from-IsSpared policy.max_attempts 0 none (w, cb) (omega arith) (k, refl)

  -- Let the breaker be open and its retry time not pass during the attempts of the policy. Then
  -- Execute without a fallback never runs the operation: what the waits and the counts of the
  -- retries keep true of the world is still true at the end, whatever the operation would do to it.
  -- The breaker stays as it is, and Execute ends with an error. What is kept may depend on the
  -- number of the attempt, as the time does.
  pub execute-IsSpared :
      (re : ResilientExecutor fl W E) (w : W)
      → re.retrier ≡ some policy
      → re.circuit_breaker ≡ some cfg
      → re.fallback_handler ≡ none
      → cb.state ≡ open_
      → ((n : ℕ) (w : W) → n < policy.max_attempts → Keeps n w → clock w ≤ cb.next_retry_time)
      → ((n : ℕ) (w : W) → Keeps n w → Keeps (suc n) w)
      → ((n : ℕ) (w : W) → Keeps n w → Keeps n (env.count_retry w))
      → ((n : ℕ) (w : W) → Keeps n w → Keeps (suc n) (env.wait (policy.next_delay (suc n)) w).0)
      → Keeps 0 w
      → IsSpared (execute fl errors clock env re (w, cb))
  unfolding execute
  execute-IsSpared re w outer inner last o early keeps_next keeps_count keeps_wait k =
      subst IsSpared
        (ap
            (λ h.
              fall_back fl errors clock env h re.count_fallback
                (retried fl errors clock env (some policy) (some cfg) (w, cb)))
            (sym last)
          ∙ ap
              (λ b.
                fall_back fl errors clock env re.fallback_handler re.count_fallback
                  (retried fl errors clock env (some policy) b (w, cb)))
              (sym inner)
          ∙ ap
              (λ r.
                fall_back fl errors clock env re.fallback_handler re.count_fallback
                  (retried fl errors clock env r re.circuit_breaker (w, cb)))
              (sym outer))
        (retried-IsSpared o early keeps_next keeps_count keeps_wait w k)
