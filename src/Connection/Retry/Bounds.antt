-- ===== src/Connection/Retry/Bounds.antt =====
-- How often the retrier of connection/resilience.go runs the operation, and how long it waits.
use zabbix_ddl_monitor.Base.{
  ℕ, zero, suc, ◌+◌, ◌≤◌, ◌<◌, Bool, false, Option, none, some, List, [], ◌∷◌, ◌++◌, map, ◌≡◌, refl,
  arith, ltb, length, Bool-cases, inl, inr,
}
use zabbix_ddl_monitor.Connection.Retry.{
  RetryPolicy, RetryResult, success, exceeded, World, Round, finished, again, round, resume,
  retry_from, execute, should_retry, backoff, next_delay_exponential,
}

-- The same world with a counter of the operation's runs.
abbrev pub counting : {W E : Type 0} → World W E → World (W × ℕ) E
counting env = record {
  operation = λ (w, n). let (v, o) = env.operation w in ((v, suc n), o);
  is_done = λ (w, n). env.is_done w;
  count_retry = λ (w, n). (env.count_retry w, n);
  wait = λ d (w, n). let (v, b) = env.wait d w in ((v, n), b);
}

module _ {W E : Type 0} (env : World W E) (policy : RetryPolicy E) where
  round_counts : (attempt : ℕ) (w : W × ℕ) → (round (counting env) policy attempt w).0.1 ≤ w.1 + 1
  unfolding round
  round_counts attempt w = ground arith

  resume_counts :
      (n k : ℕ) (next : E → W × ℕ → (W × ℕ) × RetryResult E)
      → ((e : E) (w : W × ℕ) → (next e w).0.1 ≤ w.1 + n)
      → (x : (W × ℕ) × Round E) → x.0.1 ≤ k + 1
      → (resume (counting env) policy next x).0.1 ≤ k + suc n
  resume_counts n k next h (w, finished result) le = omega arith
  resume_counts n k next h (w, again e) le = omega (arith, h e w)

  retry_counts :
      (rounds attempt : ℕ) (last : Option E) (w : W × ℕ)
      → (retry_from (counting env) policy rounds attempt last w).0.1 ≤ w.1 + rounds
  unfolding retry_from
  retry_counts zero attempt last w = omega arith
  retry_counts (suc rounds) attempt last w =
      resume_counts rounds w.1
        (λ e v. retry_from (counting env) policy rounds (suc attempt) (some e) v)
        (λ e v. retry_counts rounds (suc attempt) (some e) v) _ (round_counts attempt w)

  -- The retrier runs the operation at most `MaxAttempts` times, whatever the operation, the policy
  -- and the context do.
  pub execute_counts : (w : W) → (execute (counting env) policy (w, 0)).0.1 ≤ policy.max_attempts
  unfolding execute
  execute_counts w = omega (arith, retry_counts policy.max_attempts 0 none (w, 0))

abbrev play : {E : Type 0} → List (Option E) → List (Option E) × Option E
play [] = ([], none)
play (o ∷ os) = (os, o)

-- A world that plays a script of outcomes, in which nothing is cancelled.
abbrev pub scripted : {E : Type 0} → World (List (Option E)) E
scripted = record {
  operation = play;
  is_done = λ w. false;
  count_retry = λ w. w;
  wait = λ d w. (w, false);
}

module _ {E : Type 0} (is_ : E → E → Bool) (delay : ℕ → ℕ) (max : ℕ) where
  -- A policy that names no retryable errors.
  abbrev pub unrestricted : RetryPolicy E
  unrestricted = record {
    should_retry_after = should_retry is_ max [];
    next_delay = delay;
    max_attempts = max;
  }

  round_fails :
      (attempt : ℕ) (e : E) (w : List (Option E))
      → suc attempt < max
      → round scripted unrestricted attempt (some e ∷ w) ≡ (w, again e)
  unfolding round should_retry
  round_fails attempt e w h = ground arith

  round_last :
      (attempt : ℕ) (e : E) (w : List (Option E))
      → suc attempt ≡ max
      → round scripted unrestricted attempt (some e ∷ w) ≡ (w, finished (exceeded (some e)))
  unfolding round should_retry
  round_last attempt e w h = ground arith

  round_succeeds :
      (attempt : ℕ) (w : List (Option E))
      → round scripted unrestricted attempt (none ∷ w) ≡ (w, finished success)
  unfolding round
  round_succeeds attempt w = refl

  retry_succeeds :
      (es : List E) (rest : List (Option E)) (rounds attempt : ℕ) (last : Option E)
      → attempt + rounds ≡ max
      → length es < rounds
      → retry_from scripted unrestricted rounds attempt last (map some es ++ none ∷ rest)
        ≡ (rest, success)
  unfolding retry_from
  retry_succeeds es rest zero attempt last e lt = absurd (omega arith)
  retry_succeeds [] rest (suc rounds) attempt last e lt = rw (round_succeeds attempt rest)
  retry_succeeds (x ∷ es) rest (suc rounds) attempt last e lt =
      rw (round_fails attempt x (map some es ++ none ∷ rest) (omega arith))
        (retry_succeeds es rest rounds (suc attempt) (some x) (omega arith) (omega arith))

  retry_exceeds :
      (es : List E) (x : E) (rest : List (Option E)) (attempt : ℕ) (last : Option E)
      → attempt + suc (length es) ≡ max
      → retry_from scripted unrestricted
          (suc (length es))
          attempt
          last
          (map some es ++ some x ∷ rest)
        ≡ (rest, exceeded (some x))
  unfolding retry_from
  retry_exceeds [] x rest attempt last e = rw (round_last attempt x rest (omega arith))
  retry_exceeds (y ∷ es) x rest attempt last e =
      rw (round_fails attempt y (map some es ++ some x ∷ rest) (omega arith))
        (retry_exceeds es x rest (suc attempt) (some y) (omega arith))

  -- With a policy that names no retryable errors and nothing cancelled: if fewer attempts than
  -- `MaxAttempts` fail before one succeeds, the retrier makes exactly these and succeeds.
  pub execute_succeeds :
      (es : List E) (rest : List (Option E))
      → length es < max
      → execute scripted unrestricted (map some es ++ none ∷ rest) ≡ (rest, success)
  unfolding execute
  execute_succeeds es rest lt = retry_succeeds es rest max 0 none (omega arith) lt

  -- With a policy that names no retryable errors and nothing cancelled: if `MaxAttempts` attempts
  -- fail, the retrier makes exactly these and reports the last error.
  pub execute_exceeds :
      (es : List E) (x : E) (rest : List (Option E))
      → suc (length es) ≡ max
      → execute scripted unrestricted (map some es ++ some x ∷ rest) ≡ (rest, exceeded (some x))
  unfolding execute
  execute_exceeds es x rest e = rw (← e) (retry_exceeds es x rest 0 none (omega arith))

module _ (scale : ℕ → ℕ) (max_delay : ℕ) where
  backoff-le :
      (rounds delay : ℕ) → delay ≤ max_delay → backoff scale max_delay rounds delay ≤ max_delay
  unfolding backoff
  backoff-le zero delay h = h
  backoff-le (suc rounds) delay h = elim (Bool-cases (ltb max_delay (scale delay))) [
    | inl e ↦ rw e (omega arith)
    | inr e ↦ rw e (backoff-le rounds (scale delay) (ground arith))
  ]

  backoff_grows :
      ((d : ℕ) → d ≤ scale d)
      → (rounds delay : ℕ) → delay ≤ max_delay
      → backoff scale max_delay rounds delay ≤ backoff scale max_delay (suc rounds) delay
  unfolding backoff
  backoff_grows up zero delay h = ground (arith, up delay)
  backoff_grows up (suc rounds) delay h = elim (Bool-cases (ltb max_delay (scale delay))) [
    | inl e ↦ rw e (omega arith)
    | inr e ↦ rw e (backoff_grows up rounds (scale delay) (ground arith))
  ]

  -- Without jitter, a base delay within the limit, and a factor that does not shrink, the exponential
  -- delays stay within the limit and never get shorter from one attempt to the next.
  pub next_delay_exponential_bounds :
      ((d : ℕ) → d ≤ scale d)
      → (base attempt : ℕ) → base ≤ max_delay
      → let delay = next_delay_exponential scale (λ d. d) base max_delay in
        (delay attempt ≤ max_delay) × (delay attempt ≤ delay (suc attempt))
  unfolding next_delay_exponential
  next_delay_exponential_bounds up base zero h = (omega arith, omega arith)
  next_delay_exponential_bounds up base (suc rounds) h =
      (backoff-le rounds base h, backoff_grows up rounds base h)
