-- ===== src/Connection/Retry.antt =====
-- connection/resilience.go: the retry policies, the retrier and the resilient executor.
-- The operation, the clock and the context act on a world `W`: they are arguments. Attempt numbers
-- stay below the maximum, an int, and do not overflow. The retry callback only logs and is left
-- out; the collector's `retry` count is a call of the world.
pub mod Bounds
use zabbix_ddl_monitor.Base.{
  ℕ, zero, suc, ◌+◌, Bool, true, false, Option, none, some, List, [], ◌∷◌, ltb, leb, ◌==◌, not,
  if◌then◌else◌,
}

-- The loop over RetryableErrors; `is_` is errors.Is.
abbrev is_any : {E : Type 0} → (E → E → Bool) → E → List E → Bool
is_any is_ e [] = false
is_any is_ e (r ∷ rs) = if is_ e r then true else is_any is_ e rs

-- ShouldRetry, the same text in both policies: no list of errors means that every error is retried.
unfoldable pub should_retry : {E : Type 0} → (E → E → Bool) → ℕ → List E → ℕ → E → Bool
should_retry is_ max_attempts [] attempt e = if leb max_attempts attempt then false else true
should_retry is_ max_attempts (r ∷ rs) attempt e =
    if leb max_attempts attempt then false else is_any is_ e (r ∷ rs)

-- The loop of NextDelay over the remaining rounds: `scale` multiplies by the backoff factor in
-- float64 and truncates.
unfoldable pub backoff : (ℕ → ℕ) → ℕ → ℕ → ℕ → ℕ
backoff scale max_delay zero delay = delay
backoff scale max_delay (suc rounds) delay =
    let rest = backoff scale max_delay rounds (scale delay) in
    if ltb max_delay (scale delay) then max_delay else rest

-- NextDelay of the exponential policy; `jitter` is the random adjustment, the identity without it.
unfoldable pub next_delay_exponential : (ℕ → ℕ) → (ℕ → ℕ) → ℕ → ℕ → ℕ → ℕ
unfolding backoff
next_delay_exponential scale jitter base_delay max_delay zero = 0
next_delay_exponential scale jitter base_delay max_delay (suc rounds) =
    jitter (backoff scale max_delay rounds base_delay)

-- NextDelay of the fixed policy.
unfoldable pub next_delay_fixed : ℕ → ℕ → ℕ
next_delay_fixed interval attempt = if attempt == 0 then 0 else interval

-- A RetryPolicy.
pub record RetryPolicy (E : Type 0) : Type 0 where
  pub should_retry_after : ℕ → E → Bool
  pub next_delay : ℕ → ℕ
  pub max_attempts : ℕ

-- nil, ErrRetryContextCancelled, and ErrMaxRetriesExceeded with the last error (nil if none).
pub data RetryResult (E : Type 0) : Type 0 where
  success cancelled : RetryResult E
  exceeded : Option E → RetryResult E

-- What the retrier calls: the operation (`none` is a nil error), a look at the context, the count
-- of a retry, and a wait, which says whether the context was done first.
pub record World (W E : Type 0) : Type 0 where
  pub operation : W → W × Option E
  pub is_done : W → Bool
  pub count_retry : W → W
  pub wait : ℕ → W → W × Bool

-- How one round of the loop ends: with a result, or with an error to retry after.
pub data Round (E : Type 0) : Type 0 where
  finished : RetryResult E → Round E
  again : E → Round E

module _ {W E : Type 0} (env : World W E) (policy : RetryPolicy E) where
  open env use {operation, is_done, count_retry, wait}
  open policy use {should_retry_after, next_delay, max_attempts}

  -- The pause before the next attempt; a delay of 0 does not wait.
  abbrev pub pause : ℕ → E → W → W × Round E
  pause attempt e w =
      if next_delay (suc attempt) == 0
      then (w, again e)
      else let (v, cut) = wait (next_delay (suc attempt)) w in
        (v, if cut then finished cancelled else again e)

  abbrev pub judge : ℕ → Option E → W → W × Round E
  judge attempt none w = (w, finished success)
  judge attempt (some e) w =
      if should_retry_after (suc attempt) e
      then pause attempt e (count_retry w)
      else (w, finished (exceeded (some e)))

  -- The body of the loop of Execute.
  unfoldable pub round : ℕ → W → W × Round E
  round attempt w =
      if is_done w
      then (w, finished cancelled)
      else let (v, outcome) = operation w in judge attempt outcome v

  abbrev pub resume : (E → W → W × RetryResult E) → W × Round E → W × RetryResult E
  resume next (w, finished result) = (w, result)
  resume next (w, again e) = next e w

  -- The loop of Execute, with the rounds left, the attempt number and the last error.
  unfoldable pub retry_from : ℕ → ℕ → Option E → W → W × RetryResult E
  retry_from zero attempt last w = (w, exceeded last)
  retry_from (suc rounds) attempt last w =
      resume (λ e v. retry_from rounds (suc attempt) (some e) v) (round attempt w)

  -- Execute; the timeout is part of the context that `is_done` and `wait` look at.
  unfoldable pub execute : W → W × RetryResult E
  unfolding retry_from
  execute w = retry_from max_attempts 0 none w
