-- ===== src/Connection/Pool/Warmup/Counts.antt =====
-- The counters and the result of WarmUp in connection/pool_enhanced.go.
use zabbix_ddl_monitor.Base.{
  ℕ, ◌+◌, ◌%◌, ◌<◌, false, String, Option, none, some, List, [], ◌∷◌, ◌==◌, length, ◌≡◌, refl, ap,
  ◌∙◌, arith,
}
use zabbix_ddl_monitor.Base.Int64.{word}
use zabbix_ddl_monitor.Connection.Pool.{DriverPool}
use zabbix_ddl_monitor.Connection.Pool.Warmup.{
  WarmupStatus, in_progress, completed, first_made, warm_with, warm_all, warm_up,
}

abbrev count_made : Option String → ℕ
count_made none = 0
count_made (some id) = 1

-- How many goroutines make a connection.
abbrev pub made : List (List (Option String)) → ℕ
made [] = 0
made (t ∷ ts) = count_made (first_made 3 t) + made ts

warm_with_counts :
    (protocol : String) (now : ℕ) (o : Option String) (p : DriverPool) (w : WarmupStatus)
    → w.success < word
    → w.failed_count < word
    → let v = (warm_with protocol now o (p, w)).1 in
      (v.success ≡ (w.success + count_made o) % word)
      × (v.failed_count ≡ (w.failed_count + 1) % word)
      × (v.target ≡ w.target)
warm_with_counts protocol now none p w a b = (omega arith, refl, refl)
warm_with_counts protocol now (some id) p w a b = (refl, refl, refl)

warm_counts :
    (protocol : String) (now : ℕ) (tries : List (List (Option String)))
    (s : DriverPool × WarmupStatus)
    → s.1.success < word
    → s.1.failed_count < word
    → let v = (warm_all protocol now tries s).1 in
      (v.success ≡ (s.1.success + made tries) % word)
      × (v.failed_count ≡ (s.1.failed_count + length tries) % word)
      × (v.target ≡ s.1.target)
unfolding warm_all
warm_counts protocol now [] s a b = (omega arith, omega arith, refl)
warm_counts protocol now (t ∷ ts) (p, w) a b =
    let (ns, nf, nt) = warm_with_counts protocol now (first_made 3 t) p w a b in
    let (s, f, g) =
      warm_counts protocol now ts (warm_with protocol now (first_made 3 t) (p, w)) (omega arith)
        (omega arith) in
    (omega arith, omega arith, g ∙ nt)

-- WarmUp counts each goroutine as failed, whether it makes a connection or not, adds those that do to
-- the successes of all earlier calls, and returns an error exactly when this sum is 0.
pub warm_up_counts :
    (protocol : String) (now : ℕ) (tries : List (List (Option String))) (p : DriverPool)
    (w : WarmupStatus)
    → w.success < word
    → w.failed_count < word
    → let (q, v, is_error) = warm_up protocol now tries p w in
      (v.success ≡ (w.success + made tries) % word)
      × (v.failed_count ≡ (w.failed_count + length tries) % word)
      × (is_error ≡ ((w.success + made tries) % word == 0))
unfolding warm_up
warm_up_counts protocol now tries p w a b =
    let u : WarmupStatus = record w { target = length tries; status = in_progress } in
    let (s, f, g) = warm_counts protocol now tries (p, u) a b in (s, f, ap (λ n. n == 0) s)

-- A second WarmUp in which no connection can be made is reported as completed and without an error,
-- if an earlier one has made as many as are asked for now.
pub warm_up_again :
    (protocol : String) (now : ℕ) (tries : List (List (Option String))) (p : DriverPool)
    (w : WarmupStatus)
    → w.success ≡ length tries
    → 0 < length tries
    → length tries < word
    → w.failed_count < word
    → made tries ≡ 0
    → let (q, v, is_error) = warm_up protocol now tries p w in
      (v.status ≡ completed) × (is_error ≡ false)
unfolding warm_up
warm_up_again protocol now tries p w a pos b c m =
    let u : WarmupStatus = record w { target = length tries; status = in_progress } in
    let (s, f, g) = warm_counts protocol now tries (p, u) (omega arith) c in
    (ground arith, ground arith)
