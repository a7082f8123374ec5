-- ===== src/Task/Async/Accounts.antt =====
-- What becomes of the requests that are submitted to the executor of task/async_executor.go.
use zabbix_ddl_monitor.Base.{
  ℕ, ◌+◌, ◌≤◌, Bool, true, false, ◌&&◌, List, [], ◌∷◌, ◌++◌, length, length-append, ◌==◌, ◌≡◌, ◌↔◌,
  refl, ◌∙◌, arith, ◌⊎◌, if◌then◌else◌, if_both,
}
use zabbix_ddl_monitor.Task.Async.{
  AsyncExecutor, SubmitResult, accepted, panics, capacity, submit, submit_with_timeout, take,
  worker, begin_stop, end_stop,
}

-- The calls that goroutines make, in any order.
pub data Act : Type 0 where
  submits : Bool → Bool → ℕ → Act
  submits_with_timeout : Bool → Bool → Bool → ℕ → Act
  works : Bool → Act
  begins_stop ends_stop : Act

unfoldable pub act : Act → AsyncExecutor → AsyncExecutor
act (submits first has_conn r) e = (submit first has_conn r e).0
act (submits_with_timeout first waited has_conn r) e =
    (submit_with_timeout first waited has_conn r e).0
act (works first) e = worker first e
act begins_stop e = (begin_stop e).0
act ends_stop e = end_stop e

unfoldable pub run : List Act → AsyncExecutor → AsyncExecutor
run [] e = e
run (a ∷ acts) e = run acts (act a e)

abbrev pub is_accepted : SubmitResult → Bool
is_accepted accepted = true
is_accepted r = false

-- Whether a call is one that submits this request and is told that it is accepted.
abbrev pub accepts : ℕ → Act → AsyncExecutor → ℕ
accepts r (submits first has_conn s) e =
    if (s == r) && is_accepted (submit first has_conn s e).1 then 1 else 0
accepts r (submits_with_timeout first waited has_conn s) e =
    if (s == r) && is_accepted (submit_with_timeout first waited has_conn s e).1 then 1 else 0
accepts r a e = 0

abbrev pub accepted_in : ℕ → List Act → AsyncExecutor → ℕ
accepted_in r [] e = 0
accepted_in r (a ∷ acts) e = accepts r a e + accepted_in r acts (act a e)

abbrev pub count : ℕ → List ℕ → ℕ
count r [] = 0
count r (s ∷ ss) = (if s == r then 1 else 0) + count r ss

-- A request in the queue, and one that was run.
abbrev pub held : ℕ → AsyncExecutor → ℕ
held r e = count r e.task_chan + count r e.processed

count-append : (r : ℕ) (ss ts : List ℕ) → count r (ss ++ ts) ≡ count r ss + count r ts
count-append r [] ts = omega arith
count-append r (s ∷ ss) ts = omega (arith, count-append r ss ts)

held-take :
    (r : ℕ) (first : Bool) (queue : List ℕ) (e : AsyncExecutor)
    → e.task_chan ≡ queue
    → held r (take first queue e) ≡ held r e
held-take r first [] e q = ground arith
held-take r first (s ∷ ss) e q = ground arith

held-act : (r : ℕ) (a : Act) (e : AsyncExecutor) → held r (act a e) ≡ held r e + accepts r a e
unfolding act submit submit_with_timeout worker begin_stop end_stop
held-act r (submits first has_conn s) e = ground (arith, count-append r e.task_chan (s ∷ []))
held-act r (submits_with_timeout first waited has_conn s) e =
    ground (arith, count-append r e.task_chan (s ∷ []))
held-act r (works first) e = ground (arith, held-take r first e.task_chan e refl)
held-act r begins_stop e = ground arith
held-act r ends_stop e = ground arith

-- Whatever the callers, the workers and Stop do, the times that a request waits in the queue and the
-- times that it was run are together as many as the calls that were told that it is accepted: none
-- is lost on the way or run twice.
pub held-run :
    (r : ℕ) (acts : List Act) (e : AsyncExecutor)
    → held r (run acts e) ≡ held r e + accepted_in r acts e
unfolding run
held-run r [] e = omega arith
held-run r (a ∷ acts) e = omega (arith, held-act r a e, held-run r acts (act a e))

-- The queue holds at most what the channel can.
abbrev pub IsBounded : AsyncExecutor → Type 0
IsBounded e = length e.task_chan ≤ capacity e

-- All workers have returned, after Stop.
abbrev pub IsOver : AsyncExecutor → Type 0
IsOver e = e.running ≡ 0

processed-act :
    (a : Act) (e : AsyncExecutor)
    → IsOver e
    → ((act a e).processed ≡ e.processed) × IsOver (act a e)
unfolding act submit submit_with_timeout worker begin_stop end_stop
processed-act (submits first has_conn s) e o = ground arith
processed-act (submits_with_timeout first waited has_conn s) e o = ground arith
processed-act (works first) e o = ground arith
processed-act begins_stop e o = ground arith
processed-act ends_stop e o = ground arith

count_kept :
    (r : ℕ) (a : Act) (e : AsyncExecutor)
    → IsOver e
    → count r e.task_chan ≤ count r (act a e).task_chan
unfolding act submit submit_with_timeout worker begin_stop end_stop
count_kept r (submits first has_conn s) e o = ground (arith, count-append r e.task_chan (s ∷ []))
count_kept r (submits_with_timeout first waited has_conn s) e o =
    ground (arith, count-append r e.task_chan (s ∷ []))
count_kept r (works first) e o = ground arith
count_kept r begins_stop e o = ground arith
count_kept r ends_stop e o = ground arith

-- Once every worker has returned, no request is run any more, and those that wait in the queue, or
-- are still accepted, stay there.
pub nothing_runs :
    (r : ℕ) (acts : List Act) (e : AsyncExecutor)
    → e.running ≡ 0
    → ((run acts e).processed ≡ e.processed)
      × (count r e.task_chan ≤ count r (run acts e).task_chan)
unfolding run
nothing_runs r [] e o = (refl, omega arith)
nothing_runs r (a ∷ acts) e o =
    let (p, q) = processed-act a e o in
    let (t, u) = nothing_runs r acts (act a e) q in (t ∙ p, omega (arith, count_kept r a e o))

-- Submit panics exactly when it has a connection, the channel of tasks is closed, and the select
-- takes the send: so it can panic after Stop, and never before.
pub submit_panics_iff :
    (first has_conn : Bool) (r : ℕ) (e : AsyncExecutor)
    → ((submit first has_conn r e).1 ≡ panics)
      ↔ ((has_conn ≡ true) × (e.chan_closed ≡ true) × ((first ≡ true) ⊎ (e.cancelled ≡ false)))
unfolding submit
submit_panics_iff first has_conn r e = ground arith

IsBounded-take :
    (first : Bool) (queue : List ℕ) (e : AsyncExecutor)
    → e.task_chan ≡ queue
    → IsBounded e
    → IsBounded (take first queue e)
IsBounded-take first [] e q b = ground arith
IsBounded-take first (r ∷ rs) e q b = ground arith

IsBounded-act : (a : Act) (e : AsyncExecutor) → IsBounded e → IsBounded (act a e)
unfolding act submit submit_with_timeout worker begin_stop end_stop
IsBounded-act (submits first has_conn s) e b = ground (arith, length-append e.task_chan (s ∷ []))
IsBounded-act (submits_with_timeout first waited has_conn s) e b =
    ground (arith, length-append e.task_chan (s ∷ []))
IsBounded-act (works first) e b =
    if_both IsBounded (e.running == 0) e (take first e.task_chan e) b
      (IsBounded-take first e.task_chan e refl b)
IsBounded-act begins_stop e b = ground arith
IsBounded-act ends_stop e b = ground arith

-- The queue never holds more than ten requests for each worker.
pub run-IsBounded : (acts : List Act) (e : AsyncExecutor) → IsBounded e → IsBounded (run acts e)
unfolding run
run-IsBounded [] e b = b
run-IsBounded (a ∷ acts) e b = run-IsBounded acts (act a e) (IsBounded-act a e b)
