-- ===== src/Task/Aggregator/Stats.antt =====
-- The counters of task/aggregator.go.
use zabbix_ddl_monitor.Base.{
  ℕ, Bool, true, not, List, [], ◌∷◌, ◌++◌, ◌%◌, ◌≡◌, refl, leb, arith, length, inl, inr,
  Option-cases, if_both,
}
use zabbix_ddl_monitor.Base.Int64.{word}
use zabbix_ddl_monitor.Task.Aggregator.{
  ResultEvent, Aggregator, submit, handle_events, flush_all, flush, update_stats, process_event,
  receive, receive_from, pick_held, work, stop, finish, finish_from,
}
use zabbix_ddl_monitor.Task.Aggregator.Conservation.{
  Op, submits, receives, works, flushes, stops, finishes, step, run, count-append, processed,
  processed-flush,
}

abbrev pub any : {D : Type 0} → ResultEvent D → Bool
any e = true

abbrev pub is_success : {D : Type 0} → ResultEvent D → Bool
is_success e = e.success

abbrev pub is_failure : {D : Type 0} → ResultEvent D → Bool
is_failure e = not e.success

-- The three counters are the numbers of processed events, of those with success and of the others,
-- modulo 2^64.
pub data Counted {D : Type 0} : Aggregator D → Type 0 where
  counted :
      {a : Aggregator D}
      → a.total_events ≡ processed any a % word
      → a.success_events ≡ processed is_success a % word
      → a.failed_events ≡ processed is_failure a % word
      → Counted a

Counted-flush :
    {D : Type 0} (now : ℕ) (es : List (ResultEvent D)) (a : Aggregator D)
    → a.buffer ≡ es
    → Counted a
    → Counted (flush_all now es a)
unfolding handle_events
Counted-flush now [] a h c = c
Counted-flush now (e ∷ es) a h (counted t s f) =
    counted (ground (arith, processed-flush any now (e ∷ es) a h))
      (ground (arith, processed-flush is_success now (e ∷ es) a h))
      (ground (arith, processed-flush is_failure now (e ∷ es) a h))

abbrev filled : {D : Type 0} → ResultEvent D → Aggregator D → Aggregator D
filled e a = update_stats e (record a { buffer = a.buffer ++ e ∷ [] })

added :
    {D : Type 0} (e : ResultEvent D) (a : Aggregator D)
    → a.total_events ≡ processed any a % word
    → a.success_events ≡ processed is_success a % word
    → a.failed_events ≡ processed is_failure a % word
    → Counted (filled e a)
unfolding update_stats
added e a t s f =
    counted (ground (arith, count-append any a.buffer (e ∷ [])))
      (ground (arith, count-append is_success a.buffer (e ∷ [])))
      (ground (arith, count-append is_failure a.buffer (e ∷ [])))

Counted-receive :
    {D : Type 0} (es : List (ResultEvent D)) (a : Aggregator D)
    → Counted a
    → Counted (receive_from es a)
Counted-receive [] a c = c
Counted-receive (e ∷ es) a (counted t s f) =
    if_both Counted a.is_closed a _ (counted t s f) (counted t s f)

Counted-finish :
    {D : Type 0} (now : ℕ) (es : List (ResultEvent D)) (a : Aggregator D)
    → Counted a
    → Counted (finish_from now es a)
unfolding flush
Counted-finish now [] a c = elim (Counted-flush now a.buffer a refl c) [
  | counted t s f ↦ if_both Counted a.is_stopped _ a (counted t s f) c
]
Counted-finish now (e ∷ es) a c = c

Counted-held :
    {D : Type 0} (es : List (ResultEvent D)) (a : Aggregator D)
    → Counted a
    → Counted (record a { held = es })
Counted-held es a (counted t s f) = counted t s f

Counted-process_event :
    {D : Type 0} (now : ℕ) (e : ResultEvent D) (a : Aggregator D)
    → Counted a
    → Counted (process_event now e a)
unfolding process_event flush update_stats
Counted-process_event now e a (counted t s f) =
    if_both Counted (leb a.buffer_size (length (a.buffer ++ e ∷ []))) _ _
      (Counted-flush now (a.buffer ++ e ∷ []) (filled e a) refl (added e a t s f)) (added e a t s f)

Counted-step : {D : Type 0} (o : Op D) (a : Aggregator D) → Counted a → Counted (step o a)
unfolding step receive flush finish stop submit work
Counted-step (submits pick e) a (counted t s f) =
    counted (ground arith) (ground arith) (ground arith)
Counted-step receives a c = Counted-receive a.queue a c
Counted-step (works now k) a c = elim (Option-cases (pick_held k a.held)) [
  | inl n ↦ rw n c
  | inr ((e, es), n) ↦
      rw n (Counted-process_event now e (record a { held = es }) (Counted-held es a c))
]
Counted-step (flushes now) a c = Counted-flush now a.buffer a refl c
Counted-step stops a (counted t s f) = counted t s f
Counted-step (finishes now) a c = Counted-finish now a.held a c

-- Every run from a state whose counters are right ends in such a state: the counters are the
-- numbers of all the processed results, the successful and the failed, modulo 2^64.
pub run-Counted :
    {D : Type 0} (os : List (Op D)) (a : Aggregator D) → Counted a → Counted (run os a)
unfolding run
run-Counted [] a c = c
run-Counted (o ∷ os) a c = run-Counted os (step o a) (Counted-step o a c)
