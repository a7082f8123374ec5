-- ===== src/Task/Aggregator/Shutdown.antt =====
-- What Stop of task/aggregator.go leaves in the channel.
use zabbix_ddl_monitor.Base.{
  ℕ, true, List, [], ◌∷◌, ◌++◌, ◌≡◌, refl, leb, arith, length, inl, inr, Option-cases, if_both,
}
use zabbix_ddl_monitor.Task.Aggregator.{
  ResultEvent, Aggregator, submit, handle_events, flush_all, flush, update_stats, process_event,
  receive, receive_from, pick_held, work, stop, finish, finish_from,
}
use zabbix_ddl_monitor.Task.Aggregator.Conservation.{
  Op, submits, receives, works, flushes, stops, finishes, step, run,
}

-- The channel is closed and holds these events.
pub data Shut {D : Type 0} : List (ResultEvent D) → Aggregator D → Type 0 where
  shut :
      {es : List (ResultEvent D)} {a : Aggregator D} → a.is_closed ≡ true → a.queue ≡ es → Shut es a

Shut-flush :
    {D : Type 0} (q : List (ResultEvent D)) (now : ℕ) (es : List (ResultEvent D)) (a : Aggregator D)
    → a.is_closed ≡ true
    → a.queue ≡ q
    → Shut q (flush_all now es a)
unfolding handle_events
Shut-flush q now [] a c h = shut c h
Shut-flush q now (e ∷ es) a c h = shut (ground arith) (ground arith)

Shut-process_event :
    {D : Type 0} (q : List (ResultEvent D)) (now : ℕ) (e : ResultEvent D) (a : Aggregator D)
    → a.is_closed ≡ true
    → a.queue ≡ q
    → Shut q (process_event now e a)
unfolding process_event flush update_stats
Shut-process_event q now e a c h =
    if_both (Shut q) (leb a.buffer_size (length (a.buffer ++ e ∷ []))) _ _
      (Shut-flush q now (a.buffer ++ e ∷ [])
        (update_stats e (record a { buffer = a.buffer ++ e ∷ [] })) c h)
      (shut c h)

Shut-receive :
    {D : Type 0} (q es : List (ResultEvent D)) (a : Aggregator D)
    → a.is_closed ≡ true
    → a.queue ≡ q
    → Shut q (receive_from es a)
Shut-receive q [] a c h = shut c h
Shut-receive q (e ∷ es) a c h = shut (ground arith) (ground arith)

Shut-finish :
    {D : Type 0} (q : List (ResultEvent D)) (now : ℕ) (es : List (ResultEvent D)) (a : Aggregator D)
    → a.is_closed ≡ true
    → a.queue ≡ q
    → Shut q (finish_from now es a)
unfolding flush
Shut-finish q now [] a c h = elim (Shut-flush q now a.buffer a c h) [
  | shut d k ↦ if_both (Shut q) a.is_stopped _ a (shut refl k) (shut c h)
]
Shut-finish q now (e ∷ es) a c h = shut c h

Shut-step :
    {D : Type 0} (q : List (ResultEvent D)) (o : Op D) (a : Aggregator D)
    → Shut q a
    → Shut q (step o a)
unfolding step receive flush finish stop submit work
Shut-step q (submits pick e) a (shut c h) = shut (ground arith) (ground arith)
Shut-step q receives a (shut c h) = Shut-receive q a.queue a c h
Shut-step q (works now k) a (shut c h) = elim (Option-cases (pick_held k a.held)) [
  | inl n ↦ rw n (shut c h)
  | inr ((e, es), n) ↦ rw n (Shut-process_event q now e (record a { held = es }) c h)
]
Shut-step q (flushes now) a (shut c h) = Shut-flush q now a.buffer a c h
Shut-step q stops a (shut c h) = shut c h
Shut-step q (finishes now) a (shut c h) = Shut-finish q now a.held a c h

Shut-run :
    {D : Type 0} (q : List (ResultEvent D)) (os : List (Op D)) (a : Aggregator D)
    → Shut q a
    → Shut q (run os a)
unfolding run
Shut-run q [] a s = s
Shut-run q (o ∷ os) a s = Shut-run q os (step o a) (Shut-step q o a s)

queue_of : {D : Type 0} {q : List (ResultEvent D)} {a : Aggregator D} → Shut q a → a.queue ≡ q
queue_of (shut c h) = h

queue-flush_all :
    {D : Type 0} (now : ℕ) (es : List (ResultEvent D)) (a : Aggregator D)
    → (flush_all now es a).queue ≡ a.queue
unfolding handle_events
queue-flush_all now [] a = refl
queue-flush_all now (e ∷ es) a = ground arith

closes :
    {D : Type 0} (now : ℕ) (es : List (ResultEvent D)) (a : Aggregator D)
    → es ≡ []
    → a.is_stopped ≡ true
    → Shut a.queue (finish_from now es a)
unfolding flush
closes now [] a h s =
    shut (ground (arith, queue-flush_all now a.buffer a))
      (ground (arith, queue-flush_all now a.buffer a))
closes now (e ∷ es) a h s = shut (ground arith) (ground arith)

-- When Stop finds the workers done and closes the channel, the results that wait in the channel
-- stay there, whatever happens later: no worker and no handler receives them.
pub waiting_results_stay :
    {D : Type 0} (now : ℕ) (os : List (Op D)) (a : Aggregator D)
    → a.held ≡ []
    → a.is_stopped ≡ true
    → (run os (finish now a)).queue ≡ a.queue
unfolding finish
waiting_results_stay now os a h s =
    queue_of (Shut-run a.queue os (finish now a) (closes now a.held a h s))
