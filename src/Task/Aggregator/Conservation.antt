-- ===== src/Task/Aggregator/Conservation.antt =====
-- No result is lost or doubled between Submit and the handlers of task/aggregator.go.
use zabbix_ddl_monitor.Base.{
  ℕ, zero, suc, ◌+◌, Bool, some, List, [], ◌∷◌, ◌++◌, ◌≡◌, refl, arith, inl, inr, Option-cases,
  if◌then◌else◌,
}
use zabbix_ddl_monitor.Task.Aggregator.{
  ResultEvent, Aggregator, Submission, accepted, submit, handle_events, flush_all, flush,
  update_stats, process_event, receive, receive_from, pick_held, work, stop, finish, finish_from,
}

pub data Op (D : Type 0) : Type 0 where
  submits : Bool → ResultEvent D → Op D
  receives : Op D
  works : ℕ → ℕ → Op D
  flushes : ℕ → Op D
  stops : Op D
  finishes : ℕ → Op D

unfoldable pub step : {D : Type 0} → Op D → Aggregator D → Aggregator D
step (submits pick e) a = (submit pick e a).1
step receives a = receive a
step (works now k) a = work now k a
step (flushes now) a = flush now a
step stops a = stop a
step (finishes now) a = finish now a

unfoldable pub run : {D : Type 0} → List (Op D) → Aggregator D → Aggregator D
run [] a = a
run (o ∷ os) a = run os (step o a)

-- The number of events that satisfy `p`.
abbrev pub count : {D : Type 0} → (ResultEvent D → Bool) → List (ResultEvent D) → ℕ
count p [] = 0
count p (e ∷ es) = if p e then suc (count p es) else count p es

abbrev pub count_batches : {D : Type 0} → (ResultEvent D → Bool) → List (List (ResultEvent D)) → ℕ
count_batches p [] = 0
count_batches p (b ∷ bs) = count p b + count_batches p bs

-- The processed events: buffered, handed on or dropped.
abbrev pub processed : {D : Type 0} → (ResultEvent D → Bool) → Aggregator D → ℕ
processed p a = count p a.buffer + count_batches p a.batches + count p a.dropped

-- All events that are somewhere in the aggregator or have left it for the handlers.
abbrev pub load : {D : Type 0} → (ResultEvent D → Bool) → Aggregator D → ℕ
load p a = count p a.queue + count p a.held + processed p a

abbrev verdict_count : {D : Type 0} → (ResultEvent D → Bool) → ResultEvent D → Submission → ℕ
verdict_count p e accepted = if p e then 1 else 0
verdict_count p e _ = 0

-- The submissions of a run that were accepted.
abbrev pub taken : {D : Type 0} → (ResultEvent D → Bool) → List (Op D) → Aggregator D → ℕ
taken p [] a = 0
taken p (submits pick e ∷ os) a =
    verdict_count p e (submit pick e a).0 + taken p os (step (submits pick e) a)
taken p (o ∷ os) a = taken p os (step o a)

pub count-append :
    {D : Type 0} (p : ResultEvent D → Bool) (es fs : List (ResultEvent D))
    → count p (es ++ fs) ≡ count p es + count p fs
count-append p [] fs = omega arith
count-append p (e ∷ es) fs = ground (arith, count-append p es fs)

count_batches-append :
    {D : Type 0} (p : ResultEvent D → Bool) (bs cs : List (List (ResultEvent D)))
    → count_batches p (bs ++ cs) ≡ count_batches p bs + count_batches p cs
count_batches-append p [] cs = omega arith
count_batches-append p (b ∷ bs) cs = omega (arith, count_batches-append p bs cs)

pub processed-flush :
    {D : Type 0} (p : ResultEvent D → Bool) (now : ℕ) (es : List (ResultEvent D)) (a : Aggregator D)
    → a.buffer ≡ es
    → processed p (flush_all now es a) ≡ processed p a
unfolding handle_events
processed-flush p now [] a h = refl
processed-flush p now (e ∷ es) a h =
    ground
      (arith, count-append p a.dropped (e ∷ es), count_batches-append p a.batches ((e ∷ es) ∷ []))

load-flush :
    {D : Type 0} (p : ResultEvent D → Bool) (now : ℕ) (es : List (ResultEvent D)) (a : Aggregator D)
    → a.buffer ≡ es
    → load p (flush_all now es a) ≡ load p a
unfolding handle_events
load-flush p now [] a h = refl
load-flush p now (e ∷ es) a h = ground (arith, processed-flush p now (e ∷ es) a h)

load-process_event :
    {D : Type 0} (p : ResultEvent D → Bool) (now : ℕ) (e : ResultEvent D) (a : Aggregator D)
    → load p (process_event now e a) ≡ load p a + (if p e then 1 else 0)
unfolding process_event flush update_stats
load-process_event p now e a = ground (
  arith,
  count-append p a.buffer (e ∷ []),
  load-flush p now (a.buffer ++ e ∷ []) (update_stats e (record a { buffer = a.buffer ++ e ∷ [] }))
      refl,
)

load-submit :
    {D : Type 0} (p : ResultEvent D → Bool) (pick : Bool) (e : ResultEvent D) (a : Aggregator D)
    → load p (submit pick e a).1 ≡ load p a + verdict_count p e (submit pick e a).0
unfolding submit
load-submit p pick e a = ground (arith, count-append p a.queue (e ∷ []))

count-pick_held :
    {D : Type 0} (p : ResultEvent D → Bool) (k : ℕ) (es fs : List (ResultEvent D))
    (f : ResultEvent D)
    → pick_held k es ≡ some (f, fs)
    → count p es ≡ (if p f then 1 else 0) + count p fs
count-pick_held p k [] fs f h = ground arith
count-pick_held p zero (e ∷ es) fs f h = ground arith
count-pick_held p (suc k) (e ∷ es) fs f h = elim (Option-cases (pick_held k es)) [
  | inl n ↦ ground arith
  | inr ((g, gs), n) ↦ ground (arith, count-pick_held p k es gs g n)
]

load-work :
    {D : Type 0} (p : ResultEvent D → Bool) (now k : ℕ) (a : Aggregator D)
    → load p (work now k a) ≡ load p a
unfolding work
load-work p now k a = elim (Option-cases (pick_held k a.held)) [
  | inl n ↦ rw n refl
  | inr ((e, es), n) ↦ rw n (
      omega (
        arith,
        count-pick_held p k a.held es e n,
        load-process_event p now e (record a { held = es }),
      ))
]

load-receive :
    {D : Type 0} (p : ResultEvent D → Bool) (es : List (ResultEvent D)) (a : Aggregator D)
    → a.queue ≡ es
    → load p (receive_from es a) ≡ load p a
load-receive p [] a h = refl
load-receive p (e ∷ es) a h = ground arith

load-finish :
    {D : Type 0} (p : ResultEvent D → Bool) (now : ℕ) (es : List (ResultEvent D)) (a : Aggregator D)
    → load p (finish_from now es a) ≡ load p a
unfolding flush
load-finish p now [] a = ground (arith, load-flush p now a.buffer a refl)
load-finish p now (e ∷ es) a = refl

load-step :
    {D : Type 0} (p : ResultEvent D → Bool) (o : Op D) (a : Aggregator D)
    → load p (step o a) ≡ load p a + taken p (o ∷ []) a
unfolding step receive flush finish stop
load-step p (submits pick e) a = omega (arith, load-submit p pick e a)
load-step p receives a = omega (arith, load-receive p a.queue a refl)
load-step p (works now k) a = omega (arith, load-work p now k a)
load-step p (flushes now) a = omega (arith, load-flush p now a.buffer a refl)
load-step p stops a = omega arith
load-step p (finishes now) a = omega (arith, load-finish p now a.held a)

-- Over any interleaving of submissions, workers, flushes and Stop, the events of any kind `p` that
-- stand in the channel, with a worker, in the buffer, in a batch or among the dropped are those
-- that were there before and those that Submit has accepted, each as often as it was accepted.
pub load-run :
    {D : Type 0} (p : ResultEvent D → Bool) (os : List (Op D)) (a : Aggregator D)
    → load p (run os a) ≡ load p a + taken p os a
unfolding run
load-run p [] a = omega arith
load-run p (submits pick e ∷ os) a =
    omega (arith, load-step p (submits pick e) a, load-run p os (step (submits pick e) a))
load-run p (receives ∷ os) a =
    omega (arith, load-step p receives a, load-run p os (step receives a))
load-run p (works now k ∷ os) a =
    omega (arith, load-step p (works now k) a, load-run p os (step (works now k) a))
load-run p (flushes now ∷ os) a =
    omega (arith, load-step p (flushes now) a, load-run p os (step (flushes now) a))
load-run p (stops ∷ os) a = omega (arith, load-step p stops a, load-run p os (step stops a))
load-run p (finishes now ∷ os) a =
    omega (arith, load-step p (finishes now) a, load-run p os (step (finishes now) a))
