-- ===== src/Task/Aggregator.antt =====
-- task/aggregator.go: the channel of results, the workers' buffer and the batches that go to the
-- handlers. What a handler does with a batch is its own code; an error of it is only logged.
pub mod Conservation
pub mod Stats
pub mod Shutdown
pub mod Json
use zabbix_ddl_monitor.Base.{
  ℕ, zero, suc, ◌+◌, Bool, true, false, not, ◌&&◌, ◌||◌, String, Option, none, some, List, [], ◌∷◌,
  ◌++◌, ltb, leb, ◌*◌, ◌==◌, length, if◌then◌else◌,
}
use zabbix_ddl_monitor.Base.Int64
use zabbix_ddl_monitor.Syncer.Line.{Line}

-- `D` is the type of `Data`, map[string]interface{} in the code.
pub record ResultEvent (D : Type 0) : Type 0 where
  pub line_id : String
  pub ip : String
  pub router_ip : String
  pub task_type : String
  pub timestamp : ℕ
  pub success : Bool
  pub values : D
  pub error : String
  pub duration : ℕ

pub record TaskResult (D : Type 0) : Type 0 where
  pub success : Bool
  pub values : D
  pub error : String

-- `queue` is eventChan; `held` has the events that a worker has received and not yet put into the
-- buffer; `batches` has what went to the handlers, in order; `dropped` what found no handler.
pub record Aggregator (D : Type 0) : Type 0 where
  pub handlers : ℕ
  pub capacity : ℕ
  pub queue : List (ResultEvent D)
  pub held : List (ResultEvent D)
  pub buffer : List (ResultEvent D)
  pub buffer_size : ℕ
  pub batches : List (List (ResultEvent D))
  pub dropped : List (ResultEvent D)
  pub total_events : ℕ
  pub success_events : ℕ
  pub failed_events : ℕ
  pub last_flush : ℕ
  pub is_stopped : Bool
  pub is_closed : Bool

-- NewAggregator
unfoldable pub new_aggregator : {D : Type 0} → ℕ → ℕ → Aggregator D
new_aggregator workers buffer_size = record {
  handlers = 0;
  capacity = workers * 200;
  queue = [];
  held = [];
  buffer = [];
  buffer_size = buffer_size;
  batches = [];
  dropped = [];
  total_events = 0;
  success_events = 0;
  failed_events = 0;
  last_flush = 0;
  is_stopped = false;
  is_closed = false;
}

unfoldable pub add_handler : {D : Type 0} → Aggregator D → Aggregator D
add_handler a = record a { handlers = suc a.handlers }

pub data Submission : Type 0 where
  accepted cancelled queue_full panics : Submission

-- Submit's select: when both the channel and ctx.Done() are ready, `pick` says which case Go's
-- random choice takes. A send on a closed channel is ready and panics.
unfoldable pub submit :
    {D : Type 0} → Bool → ResultEvent D → Aggregator D → Submission × Aggregator D
submit pick event a =
    if (a.is_closed || ltb (length a.queue) a.capacity) && (not a.is_stopped || pick)
    then (if a.is_closed
        then (panics, a)
        else (accepted, record a { queue = a.queue ++ event ∷ [] }))
    else if a.is_stopped
    then (cancelled, a)
    else (queue_full, a)

-- SubmitTaskResult
unfoldable pub event_of : {D : Type 0} → ℕ → Line → String → TaskResult D → ℕ → ResultEvent D
event_of now line task_type result duration = record {
  line_id = line.id;
  ip = line.ip;
  router_ip = line.router.ip;
  task_type = task_type;
  timestamp = now;
  success = result.success;
  values = result.values;
  error = result.error;
  duration = duration;
}

-- handleEvents
unfoldable pub handle_events : {D : Type 0} → List (ResultEvent D) → Aggregator D → Aggregator D
handle_events events a =
    if a.handlers == 0
    then record a { dropped = a.dropped ++ events }
    else record a { batches = a.batches ++ events ∷ [] }

-- flush
abbrev pub flush_all : {D : Type 0} → ℕ → List (ResultEvent D) → Aggregator D → Aggregator D
flush_all now [] a = a
flush_all now (e ∷ es) a = record (handle_events (e ∷ es) (record a { buffer = [] })) {
  last_flush = now;
}

unfoldable pub flush : {D : Type 0} → ℕ → Aggregator D → Aggregator D
flush now a = flush_all now a.buffer a

unfoldable pub update_stats : {D : Type 0} → ResultEvent D → Aggregator D → Aggregator D
update_stats event a = record a {
  total_events = Int64.inc a.total_events;
  success_events = if event.success then Int64.inc a.success_events else a.success_events;
  failed_events = if event.success then a.failed_events else Int64.inc a.failed_events;
}

-- processEvent: whether to flush is found before the statistics, from the buffer with the event.
-- One step: what another worker appends just before the flush would only make the batch longer.
unfoldable pub process_event : {D : Type 0} → ℕ → ResultEvent D → Aggregator D → Aggregator D
process_event now event a =
    let buffer = a.buffer ++ event ∷ [] in
    let counted = update_stats event (record a { buffer = buffer }) in
    if leb a.buffer_size (length buffer) then flush now counted else counted

-- A worker's receive. No worker is left once the channel is closed.
abbrev pub receive_from : {D : Type 0} → List (ResultEvent D) → Aggregator D → Aggregator D
receive_from [] a = a
receive_from (e ∷ es) a = if a.is_closed then a else record a { queue = es; held = e ∷ a.held }

unfoldable pub receive : {D : Type 0} → Aggregator D → Aggregator D
receive a = receive_from a.queue a

-- The worker that holds an event processes it. The workers may do so in any order: the k-th of
-- them is next.
abbrev pub pick_held :
    {D : Type 0} → ℕ → List (ResultEvent D) → Option (ResultEvent D × List (ResultEvent D))
pick_held k [] = none
pick_held zero (e ∷ es) = some (e, es)
pick_held (suc k) (e ∷ es) = elim (pick_held k es) [ none ↦ none | some (f, fs) ↦ some (f, e ∷ fs) ]

abbrev pub work_on :
    {D : Type 0} → ℕ → Option (ResultEvent D × List (ResultEvent D)) → Aggregator D → Aggregator D
work_on now none a = a
work_on now (some (e, es)) a = process_event now e (record a { held = es })

unfoldable pub work : {D : Type 0} → ℕ → ℕ → Aggregator D → Aggregator D
work now k a = work_on now (pick_held k a.held) a

-- Stop, up to wg.Wait.
unfoldable pub stop : {D : Type 0} → Aggregator D → Aggregator D
stop a = record a { is_stopped = true }

-- Stop, after wg.Wait: the workers have returned, so none holds an event.
abbrev pub finish_from : {D : Type 0} → ℕ → List (ResultEvent D) → Aggregator D → Aggregator D
finish_from now [] a = if a.is_stopped then record (flush now a) { is_closed = true } else a
finish_from now (e ∷ es) a = a

unfoldable pub finish : {D : Type 0} → ℕ → Aggregator D → Aggregator D
finish now a = finish_from now a.held a
