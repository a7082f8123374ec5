-- ===== src/Task/Async.antt =====
-- task/async_executor.go: the queue of asynchronous tasks and its workers. A request is its number. A
-- select with several ready cases takes the first one when its argument is `true`. What a worker
-- does with a request that it has taken, to the callback, is not split here; Pings.Flight does so.
pub mod Accounts
use zabbix_ddl_monitor.Base.{
  ℕ, ◌-◌, ◌*◌, Bool, true, false, not, ◌&&◌, ◌||◌, List, [], ◌∷◌, ◌++◌, ltb, length, ◌==◌,
  if◌then◌else◌,
}

pub record AsyncExecutor : Type 0 where
  pub workers : ℕ
  pub running : ℕ  -- the workers that have not returned
  pub task_chan : List ℕ
  pub chan_closed : Bool
  pub stop_closed : Bool
  pub cancelled : Bool
  pub processed : List ℕ  -- the requests that workers have taken

pub data SubmitResult : Type 0 where
  accepted no_connection context_done queue_full submit_timeout panics : SubmitResult

-- NewAsyncExecutor, and Start.
unfoldable pub new_async_executor : ℕ → AsyncExecutor
new_async_executor workers = record {
  workers = workers;
  running = 0;
  task_chan = [];
  chan_closed = false;
  stop_closed = false;
  cancelled = false;
  processed = [];
}

unfoldable pub start : AsyncExecutor → AsyncExecutor
start e = record e { running = e.workers }

abbrev pub capacity : AsyncExecutor → ℕ
capacity e = e.workers * 10

-- A send on a closed channel can be chosen, and panics.
abbrev pub can_send : AsyncExecutor → Bool
can_send e = e.chan_closed || ltb (length e.task_chan) (capacity e)

abbrev pub send : ℕ → AsyncExecutor → AsyncExecutor × SubmitResult
send r e =
    if e.chan_closed
    then (e, panics)
    else (record e { task_chan = e.task_chan ++ (r ∷ []) }, accepted)

-- Submit, with or without a connection.
unfoldable pub submit : Bool → Bool → ℕ → AsyncExecutor → AsyncExecutor × SubmitResult
submit first has_conn r e =
    if not has_conn
    then (e, no_connection)
    else if can_send e && (first || not e.cancelled)
    then send r e
    else if e.cancelled
    then (e, context_done)
    else (e, queue_full)

-- SubmitWithTimeout: it waits, and `waited` says that the time has passed.
unfoldable pub submit_with_timeout :
    Bool → Bool → Bool → ℕ → AsyncExecutor → AsyncExecutor × SubmitResult
submit_with_timeout first waited has_conn r e =
    if not has_conn
    then (e, no_connection)
    else if can_send e && (first || not (e.cancelled || waited))
    then send r e
    else if e.cancelled && not waited
    then (e, context_done)
    else (e, submit_timeout)

abbrev pub exit_worker : AsyncExecutor → AsyncExecutor
exit_worker e = record e { running = e.running - 1 }

-- One turn of a worker's loop: it takes a request, or sees one of the channels closed and returns, or
-- waits.
abbrev pub take : Bool → List ℕ → AsyncExecutor → AsyncExecutor
take first [] e = if e.chan_closed || e.stop_closed then exit_worker e else e
take first (r ∷ rs) e =
    if first || not e.stop_closed
    then record e { task_chan = rs; processed = r ∷ e.processed }
    else exit_worker e

unfoldable pub worker : Bool → AsyncExecutor → AsyncExecutor
worker first e = if e.running == 0 then e else take first e.task_chan e

-- Stop, up to the wait for the workers; `false` is the panic of a second close.
unfoldable pub begin_stop : AsyncExecutor → AsyncExecutor × Bool
begin_stop e =
    if e.stop_closed then (e, false) else (record e { stop_closed = true; cancelled = true }, true)

-- Stop, when every worker has returned.
unfoldable pub end_stop : AsyncExecutor → AsyncExecutor
end_stop e = if e.stop_closed && (e.running == 0) then record e { chan_closed = true } else e

-- GetQueueLength
unfoldable pub get_queue_length : AsyncExecutor → ℕ
get_queue_length e = length e.task_chan
