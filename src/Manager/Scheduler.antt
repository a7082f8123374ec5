-- ===== src/Manager/Scheduler.antt =====
-- manager/router_scheduler.go: the queues of one router and the handlers of its lines' changes. Each
-- handler holds the scheduler's lock. Connections and tasks are not modelled here. `lines` is a value of its own
-- here: the model leaves out that NewRouterScheduler keeps the manager's slice, so that a removal in
-- the manager can also shift the lines in the shared array.
pub mod Queues
pub mod Placement
pub mod InStep
pub mod Gaps
pub mod Workers
pub mod Pings
use zabbix_ddl_monitor.Base.{
  ℕ, zero, suc, ◌+◌, Bool, true, false, String, Option, none, some, List, [], ◌∷◌, ◌++◌, str_eq,
  ◌==◌, not, if◌then◌else◌,
}
use zabbix_ddl_monitor.Syncer.Line.{Line}
use zabbix_ddl_monitor.Manager.Queue
use zabbix_ddl_monitor.Manager.Queue.{IntervalTaskQueue, new_queue, contains_ip, update_first}
use Queues.{Entry, QueueMap, find, has, modify, remove_key, start_all}

-- `pending` keeps the intervals whose empty queue is due to be destroyed in ten minutes.
pub record RouterScheduler : Type 0 where
  pub lines : List Line
  pub queues : QueueMap
  pub pending : List ℕ

-- `if _, exists := s.queues[interval]; !exists { … NewIntervalTaskQueue }`, then `Add`.
unfoldable pub add_line : Line → QueueMap → QueueMap
add_line line qs =
    if has line.interval qs
    then modify line.interval (Queue.add line) qs
    else (
      line.interval,
      record { queue = Queue.add line (new_queue line.interval); has_worker = false },
    )
      ∷ qs

-- The loop of initializeQueues and of OnLineReset over the lines.
unfoldable pub add_lines : List Line → QueueMap → QueueMap
add_lines [] qs = qs
add_lines (l ∷ ls) qs = add_lines ls (add_line l qs)

-- NewRouterScheduler, as far as the queues go.
unfoldable pub new_scheduler : List Line → RouterScheduler
new_scheduler lines = record { lines = lines; queues = add_lines lines []; pending = [] }

-- Start: a worker for each queue that there is.
unfoldable pub start : RouterScheduler → RouterScheduler
start s = record s { queues = start_all s.queues }

-- OnLineCreated
unfoldable pub on_line_created : Line → RouterScheduler → RouterScheduler
on_line_created line s =
    if contains_ip line.ip s.lines
    then s
    else record s { queues = add_line line s.queues; lines = s.lines ++ line ∷ [] }

-- OnLineUpdated: to another queue if the interval has changed, else in place.
unfoldable pub on_line_updated : Line → Line → RouterScheduler → RouterScheduler
on_line_updated old new s = record s {
  queues =
      if not (old.interval == new.interval)
      then add_line new (modify old.interval (Queue.remove old.ip) s.queues)
      else modify old.interval (Queue.update_task new) s.queues;
  lines = update_first old.ip new s.lines;
}

-- OnLineDeleted
abbrev delete_from : Line → Option Entry → RouterScheduler → RouterScheduler
delete_from line none s = s
delete_from line (some e) s = if not (Queue.contains line.ip e.queue) then s else record s {
  queues = modify line.interval (Queue.remove line.ip) s.queues;
  pending =
      if Queue.is_empty (Queue.remove line.ip e.queue)
      then line.interval ∷ s.pending
      else s.pending;
}

unfoldable pub on_line_deleted : Line → RouterScheduler → RouterScheduler
on_line_deleted line s = delete_from line (find line.interval s.queues) s

-- The callback ten minutes after OnLineDeleted left a queue empty.
abbrev destroy_from : ℕ → Option Entry → QueueMap → QueueMap
destroy_from interval none qs = qs
destroy_from interval (some e) qs = if Queue.is_empty e.queue then remove_key interval qs else qs

unfoldable pub destroy_empty : ℕ → RouterScheduler → RouterScheduler
destroy_empty interval s = record s {
  queues = destroy_from interval (find interval s.queues) s.queues;
}

-- OnLineReset: all old queues are stopped and left behind.
unfoldable pub on_line_reset : List Line → RouterScheduler → RouterScheduler
on_line_reset new s = record s { queues = add_lines new []; lines = new }
