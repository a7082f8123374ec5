-- ===== src/Manager/Scheduler/Workers.antt =====
-- Which queues of manager/router_scheduler.go a worker serves, over the handlers' runs after Start.
use zabbix_ddl_monitor.Base.{
  ℕ, Bool, false, none, some, List, [], ◌∷◌, ◌==◌, ◌≡◌, refl, arith, if◌then◌else◌,
}
use zabbix_ddl_monitor.Syncer.Line.{Line}
use zabbix_ddl_monitor.Manager.Queue
use zabbix_ddl_monitor.Manager.Queue.{IntervalTaskQueue, new_queue, contains_ip}
use zabbix_ddl_monitor.Manager.Scheduler.{
  RouterScheduler, add_line, add_lines, start, on_line_created, on_line_updated, on_line_deleted,
  on_line_reset, destroy_empty,
}
use zabbix_ddl_monitor.Manager.Scheduler.Queues.{
  QueueMap, find, has, modify, remove_key, start_all, find-modify, has-find,
}

pub data Event : Type 0 where
  created : Line → Event
  updated : Line → Line → Event
  deleted : Line → Event
  emptied : ℕ → Event
  replaced : List Line → Event

unfoldable pub handle : Event → RouterScheduler → RouterScheduler
handle (created l) s = on_line_created l s
handle (updated old new) s = on_line_updated old new s
handle (deleted l) s = on_line_deleted l s
handle (emptied i) s = destroy_empty i s
handle (replaced ls) s = on_line_reset ls s

unfoldable pub handle_all : List Event → RouterScheduler → RouterScheduler
handle_all [] s = s
handle_all (e ∷ es) s = handle_all es (handle e s)

-- Whether there is a queue for the interval with a worker that runs its lines.
abbrev pub is_served : ℕ → QueueMap → Bool
is_served i qs = elim (find i qs) [ none ↦ false | some e ↦ e.has_worker ]

served-modify :
    (i j : ℕ) (f : IntervalTaskQueue → IntervalTaskQueue) (qs : QueueMap)
    → is_served j (modify i f qs) ≡ is_served j qs
served-modify i j f qs = ground (arith, find-modify i j f qs)

served-add_line : (l : Line) (j : ℕ) (qs : QueueMap) → is_served j (add_line l qs) ≡ is_served j qs
unfolding add_line find
served-add_line l j qs =
    ground (arith, has-find l.interval qs, served-modify l.interval j (Queue.add l) qs)

find-remove_key :
    (i j : ℕ) (qs : QueueMap) → find j (remove_key i qs) ≡ (if i == j then none else find j qs)
unfolding remove_key find
find-remove_key i j [] = ground arith
find-remove_key i j ((k, e) ∷ qs) = ground (arith, find-remove_key i j qs)

served-remove_key :
    (i j : ℕ) (qs : QueueMap) → is_served j qs ≡ false → is_served j (remove_key i qs) ≡ false
served-remove_key i j qs h = ground (arith, find-remove_key i j qs)

served-add_lines :
    (ls : List Line) (j : ℕ) (qs : QueueMap) → is_served j (add_lines ls qs) ≡ is_served j qs
unfolding add_lines
served-add_lines [] j qs = refl
served-add_lines (l ∷ ls) j qs =
    ground (arith, served-add_lines ls j (add_line l qs), served-add_line l j qs)

served-handle :
    (e : Event) (j : ℕ) (s : RouterScheduler)
    → is_served j s.queues ≡ false
    → is_served j (handle e s).queues ≡ false
unfolding handle on_line_created on_line_updated on_line_deleted on_line_reset destroy_empty find
served-handle (created l) j s h = ground (arith, served-add_line l j s.queues)
served-handle (updated old new) j s h = ground (
  arith,
  served-add_line new j (modify old.interval (Queue.remove old.ip) s.queues),
  served-modify old.interval j (Queue.remove old.ip) s.queues,
  served-modify old.interval j (Queue.update_task new) s.queues,
)
served-handle (deleted l) j s h =
    ground (arith, served-modify l.interval j (Queue.remove l.ip) s.queues)
served-handle (emptied i) j s h = ground (arith, served-remove_key i j s.queues)
served-handle (replaced ls) j s h = ground (arith, served-add_lines ls j [])

-- A queue that has no worker, or is not there yet, is never served later: no run of the handlers
-- starts a worker for an interval that Start left without one.
pub unserved_stays_unserved :
    (es : List Event) (j : ℕ) (s : RouterScheduler)
    → is_served j s.queues ≡ false
    → is_served j (handle_all es s).queues ≡ false
unfolding handle_all
unserved_stays_unserved [] j s h = h
unserved_stays_unserved (e ∷ es) j s h =
    unserved_stays_unserved es j (handle e s) (served-handle e j s h)

served-start_all : (j : ℕ) (qs : QueueMap) → is_served j (start_all qs) ≡ has j qs
unfolding start_all has find
served-start_all j [] = refl
served-start_all j ((k, e) ∷ qs) = ground (arith, served-start_all j qs)

-- Start serves exactly the intervals that have a queue by then.
pub start_serves : (j : ℕ) (s : RouterScheduler) → is_served j (start s).queues ≡ has j s.queues
unfolding start
start_serves j s = served-start_all j s.queues
