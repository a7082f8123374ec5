-- ===== src/Manager/Scheduler/Queues.antt =====
-- The map from intervals to queues of manager/router_scheduler.go, with the worker of each queue.
use zabbix_ddl_monitor.Base.{
  ℕ, Bool, true, false, Option, none, some, List, [], ◌∷◌, ◌==◌, ◌≡◌, refl, arith, if◌then◌else◌,
}
use zabbix_ddl_monitor.Syncer.Line.{Line}
use zabbix_ddl_monitor.Manager.Queue.{IntervalTaskQueue}

-- `has_worker` says that a goroutine of `Start` listens to the queue's signals.
pub record Entry : Type 0 where
  pub queue : IntervalTaskQueue
  pub has_worker : Bool

abbrev pub QueueMap : Type 0
QueueMap = List (ℕ × Entry)

unfoldable pub find : ℕ → QueueMap → Option Entry
find i [] = none
find i ((j, e) ∷ qs) = if j == i then some e else find i qs

unfoldable pub has : ℕ → QueueMap → Bool
has i [] = false
has i ((j, e) ∷ qs) = if j == i then true else has i qs

-- A change of the queue behind the pointer at a key, if the key is there.
unfoldable pub modify : ℕ → (IntervalTaskQueue → IntervalTaskQueue) → QueueMap → QueueMap
modify i f [] = []
modify i f ((j, e) ∷ qs) =
    let rest = modify i f qs in
    if j == i then (j, record e { queue = f e.queue }) ∷ qs else (j, e) ∷ rest

-- delete(s.queues, interval)
unfoldable pub remove_key : ℕ → QueueMap → QueueMap
remove_key i [] = []
remove_key i ((j, e) ∷ qs) = let rest = remove_key i qs in if j == i then rest else (j, e) ∷ rest

unfoldable pub start_all : QueueMap → QueueMap
start_all [] = []
start_all ((j, e) ∷ qs) = (j, record e { has_worker = true }) ∷ start_all qs

abbrev pub lines_of : Option Entry → List Line
lines_of none = []
lines_of (some e) = e.queue.lines

-- The lines of the queue for an interval; none if there is no queue.
abbrev pub queued : ℕ → QueueMap → List Line
queued i qs = lines_of (find i qs)

pub find-modify :
    (i j : ℕ) (f : IntervalTaskQueue → IntervalTaskQueue) (qs : QueueMap)
    → find j (modify i f qs) ≡ (
        if i == j
        then (elim (find j qs) [ none ↦ none | some e ↦ some (record e { queue = f e.queue }) ])
        else find j qs)
unfolding find modify
find-modify i j f [] = ground arith
find-modify i j f ((k, e) ∷ qs) = ground (arith, find-modify i j f qs)

pub has-find :
    (i : ℕ) (qs : QueueMap) → has i qs ≡ (elim (find i qs) [ none ↦ false | some e ↦ true ])
unfolding has find
has-find i [] = refl
has-find i ((j, e) ∷ qs) = ground (arith, has-find i qs)
