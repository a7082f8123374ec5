-- ===== src/Manager/Scheduler/Placement.antt =====
-- Which queue of manager/router_scheduler.go holds which line.
use zabbix_ddl_monitor.Base.{
  ℕ, ◌+◌, ◌-◌, true, false, String, Option, none, some, List, [], ◌∷◌, ◌++◌, str_eq, inl, inr, ◌==◌,
  ◌≡◌, refl, arith, if◌then◌else◌, Bool-cases,
}
use zabbix_ddl_monitor.Syncer.Line.{Line}
use zabbix_ddl_monitor.Manager.Queue
use zabbix_ddl_monitor.Manager.Queue.{
  IntervalTaskQueue, new_queue, contains_ip, update_first, remove_first,
}
use zabbix_ddl_monitor.Manager.Queue.Laws.{count_ip, count_ip-append, count_ip-remove_first}
use zabbix_ddl_monitor.Manager.Scheduler.{
  RouterScheduler, add_line, add_lines, new_scheduler, on_line_created, on_line_reset,
}
use zabbix_ddl_monitor.Manager.Scheduler.Queues.{
  Entry, QueueMap, lines_of, find, modify, queued, find-modify, has-find,
}

-- 1 if the line with this IP and interval is one for the given IP and interval, else 0.
abbrev pub at : String → ℕ → String → ℕ → ℕ
at lp li ip i = if str_eq lp ip then (if li == i then 1 else 0) else 0

-- How many lines stand under the IP with the interval.
abbrev pub count_at : String → ℕ → List Line → ℕ
count_at ip i [] = 0
count_at ip i (l ∷ ls) = at l.ip l.interval ip i + count_at ip i ls

-- The interval of the first line with the IP.
abbrev pub interval_of : String → List Line → Option ℕ
interval_of ip [] = none
interval_of ip (l ∷ ls) = if str_eq l.ip ip then some l.interval else interval_of ip ls

-- Each queue holds, for each IP, as many lines as the scheduler's list has with that interval.
pub data Placed : List Line → QueueMap → Type 0 where
  placed :
      {ls : List Line} {qs : QueueMap}
      → ((ip : String) (i : ℕ) → count_ip ip (queued i qs) ≡ count_at ip i ls)
      → Placed ls qs

pub use-Placed :
    {ls : List Line} {qs : QueueMap}
    → Placed ls qs
    → (ip : String) (i : ℕ) → count_ip ip (queued i qs) ≡ count_at ip i ls
use-Placed (placed p) ip i = p ip i

pub count_at-append :
    (ip : String) (i : ℕ) (ls ms : List Line)
    → count_at ip i (ls ++ ms) ≡ count_at ip i ls + count_at ip i ms
count_at-append ip i [] ms = omega arith
count_at-append ip i (l ∷ ls) ms = grind (arith, count_at-append ip i ls ms)

remove_entry :
    (ip : String) (i : ℕ) (jp : String) (j : ℕ) (o : Option Entry)
    → count_ip jp (
        lines_of (
          if i == j
          then (elim o [
            | none ↦ none
            | some e ↦ some (record e { queue = Queue.remove ip e.queue })
          ])
          else o))
      ≡ count_ip jp (lines_of o) - at ip i jp j
unfolding Queue.remove
remove_entry ip i jp j none = ground arith
remove_entry ip i jp j (some e) = ground (arith, count_ip-remove_first ip jp e.queue.lines)

pub queued-remove :
    (ip : String) (i : ℕ) (jp : String) (j : ℕ) (qs : QueueMap)
    → count_ip jp (queued j (modify i (Queue.remove ip) qs))
      ≡ count_ip jp (queued j qs) - at ip i jp j
queued-remove ip i jp j qs =
    rw (find-modify i j (Queue.remove ip) qs) (remove_entry ip i jp j (find j qs))

add_entry :
    (l : Line) (jp : String) (j : ℕ) (o : Option Entry)
    → (elim o [ none ↦ false | some e ↦ true ]) ≡ true
    → l.interval ≡ j
    → count_ip jp (
        lines_of
          (elim o [ none ↦ none | some e ↦ some (record e { queue = Queue.add l e.queue }) ]))
      ≡ count_ip jp (lines_of o) + at l.ip l.interval jp j
unfolding Queue.add
add_entry l jp j none h e = ground arith
add_entry l jp j (some e) h q = ground (arith, count_ip-append jp e.queue.lines (l ∷ []))

pub queued-add_line :
    (l : Line) (jp : String) (j : ℕ) (qs : QueueMap)
    → count_ip jp (queued j (add_line l qs)) ≡ count_ip jp (queued j qs) + at l.ip l.interval jp j
unfolding add_line find new_queue Queue.add
queued-add_line l jp j qs = ground (
  arith,
  has-find l.interval qs,
  find-modify l.interval j (Queue.add l) qs,
  add_entry l jp j (find j qs),
)

pub add_lines-Placed :
    (ls ms : List Line) (qs : QueueMap) → Placed ms qs → Placed (ms ++ ls) (add_lines ls qs)
unfolding add_lines
add_lines-Placed [] ms qs p =
    placed (λ ip i. omega (arith, count_at-append ip i ms [], use-Placed p ip i))
add_lines-Placed (l ∷ ls) ms qs p = placed (λ ip i. omega (
  arith,
  count_at-append ip i (ms ++ l ∷ []) ls,
  count_at-append ip i ms (l ∷ []),
  count_at-append ip i ms (l ∷ ls),
  use-Placed
      (add_lines-Placed ls (ms ++ l ∷ []) (add_line l qs) (
        placed (λ jp j.
          omega (
            arith,
            use-Placed p jp j,
            queued-add_line l jp j qs,
            count_at-append jp j ms (l ∷ []),
          ))))
      ip i,
))

empty-Placed : Placed [] []
unfolding find
empty-Placed = placed (λ ip i. refl)

-- A scheduler that is made from a list of lines has each line in the queue of its interval, once
-- for each time that it is listed.
pub new_scheduler-Placed :
    (lines : List Line) → Placed (new_scheduler lines).lines (new_scheduler lines).queues
unfolding new_scheduler
new_scheduler-Placed lines = add_lines-Placed lines [] [] empty-Placed

-- OnLineReset leaves each of the new lines in the queue of its interval, and no other line,
-- whatever was queued before.
pub on_line_reset-Placed :
    (new : List Line) (s : RouterScheduler)
    → Placed (on_line_reset new s).lines (on_line_reset new s).queues
unfolding on_line_reset
on_line_reset-Placed new s = add_lines-Placed new [] [] empty-Placed

-- OnLineCreated keeps the queues in step with the list of lines.
pub on_line_created-Placed :
    (line : Line) (s : RouterScheduler)
    → Placed s.lines s.queues
    → Placed (on_line_created line s).lines (on_line_created line s).queues
unfolding on_line_created
on_line_created-Placed line s p = elim (Bool-cases (contains_ip line.ip s.lines)) [
  | inl h ↦ simp h p
  | inr h ↦ simp h (
      placed (λ ip i. omega (
        arith,
        use-Placed p ip i,
        queued-add_line line ip i s.queues,
        count_at-append ip i s.lines (line ∷ []),
      )))
]
