-- ===== src/Manager/Scheduler/Gaps.antt =====
-- What the handlers of manager/router_scheduler.go leave undone.
use zabbix_ddl_monitor.Base.{
  ℕ, ◌+◌, ◌-◌, ◌≤◌, true, false, String, List, [], ◌∷◌, ◌++◌, eq_iff, eq_refl, ◌==◌, ==_iff, ◌≡◌,
  refl, arith, if◌then◌else◌,
}
use zabbix_ddl_monitor.Syncer.Line.{Line}
use zabbix_ddl_monitor.Manager.Queue
use zabbix_ddl_monitor.Manager.Queue.{
  IntervalTaskQueue, new_queue, contains_ip, update_first, remove_first,
}
use zabbix_ddl_monitor.Manager.Queue.Laws.{count_ip, contains_ip-count}
use zabbix_ddl_monitor.Manager.Scheduler.{
  RouterScheduler, add_line, on_line_created, on_line_deleted,
}
use zabbix_ddl_monitor.Manager.Scheduler.Queues.{queued}
use zabbix_ddl_monitor.Manager.Scheduler.Placement.{Placed, use-Placed, at, count_at, queued-remove}

lines-on_line_deleted :
    (line : Line) (s : RouterScheduler) → (on_line_deleted line s).lines ≡ s.lines
unfolding on_line_deleted
lines-on_line_deleted line s = ground arith

-- OnLineDeleted takes one line with the IP out of the queue for the interval, if there is one, and
-- leaves every other queue and IP as they are.
pub queued-on_line_deleted :
    (line : Line) (s : RouterScheduler) (ip : String) (i : ℕ)
    → count_ip ip (queued i (on_line_deleted line s).queues)
      ≡ count_ip ip (queued i s.queues) - at line.ip line.interval ip i
unfolding on_line_deleted Queue.contains
queued-on_line_deleted line s ip i = ground (
  arith,
  queued-remove line.ip line.interval ip i s.queues,
  eq_iff line.ip ip,
  contains_ip-count line.ip (queued line.interval s.queues),
)

count_at-le : (ip : String) (i : ℕ) (ls : List Line) → count_at ip i ls ≤ count_ip ip ls
count_at-le ip i [] = omega arith
count_at-le ip i (l ∷ ls) = ground (arith, count_at-le ip i ls)

count_at-two :
    (ip : String) (i j : ℕ) (ls : List Line)
    → (i == j) ≡ false
    → count_at ip i ls + count_at ip j ls ≤ count_ip ip ls
count_at-two ip i j [] h = omega arith
count_at-two ip i j (l ∷ ls) h = ground (arith, count_at-two ip i j ls)

-- When one line is listed under the IP, with its interval, and the handler after its OnLineDeleted is
-- OnLineCreated for a line with the same IP, then no line with this IP is queued for any interval.
-- Nothing is stated of other handlers in between, and the scheduler's list is its own.
pub deleted_line_stays_out :
    (line new : Line) (s : RouterScheduler) (i : ℕ)
    → Placed s.lines s.queues
    → count_ip line.ip s.lines ≡ 1
    → count_at line.ip line.interval s.lines ≡ 1
    → new.ip ≡ line.ip
    → count_ip new.ip (queued i (on_line_created new (on_line_deleted line s)).queues) ≡ 0
unfolding on_line_created
deleted_line_stays_out line new s i p one here e =
    rw ignored
      (rw e (omega (arith, queued-on_line_deleted line s line.ip i, use-Placed p line.ip i, rest)))
  where
    listed : contains_ip new.ip (on_line_deleted line s).lines ≡ true
    listed =
        rw e (rw (lines-on_line_deleted line s) (ground (arith, contains_ip-count line.ip s.lines)))

    ignored :
        (if contains_ip new.ip (on_line_deleted line s).lines
          then on_line_deleted line s
          else record (on_line_deleted line s) {
            queues = add_line new (on_line_deleted line s).queues;
            lines = (on_line_deleted line s).lines ++ new ∷ [];
          })
        ≡ on_line_deleted line s
    ignored = rw listed refl

    rest : count_at line.ip i s.lines ≡ at line.ip line.interval line.ip i
    rest = ground (
      arith,
      eq_refl line.ip,
      count_at-le line.ip i s.lines,
      count_at-two line.ip line.interval i s.lines,
      ==_iff line.interval i,
    )
