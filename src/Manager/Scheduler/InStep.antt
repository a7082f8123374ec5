-- ===== src/Manager/Scheduler/InStep.antt =====
-- Which lines, with all that they say, stand in the queues of manager/router_scheduler.go.
pub mod Updates
use zabbix_ddl_monitor.Base.{
  ℕ, suc, ◌+◌, ◌≤◌, Bool, true, false, String, Option, none, some, List, [], ◌∷◌, ◌++◌, str_eq,
  eq_iff, not, ◌&&◌, ◌==◌, ==_iff, ◌≡◌, refl, sym, subst, arith, if◌then◌else◌, Bool-cases, inl,
  inr,
}
use zabbix_ddl_monitor.Syncer.Line.{Line}
use zabbix_ddl_monitor.Manager.Queue
use zabbix_ddl_monitor.Manager.Queue.{new_queue, update_first, remove_first}
use zabbix_ddl_monitor.Manager.Queue.Laws.{count_ip}
use zabbix_ddl_monitor.Manager.Scheduler.{
  RouterScheduler, add_line, add_lines, new_scheduler, on_line_updated,
}
use zabbix_ddl_monitor.Manager.Scheduler.Queues.{
  Entry, QueueMap, lines_of, find, modify, queued, find-modify, has-find,
}
use zabbix_ddl_monitor.Manager.Scheduler.Placement.{interval_of}

-- 1 for a line that passes the test, else 0; and how many lines pass it.
abbrev pub pass : (Line → Bool) → Line → ℕ
pass t l = if t l then 1 else 0

abbrev pub count_if : (Line → Bool) → List Line → ℕ
count_if t [] = 0
count_if t (l ∷ ls) = pass t l + count_if t ls

-- The test, for the lines with an interval, and for those with an IP.
abbrev pub with_interval : ℕ → (Line → Bool) → Line → Bool
with_interval i t l = (l.interval == i) && t l

abbrev pub with_ip : String → (Line → Bool) → Line → Bool
with_ip ip t l = str_eq l.ip ip && t l

-- Whatever is asked of a line, each queue holds as many such lines as the list has with its interval:
-- it holds these very lines.
pub data InStep : List Line → QueueMap → Type 0 where
  in_step :
      {ls : List Line} {qs : QueueMap}
      → ((t : Line → Bool) (i : ℕ) → count_if t (queued i qs) ≡ count_if (with_interval i t) ls)
      → InStep ls qs

pub use-InStep :
    {ls : List Line} {qs : QueueMap}
    → InStep ls qs
    → (t : Line → Bool) (i : ℕ) → count_if t (queued i qs) ≡ count_if (with_interval i t) ls
use-InStep (in_step p) t i = p t i

count_if-append :
    (t : Line → Bool) (ls ms : List Line) → count_if t (ls ++ ms) ≡ count_if t ls + count_if t ms
count_if-append t [] ms = omega arith
count_if-append t (l ∷ ls) ms = omega (arith, count_if-append t ls ms)

-- No line with the IP: none of them passes a test, and nothing is replaced or removed.
count_if-absent :
    (t : Line → Bool) (ip : String) (ls : List Line)
    → count_ip ip ls ≡ 0
    → count_if (with_ip ip t) ls ≡ 0
count_if-absent t ip [] h = refl
count_if-absent t ip (l ∷ ls) h = ground (arith, count_if-absent t ip ls)

-- One line at most has the IP: it is taken out, or replaced.
count_if-remove_first :
    (t : Line → Bool) (ip : String) (ls : List Line)
    → count_ip ip ls ≤ 1
    → count_if t (remove_first ip ls) + count_if (with_ip ip t) ls ≡ count_if t ls
unfolding remove_first
count_if-remove_first t ip [] h = refl
count_if-remove_first t ip (l ∷ ls) h =
    ground (arith, count_if-absent t ip ls, count_if-remove_first t ip ls)

pub count_if-update_first :
    (t : Line → Bool) (ip : String) (new : Line) (ls : List Line)
    → count_ip ip ls ≡ 1
    → count_if t (update_first ip new ls) + count_if (with_ip ip t) ls ≡ count_if t ls + pass t new
unfolding update_first
count_if-update_first t ip new [] h = absurd (ground arith)
count_if-update_first t ip new (l ∷ ls) h =
    ground (arith, count_if-absent t ip ls, count_if-update_first t ip new ls)

pub count_ip-count_if :
    (ip : String) (ls : List Line) → count_if (with_ip ip (λ l. true)) ls ≡ count_ip ip ls
count_ip-count_if ip [] = refl
count_ip-count_if ip (l ∷ ls) = ground (arith, count_ip-count_if ip ls)

-- The two restrictions of a test, in either order.
pub count_if-swap :
    (t : Line → Bool) (ip : String) (i : ℕ) (ls : List Line)
    → count_if (with_ip ip (with_interval i t)) ls ≡ count_if (with_interval i (with_ip ip t)) ls
count_if-swap t ip i [] = refl
count_if-swap t ip i (l ∷ ls) = ground (arith, count_if-swap t ip i ls)

-- The one line with the IP has this interval.
pub sole :
    (t : Line → Bool) (ip : String) (i j : ℕ) (ls : List Line)
    → count_ip ip ls ≡ 1
    → interval_of ip ls ≡ some i
    → count_if (with_interval j (with_ip ip t)) ls
      ≡ (if i == j then count_if (with_ip ip t) ls else 0)
sole t ip i j [] h e = absurd (ground arith)
sole t ip i j (l ∷ ls) h e = ground (
  arith,
  count_if-absent t ip ls,
  count_if-absent (with_interval j t) ip ls,
  count_if-swap t ip j ls,
  ==_iff i j,
  ==_iff l.interval j,
  sole t ip i j ls,
)

-- What the changes of a queue do to the numbers.
pub remove_entry :
    (t : Line → Bool) (ip : String) (i j : ℕ) (o : Option Entry)
    → (i ≡ j → count_ip ip (lines_of o) ≤ 1)
    → count_if t (
          lines_of (
            if i == j
            then (elim o [
              | none ↦ none
              | some e ↦ some (record e { queue = Queue.remove ip e.queue })
            ])
            else o))
        + (if i == j then count_if (with_ip ip t) (lines_of o) else 0)
      ≡ count_if t (lines_of o)
unfolding Queue.remove
remove_entry t ip i j none h = ground arith
remove_entry t ip i j (some e) h = elim (Bool-cases (i == j)) [
  | inl q ↦ rw q (count_if-remove_first t ip e.queue.lines (h ((==_iff i j).0 q)))
  | inr q ↦ rw q (omega arith)
]

pub update_entry :
    (t : Line → Bool) (new : Line) (i j : ℕ) (o : Option Entry)
    → (i ≡ j → count_ip new.ip (lines_of o) ≡ 1)
    → count_if t (
          lines_of (
            if i == j
            then (elim o [
              | none ↦ none
              | some e ↦ some (record e { queue = Queue.update_task new e.queue })
            ])
            else o))
        + (if i == j then count_if (with_ip new.ip t) (lines_of o) else 0)
      ≡ count_if t (lines_of o) + (if i == j then pass t new else 0)
unfolding Queue.update_task
update_entry t new i j none h = elim (Bool-cases (i == j)) [
  | inl q ↦ absurd (omega (arith, h ((==_iff i j).0 q)))
  | inr q ↦ rw q refl
]
update_entry t new i j (some e) h = elim (Bool-cases (i == j)) [
  | inl q ↦ rw q (count_if-update_first t new.ip new e.queue.lines (h ((==_iff i j).0 q)))
  | inr q ↦ rw q (omega arith)
]

add_entry :
    (t : Line → Bool) (l : Line) (o : Option Entry)
    → (elim o [ none ↦ false | some e ↦ true ]) ≡ true
    → count_if t (
        lines_of
          (elim o [ none ↦ none | some e ↦ some (record e { queue = Queue.add l e.queue }) ]))
      ≡ count_if t (lines_of o) + pass t l
unfolding Queue.add
add_entry t l none h = absurd (ground arith)
add_entry t l (some e) h = omega (arith, count_if-append t e.queue.lines (l ∷ []))

pub count_if-add_line :
    (t : Line → Bool) (l : Line) (j : ℕ) (qs : QueueMap)
    → count_if t (queued j (add_line l qs)) ≡ count_if t (queued j qs) + pass (with_interval j t) l
unfolding add_line find new_queue Queue.add
count_if-add_line t l j qs = ground (
  arith,
  has-find l.interval qs,
  find-modify l.interval j (Queue.add l) qs,
  add_entry t l (find j qs),
)

add_lines-InStep :
    (ls ms : List Line) (qs : QueueMap) → InStep ms qs → InStep (ms ++ ls) (add_lines ls qs)
unfolding add_lines
add_lines-InStep [] ms qs p =
    in_step (λ t i. omega (arith, count_if-append (with_interval i t) ms [], use-InStep p t i))
add_lines-InStep (l ∷ ls) ms qs p = in_step (λ t i. omega (
  arith,
  count_if-append (with_interval i t) (ms ++ l ∷ []) ls,
  count_if-append (with_interval i t) ms (l ∷ []),
  count_if-append (with_interval i t) ms (l ∷ ls),
  use-InStep
      (add_lines-InStep ls (ms ++ l ∷ []) (add_line l qs) (
        in_step (λ u j. omega (
          arith,
          use-InStep p u j,
          count_if-add_line u l j qs,
          count_if-append (with_interval j u) ms (l ∷ []),
        ))))
      t i,
))

empty-InStep : InStep [] []
unfolding find
empty-InStep = in_step (λ t i. refl)

pub new_scheduler-InStep :
    (lines : List Line) → InStep (new_scheduler lines).lines (new_scheduler lines).queues
unfolding new_scheduler
new_scheduler-InStep lines = add_lines-InStep lines [] [] empty-InStep
