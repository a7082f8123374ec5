-- ===== src/Manager/Queue.antt =====
-- manager/interval_queue.go: the lines of one interval, and the ticker's signals. Each operation
-- holds the queue's lock.
pub mod Laws
use zabbix_ddl_monitor.Base.{
  ℕ, zero, suc, ◌+◌, Bool, true, false, String, List, [], ◌∷◌, ◌++◌, str_eq, ltb, leb, ◌==◌,
  if◌then◌else◌,
}
use zabbix_ddl_monitor.Base.Int64
use zabbix_ddl_monitor.Syncer.Line.{Line}

-- The interval is an int64 of nanoseconds, as a bit pattern; `signals` counts the execution signals that wait in `execNotify`.
pub record IntervalTaskQueue : Type 0 where
  pub interval : ℕ
  pub lines : List Line
  pub signals : ℕ
  pub is_stopped : Bool
  pub ticking : Bool

-- NewIntervalTaskQueue: an interval of 0 or less becomes one nanosecond.
unfoldable pub new_queue : ℕ → IntervalTaskQueue
new_queue interval = record {
  interval = if Int64.leb64 interval 0 then 1 else interval;
  lines = [];
  signals = 0;
  is_stopped = false;
  ticking = true;
}

abbrev pub signal_capacity : ℕ
signal_capacity = 200

-- A tick in `schedule`: the signal is sent if the channel has room and dropped if not.
unfoldable pub tick : IntervalTaskQueue → IntervalTaskQueue
tick q =
    if q.is_stopped
    then q
    else record q { signals = if ltb q.signals signal_capacity then suc q.signals else q.signals }

-- The loops over the slice of lines. Remove takes the first line with the IP away.
unfoldable pub remove_first : String → List Line → List Line
remove_first ip [] = []
remove_first ip (l ∷ ls) = let rest = remove_first ip ls in if str_eq l.ip ip then ls else l ∷ rest

unfoldable pub contains_ip : String → List Line → Bool
contains_ip ip [] = false
contains_ip ip (l ∷ ls) = if str_eq l.ip ip then true else contains_ip ip ls

-- UpdateTask overwrites the first line with the IP of `line`.
unfoldable pub update_first : String → Line → List Line → List Line
update_first ip line [] = []
update_first ip line (l ∷ ls) =
    let rest = update_first ip line ls in if str_eq l.ip ip then line ∷ ls else l ∷ rest

abbrev is_empty_list : List Line → Bool
is_empty_list [] = true
is_empty_list (l ∷ ls) = false

unfoldable pub get_tasks_snapshot : IntervalTaskQueue → List Line
get_tasks_snapshot q = q.lines

unfoldable pub is_empty : IntervalTaskQueue → Bool
is_empty q = is_empty_list q.lines

unfoldable pub remove : String → IntervalTaskQueue → IntervalTaskQueue
unfolding remove_first
remove ip q = record q { lines = remove_first ip q.lines }

unfoldable pub contains : String → IntervalTaskQueue → Bool
unfolding contains_ip
contains ip q = contains_ip ip q.lines

unfoldable pub stop : IntervalTaskQueue → IntervalTaskQueue
stop q = record q { is_stopped = true; ticking = false }

unfoldable pub add : Line → IntervalTaskQueue → IntervalTaskQueue
add line q = record q { lines = q.lines ++ line ∷ [] }

unfoldable pub update_task : Line → IntervalTaskQueue → IntervalTaskQueue
unfolding update_first
update_task line q = record q { lines = update_first line.ip line q.lines }

unfoldable pub replace_all : List Line → IntervalTaskQueue → IntervalTaskQueue
replace_all lines q = record q { lines = lines }
