-- ===== src/Connection/Pool/Batch/Totals.antt =====
-- The counts that RebuildConnectionByProto in connection/pool_enhanced.go gives.
use zabbix_ddl_monitor.Base.{
  ℕ, suc, ◌+◌, ◌-◌, ◌≤◌, ◌<◌, Bool, true, false, not, ◌||◌, String, Option, none, some, ◌∙◌, List,
  [], ◌∷◌, ◌++◌, length, length-append, ◌==◌, ◌≡◌, ◌≢◌, ◌⊎◌, refl, inl, inr, arith, if◌then◌else◌,
  if_cases,
}
use zabbix_ddl_monitor.Base.Int64.{leb64, half_word, word}
use zabbix_ddl_monitor.Base.Map.{lookup}
use zabbix_ddl_monitor.Connection.Conn.{Conn, is_marked_for_rebuild}
use zabbix_ddl_monitor.Connection.Pool.{DriverPool}
use zabbix_ddl_monitor.Connection.Pool.Batch.{
  Batch, get_connections_for_rebuild, begin_batch, hand_out, dispatch, rebuild_one, take, work,
  count_results, success_count, failed_count, min, marked_among, is_marked,
}

-- The turns, and the cancellation of the context.
pub data Turn : Type 0 where
  dispatches : Bool → Turn
  works : Option String → String → ℕ → Turn
  cancels : Turn

unfoldable pub turn : Turn → Batch → Batch
turn (dispatches sends) b = dispatch sends b
turn (works made protocol now) b = work made protocol now b
turn cancels b = record b { cancelled = true }

unfoldable pub run : List Turn → Batch → Batch
run [] b = b
run (t ∷ ts) b = run ts (turn t b)

-- Every connection waits, is handed out, or has its result; and who has stopped has nothing left to
-- do, unless the context was cancelled.
pub record IsBalanced (b : Batch) : Type 0 where
  pub balance : length b.results + length b.task_chan + length b.waiting ≡ b.total
  pub handed_out : b.chan_closed ≡ true → (b.cancelled ≡ true) ⊎ (length b.waiting ≡ 0)
  pub drained :
      b.running ≡ 0
      → (b.cancelled ≡ true) ⊎ (b.total ≡ 0) ⊎ ((b.chan_closed ≡ true) × (length b.task_chan ≡ 0))

IsBalanced-hand_out :
    (sends : Bool) (ids : List String) (b : Batch)
    → b.waiting ≡ ids
    → b.chan_closed ≡ false
    → IsBalanced b
    → IsBalanced (hand_out sends ids b)
IsBalanced-hand_out sends [] b w c v = record {
  balance = v.balance;
  handed_out = λ e. inr (ground arith);
  drained = ground (arith, v.drained);
}
IsBalanced-hand_out sends (id ∷ ids) b w c v =
    if_cases IsBalanced (sends || not b.cancelled)
      (record b { waiting = ids; task_chan = b.task_chan ++ (id ∷ []) })
      (record b { chan_closed = true })
      (λ e. record {
        balance = omega (arith, v.balance, length-append b.task_chan (id ∷ []), wait_suc);
        handed_out = λ f. absurd (ground arith);
        drained = ground (arith, v.drained);
      })
      (λ e. record {
        balance = v.balance;
        handed_out = λ f. inl (ground arith);
        drained = λ r. inl (ground arith);
      })
  where
    wait_suc : length b.waiting ≡ suc (length ids)
    wait_suc = ground arith

IsBalanced-take :
    (made : Option String) (protocol : String) (now : ℕ) (ids : List String) (b : Batch)
    → b.task_chan ≡ ids
    → b.running ≢ 0
    → IsBalanced b
    → IsBalanced (take made protocol now ids b)
IsBalanced-take made protocol now [] b w r v =
    if_cases IsBalanced b.chan_closed (record b { running = b.running - 1 }) b
      (λ e. record {
        balance = v.balance;
        handed_out = v.handed_out;
        drained = λ f. inr (inr (e, ground arith));
      })
      (λ e. v)
IsBalanced-take made protocol now (id ∷ ids) b w r v =
    if_cases IsBalanced b.cancelled
      (record b { task_chan = ids; running = b.running - 1; results = (id, false) ∷ b.results })
      (rebuild_one made protocol now id ids b)
      (λ e. record {
        balance = omega (arith, v.balance, chan_suc);
        handed_out = λ f. inl e;
        drained = λ f. inl e;
      })
      (λ e. record {
        balance = omega (arith, v.balance, chan_suc);
        handed_out = v.handed_out;
        drained = λ f. absurd (r f);
      })
  where
    chan_suc : length b.task_chan ≡ suc (length ids)
    chan_suc = ground arith

IsBalanced-turn : (t : Turn) (b : Batch) → IsBalanced b → IsBalanced (turn t b)
unfolding turn dispatch work
IsBalanced-turn (dispatches sends) b v =
    if_cases IsBalanced b.chan_closed b (hand_out sends b.waiting b) (λ e. v)
      (λ e. IsBalanced-hand_out sends b.waiting b refl e v)
IsBalanced-turn (works made protocol now) b v =
    if_cases IsBalanced (b.running == 0) b (take made protocol now b.task_chan b) (λ e. v)
      (λ e. IsBalanced-take made protocol now b.task_chan b refl (λ f. ground arith) v)
IsBalanced-turn cancels b v = record {
  balance = v.balance;
  handed_out = λ f. inl refl;
  drained = λ f. inl refl;
}

IsBalanced-run : (ts : List Turn) (b : Batch) → IsBalanced b → IsBalanced (run ts b)
unfolding run
IsBalanced-run [] b v = v
IsBalanced-run (t ∷ ts) b v = IsBalanced-run ts (turn t b) (IsBalanced-turn t b v)

some_worker : (concurrency : ℕ) → 0 < (if leb64 concurrency 0 then 3 else concurrency)
some_worker concurrency = ground arith

none_marked : (workers n : ℕ) → 0 < workers → min workers n ≡ 0 → n ≡ 0
none_marked workers n w h = ground arith

IsBalanced-begin_batch : (concurrency : ℕ) (p : DriverPool) → IsBalanced (begin_batch concurrency p)
unfolding begin_batch
IsBalanced-begin_batch concurrency p = record {
  balance = omega arith;
  handed_out = λ f. absurd (ground arith);
  drained = λ f. inr (
      inl (
        none_marked (if leb64 concurrency 0 then 3 else concurrency)
          (length (get_connections_for_rebuild p)) (some_worker concurrency) f));
}

count_all : (rs : List (String × Bool)) → count_results true rs + count_results false rs ≡ length rs
count_all [] = refl
count_all ((id, s) ∷ rs) = ground (arith, count_all rs)

-- How many of the members have their mark set.
abbrev pub marks : Option Conn → ℕ
marks none = 0
marks (some c) = if c.marked_for_rebuild == 1 then 1 else 0

abbrev pub count_marked : List String → DriverPool → ℕ
count_marked [] p = 0
count_marked (id ∷ ids) p = marks (lookup id p.objects) + count_marked ids p

marked_length :
    (ids : List String) (p : DriverPool) → length (marked_among ids p) ≡ count_marked ids p
unfolding marked_among is_marked_for_rebuild
marked_length [] p = refl
marked_length (id ∷ ids) p = by_object (lookup id p.objects) (marked_length ids p)
  where
    by_object :
        (o : Option Conn)
        → length (marked_among ids p) ≡ count_marked ids p
        → length (if is_marked o then id ∷ marked_among ids p else marked_among ids p)
          ≡ marks o + count_marked ids p
    by_object none h = omega (arith, h)
    by_object (some c) h = ground arith

total-turn : (t : Turn) (b : Batch) → (turn t b).total ≡ b.total
unfolding turn dispatch work
total-turn (dispatches sends) b = by_waiting b.waiting
  where
    by_waiting :
        (ids : List String) → (if b.chan_closed then b else hand_out sends ids b).total ≡ b.total
    by_waiting [] = ground arith
    by_waiting (id ∷ ids) = ground arith
total-turn (works made protocol now) b = by_queue b.task_chan
  where
    by_queue :
        (ids : List String)
        → (if b.running == 0 then b else take made protocol now ids b).total ≡ b.total
    by_queue [] = ground arith
    by_queue (id ∷ ids) = ground arith
total-turn cancels b = refl

total-run : (ts : List Turn) (b : Batch) → (run ts b).total ≡ b.total
unfolding run
total-run [] b = refl
total-run (t ∷ ts) b = total-run ts (turn t b) ∙ total-turn t b

-- The smaller one of two numbers.
abbrev pub IsFewer : ℕ → ℕ → ℕ → Type 0
IsFewer r a b = (r ≤ a) × (r ≤ b) × ((r ≡ a) ⊎ (r ≡ b))

-- With as many workers as the concurrency says, or 3 if it is an int that is not positive, but no
-- more than there are connections whose mark is set, whatever turns the workers and the loop take:
-- the successes and failures that are counted are at most the connections that had their mark set
-- at the start, and exactly these when every worker has returned and the context was not cancelled.
pub batch_totals :
    (concurrency : ℕ) (p : DriverPool) (ts : List Turn)
    → let b = run ts (begin_batch concurrency p) in
      let marked = count_marked p.members p in
      (0 < concurrency
        → concurrency < half_word
        → IsFewer (begin_batch concurrency p).running concurrency marked)
      × ((concurrency ≡ 0) ⊎ ((half_word ≤ concurrency) × (concurrency < word))
          → IsFewer (begin_batch concurrency p).running 3 marked)
      × (success_count b + failed_count b ≤ marked)
      × (b.running ≡ 0 → b.cancelled ≡ false → success_count b + failed_count b ≡ marked)
unfolding success_count failed_count begin_batch get_connections_for_rebuild
batch_totals concurrency p ts =
    let b = run ts (begin_batch concurrency p) in
    let v = IsBalanced-run ts (begin_batch concurrency p) (IsBalanced-begin_batch concurrency p) in
    let t = total-run ts (begin_batch concurrency p) in
    let m = marked_length p.members p in
    (
      λ l h. ground (arith, m),
      λ h. ground (arith, m),
      omega (arith, v.balance, count_all b.results, t, m),
      λ r c. ground (arith, v.balance, count_all b.results, v.drained r, v.handed_out, t, m),
    )
