-- ===== src/Manager/Scheduler/Pings/Slots.antt =====
-- The slots and the connections of the pings in manager/router_scheduler.go.
use zabbix_ddl_monitor.Base.{
  ℕ, ◌+◌, ◌-◌, ltb, ◌≤◌, ◌<◌, Bool, true, false, List, [], ◌∷◌, length, length-append, ◌≡◌, ◌↔◌,
  ◌⊎◌, inl, inr, refl, arith, if_both, if_cases,
}
use zabbix_ddl_monitor.Task.Async.{AsyncExecutor, submit, worker, take, begin_stop, end_stop}
use zabbix_ddl_monitor.Manager.Scheduler.Pings.{
  Pinger, max_connections, Chance, waits, crashes, execute_individual_ping,
}
use zabbix_ddl_monitor.Manager.Scheduler.Pings.Flight.{
  Flight, begin_ping, give_up, get_connection, submit_one, take_request, end_request, Step, begins,
  gives_up, connects, ends_request, begins_stop, ends_stop, submits, takes, step, run_steps,
}

-- Who has the slots and the connections that are taken.
abbrev pub IsEven : Flight → Type 0
IsEven f =
    (f.pinger.held ≡ f.connecting + f.connected + f.executing + length f.pinger.executor.task_chan)
    × (f.pinger.borrowed ≡ f.connected + f.executing + length f.pinger.executor.task_chan)
    × (f.pinger.held ≤ max_connections)
    × (f.executing ≤ f.pinger.executor.running)

abbrev pub IsBalanced : Flight → Type 0
IsBalanced f = (f.pinger.crashed ≡ true) ⊎ IsEven f

-- What one turn of a worker takes out of the queue is run, by a worker that was free.
took :
    (first : Bool) (queue : List ℕ) (e : AsyncExecutor) (busy : ℕ)
    → e.task_chan ≡ queue
    → busy < e.running
    → let t = take first queue e in
      ((length t.processed - length e.processed) + length t.task_chan ≡ length e.task_chan)
      × (busy + (length t.processed - length e.processed) ≤ t.running)
took first [] e busy q l = ground arith
took first (r ∷ rs) e busy q l = ground arith

IsEven-begin_ping : (f : Flight) → IsEven f → IsEven (begin_ping f)
unfolding begin_ping
IsEven-begin_ping f b = ground arith

IsEven-give_up : (f : Flight) → IsEven f → IsEven (give_up f)
unfolding give_up
IsEven-give_up f b = ground arith

IsEven-get_connection : (f : Flight) → IsEven f → IsEven (get_connection f)
unfolding get_connection
IsEven-get_connection f b = ground arith

IsBalanced-submit_one :
    (first : Bool) (r : ℕ) (f : Flight) → IsEven f → IsBalanced (submit_one first r f)
unfolding submit_one submit
IsBalanced-submit_one first r f b =
    ground (arith, length-append f.pinger.executor.task_chan (r ∷ []))

IsEven-take_request : (first : Bool) (f : Flight) → IsEven f → IsEven (take_request first f)
unfolding take_request worker
IsEven-take_request first f b =
    if_cases IsEven (ltb f.executing f.pinger.executor.running)
      (record f {
        pinger = record f.pinger { executor = worker first f.pinger.executor };
        executing =
            f.executing
            + (length (worker first f.pinger.executor).processed
                - length f.pinger.executor.processed);
      })
      f
      (λ l. ground (
        arith,
        took first f.pinger.executor.task_chan f.pinger.executor f.executing refl (ground arith),
      ))
      (λ l. b)

IsEven-end_request : (f : Flight) → IsEven f → IsEven (end_request f)
unfolding end_request
IsEven-end_request f b = ground arith

IsBalanced-step : (s : Step) (f : Flight) → IsEven f → IsBalanced (step s f)
unfolding begin_stop end_stop
IsBalanced-step begins f b = inr (IsEven-begin_ping f b)
IsBalanced-step gives_up f b = inr (IsEven-give_up f b)
IsBalanced-step connects f b = inr (IsEven-get_connection f b)
IsBalanced-step (submits first r) f b = IsBalanced-submit_one first r f b
IsBalanced-step (takes first) f b = inr (IsEven-take_request first f b)
IsBalanced-step ends_request f b = inr (IsEven-end_request f b)
IsBalanced-step begins_stop f b = inr (ground arith)
IsBalanced-step ends_stop f b = inr (ground arith)

-- However the steps of several pings, of the workers and of Stop come between each other, the slots
-- that are taken are those of the pings that wait for a connection or have one and have not
-- submitted, of the requests in the queue, and of the requests that workers run, one for each; all
-- of these but the first have a connection; at most two slots are taken, and no more requests run
-- than there are workers. So no early return keeps anything. This holds until a Submit panics.
pub run_steps-IsBalanced :
    (ss : List Step) (f : Flight) → IsBalanced f → IsBalanced (run_steps ss f)
unfolding run_steps
run_steps-IsBalanced [] f b = b
run_steps-IsBalanced (s ∷ ss) f b =
    if_cases IsBalanced f.pinger.crashed f (run_steps ss (step s f)) (λ e. b)
      (λ e.
        run_steps-IsBalanced ss (step s f)
          (elim b [ inl c ↦ absurd (cc (c, e)) | inr c ↦ IsBalanced-step s f c ]))

-- A ping ends the process exactly if it gets a slot and a connection with the context not done, and
-- Submit's select takes the send on the channel that Stop has closed.
pub crashes_iff :
    (c : Chance) (r : ℕ) (p : Pinger)
    → ((execute_individual_ping c r p).1 ≡ crashes) ↔ (
        (p.held < max_connections)
        × ((c.slot_first ≡ true) ⊎ (c.done_at_slot ≡ false))
        × (c.done_at_check ≡ false)
        × (c.has_connection ≡ true)
        × (p.executor.chan_closed ≡ true)
        × ((c.send_first ≡ true) ⊎ (p.executor.cancelled ≡ false)))
unfolding execute_individual_ping submit
crashes_iff c r p = ground arith

-- The parts of a ping that meets no trouble, one after the other, are the whole ping.
ping-steps :
    (c : Chance) (r : ℕ) (f : Flight)
    → f.pinger.held < max_connections
    → c.done_at_slot ≡ false
    → c.done_at_check ≡ false
    → c.has_connection ≡ true
    → (submit_one c.send_first r (get_connection (begin_ping f))).pinger
      ≡ (execute_individual_ping c r f.pinger).0
unfolding execute_individual_ping submit_one get_connection begin_ping
ping-steps c r f l a b h = ground arith

-- No worker is left, and the slots are all taken by requests in the queue.
abbrev IsStuck : Flight → Type 0
IsStuck f =
    (f.pinger.executor.running ≡ 0)
    × (max_connections ≤ f.pinger.held)
    × (f.connecting ≡ 0)
    × (f.connected ≡ 0)
    × (f.executing ≡ 0)

IsStuck-step : (s : Step) (f : Flight) → IsStuck f → IsStuck (step s f)
unfolding begin_stop end_stop begin_ping give_up get_connection submit_one take_request end_request
IsStuck-step begins f b = ground arith
IsStuck-step gives_up f b = ground arith
IsStuck-step connects f b = ground arith
IsStuck-step (submits first r) f b = ground arith
IsStuck-step (takes first) f b = ground arith
IsStuck-step ends_request f b = ground arith
IsStuck-step begins_stop f b = ground arith
IsStuck-step ends_stop f b = ground arith

IsStuck-run_steps : (ss : List Step) (f : Flight) → IsStuck f → IsStuck (run_steps ss f)
unfolding run_steps
IsStuck-run_steps [] f b = b
IsStuck-run_steps (s ∷ ss) f b =
    if_both IsStuck f.pinger.crashed f (run_steps ss (step s f)) b
      (IsStuck-run_steps ss (step s f) (IsStuck-step s f b))

-- Once the executor's workers have returned, both slots are taken, and neither is held by a ping that
-- waits for a connection or has yet to submit or by a request that is being run, so that both are
-- those of requests left in the queue, a ping that starts waits for a slot, now and after any steps,
-- as long as the router's context is not done.
pub stuck_pings_wait :
    (ss : List Step) (c : Chance) (r : ℕ) (f : Flight)
    → f.pinger.executor.running ≡ 0
    → max_connections ≤ f.pinger.held
    → f.connecting ≡ 0
    → f.connected ≡ 0
    → f.executing ≡ 0
    → c.done_at_slot ≡ false
    → (execute_individual_ping c r (run_steps ss f).pinger).1 ≡ waits
unfolding execute_individual_ping
stuck_pings_wait ss c r f o h a b e d = ground (arith, IsStuck-run_steps ss f (o, h, a, b, e))
