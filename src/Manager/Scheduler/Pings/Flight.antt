-- ===== src/Manager/Scheduler/Pings/Flight.antt =====
-- manager/router_scheduler.go and task/async_executor.go: the pings of one router that are under way
-- at once. Each queue has a loop of its own, so another ping's steps come between the slot, the
-- connection, Submit, the worker that takes the request, and the callback that gives both back.
use zabbix_ddl_monitor.Base.{
  ℕ, suc, ◌+◌, ◌-◌, Bool, List, [], ◌∷◌, length, ltb, ◌==◌, if◌then◌else◌,
}
use zabbix_ddl_monitor.Task.Async.{worker, begin_stop, end_stop}
use zabbix_ddl_monitor.Manager.Scheduler.Pings.{
  Pinger, max_connections, take_slot, give_slot, borrow, submit_ping, call_back,
}

-- `connecting` counts the pings that have a slot and no connection yet, `connected` those that have
-- both and have not called Submit, and `executing` the requests that workers have taken and whose
-- callback has not given anything back.
pub record Flight : Type 0 where
  pub pinger : Pinger
  pub connecting : ℕ
  pub connected : ℕ
  pub executing : ℕ

-- A ping takes a slot, if there is one.
unfoldable pub begin_ping : Flight → Flight
begin_ping f =
    if ltb f.pinger.held max_connections
    then record f { pinger = take_slot f.pinger; connecting = suc f.connecting }
    else f

-- A ping that has a slot ends: the context is done, or GetWithContext fails.
unfoldable pub give_up : Flight → Flight
give_up f =
    if f.connecting == 0
    then f
    else record f { pinger = give_slot f.pinger; connecting = f.connecting - 1 }

-- GetWithContext gives a connection.
unfoldable pub get_connection : Flight → Flight
get_connection f = if f.connecting == 0 then f else record f {
  pinger = borrow f.pinger;
  connecting = f.connecting - 1;
  connected = suc f.connected;
}

-- Submit, and what follows on an error.
unfoldable pub submit_one : Bool → ℕ → Flight → Flight
submit_one first r f =
    if f.connected == 0
    then f
    else record f { pinger = (submit_ping first r f.pinger).0; connected = f.connected - 1 }

-- A worker that runs no request turns: it may take one, which it then runs.
unfoldable pub take_request : Bool → Flight → Flight
take_request first f =
    let e = worker first f.pinger.executor in
    if ltb f.executing f.pinger.executor.running
    then record f {
      pinger = record f.pinger { executor = e };
      executing = f.executing + (length e.processed - length f.pinger.executor.processed);
    }
    else f

-- A worker has run a request, and its callback is called.
unfoldable pub end_request : Flight → Flight
end_request f =
    if f.executing == 0
    then f
    else record f { pinger = call_back f.pinger; executing = f.executing - 1 }

-- The steps, with the two halves of Stop of the executor.
pub data Step : Type 0 where
  begins gives_up connects ends_request begins_stop ends_stop : Step
  submits : Bool → ℕ → Step
  takes : Bool → Step

abbrev pub step : Step → Flight → Flight
step begins f = begin_ping f
step gives_up f = give_up f
step connects f = get_connection f
step (submits first r) f = submit_one first r f
step (takes first) f = take_request first f
step ends_request f = end_request f
step begins_stop f = record f {
  pinger = record f.pinger { executor = (begin_stop f.pinger.executor).0 };
}
step ends_stop f = record f { pinger = record f.pinger { executor = end_stop f.pinger.executor } }

-- Steps one after the other; nothing happens after the process has ended.
unfoldable pub run_steps : List Step → Flight → Flight
run_steps [] f = f
run_steps (s ∷ ss) f = if f.pinger.crashed then f else run_steps ss (step s f)
