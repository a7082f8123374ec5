-- ===== src/Tests/Scheduling.antt =====
-- Runs of the handlers of a router's scheduler.
use zabbix_ddl_monitor.Base.{◌<◌, true, false, List, [], ◌∷◌, ◌≡◌, ◌↔◌, ◌⊎◌, inr, refl, arith}
use zabbix_ddl_monitor.Task.Async.{AsyncExecutor}
use zabbix_ddl_monitor.Manager.Scheduler.Pings.{
  Pinger, Chance, waits, crashes, max_connections, execute_individual_ping,
}
use zabbix_ddl_monitor.Manager.Scheduler.Pings.Flight.{
  Flight, Step, begins, gives_up, connects, ends_request, begins_stop, ends_stop, submits, takes,
  run_steps,
}
use zabbix_ddl_monitor.Manager.Scheduler.Pings.Slots.{
  IsBalanced, run_steps-IsBalanced, crashes_iff, stuck_pings_wait,
}
use zabbix_ddl_monitor.Syncer.Line.{Line}
use zabbix_ddl_monitor.Manager.Queue.Laws.{count_ip}
use zabbix_ddl_monitor.Manager.Scheduler.{
  new_scheduler, start, on_line_created, on_line_deleted, add_lines, add_line,
}
use zabbix_ddl_monitor.Manager.Scheduler.Queues.{queued, find, has, modify, start_all}
use zabbix_ddl_monitor.Manager.Scheduler.Placement.{new_scheduler-Placed}
use zabbix_ddl_monitor.Manager.Scheduler.InStep.{InStep}
use zabbix_ddl_monitor.Manager.Scheduler.Gaps.{deleted_line_stays_out}
use zabbix_ddl_monitor.Manager.Scheduler.Workers.{
  updated, deleted, emptied, handle_all, is_served, unserved_stays_unserved,
}
use zabbix_ddl_monitor.Tests.Syncing.{line_a, line_b, line_c}

abbrev lines : List Line
lines = line_a ∷ line_b ∷ []

abbrev line_d : Line
line_d = record line_a { ip = "10.0.0.4" }

deleted_line_stays_out_example :
    count_ip "10.0.0.2"
      (queued 90 (on_line_created line_c (on_line_deleted line_b (new_scheduler lines))).queues)
    ≡ 0
unfolding new_scheduler
deleted_line_stays_out_example =
    deleted_line_stays_out line_b line_c (new_scheduler lines) 90 (new_scheduler-Placed lines) refl
      refl refl

unserved_stays_unserved_example :
    is_served 90
      (handle_all
        (updated line_b line_c ∷ deleted line_a ∷ emptied 180 ∷ [])
        (start (new_scheduler lines))).queues
    ≡ false
unfolding new_scheduler start find start_all add_lines add_line has modify
unserved_stays_unserved_example =
    unserved_stays_unserved (updated line_b line_c ∷ deleted line_a ∷ emptied 180 ∷ []) 90
      (start (new_scheduler lines)) refl

abbrev chance : Chance
chance = record {
  slot_first = true;
  done_at_slot = false;
  done_at_check = false;
  has_connection = true;
  send_first = true;
}

abbrev new_executor : AsyncExecutor
new_executor = record {
  workers = 3;
  running = 3;
  task_chan = [];
  chan_closed = false;
  stop_closed = false;
  cancelled = false;
  processed = [];
}

abbrev pinger : Pinger
pinger = record { executor = new_executor; held = 0; borrowed = 0; crashed = false }

abbrev flight : Flight
flight = record { pinger = pinger; connecting = 0; connected = 0; executing = 0 }

-- Two pings side by side; one request runs when Stop begins, and the other ping gives up.
abbrev steps : List Step
steps =
    begins
    ∷ begins
    ∷ connects
    ∷ submits true 0
    ∷ takes true
    ∷ begins_stop
    ∷ gives_up
    ∷ ends_request
    ∷ takes false
    ∷ []

run_steps-IsBalanced_example : IsBalanced (run_steps steps flight)
run_steps-IsBalanced_example =
    run_steps-IsBalanced steps flight (inr (refl, refl, omega arith, omega arith))

abbrev stopped : Pinger
stopped = record pinger {
  executor = record new_executor { stop_closed = true; cancelled = true; chan_closed = true };
}

crashes_iff_example : ((execute_individual_ping chance 4 stopped).1 ≡ crashes) ↔ (
    (stopped.held < max_connections)
    × ((chance.slot_first ≡ true) ⊎ (chance.done_at_slot ≡ false))
    × (chance.done_at_check ≡ false)
    × (chance.has_connection ≡ true)
    × (stopped.executor.chan_closed ≡ true)
    × ((chance.send_first ≡ true) ⊎ (stopped.executor.cancelled ≡ false)))
crashes_iff_example = crashes_iff chance 4 stopped

-- Both requests of the queue were left behind by Stop.
abbrev left_behind : Flight
left_behind = record flight {
  pinger = record {
    executor = record new_executor { task_chan = 0 ∷ 1 ∷ []; running = 0; stop_closed = true };
    held = 2;
    borrowed = 2;
    crashed = false;
  };
}

stuck_pings_wait_example :
    (execute_individual_ping chance 5 (run_steps (ends_stop ∷ []) left_behind).pinger).1 ≡ waits
stuck_pings_wait_example =
    stuck_pings_wait (ends_stop ∷ []) chance 5 left_behind refl (omega arith) refl refl refl refl
