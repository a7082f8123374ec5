-- ===== src/Tests/Results.antt =====
-- Runs of the aggregator and of the registry.
use zabbix_ddl_monitor.Base.{ℕ, ◌+◌, true, false, List, [], ◌∷◌, ◌≡◌}
use zabbix_ddl_monitor.Task.Aggregator.{ResultEvent, Aggregator, new_aggregator, add_handler}
use zabbix_ddl_monitor.Task.Aggregator.Conservation.{
  Op, submits, receives, works, flushes, stops, finishes, run, load, taken, load-run,
}
use zabbix_ddl_monitor.Task.Aggregator.Stats.{is_success}
use zabbix_ddl_monitor.Task.Registry.{TaskMeta, Registry}

abbrev good : ResultEvent ℕ
good = record {
  line_id = "1";
  ip = "10.0.0.1";
  router_ip = "10.1.0.1";
  task_type = "ping";
  timestamp = 5;
  success = true;
  values = 0;
  error = "";
  duration = 2;
}

abbrev bad : ResultEvent ℕ
bad = record good { success = false; error = "timeout" }

abbrev ops : List (Op ℕ)
ops =
    submits false good
    ∷ submits false bad
    ∷ submits false good
    ∷ receives
    ∷ receives
    ∷ works 6 1
    ∷ works 7 0
    ∷ flushes 8
    ∷ stops
    ∷ finishes 9
    ∷ []

abbrev small : Aggregator ℕ
small = add_handler (new_aggregator 2 10)

load-run_example :
    load is_success (run ops small) ≡ load is_success small + taken is_success ops small
load-run_example = load-run is_success ops small

abbrev leaving : Aggregator ℕ
leaving = record {
  handlers = 1;
  capacity = 400;
  queue = good ∷ [];
  held = [];
  buffer = bad ∷ [];
  buffer_size = 10;
  batches = [];
  dropped = [];
  total_events = 1;
  success_events = 0;
  failed_events = 1;
  last_flush = 0;
  is_stopped = true;
  is_closed = false;
}

abbrev ping : TaskMeta ℕ
ping = record {
  task_type = "ping";
  description = "";
  platforms =
      record {
        platform = "cisco_iosxe";
        protocols =
            record {
              protocol = "ssh";
              command_types = record { command_type = "commands"; impl_factory = 7 } ∷ [];
            }
            ∷ [];
      }
      ∷ [];
}

abbrev registry : Registry ℕ
registry = ("ping", ping) ∷ []
