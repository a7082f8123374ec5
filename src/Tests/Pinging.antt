-- ===== src/Tests/Pinging.antt =====
-- Runs of the ping task's parsers and of the metrics that are sent.
use zabbix_ddl_monitor.Base.{
  ◌&&◌, ℕ, suc, true, false, some, List, [], ◌∷◌, ◌++◌, ◌≡◌, ◌↔◌, refl, arith, str_eq, not, ◌||◌,
  map,
}
use zabbix_ddl_monitor.Base.Map.{Map}
use zabbix_ddl_monitor.Base.Text.{Text, codes, contains, trim_space, split_lines, digits}
use zabbix_ddl_monitor.Task.Ping.{Value, text, int, duration}
use zabbix_ddl_monitor.Task.Ping.Output.{
  no_data, finished, with_loss, with_rate, parse_cisco, parse_nxos, nxos_loss,
}
use zabbix_ddl_monitor.Task.Ping.Output.H3c.{
  parse_platform, parse_h3c, scan_h3c, find_loss, match_here, loss_of, to_percent, first_rtt,
}
use zabbix_ddl_monitor.Task.Ping.Verdicts.{IsSound}
use zabbix_ddl_monitor.Task.Ping.Loss.{IsRead, parse_platform-IsSound, parse_h3c-IsRead}
use zabbix_ddl_monitor.Task.Ping.Misread.{cisco_reads_lost, nxos_reads_clear}
use zabbix_ddl_monitor.Task.Executor.{Surroundings, answers, TaskContext, execute}
use zabbix_ddl_monitor.Task.Executor.Statuses.{HasStatus, execute-HasStatus}
use zabbix_ddl_monitor.Task.Zabbix.{
  Metric, Event, Reply, metric_of, handle_result, is_error, dedicated_line_ping,
}
use zabbix_ddl_monitor.Task.Zabbix.Metrics.{handle_result_iff, has_events}
use zabbix_ddl_monitor.Task.Ping.Results.{result_data}
use zabbix_ddl_monitor.Task.Zabbix.Pipeline.{Says, reports_loss_iff}

abbrev unreachable : Text
unreachable =
    codes "PING 10.0.0.9 (10.0.0.9): 56 data bytes"
    ++ (10 ∷ (codes "5 packets transmitted, 0 packets received, 100.00% packet loss" ++ (10 ∷ [])))

abbrev h3c_lines : List Text
h3c_lines =
    codes "Request time out"
    ∷ codes "5 packet(s) transmitted, 4 packet(s) received, 20.0% packet loss"
    ∷ codes "round-trip min/avg/max/std-dev = 0.198/0.225/0.261/0.023 ms"
    ∷ []

h3c_loss :
    (parse_platform "h3c_comware" (codes "5 received, 20.0 % packet loss")).1.packet_loss ≡ some 20
unfolding parse_platform parse_h3c split_lines scan_h3c find_loss match_here loss_of to_percent
    digits first_rtt contains
h3c_loss = refl

unreachable_reads_clear : (parse_platform "cisco_nxos" unreachable).1.packet_loss ≡ some 0
unfolding parse_platform parse_nxos nxos_loss split_lines trim_space contains
unreachable_reads_clear = refl

parse_platform-IsSound_example : IsSound (parse_platform "cisco_nxos" unreachable)
parse_platform-IsSound_example = parse_platform-IsSound "cisco_nxos" unreachable

parse_h3c-IsRead_example : IsRead (parse_h3c h3c_lines no_data)
parse_h3c-IsRead_example = parse_h3c-IsRead h3c_lines

nxos_reads_clear_example :
    parse_nxos
      ((b'5' ∷ (codes " packets transmitted, 0 packets received, 10" ++ codes "0.00% packet loss"))
        ∷ [])
      no_data
    ≡ finished (with_loss 0 no_data)
nxos_reads_clear_example =
    nxos_reads_clear b'5' (codes " packets transmitted, 0 packets received, 10") [] no_data refl

cisco_reads_lost_example :
    parse_cisco
      ((codes "Success rate is "
          ++ (b'8' ∷ (codes "0 percent (" ++ codes "4/5), round-trip min/avg/max = 1/1/1 ms")))
        ∷ [])
      no_data
    ≡ finished (with_rate 0 no_data)
unfolding trim_space contains
cisco_reads_lost_example =
    cisco_reads_lost b'8' (codes "4/5), round-trip min/avg/max = 1/1/1 ms") [] no_data refl

abbrev params : Map Value
params =
    ("target_ip", text (codes "10.0.0.9"))
    ∷ ("repeat", int 5)
    ∷ ("timeout", duration 2000000000)
    ∷ []

abbrev task_number : ℕ
task_number = 7

abbrev line_event : Map Value → Event
line_event values = record {
  line_id = "a";
  ip = "10.0.0.9";
  router_ip = "10.1.0.1";
  task_type = "ping";
  timestamp = 1700000000000000000;
  success = true;
  values = values;
  error = "";
  duration = 3;
}

abbrev lost : Event
lost = line_event (("status", text (codes "CheckFinished")) ∷ ("packet_loss", int 40) ∷ [])

abbrev partial : List Metric → Reply
partial ms = record { has_error = false; active_response = ""; trapper_response = "failed" }

handle_result_iff_example : is_error (handle_result partial (lost ∷ [])) ≡ (
    has_events (lost ∷ [])
    && ((partial (map metric_of (lost ∷ []))).has_error
        || not (str_eq (partial (map metric_of (lost ∷ []))).trapper_response "success")))
handle_result_iff_example = handle_result_iff partial (lost ∷ [])

abbrev unreachable_data : Map Value
unreachable_data =
    result_data (codes "10.0.0.9") unreachable (parse_platform "cisco_nxos" unreachable).1

reports_loss_iff_example :
    ((metric_of (line_event unreachable_data)).key ≡ dedicated_line_ping)
    ↔ Says (parse_platform "cisco_nxos" unreachable) (metric_of (line_event unreachable_data))
unfolding parse_platform parse_nxos nxos_loss split_lines trim_space contains
reports_loss_iff_example =
    reports_loss_iff "cisco_nxos" (codes "10.0.0.9") unreachable (line_event unreachable_data) refl
      (omega arith)

-- A driver that always answers, over a count of its calls.
abbrev lab : Surroundings ℕ
lab = record {
  platforms = "cisco_nxos" ∷ [];
  command_types = "commands" ∷ [];
  run = λ c n. (suc n, answers unreachable);
  is_late = λ n. false;
  wait = λ d n. (n, false);
  set_deadline = λ d n. n;
  drop_deadline = λ n. n;
}

abbrev context : TaskContext
context = record { platform = "cisco_nxos"; command_type = "commands"; params = params }

execute-HasStatus_example : HasStatus (execute lab 0 2 (λ n. n) context 0).1
execute-HasStatus_example = execute-HasStatus lab 0 2 (λ n. n) context 0
