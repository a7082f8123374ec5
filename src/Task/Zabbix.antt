-- ===== src/Task/Zabbix.antt =====
-- task/zabbixSenderHandler.go: HandleResult, which turns a batch of results into metrics and sends
-- them. The sender itself, of zapix, is an argument. A timestamp is in nanoseconds since the epoch.
pub mod Metrics
pub mod Pipeline
use zabbix_ddl_monitor.Base.{
  ℕ, zero, suc, ◌/◌, Bool, true, false, not, ◌&&◌, ◌||◌, String, Option, none, some, List, [], ◌∷◌,
  ◌++◌, str_eq, ltb, leb, if◌then◌else◌,
}
use zabbix_ddl_monitor.Base.Int64
use zabbix_ddl_monitor.Base.Map.{Map, lookup}
use zabbix_ddl_monitor.Base.Text.{Text, codes, text_eq, decimal}
use zabbix_ddl_monitor.Task.Aggregator.{ResultEvent}
use zabbix_ddl_monitor.Task.Ping.{Value, text, int}

pub data MetricKey : Type 0 where
  dedicated_line_ping dedicated_line_error_detail : MetricKey

pub record Metric : Type 0 where
  pub host : String
  pub key : MetricKey
  pub value : Text
  pub clock : ℕ
  pub active : Bool

abbrev pub Event : Type 0
Event = ResultEvent (Map Value)

-- v, ok := x.(string) and v, ok := x.(int)
abbrev pub as_text : Option Value → Option Text
as_text (some (text s)) = some s
as_text _ = none

abbrev pub as_int : Option Value → Option ℕ
as_int (some (int n)) = some n
as_int _ = none

abbrev pub metric : MetricKey → Text → Event → Metric
metric key value e = record {
  host = e.ip;
  key = key;
  value = value;
  clock = e.timestamp / 1000000000;
  active = false;
}

abbrev pub of_loss : Option ℕ → Event → Metric
of_loss none e = metric dedicated_line_error_detail (codes "InvalidPacketLossData") e
of_loss (some n) e =
    if Int64.leb64 0 n && Int64.leb64 n 100
    then metric dedicated_line_ping (decimal n) e
    else metric dedicated_line_error_detail (codes "PacketLossOutOfRange") e

abbrev pub of_status : Option Text → Event → Metric
of_status none e = metric dedicated_line_error_detail (codes "MissingStatusField") e
of_status (some s) e =
    if text_eq s (codes "CheckFinished")
    then of_loss (as_int (lookup "packet_loss" e.values)) e
    else metric dedicated_line_error_detail s e

-- The body of the first loop: every event gives one metric.
unfoldable pub metric_of : Event → Metric
metric_of e = of_status (as_text (lookup "status" e.values)) e

-- The first loop.
unfoldable pub collect : List Event → List Metric → List Metric
collect [] metrics = metrics
collect (e ∷ es) metrics = collect es (metrics ++ metric_of e ∷ [])

-- activeCount and trapperCount
unfoldable pub count_active : List Metric → ℕ
count_active [] = 0
count_active (m ∷ ms) = let rest = count_active ms in if m.active then suc rest else rest

unfoldable pub count_trapper : List Metric → ℕ
count_trapper [] = 0
count_trapper (m ∷ ms) = let rest = count_trapper ms in if m.active then rest else suc rest

-- What SendMetrics of the sender answers: an error, and the server's response to either kind.
pub record Reply : Type 0 where
  pub has_error : Bool
  pub active_response : String
  pub trapper_response : String

pub data Handled : Type 0 where
  no_events no_metrics sent send_failed server_failed : Handled

abbrev pub judge : List Metric → Reply → Handled
judge ms r =
    if r.has_error
    then send_failed
    else if (ltb 0 (count_active ms) && not (str_eq r.active_response "success"))
        || (ltb 0 (count_trapper ms) && not (str_eq r.trapper_response "success"))
    then server_failed
    else sent

abbrev pub send_all : (List Metric → Reply) → List Metric → Handled
send_all send [] = no_metrics
send_all send (m ∷ ms) = judge (m ∷ ms) (send (m ∷ ms))

-- HandleResult; the first three results are no error.
unfoldable pub handle_result : (List Metric → Reply) → List Event → Handled
handle_result send [] = no_events
handle_result send (e ∷ es) = send_all send (collect (e ∷ es) [])

abbrev pub is_error : Handled → Bool
is_error no_events = false
is_error no_metrics = false
is_error sent = false
is_error send_failed = true
is_error server_failed = true
