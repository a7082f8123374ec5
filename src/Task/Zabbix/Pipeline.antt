-- ===== src/Task/Zabbix/Pipeline.antt =====
-- From the output of a device, through ParseOutput of task/ping.go, to the metric that
-- task/zabbixSenderHandler.go sends for it.
use zabbix_ddl_monitor.Base.{
  ℕ, ◌≤◌, Bool, true, false, String, Option, none, some, ◌≡◌, ◌↔◌, refl, ap, ◌∙◌, arith,
  if◌then◌else◌,
}
use zabbix_ddl_monitor.Base.Map.{lookup}
use zabbix_ddl_monitor.Base.Text.{Text, codes, decimal}
use zabbix_ddl_monitor.Task.Ping.{int}
use zabbix_ddl_monitor.Task.Ping.Output.{PingData}
use zabbix_ddl_monitor.Task.Ping.Output.H3c.{parse_platform}
use zabbix_ddl_monitor.Base.Text.Numbers.{IsWord}
use zabbix_ddl_monitor.Task.Zabbix.Metrics.{pings_loss, loss_pings}
use zabbix_ddl_monitor.Task.Ping.Results.{
  status_text, wrap, result_data, status-result_data, packet_loss-result_data,
}
use zabbix_ddl_monitor.Task.Ping.Verdicts.{status_of}
use zabbix_ddl_monitor.Task.Ping.Loss.{parse_platform-IsSound}
use zabbix_ddl_monitor.Task.Zabbix.{
  Metric, Event, as_int, metric, of_loss, of_status, metric_of, dedicated_line_ping,
  dedicated_line_error_detail,
}

-- The metric of an event whose data are those of a parser's result: a failure is reported with its
-- status, a success with its packet loss.
abbrev pub reported : Bool × PingData → Event → Metric
reported r e =
    if r.0
    then of_loss r.1.packet_loss e
    else metric dedicated_line_error_detail (codes "ParseResultFailed") e

as_int-wrap : (o : Option ℕ) → as_int (wrap int o) ≡ o
as_int-wrap none = refl
as_int-wrap (some n) = refl

of_status-reported :
    (b : Bool) (d : PingData) (e : Event)
    → as_int (lookup "packet_loss" e.values) ≡ d.packet_loss
    → of_status (some (status_text (status_of b))) e ≡ reported (b, d) e
of_status-reported true d e h = ap (λ o. of_loss o e) h
of_status-reported false d e h = refl

-- Whatever the device has sent, the event with the data of ParseOutput gives the ping metric of the
-- packet loss that was read, or, if the output was not understood, the status ParseResultFailed; a
-- success without a loss in 0 to 100 gives an error metric too.
pub metric_of-parse_platform :
    (platform : String) (ip s : Text) (e : Event)
    → e.values ≡ result_data ip s (parse_platform platform s).1
    → metric_of e ≡ reported (parse_platform platform s) e
unfolding metric_of
metric_of-parse_platform platform ip s e h =
    let d = (parse_platform platform s).1 in
    rw (ap (lookup "status") h ∙ status-result_data ip s d) (
      rw ((parse_platform-IsSound platform s).0) (
        of_status-reported (parse_platform platform s).0 d e (
          ap (λ m. as_int (lookup "packet_loss" m)) h
          ∙ ap as_int (packet_loss-result_data ip s d)
          ∙ as_int-wrap d.packet_loss)))

-- The loss that was read is what the ping metric says.
abbrev pub Says : Bool × PingData → Metric → Type 0
Says r m = (n : ℕ) × (n ≤ 100) × (r.0 ≡ true) × (r.1.packet_loss ≡ some n) × (m.value ≡ decimal n)

reported_iff :
    (b : Bool) (d : PingData) (e : Event)
    → IsWord d.packet_loss
    → ((reported (b, d) e).key ≡ dedicated_line_ping) ↔ Says (b, d) (reported (b, d) e)
reported_iff false d e w = (λ h. absurd (ground (arith, h)), λ p. absurd (ground (arith, p.2)))
reported_iff true d e w = (
  λ h. let found = pings_loss d.packet_loss e w h in (found.0, found.1, refl, found.2, found.3),
  λ p. rw p.3 (loss_pings p.0 e p.1),
)

-- Whatever the device has sent, the event with the data of ParseOutput gives a ping metric exactly
-- if the output was understood and the packet loss that was read, an int, is from 0 to 100; the
-- metric then says this loss.
pub reports_loss_iff :
    (platform : String) (ip s : Text) (e : Event)
    → e.values ≡ result_data ip s (parse_platform platform s).1
    → IsWord (parse_platform platform s).1.packet_loss
    → ((metric_of e).key ≡ dedicated_line_ping) ↔ Says (parse_platform platform s) (metric_of e)
reports_loss_iff platform ip s e h w =
    rw (metric_of-parse_platform platform ip s e h)
      (reported_iff (parse_platform platform s).0 (parse_platform platform s).1 e w)
