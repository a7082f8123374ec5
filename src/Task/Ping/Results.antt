-- ===== src/Task/Ping/Results.antt =====
-- task/ping.go: the map result.Data that the parsers fill.
use zabbix_ddl_monitor.Base.{
  String, Option, none, some, [], ◌∷◌, str_eq, ◌≡◌, refl, arith, if◌then◌else◌,
}
use zabbix_ddl_monitor.Base.Map.{Map, lookup, insert, lookup-insert}
use zabbix_ddl_monitor.Base.Text.{Text, codes}
use zabbix_ddl_monitor.Task.Ping.{Value, text, int}
use zabbix_ddl_monitor.Task.Ping.Output.{PingData, Status, check_finished, parse_failed}

abbrev pub status_text : Status → Text
status_text check_finished = codes "CheckFinished"
status_text parse_failed = codes "ParseResultFailed"

-- A key that a parser writes.
abbrev pub set : String → Option Value → Map Value → Map Value
set key none m = m
set key (some v) m = insert key v m

abbrev pub wrap : {A : Type 0} → (A → Value) → Option A → Option Value
wrap f none = none
wrap f (some a) = some (f a)

-- result.Data of ParseOutput, for the target and the output.
unfoldable pub result_data : Text → Text → PingData → Map Value
result_data ip output d = set "packet_stats" (wrap text d.packet_stats) (
    set "rtt_info" (wrap text d.rtt_info) (
      set "status" (wrap (λ s. text (status_text s)) d.status) (
        set "packet_loss" (wrap int d.packet_loss) (
          set "success_rate" (wrap int d.success_rate)
            (("target_ip", text ip) ∷ ("raw_output", text output) ∷ [])))))

abbrev over : Option Value → Option Value → Option Value
over none old = old
over (some v) old = some v

lookup-set :
    (key other : String) (o : Option Value) (m : Map Value)
    → lookup other (set key o m)
      ≡ (if str_eq key other then over o (lookup other m) else lookup other m)
lookup-set key other none m = ground arith
lookup-set key other (some v) m = lookup-insert key other v m

over-none : (o : Option Value) → over o none ≡ o
over-none none = refl
over-none (some v) = refl

pub status-result_data :
    (ip output : Text) (d : PingData)
    → lookup "status" (result_data ip output d) ≡ wrap (λ s. text (status_text s)) d.status
unfolding result_data lookup
status-result_data ip output d = simp (lookup-set, over-none)

pub packet_loss-result_data :
    (ip output : Text) (d : PingData)
    → lookup "packet_loss" (result_data ip output d) ≡ wrap int d.packet_loss
unfolding result_data lookup
packet_loss-result_data ip output d = simp (lookup-set, over-none)
