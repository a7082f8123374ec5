-- ===== src/Connection/Events.antt =====
-- The sinks that the managers of connection/ write to: the bounded event channel, to which a send
-- never blocks (`select` with `default`), and the metrics collector, an interface whose calls are
-- kept in order.
use zabbix_ddl_monitor.Base.{
  ℕ, Bool, String, Option, none, some, List, [], ◌∷◌, ◌++◌, ltb, length, if◌then◌else◌,
}
use zabbix_ddl_monitor.Connection.Conn.{RebuildReason}

-- A PoolEvent without its time stamp: its type, the protocol, and the connection's id and reason.
pub data PoolEvent : Type 0 where
  rebuild_marked : String → String → RebuildReason → PoolEvent
  rebuild_started : String → String → PoolEvent
  rebuild_completed : String → String → Bool → PoolEvent

pub data MetricCall : Type 0 where
  increment_rebuild_marked : String → RebuildReason → MetricCall
  increment_connections_needing_rebuild : String → MetricCall
  increment_rebuild_started : String → MetricCall
  increment_rebuilding_connections : String → MetricCall
  decrement_rebuilding_connections : String → MetricCall
  record_rebuild_duration : String → ℕ → MetricCall
  increment_rebuild_completed : String → MetricCall
  increment_rebuild_failed : String → MetricCall

pub record Chan : Type 0 where
  pub capacity : ℕ
  pub queued : List PoolEvent

-- `none` stands for a nil channel and for a nil collector.
pub record Sink : Type 0 where
  pub event_chan : Option Chan
  pub collector : Option (List MetricCall)

unfoldable pub send : PoolEvent → Chan → Chan
send e ch =
    if ltb (length ch.queued) ch.capacity then record ch { queued = ch.queued ++ e ∷ [] } else ch

-- sendEvent
unfoldable pub send_event : PoolEvent → Sink → Sink
unfolding send
send_event e s = record s {
  event_chan = elim s.event_chan [ none ↦ none | some ch ↦ some (send e ch) ];
}

unfoldable pub collect : List MetricCall → Sink → Sink
collect calls s = record s {
  collector = elim s.collector [ none ↦ none | some done ↦ some (done ++ calls) ];
}
