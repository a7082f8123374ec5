-- ===== src/Tests/Syncing.antt =====
-- Runs of the comparison of configurations and of the subscriptions.
use zabbix_ddl_monitor.Base.{◌≤◌, false, List, [], ◌∷◌, ◌≡◌, refl, ◌⊎◌, length}
use zabbix_ddl_monitor.Base.Map.{Map, lookup, Unique}
use zabbix_ddl_monitor.Syncer.Line.{Router, Line, LineChangeEvent, line_create, line_delete, Hasher}
use zabbix_ddl_monitor.Syncer.Changes.{detect_changes}
use zabbix_ddl_monitor.Syncer.Changes.Replay.{Converges, IsKeyed, replay-detect_changes}
use zabbix_ddl_monitor.Syncer.Sync.{Config}
use zabbix_ddl_monitor.Syncer.Subscribers.{Channel, contains, numbers}
use zabbix_ddl_monitor.Syncer.Subscribers.Safety.{
  Call, subscribes, stops, closes, notifies, run, new_hub, count, no_channel_panics,
}

abbrev pub router_a : Router
router_a = record {
  ip = "10.1.0.1";
  username = "u";
  password = "p";
  platform = "cisco_iosxe";
  protocol = "ssh";
}

abbrev pub line_a : Line
line_a = record { id = "1"; ip = "10.0.0.1"; interval = 180; router = router_a; hash = 11 }

abbrev pub line_b : Line
line_b = record { id = "2"; ip = "10.0.0.2"; interval = 60; router = router_a; hash = 22 }

abbrev pub line_c : Line
line_c = record line_b { interval = 90; hash = 33 }

abbrev before : Map Line
before = ("10.0.0.1", line_a) ∷ ("10.0.0.2", line_b) ∷ []

abbrev after : Map Line
after = ("10.0.0.2", line_c) ∷ []

Unique-before : Unique before
unfolding lookup
Unique-before = (refl, (refl, tt))

Unique-after : Unique after
unfolding lookup
Unique-after = (refl, tt)

IsKeyed-before : IsKeyed before
IsKeyed-before = (refl, (refl, tt))

IsKeyed-after : IsKeyed after
IsKeyed-after = (refl, tt)

replay-detect_changes_example : Converges before after (detect_changes before after) "10.0.0.2"
replay-detect_changes_example =
    replay-detect_changes before after "10.0.0.2" Unique-before IsKeyed-before Unique-after
      IsKeyed-after

-- One byte for each string, and the number of bytes for their sum.
abbrev sums : Hasher
sums = record { bytes = λ s. 1 ∷ []; sum64 = length }

abbrev unsynced : Config
unsynced = record { lines = []; version = 41 }

abbrev synced : Config
synced = record { lines = before; version = 42 }

abbrev created : LineChangeEvent
created = record { kind = line_create; line = line_a; version = 1 }

abbrev removed : LineChangeEvent
removed = record { kind = line_delete; line = line_b; version = 1 }

abbrev calls : List Call
calls =
    subscribes
    ∷ subscribes
    ∷ notifies (λ e n. false) (created ∷ removed ∷ [])
    ∷ closes 0
    ∷ closes 0
    ∷ stops
    ∷ closes 1
    ∷ []

no_channel_panics_example :
    let h = run calls new_hub in
    (count 0 h.closed ≤ 1) × ((contains 0 (numbers h.subscribers) ≡ false) ⊎ (count 0 h.closed ≡ 0))
no_channel_panics_example = no_channel_panics calls 0

abbrev readers : List Channel
readers = record { number = 0; queued = created ∷ [] } ∷ record { number = 1; queued = [] } ∷ []
