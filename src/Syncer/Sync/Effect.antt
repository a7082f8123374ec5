-- ===== src/Syncer/Sync/Effect.antt =====
-- What a synchronisation of syncer/syncer.go tells its subscribers.
use zabbix_ddl_monitor.Base.{ℕ, false, some, List, [], ◌∷◌, ◌≡◌, refl, String}
use zabbix_ddl_monitor.Base.Int64
use zabbix_ddl_monitor.Base.Map.{Map, Unique, lookup}
use zabbix_ddl_monitor.Syncer.Line.{Line, LineChangeEvent}
use zabbix_ddl_monitor.Syncer.Changes.{detect_changes, scan_new, scan_old}
use zabbix_ddl_monitor.Syncer.Changes.Replay.{IsKeyed, Converges, replay, replay-detect_changes}
use zabbix_ddl_monitor.Syncer.Sync.{
  Config, SyncResult, no_changes, notifies, drop_creates, is_empty, stamp, tell, sync,
}

drop-scan_new : (new : Map Line) → drop_creates (scan_new [] new) ≡ []
unfolding scan_new drop_creates lookup
drop-scan_new [] = refl
drop-scan_new ((k, l) ∷ new) = drop-scan_new new

-- A synchronisation that finds the syncer without lines sends no event at all, whatever it fetches
-- and whichever version it comes after; it only takes the lines over and counts the version.
pub sync_from_empty :
    (new : Map Line) (cs : Config)
    → cs.lines ≡ []
    → sync (some new) cs ≡ (record { lines = new; version = Int64.inc cs.version }, no_changes)
unfolding sync detect_changes scan_old
sync_from_empty new cs h = rw (h, drop-scan_new)

-- The events that a synchronisation sends, without their version.
abbrev pub told : SyncResult → List LineChangeEvent
told (notifies es) = es
told _ = []

replay-stamp :
    (v : ℕ) (es : List LineChangeEvent) (m : Map Line) → replay (stamp v es) m ≡ replay es m
replay-stamp v [] m = refl
replay-stamp v (e ∷ es) m = replay-stamp v es _

told-tell : (v : ℕ) (es : List LineChangeEvent) → told (tell v es) ≡ stamp v es
told-tell v [] = refl
told-tell v (e ∷ es) = refl

-- A synchronisation of a syncer that has lines takes the fetched ones over and counts the version,
-- and the events that it sends turn any copy of the old configuration into the new one, up to lines
-- with the same hash.
pub sync-Converges :
    (new : Map Line) (cs : Config) (k : String)
    → is_empty cs.lines ≡ false
    → Unique cs.lines
    → IsKeyed cs.lines
    → Unique new
    → IsKeyed new
    → let r = sync (some new) cs in
      (r.0 ≡ record { lines = new; version = Int64.inc cs.version })
      × Converges cs.lines new (told r.1) k
unfolding sync
sync-Converges new cs k h uo ko un kn =
    (refl, simp (h, told-tell, replay-stamp) (replay-detect_changes cs.lines new k uo ko un kn))
