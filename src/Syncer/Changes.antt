-- ===== src/Syncer/Changes.antt =====
-- syncer/syncer.go: detectChanges, which compares two configurations, both keyed by the line's IP.
pub mod Replay
pub mod Missed
use zabbix_ddl_monitor.Base.{
  ℕ, Bool, true, false, String, Option, none, some, List, [], ◌∷◌, ◌++◌, ◌==◌, not, if◌then◌else◌,
}
use zabbix_ddl_monitor.Base.Map.{Map, lookup}
use zabbix_ddl_monitor.Syncer.Line.{
  Line, LineChangeEvent, ChangeType, line_create, line_update, line_delete,
}

-- An event as the code makes it; the version is set later.
abbrev pub event : ChangeType → Line → LineChangeEvent
event kind line = record { kind = kind; line = line; version = 0 }

-- The body of the first loop: an old line is gone, has another hash, or is unchanged.
abbrev pub old_events : Line → Option Line → List LineChangeEvent
old_events l none = event line_delete l ∷ []
old_events l (some l') = if not (l.hash == l'.hash) then event line_update l' ∷ [] else []

-- The body of the second loop: a new line whose key was not there.
abbrev pub new_events : Line → Option Line → List LineChangeEvent
new_events l none = event line_create l ∷ []
new_events l (some l') = []

unfoldable pub scan_old : Map Line → Map Line → List LineChangeEvent
scan_old new [] = []
scan_old new ((k, l) ∷ old) = old_events l (lookup k new) ++ scan_old new old

unfoldable pub scan_new : Map Line → Map Line → List LineChangeEvent
scan_new old [] = []
scan_new old ((k, l) ∷ new) = new_events l (lookup k old) ++ scan_new old new

-- detectChanges
unfoldable pub detect_changes : Map Line → Map Line → List LineChangeEvent
detect_changes old new = scan_old new old ++ scan_new old new
