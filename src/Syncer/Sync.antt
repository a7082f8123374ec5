-- ===== src/Syncer/Sync.antt =====
-- syncer/syncer.go: `sync`, from the fetched configuration to the events that are sent. The fetch is
-- an argument: `none` for an error. The code compares before it takes the write lock; `sync` runs
-- in one goroutine, so the model makes it one step.
pub mod Effect
use zabbix_ddl_monitor.Base.{
  ℕ, Bool, true, false, Option, none, some, List, [], ◌∷◌, map, ◌==◌, not, if◌then◌else◌,
}
use zabbix_ddl_monitor.Base.Int64
use zabbix_ddl_monitor.Base.Map.{Map}
use zabbix_ddl_monitor.Syncer.Line.{Line, LineChangeEvent, ChangeType, line_create, change_code}
use zabbix_ddl_monitor.Syncer.Changes.{detect_changes}

-- The part of ConfigSyncer that `sync` changes.
pub record Config : Type 0 where
  pub lines : Map Line
  pub version : ℕ  -- int64

-- A failed fetch; a success with nothing to tell; the events handed to notifyAll.
pub data SyncResult : Type 0 where
  fetch_failed no_changes : SyncResult
  notifies : List LineChangeEvent → SyncResult

-- The filter of the initial synchronisation.
unfoldable pub drop_creates : List LineChangeEvent → List LineChangeEvent
drop_creates [] = []
drop_creates (e ∷ es) =
    let rest = drop_creates es in
    if not (change_code e.kind == change_code line_create) then e ∷ rest else rest

abbrev pub is_empty : {A : Type 0} → List A → Bool
is_empty [] = true
is_empty (x ∷ xs) = false

abbrev pub stamp : ℕ → List LineChangeEvent → List LineChangeEvent
stamp v = map {A = LineChangeEvent} (λ e. record e { version = v })

abbrev tell : ℕ → List LineChangeEvent → SyncResult
tell v [] = no_changes
tell v (e ∷ es) = notifies (stamp v (e ∷ es))

unfoldable pub sync : Option (Map Line) → Config → Config × SyncResult
unfolding drop_creates
sync none cs = (cs, fetch_failed)
sync (some new) cs = (
  record { lines = new; version = Int64.inc cs.version },
  tell (Int64.inc cs.version) (
      if is_empty cs.lines
      then drop_creates (detect_changes cs.lines new)
      else detect_changes cs.lines new),
)

-- countEvents
unfoldable pub count_events : ChangeType → List LineChangeEvent → ℕ
count_events typ [] = 0
count_events typ (e ∷ es) =
    let rest = count_events typ es in
    if change_code e.kind == change_code typ then Int64.inc rest else rest
