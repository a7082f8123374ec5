-- ===== src/Tests/Routing.antt =====
-- Runs of the manager's handling of events.
use zabbix_ddl_monitor.Base.{ℕ, zero, suc, true, false, List, [], ◌∷◌, ◌≡◌, refl, if◌then◌else◌}
use zabbix_ddl_monitor.Base.Map.{Map, lookup}
use zabbix_ddl_monitor.Syncer.Changes.{detect_changes}
use zabbix_ddl_monitor.Manager.FullSync.{full_sync, fetched, wait_for_lines, is_empty}
use zabbix_ddl_monitor.Manager.FullSync.Grouping.{routed}
use zabbix_ddl_monitor.Manager.FullSync.Schedulers.{scheduler_for, schedulers-full_sync}
use zabbix_ddl_monitor.Manager.FullSync.Tracking.{lines_with, on, followed, full_sync_tracks}
use zabbix_ddl_monitor.Manager.Events.{Handling, Step, receives, processes, ends, run, drain}
use zabbix_ddl_monitor.Manager.Events.Queueing.{taken, drained-run}
use zabbix_ddl_monitor.Syncer.Line.{Line, LineChangeEvent, line_create, line_update, line_delete}
use zabbix_ddl_monitor.Manager.Lines.{Manager, listed, process_all}
use zabbix_ddl_monitor.Manager.Lines.Routers.{edit_all, listed-process_all}
use zabbix_ddl_monitor.Tests.Syncing.{line_a, line_b, line_c}

abbrev empty_manager : Manager
empty_manager = record { router_lines = []; schedulers = []; removals = [] }

abbrev moved : Line
moved = record line_c {
  router = record {
    ip = "10.1.0.2";
    username = "u";
    password = "p";
    platform = "huawei_vrp";
    protocol = "ssh";
  };
}

abbrev events : List LineChangeEvent
events =
    record { kind = line_create; line = line_a; version = 1 }
    ∷ record { kind = line_create; line = line_b; version = 1 }
    ∷ record { kind = line_update; line = moved; version = 2 }
    ∷ record { kind = line_delete; line = line_a; version = 3 }
    ∷ []

listed-process_all_example :
    listed "10.1.0.1" (process_all (λ r. true) events empty_manager)
    ≡ edit_all "10.1.0.1" events (listed "10.1.0.1" empty_manager)
listed-process_all_example = listed-process_all (λ r. true) "10.1.0.1" events empty_manager

abbrev configuration : Map Line
configuration = ("10.0.0.1", line_a) ∷ ("10.0.0.2", line_b) ∷ []

-- The synchroniser has no lines at the first call.
abbrev late : ℕ → Map Line
late zero = []
late (suc n) = configuration

abbrev later : Map Line
later = ("10.0.0.2", line_c) ∷ []

schedulers-full_sync_example :
    lookup "10.1.0.1" (full_sync (λ r. true) late empty_manager).0.schedulers ≡ (
      if is_empty (fetched late)
      then lookup "10.1.0.1" empty_manager.schedulers
      else scheduler_for
          (λ r. true)
          (routed "10.1.0.1" (fetched late))
          (lookup "10.1.0.1" empty_manager.schedulers))
schedulers-full_sync_example = schedulers-full_sync (λ r. true) "10.1.0.1" late empty_manager

full_sync_tracks_example :
    lines_with "10.0.0.2" (
      listed "10.1.0.1" (
        process_all
          (λ r. true)
          (detect_changes (fetched late) later)
          (full_sync (λ r. true) late empty_manager).0))
    ≡ on "10.1.0.1" (followed (lookup "10.0.0.2" (fetched late)) (lookup "10.0.0.2" later))
unfolding fetched wait_for_lines lookup
full_sync_tracks_example =
    full_sync_tracks (λ r. true) "10.0.0.2" "10.1.0.1" late later empty_manager refl
      (refl, (refl, tt)) (refl, (refl, tt)) (refl, tt) (refl, tt)

abbrev handling : Handling
handling = record { manager = empty_manager; buffer = []; dropped = 0; closed = false }

abbrev steps : List Step
steps =
    receives (record { kind = line_create; line = line_a; version = 1 })
    ∷ processes
    ∷ receives (record { kind = line_create; line = line_b; version = 1 })
    ∷ ends
    ∷ []

drained-run_example :
    (drain (λ r. true) (run (λ r. true) steps handling)).manager
    ≡ process_all (λ r. true) (taken 0 false steps) empty_manager
drained-run_example = drained-run (λ r. true) steps handling
