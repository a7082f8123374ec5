-- ===== src/Manager/Stopping.antt =====
-- manager/manager.go: Stop, GetSimpleStats and CheckResourceCleanup. `closed` is the stop channel's
-- state. Stop waits for the goroutines, at most 30 seconds, before it stops the schedulers; what they
-- do to the manager until then are other steps, before this one.
pub mod Reports
use zabbix_ddl_monitor.Base.{
  ℕ, zero, suc, ◌+◌, Bool, true, false, String, Option, none, some, List, [], ◌∷◌, not, ◌&&◌, ◌==◌,
  length, if◌then◌else◌,
}
use zabbix_ddl_monitor.Base.Map.{Map, lookup}
use zabbix_ddl_monitor.Syncer.Line.{Line}
use zabbix_ddl_monitor.Manager.Scheduler.{RouterScheduler}
use zabbix_ddl_monitor.Manager.Lines.{Manager}
use zabbix_ddl_monitor.Manager.FullSync.{is_empty, exists}

-- The manager with its context and its stop channel.
pub record Lifetime : Type 0 where
  pub manager : Manager
  pub context_cancelled : Bool
  pub closed : Bool

-- The keys of the map of schedulers; none of its values is nil.
unfoldable pub scheduler_keys : Map RouterScheduler → List String
scheduler_keys [] = []
scheduler_keys ((ip, s) ∷ ss) = ip ∷ scheduler_keys ss

-- Stop: the lifetime after it, and the routers whose schedulers it has stopped.
unfoldable pub stop : Lifetime → Lifetime × List String
stop t = (record t { context_cancelled = true; closed = true }, scheduler_keys t.manager.schedulers)

-- The sum of the lists' lengths in GetSimpleStats.
unfoldable pub total_lines : Map (List Line) → ℕ
total_lines [] = 0
total_lines ((ip, ls) ∷ groups) = length ls + total_lines groups

pub record SimpleStats : Type 0 where
  pub scheduler_count : ℕ
  pub total_lines : ℕ
  pub context_ok : Bool

unfoldable pub get_simple_stats : Lifetime → SimpleStats
get_simple_stats t = record {
  scheduler_count = length t.manager.schedulers;
  total_lines = total_lines t.manager.router_lines;
  context_ok = not t.context_cancelled;
}

-- The details of the routers, in the order of the map of lines.
pub record RouterDetail : Type 0 where
  pub router_ip : String
  pub line_count : ℕ
  pub has_scheduler : Bool

unfoldable pub router_details : Map RouterScheduler → Map (List Line) → List RouterDetail
router_details ss [] = []
router_details ss ((ip, ls) ∷ groups) =
    record { router_ip = ip; line_count = length ls; has_scheduler = exists (lookup ip ss) }
    ∷ router_details ss groups

-- GetDetailedStats, as far as the manager's own state goes.
pub record DetailedStats : Type 0 where
  pub scheduler_count : ℕ
  pub router_count : ℕ
  pub total_lines : ℕ
  pub router_details : List RouterDetail
  pub context_cancelled : Bool
  pub stopchan_closed : Bool

unfoldable pub get_detailed_stats : Lifetime → DetailedStats
get_detailed_stats t = record {
  scheduler_count = length t.manager.schedulers;
  router_count = length t.manager.router_lines;
  total_lines = total_lines t.manager.router_lines;
  router_details = router_details t.manager.schedulers t.manager.router_lines;
  context_cancelled = t.context_cancelled;
  stopchan_closed = t.closed;
}

-- The routers with an empty list of lines and a scheduler.
unfoldable pub empty_with_scheduler : Map RouterScheduler → Map (List Line) → List String
empty_with_scheduler ss [] = []
empty_with_scheduler ss ((ip, ls) ∷ groups) =
    let rest = empty_with_scheduler ss groups in
    if is_empty ls && exists (lookup ip ss) then ip ∷ rest else rest

pub record CleanupReport : Type 0 where
  pub scheduler_count : ℕ
  pub router_lines_count : ℕ
  pub uncleaned_schedulers : List String
  pub empty_lines_with_scheduler : List String
  pub context_cancelled : Bool
  pub stopchan_closed : Bool
  pub cleanup_complete : Bool

unfoldable pub check_resource_cleanup : Lifetime → CleanupReport
check_resource_cleanup t =
    let uncleaned = scheduler_keys t.manager.schedulers in
    let empty = empty_with_scheduler t.manager.schedulers t.manager.router_lines in
    record {
      scheduler_count = length t.manager.schedulers;
      router_lines_count = length t.manager.router_lines;
      uncleaned_schedulers = uncleaned;
      empty_lines_with_scheduler = empty;
      context_cancelled = t.context_cancelled;
      stopchan_closed = t.closed;
      cleanup_complete = (length uncleaned == 0) && (length empty == 0) && t.closed;
    }
