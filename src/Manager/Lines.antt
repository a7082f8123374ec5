-- ===== src/Manager/Lines.antt =====
-- manager/manager.go: the lines by router, the routers' schedulers, and the events that change them.
-- processLineEvent holds the manager's lock. Starting a scheduler runs in a goroutine of its own.
pub mod Routers
use zabbix_ddl_monitor.Base.{
  ℕ, Bool, true, false, String, Option, none, some, List, [], ◌∷◌, ◌++◌, str_eq, if◌then◌else◌,
}
use zabbix_ddl_monitor.Base.Map.{Map, lookup, insert, delete}
use zabbix_ddl_monitor.Syncer.Line.{
  Router, Line, LineChangeEvent, ChangeType, line_create, line_update, line_delete,
}
use zabbix_ddl_monitor.Manager.Queue.{contains_ip, remove_first, update_first}
use zabbix_ddl_monitor.Manager.Scheduler.{
  RouterScheduler, new_scheduler, on_line_created, on_line_updated, on_line_deleted,
}

-- `removals` has the routers whose empty scheduler is due to be deleted in ten minutes.
pub record Manager : Type 0 where
  pub router_lines : Map (List Line)
  pub schedulers : Map RouterScheduler
  pub removals : List String

abbrev pub slice : Option (List Line) → List Line
slice none = []
slice (some ls) = ls

-- m.routerLines[ip], where a missing key reads as an empty slice.
abbrev pub listed : String → Manager → List Line
listed ip m = slice (lookup ip m.router_lines)

abbrev tell :
    (RouterScheduler → RouterScheduler) → String → Option RouterScheduler → Manager → Manager
tell f ip none m = m
tell f ip (some s) m = record m { schedulers = insert ip (f s) m.schedulers }

-- A handler of the router's scheduler, if there is one.
unfoldable pub tell_scheduler : (RouterScheduler → RouterScheduler) → String → Manager → Manager
tell_scheduler f ip m = tell f ip (lookup ip m.schedulers) m

-- The first line with the IP.
unfoldable pub find_line : String → List Line → Option Line
find_line ip [] = none
find_line ip (l ∷ ls) = if str_eq l.ip ip then some l else find_line ip ls

-- `can_create` says whether NewRouterScheduler can build a configuration and a pool for the router.
module _ (can_create : Router → Bool) where
  abbrev ensure : String → List Line → Option RouterScheduler → Manager → Manager
  ensure ip [] o m = m
  ensure ip ls (some s) m = m
  ensure ip (l ∷ ls) none m =
      if can_create l.router
      then record m { schedulers = insert ip (new_scheduler (l ∷ ls)) m.schedulers }
      else m

  -- ensureScheduler; it is only called with at least one line.
  unfoldable pub ensure_scheduler : String → List Line → Manager → Manager
  ensure_scheduler ip ls m = ensure ip ls (lookup ip m.schedulers) m

  -- The three cases of processLineEvent.
  unfoldable pub create_line : Line → Manager → Manager
  create_line l m =
      if contains_ip l.ip (listed l.router.ip m)
      then m
      else tell_scheduler (on_line_created l) l.router.ip (
          ensure_scheduler l.router.ip (listed l.router.ip m ++ l ∷ []) (record m {
            router_lines = insert l.router.ip (listed l.router.ip m ++ l ∷ []) m.router_lines;
          }))

  abbrev update_from : Line → Option Line → Manager → Manager
  update_from l none m = m
  update_from l (some old) m = tell_scheduler (on_line_updated old l) l.router.ip (record m {
    router_lines = insert l.router.ip (update_first l.ip l (listed l.router.ip m)) m.router_lines;
  })

  unfoldable pub update_line : Line → Manager → Manager
  update_line l m = update_from l (find_line l.ip (listed l.router.ip m)) m

  abbrev take_out : Line → Option (List Line) → Manager → Manager
  take_out l none m = m
  take_out l (some ls) m = record m {
    router_lines = insert l.router.ip (remove_first l.ip ls) m.router_lines;
  }

  abbrev plan_removal : String → List Line → Option RouterScheduler → Manager → Manager
  plan_removal ip [] (some s) m = record m { removals = ip ∷ m.removals }
  plan_removal ip _ _ m = m

  unfoldable pub delete_line : Line → Manager → Manager
  delete_line l m =
      let taken = take_out l (lookup l.router.ip m.router_lines) m in
      let told = tell_scheduler (on_line_deleted l) l.router.ip taken in
      plan_removal l.router.ip (listed l.router.ip told) (lookup l.router.ip told.schedulers) told

  -- processLineEvent
  abbrev process_kind : ChangeType → Line → Manager → Manager
  process_kind line_create l m = create_line l m
  process_kind line_update l m = update_line l m
  process_kind line_delete l m = delete_line l m

  unfoldable pub process_line_event : LineChangeEvent → Manager → Manager
  process_line_event e m = process_kind e.kind e.line m

  unfoldable pub process_all : List LineChangeEvent → Manager → Manager
  process_all [] m = m
  process_all (e ∷ es) m = process_all es (process_line_event e m)

abbrev remove_from : String → List Line → Manager → Manager
remove_from ip [] m = record m {
  router_lines = delete ip m.router_lines;
  schedulers = delete ip m.schedulers;
}
remove_from ip (l ∷ ls) m = m

-- The delayed deletion of a scheduler, when its timer expires.
unfoldable pub remove_idle : String → Manager → Manager
remove_idle ip m = remove_from ip (listed ip m) m
