-- ===== src/Manager/FullSync.antt =====
-- manager/manager.go: fullSync, which takes the lines over from the configuration synchroniser. What
-- `GetLines` answers at each call is an argument: a map by the line's IP, in the order of the `range`
-- loop. Grouping comes before the manager's lock, the rest is under it.
pub mod Grouping
pub mod Schedulers
pub mod Tracking
use zabbix_ddl_monitor.Base.{
  ℕ, zero, suc, Bool, true, false, String, Option, none, some, List, [], ◌∷◌, ◌++◌, if◌then◌else◌,
}
use zabbix_ddl_monitor.Base.Map.{Map, lookup, insert}
use zabbix_ddl_monitor.Syncer.Line.{Router, Line}
use zabbix_ddl_monitor.Manager.Scheduler.{RouterScheduler}
use zabbix_ddl_monitor.Manager.Lines.{Manager, slice, ensure_scheduler}

abbrev pub is_empty : {A : Type 0} → List A → Bool
is_empty [] = true
is_empty (x ∷ xs) = false

abbrev pub max_checks : ℕ
max_checks = 150

-- The waiting loop: `GetLines` once more, every two seconds, until there are lines. `n` is the number
-- of checks left and `i` that of the next call.
unfoldable pub wait_for_lines : ℕ → ℕ → (ℕ → Map Line) → Map Line
wait_for_lines zero i get_lines = []
wait_for_lines (suc n) i get_lines =
    let rest = wait_for_lines n (suc i) get_lines in
    if is_empty (get_lines i) then rest else get_lines i

-- The lines that fullSync goes on with; call 0 is the one before the loop.
unfoldable pub fetched : (ℕ → Map Line) → Map Line
fetched get_lines =
    if is_empty (get_lines 0) then wait_for_lines max_checks 1 get_lines else get_lines 0

-- newRouterLines[line.Router.IP] = append(newRouterLines[line.Router.IP], line)
abbrev pub append_line : Line → Map (List Line) → Map (List Line)
append_line l groups = insert l.router.ip (slice (lookup l.router.ip groups) ++ l ∷ []) groups

unfoldable pub group_by_router : Map Line → Map (List Line) → Map (List Line)
group_by_router [] groups = groups
group_by_router ((ip, l) ∷ ls) groups = group_by_router ls (append_line l groups)

-- The routers whose scheduler has no lines are stopped and taken out of the map.
abbrev pub exists : {A : Type 0} → Option A → Bool
exists none = false
exists (some a) = true

unfoldable pub keep_routed : Map (List Line) → Map RouterScheduler → Map RouterScheduler
keep_routed groups [] = []
keep_routed groups ((ip, s) ∷ ss) =
    let rest = keep_routed groups ss in if exists (lookup ip groups) then (ip, s) ∷ rest else rest

unfoldable pub stopped_by : Map (List Line) → Map RouterScheduler → List String
stopped_by groups [] = []
stopped_by groups ((ip, s) ∷ ss) =
    let rest = stopped_by groups ss in if exists (lookup ip groups) then rest else ip ∷ rest

module _ (can_create : Router → Bool) where
  -- The loop over newRouterLines.
  unfoldable pub ensure_all : Map (List Line) → Manager → Manager
  ensure_all [] m = m
  ensure_all ((ip, ls) ∷ groups) m = ensure_all groups (ensure_scheduler can_create ip ls m)

  abbrev pub take_over : Map (List Line) → Manager → Manager × List String
  take_over groups m =
      let ensured = ensure_all groups (record m { router_lines = groups }) in
      (
        record ensured { schedulers = keep_routed groups ensured.schedulers },
        stopped_by groups ensured.schedulers,
      )

  -- fullSync: the manager, and the routers whose schedulers it has stopped.
  unfoldable pub full_sync : (ℕ → Map Line) → Manager → Manager × List String
  full_sync get_lines m =
      if is_empty (fetched get_lines)
      then (m, [])
      else take_over (group_by_router (fetched get_lines) []) m
