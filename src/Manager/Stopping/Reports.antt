-- ===== src/Manager/Stopping/Reports.antt =====
-- What Stop and the reports of manager/manager.go say of the manager.
use zabbix_ddl_monitor.Base.{
  ℕ, suc, ◌+◌, Bool, true, false, String, List, [], ◌∷◌, ◌++◌, ◌&&◌, ◌==◌, length, length-append,
  ◌≡◌, ◌↔◌, refl, ap, ◌∙◌, arith,
}
use zabbix_ddl_monitor.Base.Map.{Map, lookup, insert}
use zabbix_ddl_monitor.Syncer.Line.{Router, Line}
use zabbix_ddl_monitor.Manager.Scheduler.{RouterScheduler}
use zabbix_ddl_monitor.Manager.Lines.{slice}
use zabbix_ddl_monitor.Manager.FullSync.{is_empty, fetched, group_by_router, append_line, full_sync}
use zabbix_ddl_monitor.Manager.FullSync.Grouping.{router_lines-ensure_all}
use zabbix_ddl_monitor.Manager.Stopping.{
  Lifetime, stop, scheduler_keys, total_lines, empty_with_scheduler, check_resource_cleanup,
  get_simple_stats,
}

total_lines-insert :
    (ip : String) (ls : List Line) (groups : Map (List Line))
    → total_lines (insert ip ls groups) + length (slice (lookup ip groups))
      ≡ total_lines groups + length ls
unfolding total_lines insert lookup
total_lines-insert ip ls [] = omega arith
total_lines-insert ip ls ((other, ks) ∷ groups) = ground (arith, total_lines-insert ip ls groups)

total_lines-append_line :
    (l : Line) (groups : Map (List Line))
    → total_lines (append_line l groups) ≡ suc (total_lines groups)
total_lines-append_line l groups =
    let old = slice (lookup l.router.ip groups) in
    omega (arith, total_lines-insert l.router.ip (old ++ l ∷ []) groups, length-append old (l ∷ []))

total_lines-group_by_router :
    (ls : Map Line) (groups : Map (List Line))
    → total_lines (group_by_router ls groups) ≡ length ls + total_lines groups
unfolding group_by_router
total_lines-group_by_router [] groups = omega arith
total_lines-group_by_router ((ip, l) ∷ ls) groups =
    omega (
      arith,
      total_lines-group_by_router ls (append_line l groups),
      total_lines-append_line l groups,
    )

-- After a full synchronisation with lines the manager counts as many lines as the configuration has.
pub total_lines-full_sync :
    (can_create : Router → Bool) (get_lines : ℕ → Map Line) (t : Lifetime)
    → is_empty (fetched get_lines) ≡ false
    → (get_simple_stats
        (record t { manager = (full_sync can_create get_lines t.manager).0 })).total_lines
      ≡ length (fetched get_lines)
unfolding get_simple_stats full_sync total_lines
total_lines-full_sync can_create get_lines t e = rw e (
    ap total_lines (
      router_lines-ensure_all can_create (group_by_router (fetched get_lines) [])
        (record (t.manager) { router_lines = group_by_router (fetched get_lines) [] }))
    ∙ total_lines-group_by_router (fetched get_lines) []
    ∙ nothing_more)
  where
    nothing_more : length (fetched get_lines) + total_lines [] ≡ length (fetched get_lines)
    nothing_more = omega arith

empty_with_scheduler-none : (groups : Map (List Line)) → empty_with_scheduler [] groups ≡ []
unfolding empty_with_scheduler lookup
empty_with_scheduler-none [] = refl
empty_with_scheduler-none ((ip, ls) ∷ groups) = ground (arith, empty_with_scheduler-none groups)

cleaned :
    (groups : Map (List Line)) (ss : Map RouterScheduler)
    → (((length (scheduler_keys ss) == 0) && (length (empty_with_scheduler ss groups) == 0) && true)
        ≡ true)
      ↔ (ss ≡ [])
unfolding scheduler_keys
cleaned groups [] = (λ e. refl, λ e. rw (empty_with_scheduler-none groups) refl)
cleaned groups ((ip, s) ∷ ss) = (λ e. absurd (ground (arith, e)), λ e. absurd (cc e))

-- The report after Stop calls the cleanup complete exactly if there was no scheduler: Stop stops
-- each scheduler and leaves it in the map.
pub stop_cleans_iff :
    (t : Lifetime)
    → ((check_resource_cleanup (stop t).0).cleanup_complete ≡ true) ↔ (t.manager.schedulers ≡ [])
unfolding check_resource_cleanup stop
stop_cleans_iff t = cleaned t.manager.router_lines t.manager.schedulers
