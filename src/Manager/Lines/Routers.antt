-- ===== src/Manager/Lines/Routers.antt =====
-- What the events do to the lines of each router in manager/manager.go.
use zabbix_ddl_monitor.Base.{
  ◌≤◌, Bool, String, Option, none, some, List, [], ◌∷◌, ◌++◌, str_eq, eq_iff, ◌≡◌, refl, ap, ◌∙◌,
  arith, inl, inr, Option-cases, if◌then◌else◌, if_both,
}
use zabbix_ddl_monitor.Base.Map.{lookup, insert, lookup-insert}
use zabbix_ddl_monitor.Syncer.Line.{
  Router, Line, LineChangeEvent, ChangeType, line_create, line_update, line_delete,
}
use zabbix_ddl_monitor.Manager.Queue.{contains_ip, remove_first, update_first}
use zabbix_ddl_monitor.Manager.Queue.Laws.{
  count_ip, count_ip-append, count_ip-remove_first, contains_ip-count, count_ip-update_first,
}
use zabbix_ddl_monitor.Manager.Scheduler.{
  RouterScheduler, on_line_created, on_line_updated, on_line_deleted,
}
use zabbix_ddl_monitor.Manager.Lines.{
  Manager, slice, listed, tell_scheduler, find_line, ensure_scheduler, create_line, update_line,
  delete_line, plan_removal, take_out, process_kind, process_line_event, process_all,
}

-- What an event makes of one router's list.
abbrev pub edit : ChangeType → Line → List Line → List Line
edit line_create l ls = if contains_ip l.ip ls then ls else ls ++ l ∷ []
edit line_update l ls = update_first l.ip l ls
edit line_delete l ls = remove_first l.ip ls

-- What the events for the router `ip` make of its list, the others being passed over.
abbrev pub edit_all : String → List LineChangeEvent → List Line → List Line
edit_all ip [] ls = ls
edit_all ip (e ∷ es) ls =
    edit_all ip es (if str_eq e.line.router.ip ip then edit e.kind e.line ls else ls)

router_lines-tell_scheduler :
    (f : RouterScheduler → RouterScheduler) (ip : String) (m : Manager)
    → (tell_scheduler f ip m).router_lines ≡ m.router_lines
unfolding tell_scheduler
router_lines-tell_scheduler f ip m = ground arith

update_first-absent :
    (ip : String) (l : Line) (ls : List Line) → find_line ip ls ≡ none → update_first ip l ls ≡ ls
unfolding find_line update_first
update_first-absent ip l [] h = refl
update_first-absent ip l (k ∷ ls) h = ground (arith, update_first-absent ip l ls)

edit_once :
    (ip : String) (k : ChangeType) (l : Line) (ls : List Line)
    → count_ip ip ls ≤ 1
    → count_ip ip (edit k l ls) ≤ 1
edit_once ip line_create l ls h =
    ground (arith, eq_iff l.ip ip, contains_ip-count l.ip ls, count_ip-append ip ls (l ∷ []))
edit_once ip line_update l ls h = ground (arith, count_ip-update_first l.ip ip l ls refl)
edit_once ip line_delete l ls h = ground (arith, count_ip-remove_first l.ip ip ls)

edit_all_once :
    (r ip : String) (es : List LineChangeEvent) (ls : List Line)
    → ((jp : String) → count_ip jp ls ≤ 1)
    → count_ip ip (edit_all r es ls) ≤ 1
edit_all_once r ip [] ls h = h ip
edit_all_once r ip (e ∷ es) ls h =
    edit_all_once r ip es (if str_eq e.line.router.ip r then edit e.kind e.line ls else ls) (λ jp.
      if_both (λ ms. count_ip jp ms ≤ 1) (str_eq e.line.router.ip r) (edit e.kind e.line ls) ls
        (edit_once jp e.kind e.line ls (h jp)) (h jp))

module _ (can_create : Router → Bool) where
  pub router_lines-ensure_scheduler :
      (ip : String) (ls : List Line) (m : Manager)
      → (ensure_scheduler can_create ip ls m).router_lines ≡ m.router_lines
  unfolding ensure_scheduler
  router_lines-ensure_scheduler ip [] m = refl
  router_lines-ensure_scheduler ip (l ∷ ls) m = ground arith

  listed-create_line :
      (r : String) (l : Line) (m : Manager)
      → listed r (create_line can_create l m)
        ≡ (if str_eq l.router.ip r then edit line_create l (listed r m) else listed r m)
  unfolding create_line
  listed-create_line r l m = ground (
    arith,
    eq_iff l.router.ip r,
    router_lines-tell_scheduler (on_line_created l) l.router.ip (
        ensure_scheduler can_create l.router.ip (listed l.router.ip m ++ l ∷ []) (record m {
          router_lines = insert l.router.ip (listed l.router.ip m ++ l ∷ []) m.router_lines;
        })),
    router_lines-ensure_scheduler l.router.ip (listed l.router.ip m ++ l ∷ []) (record m {
      router_lines = insert l.router.ip (listed l.router.ip m ++ l ∷ []) m.router_lines;
    }),
    lookup-insert l.router.ip r (listed l.router.ip m ++ l ∷ []) m.router_lines,
  )

  listed-update_line :
      (r : String) (l : Line) (m : Manager)
      → listed r (update_line can_create l m)
        ≡ (if str_eq l.router.ip r then edit line_update l (listed r m) else listed r m)
  unfolding update_line
  listed-update_line r l m = elim (Option-cases (find_line l.ip (listed l.router.ip m))) [
    | inl n ↦
        ground (arith, eq_iff l.router.ip r, update_first-absent l.ip l (listed l.router.ip m))
    | inr (old, n) ↦ ground (
      arith,
      eq_iff l.router.ip r,
      router_lines-tell_scheduler (on_line_updated old l) l.router.ip (record m {
        router_lines =
            insert l.router.ip (update_first l.ip l (listed l.router.ip m)) m.router_lines;
      }),
      lookup-insert l.router.ip r (update_first l.ip l (listed l.router.ip m)) m.router_lines,
    )
  ]

  router_lines-plan_removal :
      (ip : String) (ls : List Line) (o : Option RouterScheduler) (m : Manager)
      → (plan_removal can_create ip ls o m).router_lines ≡ m.router_lines
  router_lines-plan_removal ip [] (some s) m = refl
  router_lines-plan_removal ip [] none m = refl
  router_lines-plan_removal ip (l ∷ ls) o m = refl

  listed-take_out :
      (r : String) (l : Line) (o : Option (List Line)) (m : Manager)
      → lookup l.router.ip m.router_lines ≡ o
      → listed r (take_out can_create l o m)
        ≡ (if str_eq l.router.ip r then edit line_delete l (listed r m) else listed r m)
  unfolding remove_first
  listed-take_out r l none m h = ground (arith, eq_iff l.router.ip r)
  listed-take_out r l (some ls) m h = ground (
    arith,
    eq_iff l.router.ip r,
    lookup-insert l.router.ip r (remove_first l.ip ls) m.router_lines,
  )

  listed-delete_line :
      (r : String) (l : Line) (m : Manager)
      → listed r (delete_line can_create l m)
        ≡ (if str_eq l.router.ip r then edit line_delete l (listed r m) else listed r m)
  unfolding delete_line
  listed-delete_line r l m =
      let taken : Manager = take_out can_create l (lookup l.router.ip m.router_lines) m in
      let told : Manager = tell_scheduler (on_line_deleted l) l.router.ip taken in
      ap (λ t. slice (lookup r t))
        (router_lines-plan_removal l.router.ip (listed l.router.ip told)
            (lookup l.router.ip told.schedulers) told
          ∙ router_lines-tell_scheduler (on_line_deleted l) l.router.ip taken)
      ∙ listed-take_out r l (lookup l.router.ip m.router_lines) m refl

  listed-process_line_event :
      (r : String) (e : LineChangeEvent) (m : Manager)
      → listed r (process_line_event can_create e m)
        ≡ (if str_eq e.line.router.ip r then edit e.kind e.line (listed r m) else listed r m)
  unfolding process_line_event
  listed-process_line_event r e m = by_kind e.kind
    where
      by_kind :
          (k : ChangeType)
          → listed r (process_kind can_create k e.line m)
            ≡ (if str_eq e.line.router.ip r then edit k e.line (listed r m) else listed r m)
      by_kind line_create = listed-create_line r e.line m
      by_kind line_update = listed-update_line r e.line m
      by_kind line_delete = listed-delete_line r e.line m

  -- After any events, each router's list of lines is what the events for this router make of it, in
  -- their order: a create adds a line whose IP is not listed, an update replaces the line with the
  -- IP, a delete takes it out; an event for another router changes nothing, so an update that moves
  -- a line to another router neither adds it there nor takes it out here.
  pub listed-process_all :
      (r : String) (es : List LineChangeEvent) (m : Manager)
      → listed r (process_all can_create es m) ≡ edit_all r es (listed r m)
  unfolding process_all
  listed-process_all r [] m = refl
  listed-process_all r (e ∷ es) m =
      listed-process_all r es (process_line_event can_create e m)
      ∙ ap (edit_all r es) (listed-process_line_event r e m)

  -- No event lists an IP twice under one router: if each IP is listed at most once for the router at
  -- the start, so it is after any events.
  pub listed_once :
      (r ip : String) (es : List LineChangeEvent) (m : Manager)
      → ((jp : String) → count_ip jp (listed r m) ≤ 1)
      → count_ip ip (listed r (process_all can_create es m)) ≤ 1
  listed_once r ip es m h = rw (listed-process_all r es m) (edit_all_once r ip es (listed r m) h)
