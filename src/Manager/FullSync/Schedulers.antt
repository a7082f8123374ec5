-- ===== src/Manager/FullSync/Schedulers.antt =====
-- The routers' schedulers after fullSync of manager/manager.go.
use zabbix_ddl_monitor.Base.{
  ℕ, Bool, true, false, String, Option, none, some, List, [], ◌∷◌, str_eq, eq_iff, ◌≡◌, ◌↔◌, refl,
  sym, ap, ◌∙◌, inl, inr, arith, if◌then◌else◌, if_cases, if_both, subst, Bool-cases, Among,
}
use zabbix_ddl_monitor.Base.Map.{Map, lookup, Unique, lookup-insert}
use zabbix_ddl_monitor.Syncer.Line.{Router, Line}
use zabbix_ddl_monitor.Manager.Scheduler.{RouterScheduler, new_scheduler}
use zabbix_ddl_monitor.Manager.Lines.{Manager, ensure_scheduler}
use zabbix_ddl_monitor.Manager.FullSync.{
  is_empty, fetched, group_by_router, exists, ensure_all, keep_routed, stopped_by, full_sync,
  take_over,
}
use zabbix_ddl_monitor.Manager.FullSync.Grouping.{
  routed, grouped, lookup-group_by_router, exists-group_by_router, group_by_router-Unique,
}

lookup-keep_routed :
    (r : String) (groups : Map (List Line)) (ss : Map RouterScheduler)
    → lookup r (keep_routed groups ss) ≡ (if exists (lookup r groups) then lookup r ss else none)
unfolding lookup keep_routed
lookup-keep_routed r groups [] = ground arith
lookup-keep_routed r groups ((ip, s) ∷ ss) =
    ground (arith, eq_iff ip r, lookup-keep_routed r groups ss)

stopped_by_in :
    (r : String) (groups : Map (List Line)) (ss : Map RouterScheduler)
    → Among r (stopped_by groups ss)
    → (exists (lookup r groups) ≡ false) × (exists (lookup r ss) ≡ true)
unfolding stopped_by lookup
stopped_by_in r groups [] a = absurd a
stopped_by_in r groups ((ip, s) ∷ ss) a =
    if_cases
      (λ ips.
        Among r ips
        → (exists (lookup r groups) ≡ false)
          × (exists (if str_eq ip r then some s else lookup r ss) ≡ true))
      (exists (lookup ip groups)) (stopped_by groups ss) (ip ∷ stopped_by groups ss)
      (λ e b. let p = stopped_by_in r groups ss b in (p.0, ground arith))
      (λ e b. elim b [
        | inl q ↦ (subst (λ k. exists (lookup k groups) ≡ false) q e, ground (arith, eq_iff ip r))
        | inr c ↦ let p = stopped_by_in r groups ss c in (p.0, ground arith)
      ])
      a

stopped_by_out :
    (r : String) (groups : Map (List Line)) (ss : Map RouterScheduler)
    → exists (lookup r groups) ≡ false
    → exists (lookup r ss) ≡ true
    → Among r (stopped_by groups ss)
unfolding stopped_by lookup
stopped_by_out r groups [] g h = absurd (cc h)
stopped_by_out r groups ((ip, s) ∷ ss) g h = elim (Bool-cases (str_eq ip r)) [
  | inl e ↦
      rw (subst (λ k. exists (lookup k groups) ≡ false) (sym ((eq_iff ip r).0 e)) g)
        (inl ((eq_iff ip r).0 e))
  | inr e ↦
      let rest = stopped_by_out r groups ss g (ground arith) in
      if_both (Among r) (exists (lookup ip groups)) (stopped_by groups ss)
        (ip ∷ stopped_by groups ss) rest (inr rest)
]

-- The scheduler of a router with these lines: the one there is, as it is, or a new one with the
-- lines if one can be created for the first line's router; none without lines.
abbrev pub scheduler_for :
    (Router → Bool) → List Line → Option RouterScheduler → Option RouterScheduler
scheduler_for can_create [] o = none
scheduler_for can_create (l ∷ ls) (some s) = some s
scheduler_for can_create (l ∷ ls) none =
    if can_create l.router then some (new_scheduler (l ∷ ls)) else none

module _ (can_create : Router → Bool) where
  -- The scheduler of a router with these lines: the one there is, as it is, or a new one with the
  -- lines if one can be created for the first line's router.
  abbrev pub ensured : Option (List Line) → Option RouterScheduler → Option RouterScheduler
  ensured none o = o
  ensured (some []) o = o
  ensured (some (l ∷ ls)) (some s) = some s
  ensured (some (l ∷ ls)) none = if can_create l.router then some (new_scheduler (l ∷ ls)) else none

  lookup-ensure_scheduler :
      (r ip : String) (ls : List Line) (m : Manager)
      → lookup r (ensure_scheduler can_create ip ls m).schedulers
        ≡ (if str_eq ip r then ensured (some ls) (lookup r m.schedulers) else lookup r m.schedulers)
  unfolding ensure_scheduler
  lookup-ensure_scheduler r ip [] m = ground arith
  lookup-ensure_scheduler r ip (l ∷ ls) m =
      ground (arith, eq_iff ip r, lookup-insert ip r (new_scheduler (l ∷ ls)) m.schedulers)

  lookup-ensure_all :
      (r : String) (groups : Map (List Line)) (m : Manager)
      → Unique groups
      → lookup r (ensure_all can_create groups m).schedulers
        ≡ ensured (lookup r groups) (lookup r m.schedulers)
  unfolding ensure_all lookup
  lookup-ensure_all r [] m u = refl
  lookup-ensure_all r ((ip, ls) ∷ groups) m u =
      lookup-ensure_all r groups (ensure_scheduler can_create ip ls m) u.1
      ∙ rw (lookup-ensure_scheduler r ip ls m) ground (arith, eq_iff ip r, u.0)

  routed_scheduler :
      (ls : List Line) (o : Option RouterScheduler)
      → (if exists (grouped none ls) then ensured (grouped none ls) o else none)
        ≡ scheduler_for can_create ls o
  routed_scheduler [] o = refl
  routed_scheduler (l ∷ ls) none = refl
  routed_scheduler (l ∷ ls) (some s) = refl

  taken_over :
      (r : String) (ls : Map Line) (m : Manager)
      → lookup r (take_over can_create (group_by_router ls []) m).0.schedulers
        ≡ scheduler_for can_create (routed r ls) (lookup r m.schedulers)
  taken_over r ls m =
      let groups = group_by_router ls [] in
      lookup-keep_routed r groups
        (ensure_all can_create groups (record m { router_lines = groups })).schedulers
      ∙ rw
          (lookup-ensure_all r groups (record m { router_lines = groups })
            (group_by_router-Unique ls [] tt))
          (rw (lookup-group_by_router r ls [])
            (unfold lookup in routed_scheduler (routed r ls) (lookup r m.schedulers)))

  -- After a full synchronisation with lines a router has a scheduler only if it has lines: the one
  -- it had, not told of its lines, or a new one with them where one can be created. Where GetLines
  -- keeps answering with no lines, all schedulers stay as they were.
  pub schedulers-full_sync :
      (r : String) (get_lines : ℕ → Map Line) (m : Manager)
      → lookup r (full_sync can_create get_lines m).0.schedulers ≡ (
          if is_empty (fetched get_lines)
          then lookup r m.schedulers
          else scheduler_for can_create (routed r (fetched get_lines)) (lookup r m.schedulers))
  unfolding full_sync
  schedulers-full_sync r get_lines m =
      if_cases
        (λ t. lookup r t.0.schedulers ≡ (
          if is_empty (fetched get_lines)
          then lookup r m.schedulers
          else scheduler_for can_create (routed r (fetched get_lines)) (lookup r m.schedulers)))
        (is_empty (fetched get_lines)) (m, [])
        (take_over can_create (group_by_router (fetched get_lines) []) m) (λ e. rw e refl)
        (λ e. rw e (taken_over r (fetched get_lines) m))

  ensured_before :
      (r : String) (o : Option (List Line)) (s : Option RouterScheduler)
      → exists o ≡ false
      → exists (ensured o s) ≡ exists s
  ensured_before r none s e = refl
  ensured_before r (some ls) s e = absurd (cc e)

  had_one :
      (r : String) (ls : Map Line) (m : Manager)
      → exists (lookup r (group_by_router ls [])) ≡ false
      → exists (lookup r (ensure_all can_create (group_by_router ls []) m).schedulers)
        ≡ exists (lookup r m.schedulers)
  had_one r ls m e =
      ap exists (lookup-ensure_all r (group_by_router ls []) m (group_by_router-Unique ls [] tt))
      ∙ ensured_before r (lookup r (group_by_router ls [])) (lookup r m.schedulers) e

  stops_taken :
      (r : String) (ls : Map Line) (m : Manager)
      → Among r (take_over can_create (group_by_router ls []) m).1
        ↔ ((is_empty (routed r ls) ≡ true) × (exists (lookup r m.schedulers) ≡ true))
  stops_taken r ls m =
      let groups = group_by_router ls [] in
      let before = record m { router_lines = groups } in
      let schedulers = (ensure_all can_create groups before).schedulers in
      (
        λ a.
            let found = stopped_by_in r groups schedulers a in
            (
              ground (arith, found.0, exists-group_by_router r ls),
              sym (had_one r ls before found.0) ∙ found.1,
            ),
        λ p.
            let none_there : exists (lookup r groups) ≡ false =
              ground (arith, exists-group_by_router r ls) in
            stopped_by_out r groups schedulers none_there (had_one r ls before none_there ∙ p.1),
      )

  -- A full synchronisation stops exactly the schedulers of the routers without lines, and none where
  -- GetLines keeps answering with no lines.
  pub full_sync_stops :
      (r : String) (get_lines : ℕ → Map Line) (m : Manager)
      → Among r (full_sync can_create get_lines m).1 ↔ (
          (is_empty (fetched get_lines) ≡ false)
          × (is_empty (routed r (fetched get_lines)) ≡ true)
          × (exists (lookup r m.schedulers) ≡ true))
  unfolding full_sync
  full_sync_stops r get_lines m =
      if_cases
        (λ t. Among r t.1 ↔ (
          (is_empty (fetched get_lines) ≡ false)
          × (is_empty (routed r (fetched get_lines)) ≡ true)
          × (exists (lookup r m.schedulers) ≡ true)))
        (is_empty (fetched get_lines)) (m, [])
        (take_over can_create (group_by_router (fetched get_lines) []) m)
        (λ e. (λ a. absurd a, λ p. absurd (cc (e, p.0))))
        (λ e.
          let both = stops_taken r (fetched get_lines) m in
          (λ a. (e, (both.0 a).0, (both.0 a).1), λ p. both.1 (p.1, p.2)))
