-- ===== src/Manager/FullSync/Tracking.antt =====
-- fullSync of manager/manager.go and then the events of the next comparison of syncer/syncer.go.
use zabbix_ddl_monitor.Base.{
  ℕ, Bool, false, String, Option, none, some, List, [], ◌∷◌, ◌++◌, str_eq, eq_iff, eq_refl, ◌≡◌,
  refl, ap, ◌∙◌, inl, inr, arith, append_nil, if◌then◌else◌, Bool-cases, ◌==◌,
}
use zabbix_ddl_monitor.Base.Map.{Map, lookup, Unique}
use zabbix_ddl_monitor.Syncer.Line.{
  Router, Line, LineChangeEvent, ChangeType, line_create, line_update, line_delete,
}
use zabbix_ddl_monitor.Syncer.Changes.{old_events, new_events, scan_old, scan_new, detect_changes}
use zabbix_ddl_monitor.Syncer.Changes.Replay.{IsKeyed, IsKeyed-lookup}
use zabbix_ddl_monitor.Manager.Queue.{contains_ip, remove_first, update_first}
use zabbix_ddl_monitor.Manager.Lines.{Manager, listed, process_all}
use zabbix_ddl_monitor.Manager.Lines.Routers.{edit, edit_all, listed-process_all}
use zabbix_ddl_monitor.Manager.FullSync.{is_empty, fetched, full_sync}
use zabbix_ddl_monitor.Manager.FullSync.Grouping.{routed, listed-full_sync}

-- The lines and the events with this line IP.
abbrev pub lines_with : String → List Line → List Line
lines_with k [] = []
lines_with k (l ∷ ls) = if str_eq l.ip k then l ∷ lines_with k ls else lines_with k ls

abbrev events_with : String → List LineChangeEvent → List LineChangeEvent
events_with k [] = []
events_with k (e ∷ es) = if str_eq e.line.ip k then e ∷ events_with k es else events_with k es

lines_with-append :
    (k : String) (xs ys : List Line) → lines_with k (xs ++ ys) ≡ lines_with k xs ++ lines_with k ys
lines_with-append k [] ys = refl
lines_with-append k (x ∷ xs) ys = ground (arith, lines_with-append k xs ys)

events_with-append :
    (k : String) (xs ys : List LineChangeEvent)
    → events_with k (xs ++ ys) ≡ events_with k xs ++ events_with k ys
events_with-append k [] ys = refl
events_with-append k (x ∷ xs) ys = ground (arith, events_with-append k xs ys)

contains_ip-lines_with :
    (k : String) (ls : List Line) → contains_ip k (lines_with k ls) ≡ contains_ip k ls
unfolding contains_ip
contains_ip-lines_with k [] = refl
contains_ip-lines_with k (l ∷ ls) = ground (arith, contains_ip-lines_with k ls)

lines_with-remove_first :
    (k ip : String) (ls : List Line)
    → lines_with k (remove_first ip ls)
      ≡ (if str_eq ip k then remove_first ip (lines_with k ls) else lines_with k ls)
unfolding remove_first
lines_with-remove_first k ip [] = ground arith
lines_with-remove_first k ip (l ∷ ls) =
    ground (arith, eq_iff l.ip k, eq_iff l.ip ip, eq_iff ip k, lines_with-remove_first k ip ls)

lines_with-update_first :
    (k ip : String) (new : Line) (ls : List Line)
    → new.ip ≡ ip
    → lines_with k (update_first ip new ls)
      ≡ (if str_eq ip k then update_first ip new (lines_with k ls) else lines_with k ls)
unfolding update_first
lines_with-update_first k ip new [] e = ground arith
lines_with-update_first k ip new (l ∷ ls) e = ground (
  arith,
  eq_iff l.ip k,
  eq_iff l.ip ip,
  eq_iff ip k,
  eq_iff new.ip k,
  lines_with-update_first k ip new ls e,
)

lines_with-edit :
    (k : String) (kind : ChangeType) (l : Line) (ls : List Line)
    → lines_with k (edit kind l ls)
      ≡ (if str_eq l.ip k then edit kind l (lines_with k ls) else lines_with k ls)
lines_with-edit k line_create l ls = ground (
  arith,
  eq_iff l.ip k,
  lines_with-append k ls (l ∷ []),
  contains_ip-lines_with k ls,
  append_nil (lines_with k ls),
)
lines_with-edit k line_update l ls = lines_with-update_first k l.ip l ls refl
lines_with-edit k line_delete l ls = lines_with-remove_first k l.ip ls

lines_with-edit_all :
    (k r : String) (es : List LineChangeEvent) (ls : List Line)
    → lines_with k (edit_all r es ls) ≡ edit_all r (events_with k es) (lines_with k ls)
lines_with-edit_all k r [] ls = refl
lines_with-edit_all k r (e ∷ es) ls =
    lines_with-edit_all k r es (if str_eq e.line.router.ip r then edit e.kind e.line ls else ls)
    ∙ ground (arith, lines_with-edit k e.kind e.line ls)

abbrev old_at : Option Line → Option Line → List LineChangeEvent
old_at none n = []
old_at (some l) n = old_events l n

abbrev new_at : Option Line → Option Line → List LineChangeEvent
new_at none o = []
new_at (some l) o = new_events l o

old_events_with :
    (k j : String) (l : Line) (n : Option Line)
    → l.ip ≡ j
    → ((l' : Line) → n ≡ some l' → l'.ip ≡ j)
    → events_with k (old_events l n) ≡ (if str_eq j k then old_events l n else [])
old_events_with k j l none e f = ground arith
old_events_with k j l (some l') e f = ground (arith, f l' refl)

scan_old-at :
    (k : String) (new old : Map Line)
    → Unique old
    → IsKeyed old
    → IsKeyed new
    → events_with k (scan_old new old) ≡ old_at (lookup k old) (lookup k new)
unfolding lookup scan_old
scan_old-at k new [] u v w = refl
scan_old-at k new ((j, l) ∷ old) u v w =
    events_with-append k (old_events l (lookup j new)) (scan_old new old)
    ∙ ground (
      arith,
      eq_iff j k,
      u.0,
      append_nil (old_events l (lookup j new)),
      scan_old-at k new old u.1 v.1 w,
      old_events_with k j l (lookup j new) v.0 (λ l' h. IsKeyed-lookup j new l' w h),
    )

new_events_with :
    (k j : String) (l : Line) (o : Option Line)
    → l.ip ≡ j
    → events_with k (new_events l o) ≡ (if str_eq j k then new_events l o else [])
new_events_with k j l none e = ground arith
new_events_with k j l (some l') e = ground arith

scan_new-at :
    (k : String) (old new : Map Line)
    → Unique new
    → IsKeyed new
    → events_with k (scan_new old new) ≡ new_at (lookup k new) (lookup k old)
unfolding lookup scan_new
scan_new-at k old [] u v = refl
scan_new-at k old ((j, l) ∷ new) u v =
    events_with-append k (new_events l (lookup j old)) (scan_new old new)
    ∙ ground (
      arith,
      eq_iff j k,
      u.0,
      append_nil (new_events l (lookup j old)),
      scan_new-at k old new u.1 v.1,
      new_events_with k j l (lookup j old) v.0,
    )

-- The line, if it is of this router.
abbrev pub on : String → Option Line → List Line
on r none = []
on r (some l) = if str_eq l.router.ip r then l ∷ [] else []

lines_with-routed :
    (k r : String) (ls : Map Line)
    → Unique ls
    → IsKeyed ls
    → lines_with k (routed r ls) ≡ on r (lookup k ls)
unfolding lookup
lines_with-routed k r [] u v = refl
lines_with-routed k r ((j, l) ∷ ls) u v =
    ground (arith, eq_iff j k, eq_iff l.ip k, v.0, u.0, lines_with-routed k r ls u.1 v.1)

-- What stays listed for a line of the old and of the new configuration: a line whose hash has not
-- changed, or that has moved to another router, stays the old one.
abbrev pub followed : Option Line → Option Line → Option Line
followed none n = n
followed (some l) none = none
followed (some l) (some l') =
    if l.hash == l'.hash
    then some l
    else if str_eq l.router.ip l'.router.ip
    then some l'
    else some l

follows :
    (k r : String) (o n : Option Line)
    → ((l : Line) → o ≡ some l → l.ip ≡ k)
    → ((l : Line) → n ≡ some l → l.ip ≡ k)
    → edit_all r (old_at o n ++ new_at n o) (on r o) ≡ on r (followed o n)
unfolding contains_ip remove_first update_first
follows k r none none a b = refl
follows k r none (some l') a b = ground arith
follows k r (some l) none a b = ground (arith, eq_refl l.ip)
follows k r (some l) (some l') a b = elim (Bool-cases (l.hash == l'.hash)) [
  | inl e ↦ rw e refl
  | inr e ↦ rw e (
      ground (
        arith,
        eq_iff l.router.ip r,
        eq_iff l'.router.ip r,
        eq_iff l.router.ip l'.router.ip,
        eq_refl l'.ip,
        a l refl,
        b l' refl,
      ))
]

edit_all-detect_changes :
    (k r : String) (old new : Map Line)
    → Unique old
    → IsKeyed old
    → Unique new
    → IsKeyed new
    → lines_with k (edit_all r (detect_changes old new) (routed r old))
      ≡ on r (followed (lookup k old) (lookup k new))
unfolding detect_changes
edit_all-detect_changes k r old new uo ko un kn =
    lines_with-edit_all k r (scan_old new old ++ scan_new old new) (routed r old)
    ∙ rw (events_with-append k (scan_old new old) (scan_new old new)) (
        rw (scan_old-at k new old uo ko kn) (
          rw (scan_new-at k old new un kn) (
            rw (lines_with-routed k r old uo ko) (
              follows k r (lookup k old) (lookup k new) (λ l h. IsKeyed-lookup k old l ko h)
                (λ l h. IsKeyed-lookup k new l kn h)))))

-- A full synchronisation with a configuration, and then the events of its comparison with the next
-- one: for each IP and each router, what is listed is the next configuration's line, if it is of
-- this router; but a line with the same hash, or one that has moved to another router, stays listed
-- as it was, for its old router. Both configurations hold each line once, under its IP.
pub full_sync_tracks :
    (can_create : Router → Bool) (k r : String) (get_lines : ℕ → Map Line) (new : Map Line)
    (m : Manager)
    → is_empty (fetched get_lines) ≡ false
    → Unique (fetched get_lines)
    → IsKeyed (fetched get_lines)
    → Unique new
    → IsKeyed new
    → lines_with k (
        listed r (
          process_all can_create
            (detect_changes (fetched get_lines) new)
            (full_sync can_create get_lines m).0))
      ≡ on r (followed (lookup k (fetched get_lines)) (lookup k new))
full_sync_tracks can_create k r get_lines new m e uo ko un kn =
    ap (lines_with k) (
      listed-process_all can_create r (detect_changes (fetched get_lines) new)
        (full_sync can_create get_lines m).0
      ∙ ap (edit_all r (detect_changes (fetched get_lines) new))
          (listed-full_sync can_create r get_lines m ∙ rw e refl))
    ∙ edit_all-detect_changes k r (fetched get_lines) new uo ko un kn
