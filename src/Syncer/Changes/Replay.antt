-- ===== src/Syncer/Changes/Replay.antt =====
-- What the change events of syncer/syncer.go are worth to a subscriber that applies them.
use zabbix_ddl_monitor.Base.{
  String, Option, none, some, List, [], ◌∷◌, ◌++◌, ◌==◌, ◌≡◌, refl, ◌∙◌, arith, str_eq, eq_iff, not,
  if◌then◌else◌, Bool-cases, inl, inr, ◌⊎◌,
}
use zabbix_ddl_monitor.Base.Map.{Map, lookup, insert, delete, Unique, lookup-insert, lookup-delete}
use zabbix_ddl_monitor.Syncer.Line.{
  Line, LineChangeEvent, ChangeType, line_create, line_update, line_delete,
}
use zabbix_ddl_monitor.Syncer.Changes.{old_events, new_events, scan_old, scan_new, detect_changes}

-- Every line stands under its own IP.
abbrev pub IsKeyed : Map Line → Type 0
IsKeyed [] = Unit {0}
IsKeyed ((k, l) ∷ m) = (l.ip ≡ k) × IsKeyed m

-- A subscriber's copy of the configuration after one event.
abbrev apply_kind : ChangeType → Line → Map Line → Map Line
apply_kind line_delete l m = delete l.ip m
apply_kind line_create l m = insert l.ip l m
apply_kind line_update l m = insert l.ip l m

abbrev pub apply : LineChangeEvent → Map Line → Map Line
apply e m = apply_kind e.kind e.line m

abbrev pub replay : List LineChangeEvent → Map Line → Map Line
replay [] m = m
replay (e ∷ es) m = replay es (apply e m)

replay-append :
    (es fs : List LineChangeEvent) (m : Map Line) → replay (es ++ fs) m ≡ replay fs (replay es m)
replay-append [] fs m = refl
replay-append (e ∷ es) fs m = replay-append es fs (apply e m)

pub IsKeyed-lookup :
    (k : String) (m : Map Line) (l : Line) → IsKeyed m → lookup k m ≡ some l → l.ip ≡ k
unfolding lookup
IsKeyed-lookup k [] l u h = cc
IsKeyed-lookup k ((j, w) ∷ m) l u h = ground (arith, eq_iff j k, IsKeyed-lookup k m l u.1)

-- What the first loop's events make of one key.
abbrev after_old : Option Line → Option Line → Option Line → Option Line
after_old none n mine = mine
after_old (some l) none mine = none
after_old (some l) (some l') mine = if not (l.hash == l'.hash) then some l' else mine

old_event_lookup :
    (k j : String) (l : Line) (n : Option Line) (m : Map Line)
    → l.ip ≡ j
    → ((l' : Line) → n ≡ some l' → l'.ip ≡ j)
    → lookup k (replay (old_events l n) m)
      ≡ (if str_eq j k then after_old (some l) n (lookup k m) else lookup k m)
old_event_lookup k j l none m e f = rw (lookup-delete, e)
old_event_lookup k j l (some l') m e f = elim (Bool-cases (l.hash == l'.hash)) [
  | inl same ↦ rw same (ground (arith, eq_iff j k))
  | inr other ↦ rw other (simp (lookup-insert, f l' refl))
]

scan_old-lookup :
    (k : String) (new old m : Map Line)
    → Unique old
    → IsKeyed old
    → IsKeyed new
    → lookup k (replay (scan_old new old) m) ≡ after_old (lookup k old) (lookup k new) (lookup k m)
unfolding lookup scan_old
scan_old-lookup k new [] m u v w = refl
scan_old-lookup k new ((j, l) ∷ old) m u v w = rw replay-append (
    scan_old-lookup k new old (replay (old_events l (lookup j new)) m) u.1 v.1 w
    ∙ ground (
      arith,
      eq_iff j k,
      u.0,
      old_event_lookup k j l (lookup j new) m v.0 (λ l' h. IsKeyed-lookup j new l' w h),
    ))

abbrev after_new : Option Line → Option Line → Option Line → Option Line
after_new none o mine = mine
after_new (some l) none mine = some l
after_new (some l) (some l') mine = mine

new_event_lookup :
    (k j : String) (l : Line) (o : Option Line) (m : Map Line)
    → l.ip ≡ j
    → lookup k (replay (new_events l o) m)
      ≡ (if str_eq j k then after_new (some l) o (lookup k m) else lookup k m)
new_event_lookup k j l none m e = rw (lookup-insert, e)
new_event_lookup k j l (some l') m e = ground (arith, eq_iff j k)

scan_new-lookup :
    (k : String) (old new m : Map Line)
    → Unique new
    → IsKeyed new
    → lookup k (replay (scan_new old new) m) ≡ after_new (lookup k new) (lookup k old) (lookup k m)
unfolding lookup scan_new
scan_new-lookup k old [] m u v = refl
scan_new-lookup k old ((j, l) ∷ new) m u v = rw replay-append (
    scan_new-lookup k old new (replay (new_events l (lookup j old)) m) u.1 v.1
    ∙ ground (arith, eq_iff j k, u.0, new_event_lookup k j l (lookup j old) m v.0))

-- At this key the events turn the old configuration into the new one, except that an old line stays
-- where the new one has the same hash.
abbrev pub Converges : Map Line → Map Line → List LineChangeEvent → String → Type 0
Converges old new es k =
    (lookup k (replay es old) ≡ lookup k new)
    ⊎ ((l l' : Line) × (lookup k old ≡ some l)
        × (lookup k new ≡ some l')
        × (l.hash ≡ l'.hash)
        × (lookup k (replay es old) ≡ some l))

-- Applying the events of a comparison, in their order, to the old configuration gives the new one:
-- at every key there is the new line, or the old line where the new one has the same hash. Both
-- configurations hold each key once, under the line's IP.
pub replay-detect_changes :
    (old new : Map Line) (k : String)
    → Unique old
    → IsKeyed old
    → Unique new
    → IsKeyed new
    → Converges old new (detect_changes old new) k
unfolding detect_changes
replay-detect_changes old new k uo ko un kn = rw replay-append (
    rw (scan_new-lookup k old new (replay (scan_old new old) old) un kn)
      (rw (scan_old-lookup k new old old uo ko kn) (verdict (lookup k old) (lookup k new))))
  where
    verdict :
        (o n : Option Line)
        → (after_new n o (after_old o n o) ≡ n)
          ⊎ ((l l' : Line) × (o ≡ some l)
              × (n ≡ some l')
              × (l.hash ≡ l'.hash)
              × (after_new n o (after_old o n o) ≡ some l))
    verdict none none = inl refl
    verdict none (some l') = inl refl
    verdict (some l) none = inl refl
    verdict (some l) (some l') = elim (Bool-cases (l.hash == l'.hash)) [
      | inl e ↦ inr (l, l', refl, refl, ground arith, rw e)
      | inr e ↦ inl (rw e)
    ]
