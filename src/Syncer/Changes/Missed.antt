-- ===== src/Syncer/Changes/Missed.antt =====
-- What the comparison of syncer/syncer.go cannot see, because the hash of syncer/types.go leaves it
-- out.
use zabbix_ddl_monitor.Base.{
  String, Option, none, some, [], ◌∷◌, ◌≡◌, refl, arith, str_eq, eq_iff, eq_refl, Bool-cases, inl,
  inr,
}
use zabbix_ddl_monitor.Base.Map.{Map, lookup, Unique}
use zabbix_ddl_monitor.Syncer.Line.{Line, Router, Hasher, compute_hash}
use zabbix_ddl_monitor.Syncer.Changes.{old_events, new_events, scan_old, scan_new, detect_changes}

-- Two lookups find lines with the same hash, or both find none.
abbrev SameHash : Option Line → Option Line → Type 0
SameHash none none = Unit {0}
SameHash (some l) (some l') = l.hash ≡ l'.hash
SameHash _ _ = ⊥

old_events-quiet : (l : Line) (o : Option Line) → SameHash (some l) o → old_events l o ≡ []
old_events-quiet l none h = absurd h
old_events-quiet l (some l') h = ground arith

new_events-quiet : (l : Line) (o : Option Line) → SameHash o (some l) → new_events l o ≡ []
new_events-quiet l none h = absurd h
new_events-quiet l (some l') h = refl

scan_old-quiet :
    (m new : Map Line)
    → Unique m
    → ((k : String) (l : Line) → lookup k m ≡ some l → SameHash (some l) (lookup k new))
    → scan_old new m ≡ []
unfolding scan_old lookup
scan_old-quiet [] new u same = refl
scan_old-quiet ((k, l) ∷ m) new u same =
    rw (old_events-quiet l (lookup k new) (same k l (rw (eq_refl k))))
      (scan_old-quiet m new u.1 (λ j l' e. same j l' (ground (arith, eq_iff k j, u.0))))

scan_new-quiet :
    (m old : Map Line)
    → Unique m
    → ((k : String) (l : Line) → lookup k m ≡ some l → SameHash (lookup k old) (some l))
    → scan_new old m ≡ []
unfolding scan_new lookup
scan_new-quiet [] old u same = refl
scan_new-quiet ((k, l) ∷ m) old u same =
    rw (new_events-quiet l (lookup k old) (same k l (rw (eq_refl k))))
      (scan_new-quiet m old u.1 (λ j l' e. same j l' (ground (arith, eq_iff k j, u.0))))

-- The same line with another protocol of its router.
abbrev pub with_protocol : String → Line → Line
with_protocol p l = record l { router = record r { protocol = p } }
  where
    r : Router
    r = l.router

hash-with_protocol :
    (h : Hasher) (p : String) (l : Line)
    → (compute_hash h (with_protocol p l)).hash ≡ (compute_hash h l).hash
unfolding compute_hash
hash-with_protocol h p l = refl

-- The configuration with each line's protocol given by its key, and each hash computed.
abbrev pub rehash : Hasher → (String → String) → Map Line → Map Line
rehash h p [] = []
rehash h p ((k, l) ∷ m) = (k, compute_hash h (with_protocol (p k) l)) ∷ rehash h p m

lookup-rehash :
    (h : Hasher) (p q : String → String) (k : String) (m : Map Line)
    → SameHash (lookup k (rehash h p m)) (lookup k (rehash h q m))
unfolding lookup compute_hash
lookup-rehash h p q k [] = tt
lookup-rehash h p q k ((j, l) ∷ m) = elim (Bool-cases (str_eq j k)) [
  | inl e ↦ rw e refl
  | inr e ↦ rw e (lookup-rehash h p q k m)
]

lookup-rehash-none :
    (h : Hasher) (p : String → String) (k : String) (m : Map Line)
    → lookup k m ≡ none
    → lookup k (rehash h p m) ≡ none
unfolding lookup
lookup-rehash-none h p k [] e = e
lookup-rehash-none h p k ((j, l) ∷ m) e = ground (arith, eq_iff j k, lookup-rehash-none h p k m)

rehash-Unique : (h : Hasher) (p : String → String) (m : Map Line) → Unique m → Unique (rehash h p m)
rehash-Unique h p [] u = tt
rehash-Unique h p ((k, l) ∷ m) u = (lookup-rehash-none h p k m u.0, rehash-Unique h p m u.1)

-- A change of nothing but the routers' protocols is never noticed: between two configurations that
-- differ only there `detectChanges` finds no event.
pub protocol_changes_missed :
    (h : Hasher) (p q : String → String) (m : Map Line)
    → Unique m
    → detect_changes (rehash h p m) (rehash h q m) ≡ []
unfolding detect_changes
protocol_changes_missed h p q m u =
    rw
      (scan_old-quiet (rehash h p m) (rehash h q m) (rehash-Unique h p m u)
        (λ k l e. rw e at (lookup-rehash h p q k m)))
      (scan_new-quiet (rehash h q m) (rehash h p m) (rehash-Unique h q m u)
        (λ k l e. rw e at (lookup-rehash h p q k m)))
