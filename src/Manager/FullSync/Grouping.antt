-- ===== src/Manager/FullSync/Grouping.antt =====
-- The lines of each router after fullSync of manager/manager.go.
use zabbix_ddl_monitor.Base.{
  ℕ, zero, suc, ◌+◌, ◌≤◌, ◌<◌, not, Bool, true, false, String, Option, none, some, List, [], ◌∷◌,
  ◌++◌, str_eq, eq_iff, ◌≡◌, refl, ap, ◌∙◌, inl, inr, arith, append_assoc, if◌then◌else◌,
  Bool-cases, if_cases, ◌==◌, ==_iff,
}
use zabbix_ddl_monitor.Base.Map.{Map, lookup, Unique, lookup-insert, insert-Unique}
use zabbix_ddl_monitor.Syncer.Line.{Router, Line}
use zabbix_ddl_monitor.Manager.Lines.{Manager, slice, listed, ensure_scheduler}
use zabbix_ddl_monitor.Manager.Lines.Routers.{router_lines-ensure_scheduler}
use zabbix_ddl_monitor.Manager.FullSync.{
  is_empty, max_checks, wait_for_lines, fetched, append_line, group_by_router, exists, ensure_all,
  full_sync, take_over,
}

-- The lines with this router, in the order of the configuration.
abbrev pub routed : String → Map Line → List Line
routed r [] = []
routed r ((ip, l) ∷ ls) = if str_eq l.router.ip r then l ∷ routed r ls else routed r ls

-- What a router's group is in the end: none if nothing was there and nothing is added.
abbrev pub grouped : Option (List Line) → List Line → Option (List Line)
grouped o [] = o
grouped o (l ∷ ls) = some (slice o ++ l ∷ ls)

grouped-next :
    (o : Option (List Line)) (l : Line) (ls : List Line)
    → grouped (some (slice o ++ l ∷ [])) ls ≡ grouped o (l ∷ ls)
grouped-next o l [] = refl
grouped-next o l (k ∷ ls) = ap some (append_assoc (slice o) (l ∷ []) (k ∷ ls))

pub lookup-group_by_router :
    (r : String) (ls : Map Line) (groups : Map (List Line))
    → lookup r (group_by_router ls groups) ≡ grouped (lookup r groups) (routed r ls)
unfolding group_by_router
lookup-group_by_router r [] groups = refl
lookup-group_by_router r ((ip, l) ∷ ls) groups =
    lookup-group_by_router r ls (append_line l groups)
    ∙ rw (lookup-insert l.router.ip r (slice (lookup l.router.ip groups) ++ l ∷ []) groups)
        (ground (arith, eq_iff l.router.ip r, grouped-next (lookup r groups) l (routed r ls)))

pub group_by_router-Unique :
    (ls : Map Line) (groups : Map (List Line)) → Unique groups → Unique (group_by_router ls groups)
unfolding group_by_router
group_by_router-Unique [] groups u = u
group_by_router-Unique ((ip, l) ∷ ls) groups u =
    group_by_router-Unique ls (append_line l groups)
      (insert-Unique l.router.ip (slice (lookup l.router.ip groups) ++ l ∷ []) groups u)

slice-grouped : (ls : List Line) → slice (grouped none ls) ≡ ls
slice-grouped [] = refl
slice-grouped (l ∷ ls) = refl

pub slice-group_by_router :
    (r : String) (ls : Map Line) → slice (lookup r (group_by_router ls [])) ≡ routed r ls
slice-group_by_router r ls =
    ap slice (lookup-group_by_router r ls []) ∙ unfold lookup in slice-grouped (routed r ls)

pub exists-group_by_router :
    (r : String) (ls : Map Line)
    → exists (lookup r (group_by_router ls [])) ≡ not (is_empty (routed r ls))
exists-group_by_router r ls =
    ap exists (lookup-group_by_router r ls []) ∙ unfold lookup in exists-grouped (routed r ls)
  where
    exists-grouped : (ks : List Line) → exists (grouped none ks) ≡ not (is_empty ks)
    exists-grouped [] = refl
    exists-grouped (k ∷ ks) = refl

wait_for_lines-first :
    (n i k : ℕ) (get_lines : ℕ → Map Line)
    → i ≤ k
    → k < i + n
    → ((j : ℕ) → j < k → is_empty (get_lines j) ≡ true)
    → is_empty (get_lines k) ≡ false
    → wait_for_lines n i get_lines ≡ get_lines k
unfolding wait_for_lines
wait_for_lines-first zero i k g a b before here = absurd (omega arith)
wait_for_lines-first (suc n) i k g a b before here = elim (Bool-cases (i == k)) [
  | inl e ↦ ground (arith, ==_iff i k)
  | inr e ↦ ground (
    arith,
    ==_iff i k,
    before i,
    wait_for_lines-first n (suc i) k g (ground (arith, ==_iff i k)) (omega arith) before here,
  )
]

-- The lines are those of the first call that has any, among the first one and the checks.
pub fetched-first :
    (k : ℕ) (get_lines : ℕ → Map Line)
    → k ≤ max_checks
    → ((j : ℕ) → j < k → is_empty (get_lines j) ≡ true)
    → is_empty (get_lines k) ≡ false
    → fetched get_lines ≡ get_lines k
unfolding fetched
fetched-first zero g b before here = rw here refl
fetched-first (suc k) g b before here =
    rw (before 0 (omega arith))
      (wait_for_lines-first max_checks 1 (suc k) g (omega arith) (omega arith) before here)

module _ (can_create : Router → Bool) where
  pub router_lines-ensure_all :
      (groups : Map (List Line)) (m : Manager)
      → (ensure_all can_create groups m).router_lines ≡ m.router_lines
  unfolding ensure_all
  router_lines-ensure_all [] m = refl
  router_lines-ensure_all ((ip, ls) ∷ groups) m =
      router_lines-ensure_all groups (ensure_scheduler can_create ip ls m)
      ∙ router_lines-ensure_scheduler can_create ip ls m

  -- After a full synchronisation each router has the lines that the configuration has for it, in the
  -- configuration's order, whatever was there before; where every call of GetLines is answered with
  -- no lines, all lists stay as they were.
  pub listed-full_sync :
      (r : String) (get_lines : ℕ → Map Line) (m : Manager)
      → listed r (full_sync can_create get_lines m).0
        ≡ (if is_empty (fetched get_lines) then listed r m else routed r (fetched get_lines))
  unfolding full_sync
  listed-full_sync r get_lines m =
      if_cases
        (λ t.
          listed r t.0
          ≡ (if is_empty (fetched get_lines) then listed r m else routed r (fetched get_lines)))
        (is_empty (fetched get_lines)) (m, [])
        (take_over can_create (group_by_router (fetched get_lines) []) m) (λ e. rw e refl)
        (λ e. rw e (
          ap (λ t. slice (lookup r t))
            (router_lines-ensure_all (group_by_router (fetched get_lines) [])
              (record m { router_lines = group_by_router (fetched get_lines) [] }))
          ∙ slice-group_by_router r (fetched get_lines)))
