-- ===== src/Syncer/Macros/Priority.antt =====
-- Which value mergeMacros in syncer/syncer.go takes for a macro.
use zabbix_ddl_monitor.Base.{
  ◌≤◌, String, Option, none, some, List, [], ◌∷◌, Among, str_eq, ◌≡◌, ◌≢◌, ◌↔◌, refl, subst, arith,
  inl, inr, Option-cases, if◌then◌else◌,
}
use zabbix_ddl_monitor.Base.Map.{Map, lookup, insert, lookup-insert}
use zabbix_ddl_monitor.Syncer.Templates.{TemplateNode, write_all}
use zabbix_ddl_monitor.Syncer.Macros.{write_nodes, merge_macros}

abbrev pub or_else : Option String → Option String → Option String
or_else none b = b
or_else (some a) b = some a

-- The value that a list of macros gives a name: the last one.
abbrev pub value_in : String → List (String × String) → Option String
value_in name [] = none
value_in name ((other, value) ∷ macros) =
    or_else (value_in name macros) (if str_eq other name then some value else none)

or_else_assoc : (a b c : Option String) → or_else (or_else a b) c ≡ or_else a (or_else b c)
or_else_assoc none b c = refl
or_else_assoc (some a) b c = refl

lookup-write_all :
    (name : String) (macros : List (String × String)) (m : Map String)
    → lookup name (write_all macros m) ≡ or_else (value_in name macros) (lookup name m)
unfolding write_all
lookup-write_all name [] m = refl
lookup-write_all name ((other, value) ∷ macros) m = ground (
  arith,
  lookup-write_all name macros (insert other value m),
  lookup-insert other name value m,
  or_else_assoc (value_in name macros) (if str_eq other name then some value else none)
      (lookup name m),
)

-- The value that the nodes give a name: that of the last of them that has one.
abbrev value_of_nodes : String → List TemplateNode → Option String
value_of_nodes name [] = none
value_of_nodes name (n ∷ ns) = or_else (value_of_nodes name ns) (value_in name n.macros)

lookup-write_nodes :
    (name : String) (ns : List TemplateNode) (m : Map String)
    → lookup name (write_nodes ns m) ≡ or_else (value_of_nodes name ns) (lookup name m)
unfolding write_nodes
lookup-write_nodes name [] m = refl
lookup-write_nodes name (n ∷ ns) m = ground (
  arith,
  lookup-write_nodes name ns (write_all n.macros m),
  lookup-write_all name n.macros m,
  or_else_assoc (value_of_nodes name ns) (value_in name n.macros) (lookup name m),
)

-- Deeper nodes come first.
abbrev pub IsDescending : List TemplateNode → Type 0
IsDescending [] = Unit {0}
IsDescending (n ∷ ns) = ((m : TemplateNode) → Among m ns → m.depth ≤ n.depth) × IsDescending ns

-- What is documented of sort.Slice: the same elements, in an order without an inversion.
pub record IsSort (sort : List TemplateNode → List TemplateNode) : Type 0 where
  pub same : (n : TemplateNode) (ns : List TemplateNode) → Among n (sort ns) ↔ Among n ns
  pub descending : (ns : List TemplateNode) → IsDescending (sort ns)

-- Where the value of a macro comes from.
pub data IsInForce (globals : List (String × String)) (chain : List TemplateNode)
    (hosts : List (String × String)) (name : String) (value : Option String) : Type 0 where
  of_host :
      (v : String)
      → value_in name hosts ≡ some v
      → value ≡ some v
      → IsInForce globals chain hosts name value
  of_template :
      (n : TemplateNode) (v : String)
      → value_in name hosts ≡ none
      → Among n chain
      → value_in name n.macros ≡ some v
      → ((m : TemplateNode) (w : String)
          → Among m chain
          → value_in name m.macros ≡ some w
          → n.depth ≤ m.depth)
      → value ≡ some v
      → IsInForce globals chain hosts name value
  of_globals :
      value_in name hosts ≡ none
      → ((m : TemplateNode) → Among m chain → value_in name m.macros ≡ none)
      → value ≡ value_in name globals
      → IsInForce globals chain hosts name value

-- What sorted nodes give a name.
data Given (name : String) (ns : List TemplateNode) (value : Option String) : Type 0 where
  by_node :
      (n : TemplateNode) (v : String)
      → Among n ns
      → value_in name n.macros ≡ some v
      → ((m : TemplateNode) (w : String)
          → Among m ns
          → value_in name m.macros ≡ some w
          → n.depth ≤ m.depth)
      → value ≡ some v
      → Given name ns value
  by_none :
      ((m : TemplateNode) → Among m ns → value_in name m.macros ≡ none)
      → value ≡ none
      → Given name ns value

given_cons :
    (name : String) (k : TemplateNode) (ns : List TemplateNode)
    → ((m : TemplateNode) → Among m ns → m.depth ≤ k.depth)
    → Given name ns (value_of_nodes name ns)
    → Given name (k ∷ ns) (or_else (value_of_nodes name ns) (value_in name k.macros))
given_cons name k ns d (by_node n v a e least r) =
    by_node n v (inr a) e
      (λ m w b f. elim b [
        | inl q ↦ subst (λ x. n.depth ≤ x.depth) q (d n a)
        | inr c ↦ least m w c f
      ])
      (ground arith)
given_cons name k ns d (by_none h r) = elim (Option-cases (value_in name k.macros)) [
  | inl e ↦
      by_none
        (λ m b. elim b [ inl q ↦ subst (λ x. value_in name x.macros ≡ none) q e | inr c ↦ h m c ])
        (ground arith)
  | inr (v, e) ↦
      by_node k v (inl refl) e
        (λ m w b f. elim b [
          | inl q ↦ subst (λ x. k.depth ≤ x.depth) q (omega arith)
          | inr c ↦ absurd (ground (arith, h m c))
        ])
        (ground arith)
]

given :
    (name : String) (ns : List TemplateNode)
    → IsDescending ns
    → Given name ns (value_of_nodes name ns)
given name [] d = by_none (λ m a. absurd a) refl
given name (n ∷ ns) (d, ds) = given_cons name n ns d (given name ns ds)

module _ (sort : List TemplateNode → List TemplateNode) (is_sort : IsSort sort) where
  in_force :
      (globals : List (String × String)) (chain : List TemplateNode)
      (hosts : List (String × String)) (name : String) (value : Option String)
      → Given name (sort chain) (value_of_nodes name (sort chain))
      → value
        ≡ or_else
            (value_in name hosts)
            (or_else (value_of_nodes name (sort chain)) (value_in name globals))
      → IsInForce globals chain hosts name value
  in_force globals chain hosts name value g e = elim (Option-cases (value_in name hosts)) [
    | inr (v, h) ↦ of_host v h (ground arith)
    | inl h ↦ elim g [
      | by_node n v a f least r ↦
          of_template n v h ((is_sort.same n chain).0 a) f
            (λ m w b. least m w ((is_sort.same m chain).1 b)) (ground arith)
      | by_none k r ↦ of_globals h (λ m b. k m ((is_sort.same m chain).1 b)) (ground arith)
    ]
  ]

  or_else-none : (o : Option String) → or_else o none ≡ o
  or_else-none none = refl
  or_else-none (some v) = refl

  lookup_merged :
      (globals : List (String × String)) (ns : List TemplateNode) (hosts : List (String × String))
      (name : String)
      → lookup name (write_all hosts (write_nodes ns (write_all globals [])))
        ≡ or_else (value_in name hosts) (or_else (value_of_nodes name ns) (value_in name globals))
  unfolding lookup
  lookup_merged globals ns hosts name = ground (
    arith,
    lookup-write_all name hosts (write_nodes ns (write_all globals [])),
    lookup-write_nodes name ns (write_all globals []),
    lookup-write_all name globals [],
    or_else-none (value_in name globals),
  )

  -- What mergeMacros gives for a chain.
  abbrev pub IsMerged :
      List (String × String)
      → List TemplateNode
      → List (String × String)
      → Option (Map String)
      → Type 0
  IsMerged globals chain hosts none = chain ≡ []
  IsMerged globals chain hosts (some m) =
      (chain ≢ []) × ((name : String) → IsInForce globals chain hosts name (lookup name m))

  -- When sort.Slice sorts, a macro has its value on the host, or else its value in a template of the
  -- least depth that has it, or else its global value; mergeMacros panics for an empty chain, and
  -- for no other.
  pub merge_macros-IsMerged :
      (globals : List (String × String)) (chain : List TemplateNode)
      (hosts : List (String × String))
      → IsMerged globals chain hosts (merge_macros sort globals chain hosts)
  unfolding merge_macros
  merge_macros-IsMerged globals [] hosts = refl
  merge_macros-IsMerged globals (n ∷ ns) hosts = (
    not_empty,
    λ name.
        in_force globals (n ∷ ns) hosts name
          (lookup name (write_all hosts (write_nodes (sort (n ∷ ns)) (write_all globals []))))
          (given name (sort (n ∷ ns)) (is_sort.descending (n ∷ ns)))
          (lookup_merged globals (sort (n ∷ ns)) hosts name),
  )
    where
      not_empty : (n ∷ ns) ≢ []
      not_empty e = absurd (ground arith)
