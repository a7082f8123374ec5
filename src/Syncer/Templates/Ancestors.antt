-- ===== src/Syncer/Templates/Ancestors.antt =====
-- Which templates are in a chain that buildTemplateChain in syncer/syncer.go makes.
use zabbix_ddl_monitor.Base.{
  ℕ, zero, suc, true, false, String, List, [], ◌∷◌, Among, Among-left, Among-last, str_eq, eq_iff,
  eq_refl, ◌≡◌, refl, subst, arith, inl, inr, Bool-cases,
}
use zabbix_ddl_monitor.Connection.Pool.{has_name}
use zabbix_ddl_monitor.Syncer.Templates.{
  TemplateObject, TemplateAnswer, get_fails, gets, TemplateNode, node_of, Built, Outcome, done,
  template_failed, template_missing, cut_off, and_then, build_all, processing, with_node, on_answer,
  build, build_template_chain,
}
use zabbix_ddl_monitor.Syncer.Templates.Termination.{AllIn}

-- Every result of a build has the property.
abbrev pub Gives : (Built → Type 0) → Outcome → Type 0
Gives P (done b) = P b
Gives P (template_failed id) = Unit {0}
Gives P (template_missing id) = Unit {0}
Gives P cut_off = Unit {0}

pub and_then-Gives :
    (P Q : Built → Type 0) (o : Outcome) (next : Built → Outcome)
    → Gives P o
    → ((b : Built) → P b → Gives Q (next b))
    → Gives Q (and_then o next)
and_then-Gives P Q (done b) next h k = k b h
and_then-Gives P Q (template_failed id) next h k = tt
and_then-Gives P Q (template_missing id) next h k = tt
and_then-Gives P Q cut_off next h k = tt

pub Gives-weaken :
    (P Q : Built → Type 0) (o : Outcome) → ((b : Built) → P b → Q b) → Gives P o → Gives Q o
Gives-weaken P Q (done b) k h = k b h
Gives-weaken P Q (template_failed id) k h = tt
Gives-weaken P Q (template_missing id) k h = tt
Gives-weaken P Q cut_off k h = tt

module _ (template_get : String → TemplateAnswer) where
  -- The answer for this template begins with this one.
  abbrev pub Fetches : String → TemplateObject → Type 0
  Fetches id t = (ts : List TemplateObject) × (template_get id ≡ gets (t ∷ ts))

  -- A template that the host reaches over so many links.
  pub data IsAncestor (host_templates : List String) : String → ℕ → Type 0 where
    linked : (id : String) → has_name id host_templates ≡ true → IsAncestor host_templates id 1
    above :
        (id above_id : String) (t : TemplateObject) (depth : ℕ)
        → IsAncestor host_templates id depth
        → Fetches id t
        → has_name above_id t.parents ≡ true
        → IsAncestor host_templates above_id (suc depth)

  -- The chain has a node for this template.
  abbrev pub HasNode : String → List TemplateNode → Type 0
  HasNode id chain =
      (t : TemplateObject) × (depth : ℕ) × Fetches id t × Among (node_of depth t) chain

  -- Each template that is processed now and was not before has its node, and its parents processed.
  record Grows (b c : Built) : Type 0 where
    keeps : (id : String) → has_name id b.processed ≡ true → has_name id c.processed ≡ true
    keeps_nodes : (n : TemplateNode) → Among n b.chain → Among n c.chain
    has_node :
        (id : String)
        → has_name id c.processed ≡ true
        → has_name id b.processed ≡ false
        → HasNode id c.chain
    has_parents :
        (id : String) (t : TemplateObject)
        → has_name id c.processed ≡ true
        → has_name id b.processed ≡ false
        → Fetches id t
        → AllIn c.processed t.parents

  AllIn-keeps :
      (ids more ns : List String)
      → ((id : String) → has_name id ids ≡ true → has_name id more ≡ true)
      → AllIn ids ns
      → AllIn more ns
  AllIn-keeps ids more [] k a = tt
  AllIn-keeps ids more (n ∷ ns) k (h, a) = (k n h, AllIn-keeps ids more ns k a)

  Grows-none : (b : Built) → Grows b b
  Grows-none b = record {
    keeps = λ id h. h;
    keeps_nodes = λ n a. a;
    has_node = λ id h e. absurd (ground arith);
    has_parents = λ id t h e f. absurd (ground arith);
  }

  HasNode-keeps :
      (id : String) (ms ns : List TemplateNode)
      → ((n : TemplateNode) → Among n ms → Among n ns)
      → HasNode id ms
      → HasNode id ns
  HasNode-keeps id ms ns k (t, depth, f, a) = (t, depth, f, k (node_of depth t) a)

  Grows-twice : (b c d : Built) → Grows b c → Grows c d → Grows b d
  Grows-twice b c d g h = record {
    keeps = λ id e. h.keeps id (g.keeps id e);
    keeps_nodes = λ n a. h.keeps_nodes n (g.keeps_nodes n a);
    has_node = λ id e new. elim (Bool-cases (has_name id c.processed)) [
      | inl m ↦ HasNode-keeps id c.chain d.chain h.keeps_nodes (g.has_node id m new)
      | inr m ↦ h.has_node id e m
    ];
    has_parents = λ id t e new f. elim (Bool-cases (has_name id c.processed)) [
      | inl m ↦ AllIn-keeps c.processed d.processed t.parents h.keeps (g.has_parents id t m new f)
      | inr m ↦ h.has_parents id t e m f
    ];
  }

  -- What a call for one template gives.
  record Visits (id : String) (b c : Built) : Type 0 where
    grows : Grows b c
    visited : has_name id c.processed ≡ true

  record VisitsAll (ids : List String) (b c : Built) : Type 0 where
    grows : Grows b c
    visited : AllIn c.processed ids

  abbrev IsVisitor : (String → ℕ → Built → Outcome) → Type 0
  IsVisitor go = (id : String) (depth : ℕ) (b : Built) → Gives (λ c. Visits id b c) (go id depth b)

  build_all-VisitsAll :
      (go : String → ℕ → Built → Outcome)
      → IsVisitor go
      → (ids : List String) (depth : ℕ) (b : Built)
      → Gives (λ c. VisitsAll ids b c) (build_all go ids depth b)
  unfolding build_all
  build_all-VisitsAll go k [] depth b = record { grows = Grows-none b; visited = tt }
  build_all-VisitsAll go k (id ∷ ids) depth b =
      and_then-Gives (λ c. Visits id b c) (λ d. VisitsAll (id ∷ ids) b d) (go id depth b)
        (λ c. build_all go ids depth c) (k id depth b)
        (λ c v.
          Gives-weaken (λ d. VisitsAll ids c d) (λ d. VisitsAll (id ∷ ids) b d)
            (build_all go ids depth c)
            (λ d w. record {
              grows = Grows-twice b c d v.grows w.grows;
              visited = (w.grows.keeps id v.visited, w.visited);
            })
            (build_all-VisitsAll go k ids depth c))

  -- The parents of a template are processed after its own node is added.
  visited_node :
      (id : String) (depth : ℕ) (t : TemplateObject) (b c : Built)
      → Fetches id t
      → VisitsAll t.parents (with_node depth t (processing id b)) c
      → Visits id b c
  visited_node id depth t b c f v = record {
    grows = record {
      keeps = λ i h. v.grows.keeps i (ground arith);
      keeps_nodes = λ n a. v.grows.keeps_nodes n (Among-left n b.chain (node_of depth t ∷ []) a);
      has_node = λ i h new. elim (Bool-cases (str_eq id i)) [
        | inl e ↦ subst (λ j. HasNode j c.chain) ((eq_iff id i).0 e) its_node
        | inr e ↦ v.grows.has_node i h (ground arith)
      ];
      has_parents = λ i u h new g. elim (Bool-cases (str_eq id i)) [
        | inl e ↦ subst (AllIn c.processed) (same_parents i u ((eq_iff id i).0 e) g) v.visited
        | inr e ↦ v.grows.has_parents i u h (ground arith) g
      ];
    };
    visited = v.grows.keeps id (ground (arith, eq_refl id));
  }
    where
      its_node : HasNode id c.chain
      its_node = (
        t,
        depth,
        f,
        v.grows.keeps_nodes (node_of depth t) (Among-last (node_of depth t) b.chain),
      )

      same_parents :
          (i : String) (u : TemplateObject) → id ≡ i → Fetches i u → t.parents ≡ u.parents
      same_parents i u e g = cc (f.1, g.1, e)

  on_answer-Visits :
      (go : String → ℕ → Built → Outcome) (id : String) (depth : ℕ) (b : Built)
      (answer : TemplateAnswer)
      → IsVisitor go
      → template_get id ≡ answer
      → Gives (λ c. Visits id b c) (on_answer go id depth (processing id b) answer)
  on_answer-Visits go id depth b get_fails k e = tt
  on_answer-Visits go id depth b (gets []) k e = tt
  on_answer-Visits go id depth b (gets (t ∷ ts)) k e =
      Gives-weaken (λ c. VisitsAll t.parents (with_node depth t (processing id b)) c)
        (λ c. Visits id b c)
        (build_all go t.parents (suc depth) (with_node depth t (processing id b)))
        (λ c v. visited_node id depth t b c (ts, e) v)
        (build_all-VisitsAll go k t.parents (suc depth) (with_node depth t (processing id b)))

  processed-Visits : (id : String) (b : Built) → has_name id b.processed ≡ true → Visits id b b
  processed-Visits id b e = record { grows = Grows-none b; visited = e }

  build-IsVisitor : (fuel : ℕ) → IsVisitor (build template_get fuel)
  unfolding build
  build-IsVisitor zero id depth b = elim (Bool-cases (has_name id b.processed)) [
    | inl e ↦ rw e (processed-Visits id b e)
    | inr e ↦ rw e tt
  ]
  build-IsVisitor (suc fuel) id depth b = elim (Bool-cases (has_name id b.processed)) [
    | inl e ↦ rw e (processed-Visits id b e)
    | inr e ↦ rw e (
        on_answer-Visits (build template_get fuel) id depth b (template_get id)
          (build-IsVisitor fuel) refl)
  ]

  in_all :
      (id : String) (ids ns : List String)
      → AllIn ids ns
      → has_name id ns ≡ true
      → has_name id ids ≡ true
  in_all id ids [] a h = absurd (ground arith)
  in_all id ids (n ∷ ns) (m, a) h = elim (Bool-cases (str_eq n id)) [
    | inl e ↦ subst (λ i. has_name i ids ≡ true) ((eq_iff n id).0 e) m
    | inr e ↦ in_all id ids ns a (ground arith)
  ]

  ancestors_processed :
      (host_templates : List String) (b : Built)
      → VisitsAll host_templates (record { processed = []; chain = [] }) b
      → (id : String) (depth : ℕ) → IsAncestor host_templates id depth
      → has_name id b.processed ≡ true
  ancestors_processed ns b v id _ (linked i h) = in_all i b.processed ns v.visited h
  ancestors_processed ns b v id _ (above i j t depth a f h) =
      in_all j b.processed t.parents
        (v.grows.has_parents i t (ancestors_processed ns b v i depth a) refl f) h

  -- Every template that the host reaches has its node.
  abbrev pub HasAll : List String → Built → Type 0
  HasAll host_templates b =
      (id : String) (depth : ℕ) → IsAncestor host_templates id depth → HasNode id b.chain

  -- A chain that is built has a node for every template that the host reaches over its links,
  -- with the macros of that template.
  pub build_template_chain-HasAll :
      (fuel : ℕ) (host_templates : List String)
      → Gives (HasAll host_templates) (build_template_chain template_get fuel host_templates)
  unfolding build_template_chain
  build_template_chain-HasAll fuel ns =
      Gives-weaken (λ b. VisitsAll ns (record { processed = []; chain = [] }) b) (λ b. HasAll ns b)
        (build_all (build template_get fuel) ns 1 (record { processed = []; chain = [] }))
        (λ b v id depth a. v.grows.has_node id (ancestors_processed ns b v id depth a) refl)
        (build_all-VisitsAll (build template_get fuel) (build-IsVisitor fuel) ns 1 _)
