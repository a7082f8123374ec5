-- ===== src/Syncer/Templates/Levels.antt =====
-- Each node of a chain that buildTemplateChain in syncer/syncer.go makes is of a template that the
-- host reaches over as many links as its depth says.
use zabbix_ddl_monitor.Base.{
  ℕ, zero, suc, true, String, List, [], ◌∷◌, ◌++◌, Among, eq_refl, ◌≡◌, refl, subst, arith, ◌⊎◌,
  inl, inr, if_both,
}
use zabbix_ddl_monitor.Connection.Pool.{has_name}
use zabbix_ddl_monitor.Syncer.Templates.{
  TemplateObject, TemplateAnswer, get_fails, gets, TemplateNode, node_of, Built, Outcome, done,
  template_failed, template_missing, cut_off, build_all, processing, with_node, on_answer, build,
  build_template_chain,
}
use zabbix_ddl_monitor.Syncer.Templates.Ancestors.{
  Gives, and_then-Gives, IsAncestor, linked, above, Fetches, HasAll, build_template_chain-HasAll,
}

Among-appended :
    {A : Type 0} (x y : A) (xs : List A) → Among x (xs ++ (y ∷ [])) → Among x xs ⊎ (y ≡ x)
Among-appended x y [] (inl e) = inr e
Among-appended x y [] (inr a) = absurd a
Among-appended x y (z ∷ xs) (inl e) = inl (inl e)
Among-appended x y (z ∷ xs) (inr a) = elim (Among-appended x y xs a) [
  | inl b ↦ inl (inr b)
  | inr e ↦ inr e
]

Gives-both : (P Q : Built → Type 0) (o : Outcome) → Gives P o → Gives Q o → Gives (λ b. P b × Q b) o
Gives-both P Q (done b) h k = (h, k)
Gives-both P Q (template_failed id) h k = tt
Gives-both P Q (template_missing id) h k = tt
Gives-both P Q cut_off h k = tt

module _ (template_get : String → TemplateAnswer) (host_templates : List String) where
  abbrev Reaches : String → ℕ → Type 0
  Reaches id depth = IsAncestor template_get host_templates id depth

  -- The node of a template at one of its distances from the host.
  abbrev pub IsOfAncestor : TemplateNode → Type 0
  IsOfAncestor n =
      (id : String) × (t : TemplateObject) × Reaches id n.depth
      × Fetches template_get id t
      × (node_of n.depth t ≡ n)

  abbrev pub HasOnlyAncestors : Built → Type 0
  HasOnlyAncestors b = (n : TemplateNode) → Among n b.chain → IsOfAncestor n

  abbrev IsLevel : (String → ℕ → Built → Outcome) → Type 0
  IsLevel go =
      (id : String) (depth : ℕ) (b : Built)
      → Reaches id depth
      → HasOnlyAncestors b
      → Gives HasOnlyAncestors (go id depth b)

  build_all-HasOnlyAncestors :
      (go : String → ℕ → Built → Outcome)
      → IsLevel go
      → (ids : List String) (depth : ℕ) (b : Built)
      → ((id : String) → has_name id ids ≡ true → Reaches id depth)
      → HasOnlyAncestors b
      → Gives HasOnlyAncestors (build_all go ids depth b)
  unfolding build_all
  build_all-HasOnlyAncestors go k [] depth b r s = s
  build_all-HasOnlyAncestors go k (id ∷ ids) depth b r s =
      and_then-Gives HasOnlyAncestors HasOnlyAncestors (go id depth b)
        (λ c. build_all go ids depth c) (k id depth b (r id (ground (arith, eq_refl id))) s)
        (λ c s2. build_all-HasOnlyAncestors go k ids depth c (λ i h. r i (ground arith)) s2)

  with_node-HasOnlyAncestors :
      (id : String) (depth : ℕ) (t : TemplateObject) (b : Built)
      → Reaches id depth
      → Fetches template_get id t
      → HasOnlyAncestors b
      → HasOnlyAncestors (with_node depth t b)
  unfolding node_of
  with_node-HasOnlyAncestors id depth t b r f s n a =
      elim (Among-appended n (node_of depth t) b.chain a) [
        | inl m ↦ s n m
        | inr e ↦ subst IsOfAncestor e (id, t, r, f, refl)
      ]

  on_answer-HasOnlyAncestors :
      (go : String → ℕ → Built → Outcome) (id : String) (depth : ℕ) (b : Built)
      (answer : TemplateAnswer)
      → IsLevel go
      → template_get id ≡ answer
      → Reaches id depth
      → HasOnlyAncestors b
      → Gives HasOnlyAncestors (on_answer go id depth b answer)
  on_answer-HasOnlyAncestors go id depth b get_fails k e r s = tt
  on_answer-HasOnlyAncestors go id depth b (gets []) k e r s = tt
  on_answer-HasOnlyAncestors go id depth b (gets (t ∷ ts)) k e r s =
      build_all-HasOnlyAncestors go k t.parents (suc depth) (with_node depth t b)
        (λ i h. above id i t depth r (ts, e) h)
        (with_node-HasOnlyAncestors id depth t b r (ts, e) s)

  build-IsLevel : (fuel : ℕ) → IsLevel (build template_get fuel)
  unfolding build
  build-IsLevel zero id depth b r s =
      if_both (Gives HasOnlyAncestors) (has_name id b.processed) (done b) cut_off s tt
  build-IsLevel (suc fuel) id depth b r s =
      if_both (Gives HasOnlyAncestors) (has_name id b.processed) (done b)
        (on_answer (build template_get fuel) id depth (processing id b) (template_get id)) s
        (on_answer-HasOnlyAncestors (build template_get fuel) id depth (processing id b)
          (template_get id) (build-IsLevel fuel) refl r s)

  build_template_chain-HasOnlyAncestors :
      (fuel : ℕ) → Gives HasOnlyAncestors (build_template_chain template_get fuel host_templates)
  unfolding build_template_chain
  build_template_chain-HasOnlyAncestors fuel =
      build_all-HasOnlyAncestors (build template_get fuel) (build-IsLevel fuel) host_templates 1
        (record { processed = []; chain = [] }) (λ id h. linked id h) (λ n a. absurd a)

  abbrev pub IsChain : Built → Type 0
  IsChain b = HasAll template_get host_templates b × HasOnlyAncestors b

  -- A chain that is built is of the templates that the host reaches over its links and of no others:
  -- each of them has a node, and each node has the macros and the parents of one of them, with the
  -- number of links on a way to it as its depth.
  pub build_template_chain-IsChain :
      (fuel : ℕ) → Gives IsChain (build_template_chain template_get fuel host_templates)
  build_template_chain-IsChain fuel =
      Gives-both (HasAll template_get host_templates) HasOnlyAncestors
        (build_template_chain template_get fuel host_templates)
        (build_template_chain-HasAll template_get fuel host_templates)
        (build_template_chain-HasOnlyAncestors fuel)
