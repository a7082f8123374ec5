-- ===== src/Syncer/Templates/Termination.antt =====
-- The recursion of buildTemplateChain in syncer/syncer.go ends.
use zabbix_ddl_monitor.Base.{
  ℕ, zero, suc, ◌≤◌, ◌<◌, true, false, String, List, [], ◌∷◌, length, str_eq, eq_iff, ◌≡◌, ◌≢◌,
  refl, subst, arith, inl, inr, Bool-cases, if◌then◌else◌,
}
use zabbix_ddl_monitor.Connection.Pool.{has_name}
use zabbix_ddl_monitor.Syncer.Templates.{
  TemplateObject, TemplateAnswer, get_fails, gets, Built, Outcome, done, template_failed,
  template_missing, cut_off, and_then, build_all, processing, with_node, on_answer, build,
  build_template_chain,
}

-- The names that are not among the processed ones.
abbrev pub unprocessed : List String → List String → ℕ
unprocessed [] processed = 0
unprocessed (n ∷ ns) processed =
    let rest = unprocessed ns processed in if has_name n processed then rest else suc rest

abbrev pub AllIn : List String → List String → Type 0
AllIn ids [] = Unit {0}
AllIn ids (n ∷ ns) = (has_name n ids ≡ true) × AllIn ids ns

-- These ids have every parent of each of them.
abbrev pub IsClosed : (String → TemplateAnswer) → List String → Type 0
IsClosed template_get ids =
    (id : String) (t : TemplateObject) (ts : List TemplateObject)
    → has_name id ids ≡ true
    → template_get id ≡ gets (t ∷ ts)
    → AllIn ids t.parents

unprocessed-cons-le :
    (id : String) (ns processed : List String)
    → unprocessed ns (id ∷ processed) ≤ unprocessed ns processed
unprocessed-cons-le id [] processed = omega arith
unprocessed-cons-le id (n ∷ ns) processed = ground (arith, unprocessed-cons-le id ns processed)

-- One of them that was not processed is now.
unprocessed-cons-lt :
    (id : String) (ns processed : List String)
    → has_name id ns ≡ true
    → has_name id processed ≡ false
    → unprocessed ns (id ∷ processed) < unprocessed ns processed
unprocessed-cons-lt id [] processed h new = absurd (ground arith)
unprocessed-cons-lt id (n ∷ ns) processed h new = elim (Bool-cases (str_eq n id)) [
  | inl e ↦ ground (arith, unprocessed-cons-le id ns processed, (eq_iff n id).0 e, eq_iff id n)
  | inr e ↦
      ground
        (arith, unprocessed-cons-lt id ns processed (ground arith) new, eq_iff id n, eq_iff n id)
]

unprocessed_le : (ns processed : List String) → unprocessed ns processed ≤ length ns
unprocessed_le [] processed = omega arith
unprocessed_le (n ∷ ns) processed = ground (arith, unprocessed_le ns processed)

-- It was not cut off, and left no more of these ids unprocessed than there were.
abbrev Ends : List String → ℕ → Outcome → Type 0
Ends ids n (done b) = unprocessed ids b.processed ≤ n
Ends ids n (template_failed id) = Unit {0}
Ends ids n (template_missing id) = Unit {0}
Ends ids n cut_off = ⊥

Ends-le : (ids : List String) (m n : ℕ) (o : Outcome) → m ≤ n → Ends ids m o → Ends ids n o
Ends-le ids m n (done b) l h = omega arith
Ends-le ids m n (template_failed id) l h = tt
Ends-le ids m n (template_missing id) l h = tt
Ends-le ids m n cut_off l h = absurd h

and_then-Ends :
    (ids : List String) (n : ℕ) (o : Outcome) (next : Built → Outcome)
    → Ends ids n o
    → ((b : Built) → unprocessed ids b.processed ≤ n → Ends ids n (next b))
    → Ends ids n (and_then o next)
and_then-Ends ids n (done b) next h k = k b h
and_then-Ends ids n (template_failed id) next h k = tt
and_then-Ends ids n (template_missing id) next h k = tt
and_then-Ends ids n cut_off next h k = absurd h

-- This recursive call ends for each of the ids while at most `fuel` of them are unprocessed.
abbrev EndsFor : List String → ℕ → (String → ℕ → Built → Outcome) → Type 0
EndsFor ids fuel go =
    (id : String) (depth : ℕ) (b : Built)
    → has_name id ids ≡ true
    → unprocessed ids b.processed ≤ fuel
    → Ends ids (unprocessed ids b.processed) (go id depth b)

build_all-Ends :
    (ids : List String) (fuel n : ℕ) (go : String → ℕ → Built → Outcome)
    → EndsFor ids fuel go
    → (ns : List String) (depth : ℕ) (b : Built) → AllIn ids ns
    → unprocessed ids b.processed ≤ n
    → n ≤ fuel
    → Ends ids n (build_all go ns depth b)
unfolding build_all
build_all-Ends ids fuel n go k [] depth b a l f = l
build_all-Ends ids fuel n go k (m ∷ ns) depth b (h, a) l f =
    and_then-Ends ids n (go m depth b) (λ c. build_all go ns depth c)
      (Ends-le ids (unprocessed ids b.processed) n (go m depth b) l (k m depth b h (omega arith)))
      (λ c j. build_all-Ends ids fuel n go k ns depth c a j f)

module _ (template_get : String → TemplateAnswer) (ids : List String)
    (closed : IsClosed template_get ids) where
  on_answer-Ends :
      (fuel n : ℕ) (id : String) (depth : ℕ) (b : Built) (answer : TemplateAnswer)
      → EndsFor ids fuel (build template_get fuel)
      → template_get id ≡ answer
      → has_name id ids ≡ true
      → unprocessed ids b.processed ≤ n
      → n ≤ fuel
      → Ends ids n (on_answer (build template_get fuel) id depth b answer)
  on_answer-Ends fuel n id depth b get_fails k e h l f = tt
  on_answer-Ends fuel n id depth b (gets []) k e h l f = tt
  on_answer-Ends fuel n id depth b (gets (t ∷ ts)) k e h l f =
      build_all-Ends ids fuel n (build template_get fuel) k t.parents (suc depth)
        (with_node depth t b) (closed id t ts h e) l f

  build-EndsFor : (fuel : ℕ) → EndsFor ids fuel (build template_get fuel)
  unfolding build
  build-EndsFor zero id depth b h l = elim (Bool-cases (has_name id b.processed)) [
    | inl e ↦ rw e (omega arith)
    | inr e ↦ absurd (omega (arith, unprocessed-cons-lt id ids b.processed h e))
  ]
  build-EndsFor (suc fuel) id depth b h l = elim (Bool-cases (has_name id b.processed)) [
    | inl e ↦ rw e (omega arith)
    | inr e ↦ rw e (
        Ends-le ids (unprocessed ids (id ∷ b.processed)) (unprocessed ids b.processed)
          (on_answer (build template_get fuel) id depth (processing id b) (template_get id))
          (unprocessed-cons-le id ids b.processed)
          (on_answer-Ends fuel (unprocessed ids (id ∷ b.processed)) id depth (processing id b)
            (template_get id) (build-EndsFor fuel) refl h (omega arith)
            (omega (arith, unprocessed-cons-lt id ids b.processed h e))))
  ]

  not_cut_off : (n : ℕ) (o : Outcome) → Ends ids n o → o ≢ cut_off
  not_cut_off n o h e = subst (λ (x : Outcome). Ends ids n x) e h

  -- The recursion ends whatever the templates link to, circles included: when some list has the
  -- host's templates and each parent of a template that it has, its length is enough fuel.
  pub build_template_chain_ends :
      (host_templates : List String)
      → AllIn ids host_templates
      → build_template_chain template_get (length ids) host_templates ≢ cut_off
  unfolding build_template_chain
  build_template_chain_ends ns a = not_cut_off (length ids) _ (
      build_all-Ends ids (length ids) (length ids) (build template_get (length ids))
        (build-EndsFor (length ids)) ns 1 (record { processed = []; chain = [] }) a
        (unprocessed_le ids []) (omega arith))
