-- ===== src/Syncer/Templates.antt =====
-- syncer/syncer.go: the templates of a host, from the ones that it links to upwards. The call of
-- TemplateGet for one template is an argument. A macro is its name with its value.
pub mod Termination
pub mod Ancestors
pub mod Levels
use zabbix_ddl_monitor.Base.{
  ℕ, zero, suc, Bool, true, false, String, List, [], ◌∷◌, ◌++◌, str_eq, if◌then◌else◌,
}
use zabbix_ddl_monitor.Base.Map.{Map, insert}
use zabbix_ddl_monitor.Connection.Pool.{has_name}

-- What TemplateGet gives of a template.
pub record TemplateObject : Type 0 where
  pub template_id : String
  pub macros : List (String × String)
  pub parents : List String

pub data TemplateAnswer : Type 0 where
  get_fails : TemplateAnswer
  gets : List TemplateObject → TemplateAnswer

pub record TemplateNode : Type 0 where
  pub id : String
  pub depth : ℕ
  pub macros : Map String
  pub parent_ids : List String

-- Each write replaces what an earlier one left under the name.
unfoldable pub write_all : List (String × String) → Map String → Map String
write_all [] m = m
write_all ((name, value) ∷ macros) m = write_all macros (insert name value m)

unfoldable pub node_of : ℕ → TemplateObject → TemplateNode
unfolding write_all
node_of depth t = record {
  id = t.template_id;
  depth = depth;
  macros = write_all t.macros [];
  parent_ids = t.parents;
}

-- The variables `processed` and `chain`.
pub record Built : Type 0 where
  pub processed : List String
  pub chain : List TemplateNode

-- `cut_off` is the model's own: it ran out of fuel.
pub data Outcome : Type 0 where
  done : Built → Outcome
  template_failed : String → Outcome
  template_missing : String → Outcome
  cut_off : Outcome

abbrev pub and_then : Outcome → (Built → Outcome) → Outcome
and_then (done b) next = next b
and_then (template_failed id) next = template_failed id
and_then (template_missing id) next = template_missing id
and_then cut_off next = cut_off

-- The loops over parent templates, with the recursive function as an argument.
unfoldable pub build_all : (String → ℕ → Built → Outcome) → List String → ℕ → Built → Outcome
build_all build [] depth b = done b
build_all build (id ∷ ids) depth b = and_then (build id depth b) (λ c. build_all build ids depth c)

abbrev pub processing : String → Built → Built
processing id b = record b { processed = id ∷ b.processed }

abbrev pub with_node : ℕ → TemplateObject → Built → Built
with_node depth t b = record b { chain = b.chain ++ (node_of depth t ∷ []) }

abbrev pub on_answer :
    (String → ℕ → Built → Outcome) → String → ℕ → Built → TemplateAnswer → Outcome
on_answer build id depth b get_fails = template_failed id
on_answer build id depth b (gets []) = template_missing id
on_answer build id depth b (gets (t ∷ ts)) =
    build_all build t.parents (suc depth) (with_node depth t b)

module _ (template_get : String → TemplateAnswer) where
  -- The function `build`, for a number of templates on one way up that the fuel bounds.
  unfoldable pub build : ℕ → String → ℕ → Built → Outcome
  unfolding build_all
  build zero id depth b = if has_name id b.processed then done b else cut_off
  build (suc fuel) id depth b =
      if has_name id b.processed
      then done b
      else on_answer (build fuel) id depth (processing id b) (template_get id)

  -- buildTemplateChain, from the ids of the templates that the host links to.
  unfoldable pub build_template_chain : ℕ → List String → Outcome
  unfolding build
  build_template_chain fuel ids =
      build_all (build fuel) ids 1 (record { processed = []; chain = [] })
