-- ===== src/Tests/Templating.antt =====
-- Runs of the syncer's reading of templates and macros.
use zabbix_ddl_monitor.Base.{
  Among, inl, inr, ◌≤◌, String, none, some, List, [], ◌∷◌, Among, ◌≡◌, ◌≢◌, ◌⊎◌, ◌↔◌, inl, inr,
  refl, arith, if◌then◌else◌, if_both, leb, Bool-cases, subst, str_eq,
}
use zabbix_ddl_monitor.Syncer.Templates.{
  TemplateObject, TemplateAnswer, get_fails, gets, TemplateNode, cut_off, build_template_chain,
}
use zabbix_ddl_monitor.Syncer.Templates.Termination.{AllIn, IsClosed, build_template_chain_ends}
use zabbix_ddl_monitor.Syncer.Templates.Ancestors.{Gives}
use zabbix_ddl_monitor.Syncer.Templates.Levels.{IsChain, build_template_chain-IsChain}
use zabbix_ddl_monitor.Syncer.Macros.{Parser, HostObject, Sources, merge_macros}
use zabbix_ddl_monitor.Syncer.Macros.Priority.{
  IsSort, IsDescending, IsMerged, merge_macros-IsMerged,
}

-- Two templates that link to each other.
abbrev template_a : TemplateObject
template_a = record {
  template_id = "a";
  macros = ("{$LINE_CHECK_INTERVAL}", "60") ∷ ("{$LINE_ID}", "1") ∷ [];
  parents = "b" ∷ [];
}

abbrev template_b : TemplateObject
template_b = record {
  template_id = "b";
  macros = ("{$LINE_ROUTER_IP}", "10.1.0.1") ∷ ("{$LINE_ID}", "2") ∷ [];
  parents = "a" ∷ [];
}

abbrev zabbix : String → TemplateAnswer
zabbix id =
    if str_eq id "a"
    then gets (template_a ∷ [])
    else if str_eq id "b"
    then gets (template_b ∷ [])
    else gets []

abbrev circle : List String
circle = "a" ∷ "b" ∷ []

abbrev first_parents : TemplateAnswer → List String
first_parents get_fails = []
first_parents (gets []) = []
first_parents (gets (t ∷ ts)) = t.parents

abbrev IsInCircle : TemplateAnswer → Type 0
IsInCircle answer = AllIn circle (first_parents answer)

circle-IsClosed : IsClosed zabbix circle
circle-IsClosed id t ts h e = subst IsInCircle e (
    if_both IsInCircle (str_eq id "a") (gets (template_a ∷ []))
      (if str_eq id "b" then gets (template_b ∷ []) else gets []) (refl, tt)
      (if_both IsInCircle (str_eq id "b") (gets (template_b ∷ [])) (gets []) (refl, tt) tt))

build_template_chain_ends_example : build_template_chain zabbix 2 ("a" ∷ []) ≢ cut_off
build_template_chain_ends_example =
    build_template_chain_ends zabbix circle circle-IsClosed ("a" ∷ []) (refl, tt)

build_template_chain-IsChain_example :
    Gives (IsChain zabbix ("a" ∷ [])) (build_template_chain zabbix 2 ("a" ∷ []))
build_template_chain-IsChain_example = build_template_chain-IsChain zabbix ("a" ∷ []) 2

-- An insertion sort, which sort.Slice uses for a few elements.
abbrev insert_node : TemplateNode → List TemplateNode → List TemplateNode
insert_node n [] = n ∷ []
insert_node n (m ∷ ms) =
    let rest = insert_node n ms in if leb n.depth m.depth then m ∷ rest else n ∷ m ∷ ms

abbrev by_depth : List TemplateNode → List TemplateNode
by_depth [] = []
by_depth (n ∷ ns) = insert_node n (by_depth ns)

same-insert_node :
    (x n : TemplateNode) (ms : List TemplateNode)
    → Among x (insert_node n ms) ↔ ((n ≡ x) ⊎ Among x ms)
same-insert_node x n [] = (λ a. a, λ a. a)
same-insert_node x n (m ∷ ms) = elim (Bool-cases (leb n.depth m.depth)) [
  | inl e ↦ rw e (
    (λ a. elim a [
      | inl q ↦ inr (inl q)
      | inr b ↦ elim ((same-insert_node x n ms).0 b) [ inl q ↦ inl q | inr c ↦ inr (inr c) ]
    ]),
    (λ a. elim a [
      | inl q ↦ inr ((same-insert_node x n ms).1 (inl q))
      | inr b ↦ elim b [ inl q ↦ inl q | inr c ↦ inr ((same-insert_node x n ms).1 (inr c)) ]
    ]),
  )
  | inr e ↦ rw e (λ a. a, λ a. a)
]

insert_node-IsDescending :
    (n : TemplateNode) (ms : List TemplateNode) → IsDescending ms → IsDescending (insert_node n ms)
insert_node-IsDescending n [] d = (λ m a. absurd a, tt)
insert_node-IsDescending n (m ∷ ms) (d, ds) = elim (Bool-cases (leb n.depth m.depth)) [
  | inl e ↦ rw e (
    (λ x a. elim ((same-insert_node x n ms).0 a) [
      | inl q ↦ subst (λ y. y.depth ≤ m.depth) q (ground arith)
      | inr b ↦ d x b
    ]),
    insert_node-IsDescending n ms ds,
  )
  | inr e ↦ rw e (
    (λ x a. elim a [
      | inl q ↦ subst (λ y. y.depth ≤ n.depth) q (ground arith)
      | inr b ↦ ground (arith, d x b)
    ]),
    (d, ds),
  )
]

same-by_depth : (x : TemplateNode) (ns : List TemplateNode) → Among x (by_depth ns) ↔ Among x ns
same-by_depth x [] = (λ a. a, λ a. a)
same-by_depth x (n ∷ ns) = (
  (λ a. elim ((same-insert_node x n (by_depth ns)).0 a) [
    | inl q ↦ inl q
    | inr b ↦ inr ((same-by_depth x ns).0 b)
  ]),
  (λ a. elim a [
    | inl q ↦ (same-insert_node x n (by_depth ns)).1 (inl q)
    | inr b ↦ (same-insert_node x n (by_depth ns)).1 (inr ((same-by_depth x ns).1 b))
  ]),
)

by_depth-IsDescending : (ns : List TemplateNode) → IsDescending (by_depth ns)
by_depth-IsDescending [] = tt
by_depth-IsDescending (n ∷ ns) = insert_node-IsDescending n (by_depth ns) (by_depth-IsDescending ns)

by_depth-IsSort : IsSort by_depth
by_depth-IsSort = record { same = same-by_depth; descending = by_depth-IsDescending }

abbrev global_macros : List (String × String)
global_macros = ("{$LINE_ROUTER_USERNAME}", "admin") ∷ ("{$LINE_ID}", "0") ∷ []

abbrev near : TemplateNode
near = record { id = "a"; depth = 1; macros = template_a.macros; parent_ids = "b" ∷ [] }

abbrev far : TemplateNode
far = record { id = "b"; depth = 2; macros = template_b.macros; parent_ids = "a" ∷ [] }

abbrev host_macros : List (String × String)
host_macros = ("{$LINE_ROUTER_PLATFORM}", "huawei_vrp") ∷ []

merge_macros-IsMerged_example :
    IsMerged by_depth by_depth-IsSort global_macros
      (near ∷ far ∷ [])
      host_macros
      (merge_macros by_depth global_macros (near ∷ far ∷ []) host_macros)
merge_macros-IsMerged_example =
    merge_macros-IsMerged by_depth by_depth-IsSort global_macros (near ∷ far ∷ []) host_macros

abbrev parser : Parser
parser = record { parse_int = λ s. if str_eq s "60" then some 60 else none }

abbrev sources : Sources
sources = record {
  template_get = zabbix;
  sort = by_depth;
  parser = parser;
  hasher = record { bytes = λ s. []; sum64 = λ bs. 0 };
}

abbrev linked_host : HostObject
linked_host = record { host = "10.0.0.1"; parent_templates = "a" ∷ []; macros = host_macros }

abbrev bare_host : HostObject
bare_host = record { host = "10.0.0.2"; parent_templates = []; macros = host_macros }
