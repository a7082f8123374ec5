-- ===== src/Task/Registry.antt =====
-- task/registry.go: the registry of task types, a map under a lock, and its lookups.
pub mod Lookup
use zabbix_ddl_monitor.Base.{
  ℕ, Bool, true, false, ◌||◌, ◌≢◌, String, Option, none, some, List, [], ◌∷◌, str_eq, eq_iff, ◌≡◌,
  refl, arith, if◌then◌else◌, Option-cases, inl, inr,
}
use zabbix_ddl_monitor.Base.Map.{Map, lookup, insert, lookup-insert}

-- `T` is what an ImplFactory makes, a Task. ParamSpec is not read by the registry.
pub record CommandTypeSupport (T : Type 0) : Type 0 where
  pub command_type : String
  pub impl_factory : T

pub record ProtocolSupport (T : Type 0) : Type 0 where
  pub protocol : String
  pub command_types : List (CommandTypeSupport T)

pub record PlatformSupport (T : Type 0) : Type 0 where
  pub platform : String
  pub protocols : List (ProtocolSupport T)

pub record TaskMeta (T : Type 0) : Type 0 where
  pub task_type : String
  pub description : String
  pub platforms : List (PlatformSupport T)

abbrev pub Registry : Type 0 → Type 0
Registry T = Map (TaskMeta T)

pub data Registration : Type 0 where
  registered already_registered : Registration

-- Register
unfoldable pub register : {T : Type 0} → TaskMeta T → Registry T → Registration × Registry T
register meta r = elim (lookup meta.task_type r) [
  | some m ↦ (already_registered, r)
  | none ↦ (registered, insert meta.task_type meta r)
]

pub data Discovery (T : Type 0) : Type 0 where
  found : T → Discovery T
  type_not_found no_match : Discovery T

-- The three loops of Discover, from the inside: a loop that finds no command type goes on with the
-- next protocol or platform.
unfoldable pub find_command : {T : Type 0} → String → List (CommandTypeSupport T) → Option T
find_command c [] = none
find_command c (x ∷ xs) =
    let rest = find_command c xs in if str_eq x.command_type c then some x.impl_factory else rest

abbrev pub or_else : {T : Type 0} → Option T → Option T → Option T
or_else (some t) o = some t
or_else none o = o

unfoldable pub find_protocol : {T : Type 0} → String → String → List (ProtocolSupport T) → Option T
find_protocol pr c [] = none
find_protocol pr c (x ∷ xs) =
    let rest = find_protocol pr c xs in
    if str_eq x.protocol pr then or_else (find_command c x.command_types) rest else rest

unfoldable pub find_platform :
    {T : Type 0} → String → String → String → List (PlatformSupport T) → Option T
find_platform pl pr c [] = none
find_platform pl pr c (x ∷ xs) =
    let rest = find_platform pl pr c xs in
    if str_eq x.platform pl then or_else (find_protocol pr c x.protocols) rest else rest

-- Discover
abbrev pub discovery : {T : Type 0} → Option T → Discovery T
discovery (some t) = found t
discovery none = no_match

unfoldable pub discover :
    {T : Type 0} → String → String → String → String → Registry T → Discovery T
discover t pl pr c r = elim (lookup t r) [
  | none ↦ type_not_found
  | some m ↦ discovery (find_platform pl pr c m.platforms)
]

unfoldable pub supports : {T : Type 0} → String → List (PlatformSupport T) → Bool
supports pl [] = false
supports pl (x ∷ xs) = if str_eq x.platform pl then true else supports pl xs

-- ListPlatforms; the order of the result is the map's.
unfoldable pub list_platforms : {T : Type 0} → String → Registry T → List String
list_platforms pl [] = []
list_platforms pl ((t, m) ∷ r) =
    let rest = list_platforms pl r in if supports pl m.platforms then t ∷ rest else rest
