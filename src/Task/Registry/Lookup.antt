-- ===== src/Task/Registry/Lookup.antt =====
-- What Register and Discover of task/registry.go find.
use zabbix_ddl_monitor.Base.{
  ◌&&◌, String, Option, none, some, List, [], ◌∷◌, ◌++◌, str_eq, eq_iff, ◌≡◌, refl, arith,
  if◌then◌else◌, Option-cases, inl, inr,
}
use zabbix_ddl_monitor.Base.Map.{lookup, lookup-insert}
use zabbix_ddl_monitor.Task.Registry.{
  CommandTypeSupport, ProtocolSupport, PlatformSupport, TaskMeta, Registry, register, find_command,
  or_else, find_protocol, find_platform, discovery, discover,
}

unfoldable pub register_all : {T : Type 0} → List (TaskMeta T) → Registry T → Registry T
register_all [] r = r
register_all (m ∷ ms) r = register_all ms (register m r).1

-- One way to run a task, as a row of the table that the nested lists describe.
pub record Offer (T : Type 0) : Type 0 where
  pub platform : String
  pub protocol : String
  pub command_type : String
  pub task : T

abbrev pub command_offers :
    {T : Type 0} → String → String → List (CommandTypeSupport T) → List (Offer T)
command_offers pl pr [] = []
command_offers pl pr (x ∷ xs) =
    record { platform = pl; protocol = pr; command_type = x.command_type; task = x.impl_factory }
    ∷ command_offers pl pr xs

abbrev pub protocol_offers : {T : Type 0} → String → List (ProtocolSupport T) → List (Offer T)
protocol_offers pl [] = []
protocol_offers pl (x ∷ xs) = command_offers pl x.protocol x.command_types ++ protocol_offers pl xs

abbrev pub offers : {T : Type 0} → List (PlatformSupport T) → List (Offer T)
offers [] = []
offers (x ∷ xs) = protocol_offers x.platform x.protocols ++ offers xs

-- The task of the first row for the platform, the protocol and the command type.
abbrev pub first_offer : {T : Type 0} → String → String → String → List (Offer T) → Option T
first_offer pl pr c [] = none
first_offer pl pr c (o ∷ os) =
    if str_eq o.platform pl && (str_eq o.protocol pr && str_eq o.command_type c)
    then some o.task
    else first_offer pl pr c os

first_offer-append :
    {T : Type 0} (pl pr c : String) (os qs : List (Offer T))
    → first_offer pl pr c (os ++ qs) ≡ or_else (first_offer pl pr c os) (first_offer pl pr c qs)
first_offer-append pl pr c [] qs = refl
first_offer-append pl pr c (o ∷ os) qs = ground (arith, first_offer-append pl pr c os qs)

first_offer-command_offers :
    {T : Type 0} (pl pr c ql qr : String) (xs : List (CommandTypeSupport T))
    → first_offer pl pr c (command_offers ql qr xs)
      ≡ (if str_eq ql pl && str_eq qr pr then find_command c xs else none)
unfolding find_command
first_offer-command_offers pl pr c ql qr [] = ground arith
first_offer-command_offers pl pr c ql qr (x ∷ xs) =
    ground (arith, first_offer-command_offers pl pr c ql qr xs)

first_offer-protocol_offers :
    {T : Type 0} (pl pr c ql : String) (xs : List (ProtocolSupport T))
    → first_offer pl pr c (protocol_offers ql xs)
      ≡ (if str_eq ql pl then find_protocol pr c xs else none)
unfolding find_protocol
first_offer-protocol_offers pl pr c ql [] = ground arith
first_offer-protocol_offers pl pr c ql (x ∷ xs) = ground (
  arith,
  first_offer-append pl pr c (command_offers ql x.protocol x.command_types) (protocol_offers ql xs),
  first_offer-command_offers pl pr c ql x.protocol x.command_types,
  first_offer-protocol_offers pl pr c ql xs,
)

find_platform-first_offer :
    {T : Type 0} (pl pr c : String) (xs : List (PlatformSupport T))
    → find_platform pl pr c xs ≡ first_offer pl pr c (offers xs)
unfolding find_platform
find_platform-first_offer pl pr c [] = refl
find_platform-first_offer pl pr c (x ∷ xs) = ground (
  arith,
  first_offer-append pl pr c (protocol_offers x.platform x.protocols) (offers xs),
  first_offer-protocol_offers pl pr c x.platform x.protocols,
  find_platform-first_offer pl pr c xs,
)

-- Discover, for a task type that is registered, finds the first entry of the type's table for the
-- platform, the protocol and the command type, and reports no match if there is none.
pub discover-first_offer :
    {T : Type 0} (t pl pr c : String) (r : Registry T) (m : TaskMeta T)
    → lookup t r ≡ some m
    → discover t pl pr c r ≡ discovery (first_offer pl pr c (offers m.platforms))
unfolding discover
discover-first_offer t pl pr c r m h = ground (arith, find_platform-first_offer pl pr c m.platforms)

lookup-register :
    {T : Type 0} (t : String) (m n : TaskMeta T) (r : Registry T)
    → lookup t r ≡ some m
    → lookup t (register n r).1 ≡ some m
unfolding register
lookup-register t m n r h = elim (Option-cases (lookup n.task_type r)) [
  | inl k ↦ ground (arith, eq_iff n.task_type t, lookup-insert n.task_type t n r)
  | inr (o, k) ↦ ground arith
]

-- Once a task type is registered, no later Register changes what is registered for it.
pub first_registration_wins :
    {T : Type 0} (t : String) (m : TaskMeta T) (ns : List (TaskMeta T)) (r : Registry T)
    → lookup t r ≡ some m
    → lookup t (register_all ns r) ≡ some m
unfolding register_all
first_registration_wins t m [] r h = h
first_registration_wins t m (n ∷ ns) r h =
    first_registration_wins t m ns (register n r).1 (lookup-register t m n r h)
