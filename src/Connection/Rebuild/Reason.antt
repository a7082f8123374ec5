-- ===== src/Connection/Rebuild/Reason.antt =====
-- connection/rebuild_manager.go: GetRebuildReason, the text that says why a connection is due, as
-- the values that it prints.
use zabbix_ddl_monitor.Base.{
  ℕ, ◌-◌, Bool, true, false, List, [], ◌∷◌, ◌≡◌, arith, ◌&&◌, ◌||◌, if◌then◌else◌,
}
use zabbix_ddl_monitor.Base.Int64
use zabbix_ddl_monitor.Connection.Conn.{Conn}
use zabbix_ddl_monitor.Connection.Float.{Float64}
use zabbix_ddl_monitor.Connection.Rebuild.{
  Strategy, usage, age, error, all, any, RebuildConfig, usage_exceeded, age_is_exceeded,
  rate_exceeded, error_condition,
}
use zabbix_ddl_monitor.Connection.Rebuild.Decision.{asks}

-- A condition with what it prints: the use; the age; the requests and the errors among them.
pub data Part : Type 0 where
  used aged : ℕ → Part
  failed : ℕ → ℕ → Part

-- The main reason, several joined, or the empty string.
pub data Reason : Type 0 where
  main : Part → Reason
  joined : Part → List Part → Reason
  empty : Reason

abbrev add_if : Bool → Part → List Part → List Part
add_if b p ps = if b then p ∷ ps else ps

abbrev join : List Part → Reason
join [] = empty
join (p ∷ ps) = joined p ps

abbrev pub is_given : Reason → Bool
is_given empty = false
is_given (main p) = true
is_given (joined p ps) = true

module _ (fl : Float64) (cfg : RebuildConfig (fl.Float)) where
  -- The second look at the error rate, which does not ask whether there are requests.
  abbrev pub late_rate : Conn → Bool
  late_rate c =
      Int64.leb64 cfg.rebuild_min_requests_for_error_rate c.total_requests && rate_exceeded fl cfg c

  -- The list that is made when no condition was found at the first look.
  unfoldable pub reasons : Conn → ℕ → List Part
  reasons c now = add_if (usage_exceeded fl cfg c) (used c.usage_count) (
      add_if (age_is_exceeded fl cfg c now) (aged (now - c.created_at))
        (add_if (late_rate c) (failed c.total_requests c.total_errors) []))

  -- GetRebuildReason
  unfoldable pub get_rebuild_reason : Conn → ℕ → Reason
  unfolding reasons
  get_rebuild_reason c now =
      if usage_exceeded fl cfg c
      then main (used c.usage_count)
      else if age_is_exceeded fl cfg c now
      then main (aged (now - c.created_at))
      else if error_condition fl cfg c
      then main (failed c.total_requests c.total_errors)
      else join (reasons c now)

  -- A reason is given exactly if the use or the age is too great, or the error rate is and enough
  -- requests were seen, even if none of them ran; so there is one whenever the strategy `any` asks
  -- for a rebuild.
  pub get_rebuild_reason_iff :
      (c : Conn) (now : ℕ)
      → is_given (get_rebuild_reason c now)
        ≡ (usage_exceeded fl cfg c || (age_is_exceeded fl cfg c now || late_rate c))
  unfolding get_rebuild_reason reasons error_condition
  get_rebuild_reason_iff c now = ground arith

  -- Whatever strategy asks for a rebuild, a reason is given.
  pub asked_is_given :
      (strategy : Strategy) (c : Conn) (now : ℕ)
      → asks fl cfg strategy c now ≡ true
      → is_given (get_rebuild_reason c now) ≡ true
  asked_is_given usage c now h = grind (arith, get_rebuild_reason_iff c now)
  asked_is_given age c now h = grind (arith, get_rebuild_reason_iff c now)
  asked_is_given error c now h = grind (arith, get_rebuild_reason_iff c now)
  asked_is_given all c now h = grind (arith, get_rebuild_reason_iff c now)
  asked_is_given any c now h = grind (arith, get_rebuild_reason_iff c now)
