-- ===== src/Task/Aggregator/Json.antt =====
-- JSONFileHandler.HandleResult of task/aggregator.go: the handler's mutex over the loop.
use zabbix_ddl_monitor.Base.{
  ◌≤◌, Bool, true, false, List, [], ◌∷◌, ◌≡◌, arith, length, if◌then◌else◌, ◌↔◌,
}
use zabbix_ddl_monitor.Task.Aggregator.{ResultEvent}

-- `blocks`: the goroutine waits for a mutex that it holds itself, for ever.
pub data JsonOutcome : Type 0 where
  done marshal_failed blocks : JsonOutcome

-- The loop. The deferred Unlock runs when HandleResult returns, not at the end of a turn. `marshal`
-- says whether json.MarshalIndent has no error.
unfoldable pub handle_from :
    {D : Type 0} → (ResultEvent D → Bool) → Bool → List (ResultEvent D) → JsonOutcome
handle_from marshal is_locked [] = done
handle_from marshal is_locked (e ∷ es) =
    let rest = handle_from marshal true es in
    if is_locked then blocks else if marshal e then rest else marshal_failed

-- JSONFileHandler.HandleResult
unfoldable pub handle_result :
    {D : Type 0} → (ResultEvent D → Bool) → List (ResultEvent D) → JsonOutcome
handle_result marshal events = handle_from marshal false events

-- JSONFileHandler.HandleResult waits for ever exactly on the batches of two events or more whose
-- first event can be marshalled.
pub handle_result-blocks :
    {D : Type 0} (marshal : ResultEvent D → Bool) (e : ResultEvent D) (es : List (ResultEvent D))
    → (handle_result marshal (e ∷ es) ≡ blocks) ↔ ((marshal e ≡ true) × (1 ≤ length es))
unfolding handle_result handle_from
handle_result-blocks marshal e [] = ground arith
handle_result-blocks marshal e (f ∷ es) = ground arith
