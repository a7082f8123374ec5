-- ===== src/Connection/Health/Classify.antt =====
-- The kind of a health check's error, from its text: ClassifyHealthCheckError of
-- connection/health_manager.go, and classifyHealthCheckError of connection/pool_enhanced.go, which
-- the pool calls.
use zabbix_ddl_monitor.Base.{
  Bool, true, false, String, Option, none, some, List, [], ◌∷◌, ◌≡◌, refl, arith, ◌||◌,
  if◌then◌else◌, inl, inr, Bool-cases,
}
use zabbix_ddl_monitor.Base.Text.{Text, codes, text_eq, contains}

pub data HealthCheckErrorType : Type 0 where
  unknown_error timeout network auth command protocol : HealthCheckErrorType

abbrev has_any : List String → Text → Bool
has_any [] message = false
has_any (w ∷ ws) message =
    let rest = has_any ws message in if contains (codes w) message then true else rest

-- The switch that both share.
abbrev by_words : Text → HealthCheckErrorType
by_words message =
    if has_any ("timeout" ∷ "deadline" ∷ "context deadline exceeded" ∷ []) message
    then timeout
    else if has_any ("network" ∷ "connection" ∷ "reset by peer" ∷ "broken pipe" ∷ []) message
    then network
    else if has_any ("authentication" ∷ "password" ∷ "login" ∷ "auth" ∷ []) message
    then auth
    else if has_any ("command" ∷ "syntax" ∷ "invalid command" ∷ []) message
    then command
    else if has_any ("protocol" ∷ "unsupported" ∷ []) message
    then protocol
    else unknown_error

-- ClassifyHealthCheckError of the health manager; `none` is a nil error.
unfoldable pub classify_health_check_error : Option Text → HealthCheckErrorType
classify_health_check_error none = unknown_error
classify_health_check_error (some message) = by_words message

-- classifyHealthCheckError of the pool, which looks for the end of the connection first.
unfoldable pub classify_pool_error : Option Text → HealthCheckErrorType
classify_pool_error none = unknown_error
classify_pool_error (some message) =
    if text_eq message (codes "EOF") || contains (codes "EOF") message
    then network
    else by_words message

-- A text that is EOF has EOF in it.
text_eq-contains :
    (message : Text) → text_eq message (codes "EOF") ≡ true → contains (codes "EOF") message ≡ true
unfolding contains
text_eq-contains [] e = absurd (ground arith)
text_eq-contains (a ∷ []) e = ground arith
text_eq-contains (a ∷ b ∷ []) e = ground arith
text_eq-contains (a ∷ b ∷ c ∷ []) e = ground arith
text_eq-contains (a ∷ b ∷ c ∷ d ∷ s) e = ground arith

-- The two agree on every error without the word EOF.
pub classify_pool_error-without :
    (message : Text)
    → contains (codes "EOF") message ≡ false
    → classify_pool_error (some message) ≡ classify_health_check_error (some message)
unfolding classify_pool_error classify_health_check_error
classify_pool_error-without message h = elim (Bool-cases (text_eq message (codes "EOF"))) [
  | inl e ↦ absurd (ground (arith, text_eq-contains message e))
  | inr e ↦ neither (text_eq message (codes "EOF") || contains (codes "EOF") message) (ground arith)
]
  where
    neither : (b : Bool) → b ≡ false → (if b then network else by_words message) ≡ by_words message
    neither true q = absurd (ground arith)
    neither false q = refl
