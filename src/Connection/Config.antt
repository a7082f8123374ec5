-- ===== src/Connection/Config.antt =====
-- connection/config_enhanced.go: the configuration of a pool, its builder and Validate. Numbers and
-- durations are bit patterns of int and int64. Labels, metadata, extensions, the security settings,
-- the timeouts of stuck connections (which Pool.Cleanup has) and the fields of the nested settings
-- that Validate does not read are left out.
pub mod Checks
pub mod Validity
pub mod Builder
use zabbix_ddl_monitor.Base.{
  ℕ, ◌*◌, Bool, true, false, not, ◌&&◌, ◌||◌, String, Option, none, some, List, [], ◌∷◌, str_eq,
  if◌then◌else◌,
}
use zabbix_ddl_monitor.Base.Int64.{leb64, ltb64}

-- Go's float64: a literal by its numerator and denominator, and the test `<`.
pub record Floats : Type 1 where
  pub Float : Type 0
  pub literal : ℕ → ℕ → Float
  pub below : Float → Float → Bool

pub record SshConfig : Type 0 where
  pub auth_method : String
  pub compression_level : ℕ

pub record ScrapliConfig : Type 0 where
  pub transport_type : String
  pub comms_read_delay : ℕ
  pub timeout_ops_default : ℕ

pub record Config (F : Type 0) : Type 0 where
  pub host : String
  pub port : ℕ
  pub username : String
  pub password : String
  pub protocol : String
  pub platform : String
  pub connect_timeout : ℕ
  pub read_timeout : ℕ
  pub write_timeout : ℕ
  pub task_timeout : ℕ
  pub connection_max_retries : ℕ
  pub connection_retry_interval : ℕ
  pub connection_backoff_factor : F
  pub task_max_retries : ℕ
  pub task_retry_interval : ℕ
  pub task_backoff_factor : F
  pub max_connections : ℕ
  pub min_connections : ℕ
  pub max_idle_time : ℕ
  pub health_check_time : ℕ
  pub health_check_timeout : ℕ
  pub ssh_config : Option SshConfig
  pub scrapli_config : Option ScrapliConfig
  pub smart_rebuild_enabled : Bool
  pub rebuild_max_usage_count : ℕ
  pub rebuild_max_age : ℕ
  pub rebuild_max_error_rate : F
  pub rebuild_min_interval : ℕ
  pub rebuild_min_requests_for_error_rate : ℕ
  pub rebuild_strategy : String
  pub health_check_trigger_rebuild : Bool
  pub unhealthy_failure_threshold : ℕ
  pub degraded_failure_threshold : ℕ
  pub degraded_latency_threshold : ℕ
  pub unhealthy_threshold : ℕ
  pub degraded_threshold : ℕ
  pub rebuild_on_degraded : Bool
  pub rebuild_check_interval : ℕ
  pub rebuild_batch_size : ℕ
  pub rebuild_concurrency : ℕ

pub data ConfigError : Type 0 where
  host_required username_required password_required protocol_required platform_required port_range
        connect_timeout_positive max_connections_positive min_connections_negative min_above_max
        connection_retries_negative connection_backoff_low task_retries_negative task_backoff_low
        rebuild_usage_positive rebuild_age_positive rebuild_rate_range rebuild_interval_positive
        rebuild_requests_negative bad_strategy unhealthy_positive degraded_negative either_unhealthy
        either_degraded check_interval_positive batch_size_positive concurrency_positive
        bad_auth_method compression_range bad_transport read_delay_negative timeout_ops_positive :
      ConfigError

-- A sequence of `if … { return … }`: the error of the first test that holds.
abbrev pub first_failure : List (Bool × ConfigError) → Option ConfigError
first_failure [] = none
first_failure ((fails, e) ∷ checks) = if fails then some e else first_failure checks

abbrev pub or_else : Option ConfigError → Option ConfigError → Option ConfigError
or_else none b = b
or_else (some e) b = some e

-- The loops over the valid names, and the map of the valid strategies.
abbrev pub one_of : String → List String → Bool
one_of s [] = false
one_of s (n ∷ ns) = if str_eq s n then true else one_of s ns

-- SSHConfig.Validate, and below ScrapliConfig.Validate.
abbrev pub ssh_checks : SshConfig → List (Bool × ConfigError)
ssh_checks s =
    (
      not (str_eq s.auth_method "")
          && not (one_of s.auth_method ("password" ∷ "publickey" ∷ "keyboard-interactive" ∷ [])),
      bad_auth_method,
    )
    ∷ (ltb64 s.compression_level 0 || ltb64 9 s.compression_level, compression_range)
    ∷ []

unfoldable pub validate_ssh : SshConfig → Option ConfigError
validate_ssh s = first_failure (ssh_checks s)

abbrev pub scrapli_checks : ScrapliConfig → List (Bool × ConfigError)
scrapli_checks s =
    (
      not (str_eq s.transport_type "")
          && not (one_of s.transport_type ("system" ∷ "ssh2" ∷ "paramiko" ∷ [])),
      bad_transport,
    )
    ∷ (ltb64 s.comms_read_delay 0, read_delay_negative)
    ∷ (leb64 s.timeout_ops_default 0, timeout_ops_positive)
    ∷ []

unfoldable pub validate_scrapli : ScrapliConfig → Option ConfigError
validate_scrapli s = first_failure (scrapli_checks s)

abbrev pub if_given {ℓ} : {A : Type ℓ} → (A → Option ConfigError) → Option A → Option ConfigError
if_given f none = none
if_given f (some a) = f a

module _ (fl : Floats) where
  open fl use {Float, literal, below}

  abbrev pub basic_checks : Config Float → List (Bool × ConfigError)
  basic_checks c =
      (str_eq c.host "", host_required)
      ∷ (str_eq c.username "", username_required)
      ∷ (str_eq c.password "", password_required)
      ∷ (str_eq c.protocol "", protocol_required)
      ∷ (str_eq c.platform "", platform_required)
      ∷ (leb64 c.port 0 || ltb64 65535 c.port, port_range)
      ∷ (leb64 c.connect_timeout 0, connect_timeout_positive)
      ∷ (leb64 c.max_connections 0, max_connections_positive)
      ∷ (ltb64 c.min_connections 0, min_connections_negative)
      ∷ (ltb64 c.max_connections c.min_connections, min_above_max)
      ∷ (ltb64 c.connection_max_retries 0, connection_retries_negative)
      ∷ (below c.connection_backoff_factor (literal 1 1), connection_backoff_low)
      ∷ (ltb64 c.task_max_retries 0, task_retries_negative)
      ∷ (below c.task_backoff_factor (literal 1 1), task_backoff_low)
      ∷ []

  abbrev pub rebuild_checks : Config Float → List (Bool × ConfigError)
  rebuild_checks c =
      (leb64 c.rebuild_max_usage_count 0, rebuild_usage_positive)
      ∷ (leb64 c.rebuild_max_age 0, rebuild_age_positive)
      ∷ (
        below c.rebuild_max_error_rate (literal 0 1)
            || below (literal 1 1) c.rebuild_max_error_rate,
        rebuild_rate_range,
      )
      ∷ (leb64 c.rebuild_min_interval 0, rebuild_interval_positive)
      ∷ (ltb64 c.rebuild_min_requests_for_error_rate 0, rebuild_requests_negative)
      ∷ (
        not (one_of c.rebuild_strategy ("any" ∷ "all" ∷ "usage" ∷ "age" ∷ "error" ∷ [])),
        bad_strategy,
      )
      ∷ []

  abbrev pub health_checks : Config Float → List (Bool × ConfigError)
  health_checks c =
      (leb64 c.unhealthy_failure_threshold 0, unhealthy_positive)
      ∷ (ltb64 c.degraded_failure_threshold 0, degraded_negative)
      ∷ (leb64 c.unhealthy_threshold 0 && leb64 c.unhealthy_failure_threshold 0, either_unhealthy)
      ∷ (leb64 c.degraded_latency_threshold 0 && leb64 c.degraded_threshold 0, either_degraded)
      ∷ []

  abbrev pub batch_checks : Config Float → List (Bool × ConfigError)
  batch_checks c =
      (leb64 c.rebuild_check_interval 0, check_interval_positive)
      ∷ (leb64 c.rebuild_batch_size 0, batch_size_positive)
      ∷ (leb64 c.rebuild_concurrency 0, concurrency_positive)
      ∷ []

  abbrev pub validate_protocol : Config Float → Option ConfigError
  validate_protocol c =
      if str_eq c.protocol "ssh"
      then if_given validate_ssh c.ssh_config
      else if str_eq c.protocol "scrapli"
      then if_given validate_scrapli c.scrapli_config
      else none

  -- Validate; `none` is no error.
  unfoldable pub validate : Config Float → Option ConfigError
  unfolding validate_ssh validate_scrapli
  validate c = or_else (first_failure (basic_checks c)) (
      or_else (if c.smart_rebuild_enabled then first_failure (rebuild_checks c) else none) (
        or_else (if c.health_check_trigger_rebuild then first_failure (health_checks c) else none)
          (or_else (first_failure (batch_checks c)) (validate_protocol c))))
