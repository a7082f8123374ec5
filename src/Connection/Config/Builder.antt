-- ===== src/Connection/Config/Builder.antt =====
-- connection/config_enhanced.go: the builder of configurations. Its methods for security settings,
-- labels and metadata set fields that the model leaves out.
pub mod Calls
pub mod Keeping
use zabbix_ddl_monitor.Base.{ℕ, ◌*◌, Bool, true, false, String, Option, none, some, if◌then◌else◌}
use zabbix_ddl_monitor.Base.Int64.{ltb64}
use zabbix_ddl_monitor.Connection.Config.{
  Floats, SshConfig, ScrapliConfig, Config, ConfigError, validate,
}

-- `if new > 0 { field = new }`
abbrev pub positive_or : ℕ → ℕ → ℕ
positive_or new old = if ltb64 0 new then new else old

module _ (fl : Floats) where
  open fl use {Float, literal, below}

  -- NewConfigBuilder
  unfoldable pub new_config : Config Float
  new_config = record {
    host = "";
    port = 22;
    username = "";
    password = "";
    protocol = "";
    platform = "";
    connect_timeout = 30 * 1000000000;
    read_timeout = 30 * 1000000000;
    write_timeout = 10 * 1000000000;
    task_timeout = 60 * 1000000000;
    connection_max_retries = 2;
    connection_retry_interval = 2 * 1000000000;
    connection_backoff_factor = literal 3 2;
    task_max_retries = 1;
    task_retry_interval = 500 * 1000000;
    task_backoff_factor = literal 3 2;
    max_connections = 5;
    min_connections = 2;
    max_idle_time = 120 * 1000000000;
    health_check_time = 30 * 1000000000;
    health_check_timeout = 5 * 1000000000;
    ssh_config = none;
    scrapli_config = none;
    smart_rebuild_enabled = true;
    rebuild_max_usage_count = 200;
    rebuild_max_age = 1800 * 1000000000;
    rebuild_max_error_rate = literal 1 5;
    rebuild_min_interval = 300 * 1000000000;
    rebuild_min_requests_for_error_rate = 10;
    rebuild_strategy = "any";
    health_check_trigger_rebuild = true;
    unhealthy_failure_threshold = 3;
    degraded_failure_threshold = 1;
    degraded_latency_threshold = 10 * 1000000000;
    unhealthy_threshold = 3;
    degraded_threshold = 10 * 1000000000;
    rebuild_on_degraded = false;
    rebuild_check_interval = 300 * 1000000000;
    rebuild_batch_size = 2;
    rebuild_concurrency = 2;
  }

  unfoldable pub with_basic_auth : String → String → String → Config Float → Config Float
  with_basic_auth host username password c = record c {
    host = host;
    username = username;
    password = password;
  }

  unfoldable pub with_protocol : String → String → Config Float → Config Float
  with_protocol protocol platform c = record c { protocol = protocol; platform = platform }

  unfoldable pub with_timeouts : ℕ → ℕ → ℕ → ℕ → Config Float → Config Float
  with_timeouts connect read write task c = record c {
    connect_timeout = positive_or connect c.connect_timeout;
    read_timeout = positive_or read c.read_timeout;
    write_timeout = positive_or write c.write_timeout;
    task_timeout = positive_or task c.task_timeout;
  }

  unfoldable pub with_connection_retry_policy : ℕ → ℕ → Float → Config Float → Config Float
  with_connection_retry_policy retries interval backoff c = record c {
    connection_max_retries = retries;
    connection_retry_interval = interval;
    connection_backoff_factor = backoff;
  }

  unfoldable pub with_task_retry_policy : ℕ → ℕ → Float → Config Float → Config Float
  with_task_retry_policy retries interval backoff c = record c {
    task_max_retries = retries;
    task_retry_interval = interval;
    task_backoff_factor = backoff;
  }

  unfoldable pub with_connection_pool : ℕ → ℕ → ℕ → ℕ → Config Float → Config Float
  with_connection_pool max min max_idle health_check c = record c {
    max_connections = max;
    min_connections = min;
    max_idle_time = max_idle;
    health_check_time = health_check;
  }

  unfoldable pub with_health_check_timeout : ℕ → Config Float → Config Float
  with_health_check_timeout timeout c = record c { health_check_timeout = timeout }

  unfoldable pub with_smart_rebuild : Bool → ℕ → ℕ → Float → ℕ → Config Float → Config Float
  with_smart_rebuild enabled usage age rate requests c = record c {
    smart_rebuild_enabled = enabled;
    rebuild_max_usage_count = positive_or usage c.rebuild_max_usage_count;
    rebuild_max_age = positive_or age c.rebuild_max_age;
    rebuild_max_error_rate = if below (literal 0 1) rate then rate else c.rebuild_max_error_rate;
    rebuild_min_requests_for_error_rate =
        positive_or requests c.rebuild_min_requests_for_error_rate;
  }

  unfoldable pub with_ssh_config : Option SshConfig → Config Float → Config Float
  with_ssh_config ssh c = record c { ssh_config = ssh }

  unfoldable pub with_scrapli_config : Option ScrapliConfig → Config Float → Config Float
  with_scrapli_config scrapli c = record c { scrapli_config = scrapli }

  abbrev pub unless_failed : Config Float → Option ConfigError → Option (Config Float)
  unless_failed c none = some c
  unless_failed c (some e) = none

  -- Build
  unfoldable pub build : Config Float → Option (Config Float)
  unfolding validate
  build c = unless_failed c (validate fl c)
