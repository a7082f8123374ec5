-- ===== src/Connection/Config/Builder/Calls.antt =====
-- Sequences of calls of the builder in connection/config_enhanced.go.
use zabbix_ddl_monitor.Base.{ℕ, ◌≤◌, Bool, true, false, Option, List, [], ◌∷◌, ◌≡◌}
use zabbix_ddl_monitor.Base.Int64.{rank}
use zabbix_ddl_monitor.Connection.Config.{Floats, SshConfig, ScrapliConfig, Config}
use zabbix_ddl_monitor.Connection.Config.Checks.{
  IsPositive, IsNonnegative, IsValidSsh, IsValidScrapli,
}
use zabbix_ddl_monitor.Connection.Config.Builder.{
  with_timeouts, with_connection_retry_policy, with_task_retry_policy, with_connection_pool,
  with_health_check_timeout, with_smart_rebuild, with_ssh_config, with_scrapli_config,
}

module _ (fl : Floats) where
  open fl use {Float, literal, below}

  -- What is relied on of float64: `<` on the literals of the defaults, and that it is asymmetric.
  pub record IsOrdered : Type 0 where
    pub one_and_a_half : below (literal 3 2) (literal 1 1) ≡ false
    pub fifth_positive : below (literal 1 5) (literal 0 1) ≡ false
    pub fifth_small : below (literal 1 1) (literal 1 5) ≡ false
    pub asymmetric : (a b : Float) → below a b ≡ true → below b a ≡ false

  -- The calls of the builder, in any order.
  pub data Call : Type 0 where
    timeouts : ℕ → ℕ → ℕ → ℕ → Call
    connection_retries task_retries : ℕ → ℕ → Float → Call
    connection_pool : ℕ → ℕ → ℕ → ℕ → Call
    health_check_timeout : ℕ → Call
    smart_rebuild : Bool → ℕ → ℕ → Float → ℕ → Call
    ssh : Option SshConfig → Call
    scrapli : Option ScrapliConfig → Call

  abbrev pub apply : Call → Config Float → Config Float
  apply (timeouts c r w t) = with_timeouts fl c r w t
  apply (connection_retries n i b) = with_connection_retry_policy fl n i b
  apply (task_retries n i b) = with_task_retry_policy fl n i b
  apply (connection_pool max min i h) = with_connection_pool fl max min i h
  apply (health_check_timeout t) = with_health_check_timeout fl t
  apply (smart_rebuild e u a r m) = with_smart_rebuild fl e u a r m
  apply (ssh s) = with_ssh_config fl s
  apply (scrapli s) = with_scrapli_config fl s

  abbrev pub apply_all : List Call → Config Float → Config Float
  apply_all [] c = c
  apply_all (call ∷ calls) c = apply_all calls (apply call c)

  -- What a call must see to itself; timeouts, and the numbers of a smart rebuild, may be anything.
  abbrev pub IsSafe : Call → Type 0
  IsSafe (connection_retries n i b) = IsNonnegative n × (below b (literal 1 1) ≡ false)
  IsSafe (task_retries n i b) = IsNonnegative n × (below b (literal 1 1) ≡ false)
  IsSafe (connection_pool max min i h) = IsPositive max × IsNonnegative min × (rank min ≤ rank max)
  IsSafe (smart_rebuild e u a r m) = below (literal 1 1) r ≡ false
  IsSafe (ssh s) = IsValidSsh s
  IsSafe (scrapli s) = IsValidScrapli s
  IsSafe _ = Unit {0}

  abbrev pub AreSafe : List Call → Type 0
  AreSafe [] = Unit {0}
  AreSafe (call ∷ calls) = IsSafe call × AreSafe calls
