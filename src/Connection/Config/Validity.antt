-- ===== src/Connection/Config/Validity.antt =====
-- The configurations that Validate in connection/config_enhanced.go accepts.
use zabbix_ddl_monitor.Base.{
  ◌≤◌, ◌<◌, ◌%◌, Bool, true, false, not, ◌&&◌, ◌||◌, String, Option, none, [], ◌∷◌, str_eq, eq_iff,
  Among, ◌≡◌, ◌≢◌, ◌↔◌, inl, inr, refl, sym, ◌∙◌, arith, Bool-cases, if◌then◌else◌,
}
use zabbix_ddl_monitor.Base.Int64.{rank, leb64, word}
use zabbix_ddl_monitor.Connection.Config.{
  Floats, SshConfig, ScrapliConfig, Config, first_failure, one_of, validate_ssh, validate_scrapli,
  if_given, basic_checks, rebuild_checks, health_checks, batch_checks, validate_protocol, validate,
}
use zabbix_ddl_monitor.Connection.Config.Checks.{
  IsPositive, IsNonnegative, IsPositive-iff, IsNonnegative-iff, All, first_failure_iff, one_of_iff,
  IsValidSsh, IsValidScrapli, chain_iff, both_iff, last_iff, alone_iff, or_else_iff, enabled_iff,
  set_iff, pass_iff, validate_ssh_iff, validate_scrapli_iff, port_iff, order_iff,
}

module _ (fl : Floats) where
  open fl use {Float, literal, below}

  abbrev pub IsBasic : Config Float → Type 0
  IsBasic c = All (
      (c.host ≢ "")
      ∷ (c.username ≢ "")
      ∷ (c.password ≢ "")
      ∷ (c.protocol ≢ "")
      ∷ (c.platform ≢ "")
      ∷ ((0 < c.port % word) × (c.port % word ≤ 65535))
      ∷ (IsPositive c.connect_timeout)
      ∷ (IsPositive c.max_connections)
      ∷ (IsNonnegative c.min_connections)
      ∷ (rank c.min_connections ≤ rank c.max_connections)
      ∷ (IsNonnegative c.connection_max_retries)
      ∷ (below c.connection_backoff_factor (literal 1 1) ≡ false)
      ∷ (IsNonnegative c.task_max_retries)
      ∷ (below c.task_backoff_factor (literal 1 1) ≡ false)
      ∷ [])

  abbrev pub HasRebuild : Config Float → Type 0
  HasRebuild c = All (
      (IsPositive c.rebuild_max_usage_count)
      ∷ (IsPositive c.rebuild_max_age)
      ∷ ((below c.rebuild_max_error_rate (literal 0 1)
            || below (literal 1 1) c.rebuild_max_error_rate)
          ≡ false)
      ∷ (IsPositive c.rebuild_min_interval)
      ∷ (IsNonnegative c.rebuild_min_requests_for_error_rate)
      ∷ (Among c.rebuild_strategy ("any" ∷ "all" ∷ "usage" ∷ "age" ∷ "error" ∷ []))
      ∷ [])

  abbrev pub HasHealth : Config Float → Type 0
  HasHealth c = All (
      (IsPositive c.unhealthy_failure_threshold)
      ∷ (IsNonnegative c.degraded_failure_threshold)
      ∷ ((leb64 c.unhealthy_threshold 0 && leb64 c.unhealthy_failure_threshold 0) ≡ false)
      ∷ ((leb64 c.degraded_latency_threshold 0 && leb64 c.degraded_threshold 0) ≡ false)
      ∷ [])

  abbrev pub HasBatches : Config Float → Type 0
  HasBatches c = All (
      (IsPositive c.rebuild_check_interval)
      ∷ (IsPositive c.rebuild_batch_size)
      ∷ (IsPositive c.rebuild_concurrency)
      ∷ [])

  abbrev pub HasProtocol : Config Float → Type 0
  HasProtocol c =
      (c.protocol ≡ "ssh" → IsValidSsh c.ssh_config)
      × (c.protocol ≡ "scrapli" → IsValidScrapli c.scrapli_config)

  -- What a configuration must have.
  abbrev pub IsValid : Config Float → Type 0
  IsValid c = All (
      IsBasic c
      ∷ (c.smart_rebuild_enabled ≡ true → HasRebuild c)
      ∷ (c.health_check_trigger_rebuild ≡ true → HasHealth c)
      ∷ HasBatches c
      ∷ HasProtocol c
      ∷ [])

  IsBasic-iff : (c : Config Float) → (first_failure (basic_checks fl c) ≡ none) ↔ IsBasic c
  IsBasic-iff c = chain_iff (first_failure_iff (basic_checks fl c)) (
      both_iff (set_iff c.host) (
        both_iff (set_iff c.username) (
          both_iff (set_iff c.password) (
            both_iff (set_iff c.protocol) (
              both_iff (set_iff c.platform) (
                both_iff (port_iff c.port) (
                  both_iff (IsPositive-iff c.connect_timeout) (
                    both_iff (IsPositive-iff c.max_connections) (
                      both_iff (IsNonnegative-iff c.min_connections) (
                        both_iff (order_iff c.max_connections c.min_connections) (
                          both_iff (IsNonnegative-iff c.connection_max_retries) (
                            both_iff (pass_iff _) (
                              both_iff (IsNonnegative-iff c.task_max_retries)
                                (last_iff (pass_iff _)))))))))))))))

  rebuild_iff : (c : Config Float) → (first_failure (rebuild_checks fl c) ≡ none) ↔ HasRebuild c
  rebuild_iff c = chain_iff (first_failure_iff (rebuild_checks fl c)) (
      both_iff (IsPositive-iff c.rebuild_max_usage_count) (
        both_iff (IsPositive-iff c.rebuild_max_age) (
          both_iff (pass_iff _) (
            both_iff (IsPositive-iff c.rebuild_min_interval) (
              both_iff (IsNonnegative-iff c.rebuild_min_requests_for_error_rate)
                (last_iff (strategy_iff c.rebuild_strategy)))))))
    where
      strategy_iff :
          (s : String)
          → (not (one_of s ("any" ∷ "all" ∷ "usage" ∷ "age" ∷ "error" ∷ [])) ≡ false)
            ↔ Among s ("any" ∷ "all" ∷ "usage" ∷ "age" ∷ "error" ∷ [])
      strategy_iff s =
          chain_iff (negated (one_of s ("any" ∷ "all" ∷ "usage" ∷ "age" ∷ "error" ∷ [])))
            (one_of_iff s ("any" ∷ "all" ∷ "usage" ∷ "age" ∷ "error" ∷ []))
        where
          negated : (b : Bool) → (not b ≡ false) ↔ (b ≡ true)
          negated b = ground arith

  health_iff : (c : Config Float) → (first_failure (health_checks fl c) ≡ none) ↔ HasHealth c
  health_iff c = chain_iff (first_failure_iff (health_checks fl c)) (
      both_iff (IsPositive-iff c.unhealthy_failure_threshold) (
        both_iff (IsNonnegative-iff c.degraded_failure_threshold)
          (both_iff (pass_iff _) (last_iff (pass_iff _)))))

  batch_iff : (c : Config Float) → (first_failure (batch_checks fl c) ≡ none) ↔ HasBatches c
  batch_iff c = chain_iff (first_failure_iff (batch_checks fl c)) (
      both_iff (IsPositive-iff c.rebuild_check_interval) (
        both_iff (IsPositive-iff c.rebuild_batch_size)
          (last_iff (IsPositive-iff c.rebuild_concurrency))))

  protocol_iff : (c : Config Float) → (validate_protocol fl c ≡ none) ↔ HasProtocol c
  protocol_iff c = by_protocol c.protocol c.ssh_config c.scrapli_config
    where
      by_protocol :
          (p : String) (ssh : Option SshConfig) (scrapli : Option ScrapliConfig)
          → ((if str_eq p "ssh"
                then if_given validate_ssh ssh
                else if str_eq p "scrapli"
                then if_given validate_scrapli scrapli
                else none)
              ≡ none)
            ↔ ((p ≡ "ssh" → IsValidSsh ssh) × (p ≡ "scrapli" → IsValidScrapli scrapli))
      by_protocol p ssh scrapli = elim (Bool-cases (str_eq p "ssh")) [
        | inl e ↦ rw e (
          (λ h. (
            λ q. (validate_ssh_iff ssh).0 h,
            λ q.
                absurd
                  (ground (arith, (eq_iff "ssh" "scrapli").1 (sym ((eq_iff p "ssh").0 e) ∙ q))),
          )),
          (λ (h, k). (validate_ssh_iff ssh).1 (h ((eq_iff p "ssh").0 e))),
        )
        | inr e ↦ rw e (elim (Bool-cases (str_eq p "scrapli")) [
          | inl f ↦ rw f (
            (λ h. (
              λ q. absurd (ground (arith, (eq_iff p "ssh").1 q)),
              λ q. (validate_scrapli_iff scrapli).0 h,
            )),
            (λ (h, k). (validate_scrapli_iff scrapli).1 (k ((eq_iff p "scrapli").0 f))),
          )
          | inr f ↦ rw f (
            (λ h. (
              λ q. absurd (ground (arith, (eq_iff p "ssh").1 q)),
              λ q. absurd (ground (arith, (eq_iff p "scrapli").1 q)),
            )),
            (λ k. refl),
          )
        ])
      ]

  -- Validate accepts a configuration exactly when its host, user, password, protocol and platform are
  -- not empty, whatever else they are, in spite of the struct's tags, its port, sizes, times, counts and factors are in their ranges, the settings of rebuilds
  -- and of health checks are where they are turned on, and the settings of its protocol are.
  pub validate_iff : (c : Config Float) → (validate fl c ≡ none) ↔ IsValid c
  unfolding validate
  validate_iff c = chain_iff (or_else_iff _ _) (
      both_iff (IsBasic-iff c) (
        chain_iff (or_else_iff _ _) (
          both_iff (enabled_iff c.smart_rebuild_enabled _ (rebuild_iff c)) (
            chain_iff (or_else_iff _ _) (
              both_iff (enabled_iff c.health_check_trigger_rebuild _ (health_iff c)) (
                chain_iff (or_else_iff _ _)
                  (both_iff (batch_iff c) (alone_iff (protocol_iff c)))))))))
