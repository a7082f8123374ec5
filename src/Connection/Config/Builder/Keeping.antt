-- ===== src/Connection/Config/Builder/Keeping.antt =====
-- The builder of connection/config_enhanced.go and Validate: which calls keep a configuration valid.
use zabbix_ddl_monitor.Base.{
  ℕ, false, ◌||◌, String, none, some, List, [], ◌∷◌, ◌≡◌, ◌≢◌, inl, inr, refl, arith, Bool-cases,
  if◌then◌else◌,
}
use zabbix_ddl_monitor.Connection.Config.{Floats, Config, validate}
use zabbix_ddl_monitor.Connection.Config.Checks.{
  IsPositive, IsNonnegative, IsValidSsh, IsValidScrapli,
}
use zabbix_ddl_monitor.Connection.Config.Validity.{
  IsBasic, HasRebuild, HasHealth, HasBatches, IsValid, validate_iff,
}
use zabbix_ddl_monitor.Connection.Config.Builder.{
  new_config, positive_or, with_basic_auth, with_protocol, with_timeouts,
  with_connection_retry_policy, with_task_retry_policy, with_connection_pool,
  with_health_check_timeout, with_smart_rebuild, with_ssh_config, with_scrapli_config, build,
}
use zabbix_ddl_monitor.Connection.Config.Builder.Calls.{
  IsOrdered, Call, timeouts, connection_retries, task_retries, connection_pool,
  health_check_timeout, smart_rebuild, ssh, scrapli, apply, apply_all, IsSafe, AreSafe,
}

positive_or-IsPositive : (new old : ℕ) → IsPositive old → IsPositive (positive_or new old)
positive_or-IsPositive new old h = ground arith

positive_or-IsNonnegative : (new old : ℕ) → IsNonnegative old → IsNonnegative (positive_or new old)
positive_or-IsNonnegative new old h = ground arith

module _ (fl : Floats) where
  open fl use {Float, literal, below}

  -- Valid, also with every part turned on.
  record IsReady (c : Config Float) : Type 0 where
    basic : IsBasic fl c
    rebuild : HasRebuild fl c
    health : HasHealth fl c
    batches : HasBatches fl c
    for_ssh : IsValidSsh c.ssh_config
    for_scrapli : IsValidScrapli c.scrapli_config

  rate_kept :
      (new old : Float)
      → IsOrdered fl
      → below (literal 1 1) new ≡ false
      → (below old (literal 0 1) || below (literal 1 1) old) ≡ false
      → (let rate = if below (literal 0 1) new then new else old in
          below rate (literal 0 1) || below (literal 1 1) rate)
        ≡ false
  rate_kept new old o s h = elim (Bool-cases (below (literal 0 1) new)) [
    | inl e ↦ rw e (ground (arith, o.asymmetric (literal 0 1) new e))
    | inr e ↦ rw e h
  ]

  apply-IsReady :
      (call : Call fl) (c : Config Float)
      → IsOrdered fl
      → IsSafe fl call
      → IsReady c
      → IsReady (apply fl call c)
  unfolding with_timeouts with_connection_retry_policy with_task_retry_policy with_connection_pool
      with_health_check_timeout with_smart_rebuild with_ssh_config with_scrapli_config
  apply-IsReady (timeouts ct r w t) c o s v =
      let (h, (u, (p, (pr, (pl, (po, (k, rest))))))) = v.basic in
      record {
        basic =
            (h, (u, (p, (pr, (pl, (po, (positive_or-IsPositive ct c.connect_timeout k, rest)))))));
        rebuild = v.rebuild;
        health = v.health;
        batches = v.batches;
        for_ssh = v.for_ssh;
        for_scrapli = v.for_scrapli;
      }
  apply-IsReady (connection_retries n i b) c o s v =
      let (h, (u, (p, (pr, (pl, (po, (ct, (mx, (mn, (le, (cr, (cb, (tr, (tb, e)))))))))))))) =
        v.basic in
      record {
        basic =
            (h, (u, (p, (pr, (pl, (po, (ct, (mx, (mn, (le, (s.0, (s.1, (tr, (tb, e))))))))))))));
        rebuild = v.rebuild;
        health = v.health;
        batches = v.batches;
        for_ssh = v.for_ssh;
        for_scrapli = v.for_scrapli;
      }
  apply-IsReady (task_retries n i b) c o s v =
      let (h, (u, (p, (pr, (pl, (po, (ct, (mx, (mn, (le, (cr, (cb, (tr, (tb, e)))))))))))))) =
        v.basic in
      record {
        basic =
            (h, (u, (p, (pr, (pl, (po, (ct, (mx, (mn, (le, (cr, (cb, (s.0, (s.1, e))))))))))))));
        rebuild = v.rebuild;
        health = v.health;
        batches = v.batches;
        for_ssh = v.for_ssh;
        for_scrapli = v.for_scrapli;
      }
  apply-IsReady (connection_pool max min i hc) c o s v =
      let (h, (u, (p, (pr, (pl, (po, (ct, (mx, (mn, (le, (cr, (cb, (tr, (tb, e)))))))))))))) =
        v.basic in
      record {
        basic =
            (h, (u, (p, (pr, (pl, (po, (ct, (s.0, (s.1, (s.2, (cr, (cb, (tr, (tb, e))))))))))))));
        rebuild = v.rebuild;
        health = v.health;
        batches = v.batches;
        for_ssh = v.for_ssh;
        for_scrapli = v.for_scrapli;
      }
  apply-IsReady (health_check_timeout t) c o s v = record {
    basic = v.basic;
    rebuild = v.rebuild;
    health = v.health;
    batches = v.batches;
    for_ssh = v.for_ssh;
    for_scrapli = v.for_scrapli;
  }
  apply-IsReady (smart_rebuild e u a r m) c o s v =
      let (us, (ag, (ra, (iv, (rq, (st, e)))))) = v.rebuild in
      record {
        basic = v.basic;
        rebuild = (
          positive_or-IsPositive u c.rebuild_max_usage_count us,
          (
            positive_or-IsPositive a c.rebuild_max_age ag,
            (
              rate_kept r c.rebuild_max_error_rate o s ra,
              (iv, (positive_or-IsNonnegative m c.rebuild_min_requests_for_error_rate rq, (st, e))),
            ),
          ),
        );
        health = v.health;
        batches = v.batches;
        for_ssh = v.for_ssh;
        for_scrapli = v.for_scrapli;
      }
  apply-IsReady (ssh x) c o s v = record {
    basic = v.basic;
    rebuild = v.rebuild;
    health = v.health;
    batches = v.batches;
    for_ssh = s;
    for_scrapli = v.for_scrapli;
  }
  apply-IsReady (scrapli x) c o s v = record {
    basic = v.basic;
    rebuild = v.rebuild;
    health = v.health;
    batches = v.batches;
    for_ssh = v.for_ssh;
    for_scrapli = s;
  }

  apply_all-IsReady :
      (calls : List (Call fl)) (c : Config Float)
      → IsOrdered fl
      → AreSafe fl calls
      → IsReady c
      → IsReady (apply_all fl calls c)
  apply_all-IsReady [] c o s v = v
  apply_all-IsReady (call ∷ calls) c o (s, t) v =
      apply_all-IsReady calls (apply fl call c) o t (apply-IsReady call c o s v)

  IsReady-IsValid : (c : Config Float) → IsReady c → IsValid fl c
  IsReady-IsValid c v = (
    v.basic,
    (
      (λ e. v.rebuild),
      ((λ e. v.health), (v.batches, (((λ e. v.for_ssh), (λ e. v.for_scrapli)), tt))),
    ),
  )

  started-IsReady :
      (host username password protocol platform : String)
      → IsOrdered fl
      → host ≢ ""
      → username ≢ ""
      → password ≢ ""
      → protocol ≢ ""
      → platform ≢ ""
      → IsReady (
          with_protocol fl protocol platform
            (with_basic_auth fl host username password (new_config fl)))
  unfolding new_config with_basic_auth with_protocol
  started-IsReady host username password protocol platform o h u p pr pl = record {
    basic = (
      h,
      (
        u,
        (
          p,
          (
            pr,
            (
              pl,
              (
                ground arith,
                (
                  ground arith,
                  (
                    ground arith,
                    (
                      ground arith,
                      (
                        ground arith,
                        (ground arith, (o.one_and_a_half, (ground arith, (o.one_and_a_half, tt)))),
                      ),
                    ),
                  ),
                ),
              ),
            ),
          ),
        ),
      ),
    );
    rebuild = (
      ground arith,
      (
        ground arith,
        (
          ground (arith, o.fifth_positive, o.fifth_small),
          (ground arith, (ground arith, (inl refl, tt))),
        ),
      ),
    );
    health = (ground arith, (ground arith, (refl, (refl, tt))));
    batches = (ground arith, (ground arith, (ground arith, tt)));
    for_ssh = tt;
    for_scrapli = tt;
  }

  -- With a host, a user, a password, a protocol and a platform, and with calls that keep their own
  -- conditions, Build succeeds with what the calls have set, whatever timeouts and thresholds they
  -- pass; for literals and a `<` of float64 that are in order.
  pub build_succeeds :
      (host username password protocol platform : String) (calls : List (Call fl))
      → IsOrdered fl
      → host ≢ ""
      → username ≢ ""
      → password ≢ ""
      → protocol ≢ ""
      → platform ≢ ""
      → AreSafe fl calls
      → let c = apply_all fl calls (
          with_protocol fl protocol platform
            (with_basic_auth fl host username password (new_config fl))) in
        build fl c ≡ some c
  unfolding build
  build_succeeds host username password protocol platform calls o h u p pr pl s =
      rw (accepted (apply_all fl calls start) (apply_all-IsReady calls start o s ready)) refl
    where
      start : Config Float
      start =
          with_protocol fl protocol platform
            (with_basic_auth fl host username password (new_config fl))

      ready : IsReady start
      ready = started-IsReady host username password protocol platform o h u p pr pl

      accepted : (c : Config Float) → IsReady c → validate fl c ≡ none
      accepted c v = (validate_iff fl c).1 (IsReady-IsValid c v)
