-- ===== src/Connection/Float.antt =====
-- Go's float64, which the error rate and the backoff are computed in: an argument of the
-- definitions that use it. Nothing is assumed of it but where a theorem says so.
use zabbix_ddl_monitor.Base.{ℕ, Bool}

pub record Float64 : Type 1 where
  pub Float : Type 0
  -- float64(n) of an int64.
  pub of_int : ℕ → Float
  pub div : Float → Float → Float
  pub leb : Float → Float → Bool
