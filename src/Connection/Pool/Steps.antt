-- ===== src/Connection/Pool/Steps.antt =====
-- The steps that goroutines take on a driver pool of connection/pool_enhanced.go, in any order. Each
-- is under one lock, but for the beginning of a rebuild, which takes the locks of the connection and
-- of the pool in turn and is one step here, and for mark and reason of a rebuild, which are written
-- one after the other.
pub mod Capacity
pub mod Covering
pub mod Members
pub mod Drift
use zabbix_ddl_monitor.Base.{ℕ, ◌+◌, Bool, true, false, String, Option, none, some, List, [], ◌∷◌}
use zabbix_ddl_monitor.Connection.Conn.{Conn}
use zabbix_ddl_monitor.Connection.Conn.Steps
use zabbix_ddl_monitor.Connection.Health.{HealthConfig}
use zabbix_ddl_monitor.Connection.Pool
use zabbix_ddl_monitor.Connection.Pool.{DriverPool, with_object}
use zabbix_ddl_monitor.Connection.Pool.Get.{acquire_member, add_new}
use zabbix_ddl_monitor.Connection.Pool.Cleanup.{CleanupConfig, cleanup_member}
use zabbix_ddl_monitor.Connection.Pool.Rebuilding.{begin_core_rebuild, end_core_rebuild}
use zabbix_ddl_monitor.Connection.Pool.Warmup.{add_warm}

pub data PoolOp : Type 0 where
  acquires : String → ℕ → PoolOp
  adds : String → String → ℕ → PoolOp
  activates : PoolOp
  releases : String → ℕ → Bool → PoolOp
  calls : String → Steps.Op → PoolOp
  cleans : String → ℕ → PoolOp
  begins_rebuild : String → PoolOp
  ends_rebuild : String → Option String → String → ℕ → PoolOp
  warms : String → String → ℕ → PoolOp

-- What the pool is configured with.
pub record Settings : Type 0 where
  pub max_connections : ℕ
  pub cleanup : CleanupConfig
  pub health : HealthConfig

unfoldable pub step : Settings → PoolOp → DriverPool → DriverPool
step cfg (acquires id now) p = (acquire_member now id p).0
step cfg (adds id protocol now) p = (add_new cfg.max_connections id protocol now p).0
step cfg activates p = Pool.activate p
step cfg (releases id now success) p = Pool.release id now success p
step cfg (calls id op) p = with_object id (λ c. Steps.step cfg.health c op) p
step cfg (cleans id now) p = cleanup_member cfg.cleanup now id p
step cfg (begins_rebuild id) p = (begin_core_rebuild id p).0
step cfg (ends_rebuild id made protocol now) p = (end_core_rebuild id made protocol now p).0
step cfg (warms id protocol now) p = add_warm protocol now id p

unfoldable pub run : Settings → List PoolOp → DriverPool → DriverPool
run cfg [] p = p
run cfg (op ∷ ops) p = run cfg ops (step cfg op p)
