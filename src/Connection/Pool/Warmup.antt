-- ===== src/Connection/Pool/Warmup.antt =====
-- connection/pool_enhanced.go: WarmUp. Each of the `target` goroutines makes up to three attempts;
-- their results come in the order in which the goroutines add to the pool.
pub mod Counts
use zabbix_ddl_monitor.Base.{
  ℕ, zero, suc, Bool, true, false, String, Option, none, some, List, [], ◌∷◌, ltb, ◌==◌, length,
  if◌then◌else◌,
}
use zabbix_ddl_monitor.Base.Int64
use zabbix_ddl_monitor.Base.Map.{insert}
use zabbix_ddl_monitor.Connection.Pool.{DriverPool, with_name, new_connection}

pub data WarmupState : Type 0 where
  not_started in_progress completed failed : WarmupState

-- `success` and `failed_count` are int64; the times of start and end are left out.
pub record WarmupStatus : Type 0 where
  pub target : ℕ
  pub success : ℕ
  pub failed_count : ℕ
  pub status : WarmupState

-- The attempts of one goroutine, up to the first that makes a connection.
unfoldable pub first_made : ℕ → List (Option String) → Option String
first_made zero tries = none
first_made (suc n) [] = none
first_made (suc n) (some id ∷ tries) = some id
first_made (suc n) (none ∷ tries) = first_made n tries

-- What a goroutine does with a connection that it has made: it is added without a look at the size.
unfoldable pub add_warm : String → ℕ → String → DriverPool → DriverPool
unfolding new_connection
add_warm protocol now id p = record p {
  objects = insert id (new_connection id protocol now) p.objects;
  members = with_name id p.members;
  stats = record p.stats {
    created_connections = Int64.inc p.stats.created_connections;
    idle_connections = Int64.inc p.stats.idle_connections;
  };
}

-- The end of a goroutine: `Failed` is counted whether it has made a connection or not, and the error
-- that is sent is the outer `err`, which stays nil.
abbrev pub warm_with :
    String → ℕ → Option String → DriverPool × WarmupStatus → DriverPool × WarmupStatus
warm_with protocol now none (p, w) = (p, record w { failed_count = Int64.inc w.failed_count })
warm_with protocol now (some id) (p, w) = (
  add_warm protocol now id p,
  record w { success = Int64.inc w.success; failed_count = Int64.inc w.failed_count },
)

unfoldable pub warm_all :
    String → ℕ → List (List (Option String)) → DriverPool × WarmupStatus → DriverPool × WarmupStatus
unfolding first_made add_warm
warm_all protocol now [] s = s
warm_all protocol now (tries ∷ rest) s =
    warm_all protocol now rest (warm_with protocol now (first_made 3 tries) s)

-- The status at the end, and whether an error is returned.
abbrev pub conclude : DriverPool × WarmupStatus → DriverPool × WarmupStatus × Bool
conclude (p, w) = (
  p,
  record w {
    status =
        if w.success == w.target
        then completed
        else if Int64.ltb64 0 w.success
        then completed
        else failed;
  },
  w.success == 0,
)

-- WarmUp for a protocol that is registered: one list of attempts for each goroutine. The counters of
-- an earlier WarmUp are kept.
unfoldable pub warm_up :
    String
    → ℕ
    → List (List (Option String))
    → DriverPool
    → WarmupStatus
    → DriverPool × WarmupStatus × Bool
unfolding warm_all
warm_up protocol now tries p w =
    conclude
      (warm_all protocol now tries (p, record w { target = length tries; status = in_progress }))
