-- ===== src/Scheduler/Cache.antt =====
-- The failed-build cache that the scheduler asks: failed_builds.py, for the rows of one project,
-- and the read-only wrapper of build_run.py.
use nixbot.Prelude.{String, Option, Dict, get, put, string_eq}

-- The time is kept as the text that Python prints.
pub record CachedFailure : Type 0 where
  pub drv_path : String
  pub time : String
  pub url : String

-- The rows of the project's `failed_builds`, and the time at which a row is written.
pub record PostgresFailedBuildCache : Type 0 where
  pub rows : Dict String CachedFailure
  pub now : String

pub data FailedBuildCache : Type 0 where
  postgres : PostgresFailedBuildCache → FailedBuildCache
  read_only : FailedBuildCache → FailedBuildCache

unfoldable pub check : FailedBuildCache → String → Option CachedFailure
check (postgres c) drv = get c.rows drv
check (read_only inner) drv = check inner drv

unfoldable pub add : FailedBuildCache → String → String → FailedBuildCache
add (postgres c) drv url =
    postgres
      (record c { rows = put drv (record { drv_path = drv; time = c.now; url = url }) c.rows })
add (read_only inner) drv url = read_only inner
