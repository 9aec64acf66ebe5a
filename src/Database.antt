-- ===== src/Database.antt =====
-- backend/internal/db: postgres.go and redis.go. What pgxpool, migrate and the client of Redis
-- answer is an argument; what is opened and closed is listed.
use codera.Base.{ℕ, String, Bool, true, false, List, [], ◌∷◌, if◌then◌else◌}
use codera.Config.Numbers.{ℤ}
use codera.Config.Checks.{Config}

pub data Handle : Type 0 where
  pool migrator client ai_client : Handle

pub data HandleCall : Type 0 where
  opens closes : Handle → HandleCall

-- What Connect sets of the configuration that pgxpool parses from the URL.
pub record PoolConfig : Type 0 where
  pub url : String
  pub max_conns : ℤ
  pub min_conns : ℤ
  pub max_conn_idle_time : ℕ

-- 30 minutes
unfoldable pub pool_config : Config → PoolConfig
pool_config c = record {
  url = c.database_url;
  max_conns = c.db_max_conns;
  min_conns = c.db_min_conns;
  max_conn_idle_time = 1800000000;
}

pub record Postgres : Type 0 where
  pub parses : String → Bool
  pub makes : PoolConfig → Bool
  pub pings : Bool

-- The calls, and whether no error is returned.
unfoldable pub connect_database : Postgres → Config → List HandleCall × Bool
unfolding pool_config
connect_database p c =
    if p.parses c.database_url
    then if p.makes (pool_config c)
      then if p.pings then (opens pool ∷ [], true) else (opens pool ∷ closes pool ∷ [], false)
      else ([], false)
    else ([], false)

pub data Migrated : Type 0 where
  changed no_change up_failed : Migrated

pub record Migrations : Type 0 where
  pub embedded : Bool
  pub starts : String → Bool
  pub up : Migrated

-- `if err == migrate.ErrNoChange`
unfoldable pub is_migrated : Migrated → Bool
is_migrated changed = true
is_migrated no_change = true
is_migrated up_failed = false

unfoldable pub run_migrations : Migrations → String → List HandleCall × Bool
unfolding is_migrated
run_migrations m url =
    if m.embedded
    then if m.starts url
      then (opens migrator ∷ closes migrator ∷ [], is_migrated m.up)
      else ([], false)
    else ([], false)

pub record RedisOptions : Type 0 where
  pub addr : String
  pub password : String
  pub db : ℤ

unfoldable pub redis_options : Config → RedisOptions
redis_options c = record { addr = c.redis_addr; password = c.redis_password; db = c.redis_db }

-- `pings` is whether Redis answers a client with these options.
unfoldable pub connect_redis : (RedisOptions → Bool) → Config → List HandleCall × Bool
unfolding redis_options
connect_redis pings c = (opens client ∷ [], pings (redis_options c))
