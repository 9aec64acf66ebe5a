-- ===== src/Config/Checks.antt =====
-- validate of backend/internal/config/config.go, and the configuration that it looks at.
use codera.Base.{String, Bool, true, false, not, ◌||◌, List, [], ◌∷◌, str_eq}
use codera.Config.Numbers.{ℤ, is_positive}

pub data ConfigError : Type 0 where
  invalid : String → ConfigError
  bad_duration : ConfigError
  is_required : String → ConfigError
  must_be_positive : String → ConfigError
  cannot_be_empty : String → ConfigError
  unknown_env : ConfigError

-- A pair (value, error) of which one is not nil.
pub data Loaded (A : Type 0) : Type 0 where
  failed : ConfigError → Loaded A
  loaded : A → Loaded A

-- `if err != nil { return nil, err }`
infixl 5 ◌>>=◌ ◌>>◌
abbrev pub ◌>>=◌ : {A B : Type 0} → Loaded A → (A → Loaded B) → Loaded B
failed e >>= rest = failed e
loaded x >>= rest = rest x

abbrev pub ◌>>◌ : {B : Type 0} → Loaded (Unit {0}) → Loaded B → Loaded B
check >> rest = check >>= (λ u. rest)

pub record Config : Type 0 where
  pub env : String
  pub port : String
  pub log_level : String
  pub shutdown_timeout : ℤ
  pub compile_timeout : ℤ
  pub run_timeout : ℤ
  pub max_stdout_bytes : ℤ
  pub max_stderr_bytes : ℤ
  pub sandbox_runtime : String
  pub java_sandbox_image : String
  pub execution_memory : String
  pub execution_cpus : String
  pub execution_pids_limit : ℤ
  pub execution_workers : ℤ
  pub queue_capacity : ℤ
  pub database_url : String
  pub db_max_conns : ℤ
  pub db_min_conns : ℤ
  pub reconciliation_interval : ℤ
  pub reconciliation_batch_size : ℤ
  pub role : String
  pub instance_id : String
  pub redis_addr : String
  pub redis_password : String
  pub redis_db : ℤ
  pub redis_stream : String
  pub redis_consumer_group : String
  pub redis_pending_idle_timeout : ℤ
  pub redis_pending_claim_batch_size : ℤ
  pub redis_stream_max_len : ℤ
  pub worker_heartbeat_interval : ℤ
  pub worker_heartbeat_timeout : ℤ
  pub job_lease_duration : ℤ
  pub job_lease_renew_interval : ℤ
  pub recovery_interval : ℤ
  pub max_attempts : ℤ
  pub retry_base_delay : ℤ
  pub retry_max_delay : ℤ
  pub worker_shutdown_timeout : ℤ
  pub gemini_api_key : String

abbrev pub is_env : String → Bool
is_env s = str_eq s "development" || (str_eq s "production" || str_eq s "test")

abbrev pub require : Bool → ConfigError → Loaded (Unit {0})
require true e = loaded tt
require false e = failed e

-- The tests of validate in their order, each with the error that it returns if it fails.
abbrev pub tests : Config → List (Bool × ConfigError)
tests c =
    (is_env c.env, unknown_env)
    ∷ (is_positive c.compile_timeout, must_be_positive "COMPILE_TIMEOUT")
    ∷ (is_positive c.run_timeout, must_be_positive "RUN_TIMEOUT")
    ∷ (is_positive c.max_stdout_bytes, must_be_positive "MAX_STDOUT_BYTES")
    ∷ (is_positive c.max_stderr_bytes, must_be_positive "MAX_STDERR_BYTES")
    ∷ (not (str_eq c.sandbox_runtime ""), cannot_be_empty "SANDBOX_RUNTIME")
    ∷ (not (str_eq c.java_sandbox_image ""), cannot_be_empty "JAVA_SANDBOX_IMAGE")
    ∷ (is_positive c.execution_pids_limit, must_be_positive "EXECUTION_PIDS_LIMIT")
    ∷ (is_positive c.execution_workers, must_be_positive "EXECUTION_WORKERS")
    ∷ (is_positive c.queue_capacity, must_be_positive "QUEUE_CAPACITY")
    ∷ (is_positive c.db_max_conns, must_be_positive "DB_MAX_CONNS")
    ∷ (is_positive c.reconciliation_batch_size, must_be_positive "RECONCILIATION_BATCH_SIZE")
    ∷ []

abbrev pub first_error : List (Bool × ConfigError) → Loaded (Unit {0})
first_error [] = loaded tt
first_error ((b, e) ∷ l) = require b e >> first_error l

unfoldable pub validate : Config → Loaded (Unit {0})
validate c = first_error (tests c)
