-- ===== src/Program.antt =====
-- backend/cmd/api/main.go: what is started and in which order it is stopped, with EnsureGroupExists
-- of backend/internal/queue/redis_queue.go.
pub mod Started
pub mod Closed
use codera.Base.{
  ℕ, zero, suc, String, Bool, true, false, ◌||◌, Option, none, some, List, [], ◌∷◌, ◌++◌, str_eq,
  is_some, if◌then◌else◌,
}
use codera.Config.Numbers.{ℤ, pos, negsuc}
use codera.Config.Checks.{ConfigError, Loaded, failed, loaded, Config}
use codera.Database.{
  Postgres, Migrations, RedisOptions, pool, client, ai_client, HandleCall, opens, closes,
  connect_database, run_migrations, connect_redis,
}
use codera.Sandbox.Docker.{Runtime, new_runtime}
use codera.Worker.Heartbeat.{active}
use codera.Worker.Pool.{Pool, new_pool, replicate, checking}

-- XGROUP CREATE answers the text of an error, or none.
unfoldable pub ensure_group_exists : Option String → Bool
ensure_group_exists none = true
ensure_group_exists (some text) = str_eq text "BUSYGROUP Consumer Group name already exists"

pub record Outside : Type 0 where
  pub config : Loaded Config
  pub seccomp_file : Option String
  pub postgres : Postgres
  pub migrations : Migrations
  pub redis : RedisOptions → Bool
  pub group : Option String
  pub analyzer : String → Bool

-- Where main gives up.
pub data Failure : Type 0 where
  config_failed runtime_panicked database_failed migrations_failed redis_failed group_failed :
      Failure

-- The pool of workers, with the recovery of pending messages, and whether the server is started,
-- with the recovery service.
pub record Running : Type 0 where
  pub config : Config
  pub worker_pool : Option Pool
  pub server : Bool

pub data Program : Type 0 where
  exited : Failure → Program
  running : Running → Program

-- `for i := int64(0); i < p.numWorkers; i++`
abbrev pub count : ℤ → ℕ
count (pos n) = n
count (negsuc n) = 0

-- NewPool and Start
unfoldable pub start_pool : Config → Pool
start_pool c = record new_pool {
  status = active;
  turns = replicate (count c.execution_workers) checking;
}

abbrev pub is_worker : String → Bool
is_worker role = str_eq role "worker" || str_eq role "all"

abbrev pub is_api : String → Bool
is_api role = str_eq role "api" || str_eq role "all"

unfoldable pub start_services : Config → Running
unfolding start_pool
start_services c = record {
  config = c;
  worker_pool = if is_worker c.role then some (start_pool c) else none;
  server = is_api c.role;
}

-- NewAnalyzer, which is called with a key that is not empty, and may fail.
unfoldable pub start_analyzer : (String → Bool) → Config → List HandleCall
start_analyzer makes c =
    if str_eq c.gemini_api_key ""
    then []
    else if makes c.gemini_api_key
    then opens ai_client ∷ []
    else []

-- The handles opened, and how far the start gets.
unfoldable pub connect : Outside → Config → List HandleCall × Program
unfolding ensure_group_exists start_services start_analyzer connect_database run_migrations
    connect_redis
connect o c =
    let (opened, up) = connect_database o.postgres c in
    let (migrated, done) = run_migrations o.migrations c.database_url in
    let (joined, answers) = connect_redis o.redis c in
    if up
    then if done
      then if answers
        then if ensure_group_exists o.group
          then (
            opened ++ (migrated ++ (joined ++ start_analyzer o.analyzer c)),
            running (start_services c),
          )
          else (opened ++ (migrated ++ joined), exited group_failed)
        else (opened ++ (migrated ++ joined), exited redis_failed)
      else (opened ++ migrated, exited migrations_failed)
    else (opened, exited database_failed)

-- A panic of NewRuntime is that of main.
abbrev pub with_runtime : Outside → Config → Option Runtime → List HandleCall × Program
with_runtime o c none = ([], exited runtime_panicked)
with_runtime o c (some sandbox) = connect o c

unfoldable pub with_config : Outside → Loaded Config → List HandleCall × Program
unfolding connect new_runtime
with_config o (failed e) = ([], exited config_failed)
with_config o (loaded c) = with_runtime o c (new_runtime c o.seccomp_file)

unfoldable pub start : Outside → List HandleCall × Program
unfolding with_config
start o = with_config o o.config

-- What is stopped at a signal.
pub data Stopping : Type 0 where
  shut_down_server stop_pool : Stopping

unfoldable pub shut_down : Running → List Stopping
shut_down r =
    (if r.server then shut_down_server ∷ [] else [])
    ++ (if is_some r.worker_pool then stop_pool ∷ [] else [])

-- Why main goes on after its start: a signal, or ListenAndServe has returned, with an error other
-- than ErrServerClosed or not. A goroutine that panics ends the process, as NewTicker does for an
-- interval that is not positive.
pub data Ending : Type 0 where
  signalled : Ending
  server_ended : Bool → Ending
  panicked : Ending

-- The exit code, what has been stopped, and the handles opened and closed, all in order.
pub record Ended : Type 0 where
  pub code : ℕ
  pub stopped : List Stopping
  pub calls : List HandleCall

-- The deferred calls, which os.Exit does not make.
abbrev pub deferred : List HandleCall
deferred = closes client ∷ closes pool ∷ []

-- A panic ends the process with 2, os.Exit with 1.
abbrev pub exit_code : Failure → ℕ
exit_code runtime_panicked = 2
exit_code _ = 1

unfoldable pub finish_main : List HandleCall → Program → Ending → Ended
unfolding shut_down
finish_main calls (exited f) e = record { code = exit_code f; stopped = []; calls = calls }
finish_main calls (running r) panicked = record { code = 2; stopped = []; calls = calls }
finish_main calls (running r) (server_ended true) = record { code = 1; stopped = []; calls = calls }
finish_main calls (running r) (server_ended false) = record {
  code = 0;
  stopped = [];
  calls = calls ++ deferred;
}
finish_main calls (running r) signalled = record {
  code = 0;
  stopped = shut_down r;
  calls = calls ++ deferred;
}

unfoldable pub main : Outside → Ending → Ended
unfolding finish_main start
main o e = finish_main (start o).0 (start o).1 e
