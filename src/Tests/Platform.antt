-- ===== src/Tests/Platform.antt =====
-- The theorems on the run handlers, sessions, middleware, configuration and the pool, at concrete
-- inputs.
use codera.Base.{
  ℕ, ◌+◌, ◌*◌, ◌≤◌, String, Bool, true, false, Option, none, some, List, [], ◌∷◌, ◌≡◌, refl, Bytes,
  str_eq, bytes_eq, if◌then◌else◌, length,
}
use codera.Domain.{Language}
use codera.Queue.{appended, QueueMessage}
use codera.Jobs.Service.{Surroundings}
use codera.Repository.Rows.{Looked}
use codera.Server.Runs.{CreateRunRequest, create_run}
use codera.Server.RunsAccepted.{IsRunKept, create_run-IsRunKept}
use codera.Server.Sessions.{Event, message, tick, handle_ws}
use codera.Server.Streams.{IsStream, handle_ws-IsStream}
use codera.Middleware.{Request, Written, Handler, write_header}
use codera.Server.Routes.{Route, handled}
use codera.Server.Routed.{expected}
use codera.Config.Numbers.{ℤ, pos, parse_int64, parse_digits, to_int32}
use codera.Config.Checks.{validate}
use codera.Config.Load.{
  Checked, seconds, parse_duration, parse_int, read_checked, assemble, finish, load,
}
use codera.Config.Usable.{IsUsable, IsFilled, load-IsUsable}
use codera.Worker.Heartbeat.{draining}
use codera.Worker.Pool.{
  consuming, gone, processing, ended, Pool, takes, this, other, AreGone, work, close, Run, here,
  next, closing, waiting, after_consume,
}
use codera.Worker.Draining.{IsStuck, drained_pool_ends}
use codera.Database.{no_change}
use codera.Program.{Outside}
use codera.Tests.Data.{at, source, two_jobs}

abbrev only_python : Language → Bool
only_python lang = str_eq lang "python"

abbrev surroundings : Surroundings
surroundings = record {
  fresh_id = "job-9";
  clock = 0;
  insert_at = at 1;
  queue_closed = false;
  add_reply = appended;
}

abbrev run_request : CreateRunRequest
run_request = record { language = "python"; source_code = source; inputs = [] }

create_run-IsRunKept_example :
    IsRunKept only_python surroundings two_jobs
      (some run_request)
      (create_run only_python surroundings (some run_request) two_jobs)
create_run-IsRunKept_example =
    create_run-IsRunKept only_python surroundings two_jobs (some run_request)

-- States are numbers, and 3 is final.
abbrev is_three : ℕ → Bool
is_three n = bytes_eq (n ∷ []) (3 ∷ [])

abbrev events : List (Event ℕ)
events = message (some 2) ∷ tick true ∷ message none ∷ message (some 3) ∷ message (some 1) ∷ []

handle_ws-IsStream_example :
    IsStream is_three 1 events (handle_ws is_three "id" true (Looked.found 1) events)
handle_ws-IsStream_example = handle_ws-IsStream is_three "id" 1 events refl

abbrev mux : Handler
mux r w = record { written = write_header 202 w; panics = false; log = [] }

abbrev get_request : Request
get_request = record { method = "GET"; upgrade = ""; x_request_id = "abc"; request_id = none }

abbrev nothing_written : Written
nothing_written = record { headers = []; status = none; recorded = none }

-- Every handler answers as the one above.
abbrev handle : Route → String → Handler
handle x id = mux

abbrev problem_path : List String
problem_path = "problems" ∷ "42" ∷ []

problem_found :
    expected "GET" problem_path (some Route.get_problem) ≡ handled Route.get_problem "42"
problem_found = refl

abbrev getenv : String → String
getenv key =
    if str_eq key "DATABASE_URL"
    then "postgres://db"
    else if str_eq key "MAX_ATTEMPTS"
    then "five"
    else if str_eq key "DB_MAX_CONNS"
    then "4294967303"
    else ""

-- Every text is five seconds, but the empty one.
abbrev five_seconds : Bytes → Option ℤ
five_seconds [] = none
five_seconds (c ∷ s) = some (seconds 5)

abbrev checked : Checked
checked = record {
  shutdown_timeout = seconds 5;
  compile_timeout = seconds 5;
  run_timeout = seconds 2;
  max_stdout_bytes = pos 65536;
  max_stderr_bytes = pos 65536;
  execution_pids_limit = pos 64;
  execution_workers = pos 4;
  queue_capacity = pos 100;
  max_conns = pos 4294967303;
  min_conns = pos 2;
  recon_batch = pos 100;
  reconciliation_interval = seconds 5;
  redis_pending_idle_timeout = seconds 5;
}

load-IsUsable_example :
    IsUsable (assemble getenv five_seconds "u" checked)
    × IsFilled (assemble getenv five_seconds "u" checked)
load-IsUsable_example =
    load-IsUsable getenv five_seconds "u" (assemble getenv five_seconds "u" checked) (
      unfold load read_checked parse_duration parse_int parse_int64 parse_digits finish validate
        assemble to_int32 in
      refl)

-- A malformed number of attempts is taken as 0, and a number of connections is cut to 32 bits.
malformed_is_zero : (assemble getenv five_seconds "u" checked).max_attempts ≡ pos 0
unfolding assemble parse_int parse_int64 parse_digits
malformed_is_zero = refl

cut_to_32_bits : (assemble getenv five_seconds "u" checked).db_max_conns ≡ pos 7
unfolding assemble to_int32
cut_to_32_bits = refl

abbrev a_message : QueueMessage
a_message = record { id = "1-0"; job_id = "job-1"; job_type = "run" }

abbrev draining_pool : Pool
draining_pool = record {
  status = draining;
  closed = false;
  canceled = false;
  turns = gone ∷ consuming ∷ [];
  stop_at = closing;
}

abbrev later_pool : Pool
later_pool = record draining_pool {
  turns = gone ∷ processing a_message ∷ [];
  closed = true;
  stop_at = waiting;
}

two_steps : Run 2 1 draining_pool later_pool
unfolding after_consume
two_steps = next (work draining_pool (other (this (takes a_message)))) (
    next (close (record draining_pool { turns = gone ∷ processing a_message ∷ [] }) refl refl) here)

drained_pool_ends_example :
    (2 ≤ 3 * length draining_pool.turns + 3)
    × (1 ≤ length draining_pool.turns)
    × (IsStuck later_pool → (later_pool.stop_at ≡ ended) × AreGone later_pool.turns)
drained_pool_ends_example = drained_pool_ends refl two_steps

abbrev outside : Outside
outside = record {
  config = load getenv five_seconds "u";
  seccomp_file = some "/tmp/seccomp-1.json";
  postgres = record { parses = λ url. true; makes = λ c. true; pings = true };
  migrations = record { embedded = true; starts = λ url. true; up = no_change };
  redis = λ options. true;
  analyzer = λ key. true;
  group = some "BUSYGROUP Consumer Group name already exists";
}
