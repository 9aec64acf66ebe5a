-- ===== src/Lib.antt =====
-- The backend of Codera, an online judge: what runs and judges untrusted programs, and what keeps
-- their jobs from being lost. The paths below are under backend/internal unless they say otherwise.
--
-- The parts, and how they interact. The API stores a job in the table `executions` and sends its id
-- to a stream of Redis (jobs/service.go). Workers read the stream; a worker claims the job under a
-- lease, runs the program once for each input in a container, stores the results and acknowledges
-- the message (worker/pool.go). For a submission the worker calls the judge instead, which compiles
-- the program, runs it on each test case of the problem and compares the outputs; clients poll or
-- follow it over a web socket. Two services repair what workers leave behind: recovery/service.go
-- takes jobs back whose lease has run out and sends them again, and jobs/pending_recovery.go looks
-- at messages that nobody acknowledged.
--
--   Domain            domain/*.go: the shared types.
--   Queue             queue/queue.go and redis_queue.go: the calls on Redis as values; Queue.Redis
--                     is the queue with the flag that Close sets, behind the interface JobQueue.
--   Jobs.Job          jobs/job.go: ExecutionJob and Clone. A job is also a row of the table.
--   Jobs.Table        the table `executions` and the statements on it, as functions on a list.
--   Jobs.Store        jobs/postgres_store.go: each method of the store, in two parts: its WHERE
--                     clause (can_claim, ...) and its SET list (claim_row, ...).
--   Jobs.Contract     jobs/store.go: the interface JobStore, and what it promises as a store of its
--                     own with its transitions written out.
--   Jobs.Memory       jobs/memory_store.go: the store in memory.
--   Jobs.Recovery     recovery/service.go: RecoverAbandonedJobs and DispatchDelayedJobs.
--   Jobs.Service      jobs/service.go: CreateExecution and GetExecution.
--   Jobs.Ticks        recovery/service.go: Start, the loop around the three sweeps.
--   Jobs.Pending      jobs/pending_recovery.go: what the sweep does with one message. The pages of
--                     runRecovery and the loop of Start are in Pages.
--   Jobs.History      all writes to the table as one type of operations. A sequence of them is any
--                     interleaving of the API, the workers and the services.
--   Process           platform/process: the bounded writer, RunProcess and the groups of processes.
--   Sandbox           sandbox/profile.go, sandbox.go, docker/runtime.go and classifier/result.go;
--                     the profile of system calls is in Sandbox.Docker.
--   Language          language/*.go: the five executors and their registry, with the registrations
--                     of backend/cmd/api/main.go.
--   Execution         execution/service.go: Execute, for one input.
--   Judge.Comparator  judge/comparator.go.
--   Judge.Loop        judge/engine.go: the loop of Judge over the test cases.
--   Judge.Engine      judge/engine.go: the rest of Judge.
--   Judge.Stored      judge/engine.go with the repositories: what Judge reads of the tables and
--                     what its updates leave there.
--   Worker            worker/pool.go: processRun, processSubmission and processJobSafely; what a
--                     panic leaves is in Panics, the renewal of the lease in Renewal.
--   Worker.Pool       worker/pool.go: Start, workerLoop and Stop, as a step relation on a pool.
--   Worker.Heartbeat  worker/heartbeat.go and MarkStaleWorkers of recovery/service.go; Run and the
--                     updates of Start and Stop are in Worker.Lifetime.
--   Repository        repository/*.go: the tables of problems, test cases and submissions.
--   Analyzer          ai/analyzer.go: AnalyzeComplexity.
--   Server            server/*.go: what each handler stores and sends, and its response. Sessions
--                     is ws_handler.go; Health and Routes are of server.go, and Api puts the handlers
--                     behind their routes: the server at one request.
--   Middleware        platform/http: cors.go and middleware.go, stacked as server.New does.
--   Config            config/config.go: Load, validate and DefaultConfig.
--   Database          db/*.go: Connect, RunMigrations and ConnectRedis.
--   Logger            platform/logger/logger.go: New.
--   Program           backend/cmd/api/main.go: what is started for which role, how main ends, and
--                     what it closes.
--   System            the back end as a whole: the requests, the messages and the ticks of the
--                     recovery service that main starts, as they write the table of jobs.
--   Base              numbers, lists and texts; Tests runs the theorems at concrete inputs.
--
-- What stands outside is an argument: the answers of Postgres (Jobs.Table.Reply: a statement is
-- carried out and answered, refused, or carried out with its answer lost) and of Redis, what docker
-- prints, how a process behaves (Process.Run.Behaviour), float64 with ParseFloat
-- (Judge.Comparator.Floats), the clock and fresh ids, the order of rows that tie under ORDER BY
-- (Repository.Rows.OrderBy), time.ParseDuration, the decoding of request bodies, and the language
-- model that the analyser asks. What encoding/json and JSONB make of inputs and results is written
-- out in Jobs.Json. An XADD is carried out or not, or its answer is lost (Queue.AddReply); what the
-- client sends again by itself counts as one call. Ids are taken in the form in which the database
-- prints them. Between any two calls of a worker on the database any history of operations may
-- run, which is how lease renewals, other workers and the recovery services meet it.
--
-- Every function is total by structural recursion, on the rows of a table, the bytes of a text, the
-- test cases, the inputs, or the answers and events that a loop meets. Only the pages of XAUTOCLAIM
-- (Jobs.Pages) are read with fuel, the number of rounds; one round more than there are stale
-- messages is enough, since every answer that does not end the loop gives a message. Times are
-- microseconds; sizes are natural numbers, but where a body or the environment gives them a sign.
-- The code's int64 sums stay below 2^63 and do not wrap.
-- Subtraction occurs in the bounded writer, below a bound, in the digits of a number, and in the
-- conversion to int32, which is written out with its remainder by 2^32.
--
-- Not modelled: the redirects of net/http to cleaned paths, its ListenAndServe and Shutdown, what
-- pgxpool, migrate and the clients of Redis and of the language model do inside, what the
-- operating system does with groups of processes and docker with the profile of system calls, and
-- the lines of the log but those of the middleware.
pub mod Base
pub mod Domain
pub mod Queue
pub mod Jobs
pub mod Process
pub mod Sandbox
pub mod Judge
pub mod Analyzer
pub mod Language
pub mod Execution
pub mod Worker
pub mod Server
pub mod System
pub mod Repository
pub mod Config
pub mod Logger
pub mod Middleware
pub mod Database
pub mod Program
mod Tests
