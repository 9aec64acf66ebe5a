-- ===== src/System.antt =====
-- The back end as a whole, as it writes the table `executions`: requests to the server
-- (backend/internal/server), messages that workers handle (backend/internal/worker), and the loop
-- of the recovery service (backend/internal/recovery), one after the other in any order. What runs
-- at the same time as a worker or a tick is in their own arguments, and the other tables are read
-- as they are by then.
pub mod Histories
pub mod Kept
pub mod Requests
use codera.Base.{ℕ, String, true, some, none, List, [], ◌∷◌}
use codera.Domain.{Submission}
use codera.Queue.{QueueMessage}
use codera.Jobs.Table.{Table, Moment}
use codera.Jobs.History.{History}
use codera.Jobs.Ticks.{Signal, start_recovery}
use codera.Judge.Comparator.{Floats, ComparatorRegistry}
use codera.Judge.Loop as Loop
use codera.Worker.Heartbeat.{WorkerTable}
use codera.Worker.Process as Process
use codera.Worker.Panics.{process_job_safely}
use codera.Server.Problems.{Tables}
use codera.Server.Api.{Server, Body, Outside, answer_request}

-- A message whose run panics comes with what has been written until then.
module _ (f : Floats) where
  pub data Act : Type 0 where
    request :
        Server
        → Outside f.Float
        → String
        → List String
        → Body f.Float
        → Tables f.Float
        → List Submission
        → Act
    message :
        Loop.Host f.Float
        → ComparatorRegistry
        → Process.Surroundings
        → String
        → QueueMessage
        → Moment
        → Act
    crash :
        Loop.Host f.Float
        → ComparatorRegistry
        → Process.Surroundings
        → String
        → QueueMessage
        → History
        → Moment
        → Act
    recovery : ℕ → List Signal → WorkerTable → Act

  unfoldable pub act : Act → Table → Table
  act (request s o method path b tables submissions) t =
      (answer_request o s method path b
        (record { executions = t; problems = tables; submissions = submissions })).0.executions
  act (message h comparators s worker msg m) t =
      (process_job_safely f h comparators s worker msg none m t).table
  act (crash h comparators s worker msg k m) t =
      (process_job_safely f h comparators s worker msg (some k) m t).table
  act (recovery timeout es workers) t =
      (start_recovery timeout es (record { executions = t; workers = workers })).1.executions

  unfoldable pub act_all : List Act → Table → Table
  act_all [] t = t
  act_all (a ∷ later) t = act_all later (act a t)
