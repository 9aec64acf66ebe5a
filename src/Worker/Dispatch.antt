-- ===== src/Worker/Dispatch.antt =====
-- backend/internal/worker/pool.go: processSubmission and processJobSafely, without its recovery
-- from panics.
use codera.Base.{Bool, true, false, String, List, [], if◌then◌else◌, str_eq}
use codera.Domain.{Submission}
use codera.Queue.{QueueCall, QueueMessage, ack}
use codera.Sandbox.Container.{ResourceCall}
use codera.Judge.Comparator.{Floats, ComparatorRegistry}
use codera.Judge.Loop as Loop
use codera.Judge.Loop.{JudgeEnd, returned, unwound}
use codera.Judge.Engine.{judge}
use codera.Jobs.Table.{Table}
use codera.Worker.Process.{Surroundings, process_run}

-- What one message leaves: the table `executions`, the submissions saved, and the calls.
pub record Processed : Type 0 where
  pub table : Table
  pub saved : List Submission
  pub resources : List ResourceCall
  pub calls : List QueueCall
  pub panics : Bool

abbrev pub is_unwound : JudgeEnd → Bool
is_unwound (returned e) = false
is_unwound unwound = true

module _ (f : Floats) (h : Loop.Host f.Float) (comparators : ComparatorRegistry) (s : Surroundings)
    (worker : String) (msg : QueueMessage) where
  -- The message is acknowledged whatever error the judge returns, but not if it panics.
  unfoldable pub process_submission : Table → Processed
  process_submission t =
      let (saved, resources, e) = judge f h comparators s.registry in
      record {
        table = t;
        saved = saved;
        resources = resources;
        calls = if is_unwound e then [] else (ack s.ack_up msg.id).0;
        panics = is_unwound e;
      }

  unfoldable pub process_job : Table → Processed
  unfolding process_submission
  process_job t =
      if str_eq msg.job_type "submission"
      then process_submission t
      else (let (t', calls) = process_run s worker msg t in
          record { table = t'; saved = []; resources = []; calls = calls; panics = false })
