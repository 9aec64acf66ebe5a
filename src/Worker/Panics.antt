-- ===== src/Worker/Panics.antt =====
-- backend/internal/worker/pool.go: processJobSafely with its recovery from panics.
use codera.Base.{[], true, String, Option, none, some, if◌then◌else◌}
use codera.Queue.{QueueMessage}
use codera.Jobs.Table.{Table, Moment}
use codera.Jobs.History.{History, run}
use codera.Jobs.Store.{fail_job}
use codera.Judge.Comparator.{Floats, ComparatorRegistry}
use codera.Judge.Loop as Loop
use codera.Worker.Process.{Surroundings}
use codera.Worker.Dispatch.{Processed, process_job}

-- What is left after a panic: `p` is what had been done, and the error of FailJob is only logged.
unfoldable pub recovered : Moment → String → QueueMessage → Processed → Processed
recovered m worker msg p = record p {
  table = (fail_job m msg.job_id worker "Worker crashed during execution" 0 p.table).0;
}

-- A run that panics when the table is as given.
abbrev pub interrupted : Table → Processed
interrupted t = record { table = t; saved = []; resources = []; calls = []; panics = true }

-- FailJob is called where the judge panics, and where the handling of a run does: `panicked` is what
-- the run and others had written to the table by then, if it does.
unfoldable pub process_job_safely :
    (f : Floats) (h : Loop.Host f.Float) (comparators : ComparatorRegistry) (s : Surroundings)
    → String
    → QueueMessage
    → Option History
    → Moment
    → Table
    → Processed
unfolding recovered
process_job_safely f h comparators s worker msg none m t =
    let p = process_job f h comparators s worker msg t in
    if p.panics then recovered m worker msg p else p
process_job_safely f h comparators s worker msg (some k) m t =
    recovered m worker msg (interrupted (run k t))
