-- ===== src/Tests/Served.antt =====
-- The theorem on accepted runs, at a request for a program that prints a line.
use codera.Base.{codes, false, [], ◌∷◌, Bool, str_eq}
use codera.Domain.{Language, ExecutionResult, ExecutionStatus, ExitCode}
use codera.Queue.{appended, QueueMessage}
use codera.Language.Registry as Registry
use codera.Jobs.Table.{Table}
use codera.Jobs.Store as Store
use codera.Jobs.History.{History, update, recover}
use codera.Jobs.Service as Service
use codera.Server.Runs.{CreateRunRequest, RunBody}
use codera.Server.RunsServed.{run_row}
use codera.Tests.Data.{at, source, two_jobs}

abbrev pub only_python : Language → Bool
only_python l = str_eq l "python"

abbrev pub service : Service.Surroundings
service = record {
  fresh_id = "job-3";
  clock = 0;
  insert_at = at 1;
  queue_closed = false;
  add_reply = appended;
}

abbrev pub request : CreateRunRequest
request = record { language = "python"; source_code = source; inputs = codes "1" ∷ [] }

abbrev table : Table
table = run_row service request ∷ two_jobs

abbrev accepted : RunBody
accepted = record { id = "job-3"; status = (run_row service request).status }

abbrev printed : ExecutionResult
printed = record {
  status = ExecutionStatus.success;
  stdout = codes "1\n";
  stderr = [];
  exit_code = ExitCode.code 0;
}

-- The sweep passes once more before the answer is asked for.
abbrev later : History
later = (at 90, update recover) ∷ []

abbrev run_message : QueueMessage
run_message = record { id = "3-0"; job_id = "job-3"; job_type = "run" }
