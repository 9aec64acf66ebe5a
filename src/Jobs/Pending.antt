-- ===== src/Jobs/Pending.antt =====
-- backend/internal/jobs/pending_recovery.go: what the sweep does with a message of the stream that
-- was delivered and not acknowledged.
use codera.Base.{String, Bool, Option, none, some, List, [], ◌∷◌, ◌++◌, if◌then◌else◌}
use codera.Queue.{AddReply, QueueCall, Entry, xack, enqueue}
use codera.Jobs.Job.{JobStatus, queued, running, completed}
use codera.Jobs.Store.{Fetched, row, failed, job_not_found}

-- What the loop meets at one message: the answer of `store.Get`, whether XACK succeeds, and the
-- queue's flag and Redis at the Enqueue.
pub record Meeting : Type 0 where
  pub fetched : Fetched
  pub ack_up : Bool
  pub queue_closed : Bool
  pub add_reply : AddReply

-- An XACK whose error nobody looks at.
abbrev try_ack : Bool → String → List QueueCall
try_ack up id = if up then xack id ∷ [] else []

by_status : Meeting → Entry → String → JobStatus → List QueueCall
by_status m e job_id completed = try_ack m.ack_up e.id
by_status m e job_id running = try_ack m.ack_up e.id
by_status m e job_id queued =
    try_ack m.ack_up e.id ++ (enqueue m.queue_closed m.add_reply job_id "run").0
by_status m e job_id _ = []

by_row : Meeting → Entry → String → Fetched → List QueueCall
unfolding by_status
by_row m e job_id (failed job_not_found) = try_ack m.ack_up e.id
by_row m e job_id (failed _) = []
by_row m e job_id (row j) = by_status m e job_id j.status

by_entry : Meeting → Entry → Option String → List QueueCall
unfolding by_row
by_entry m e none = try_ack m.ack_up e.id
by_entry m e (some job_id) = by_row m e job_id m.fetched

-- The body of the inner loop: the calls made on Redis for one message.
unfoldable pub recover_message : Meeting → Entry → List QueueCall
unfolding by_entry
recover_message m e = by_entry m e e.job_id

unfoldable pub recover_batch : (Entry → Meeting) → List Entry → List QueueCall
recover_batch meet [] = []
recover_batch meet (e ∷ es) = recover_message (meet e) e ++ recover_batch meet es
