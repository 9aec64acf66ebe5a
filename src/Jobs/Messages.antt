-- ===== src/Jobs/Messages.antt =====
-- Theorems on jobs/pending_recovery.go, in terms of the table that it looks jobs up in.
use codera.Base.{is_some, String, Bool, true, none, some, List, [], ◌∷◌, ◌≡◌, arith, ◌⊎◌}
use codera.Queue.{AddReply, not_added, QueueCall, Entry, xack, xadd, enqueue}
use codera.Jobs.Job.{queued, claimed, running, completed, dead_lettered, ExecutionJob}
use codera.Jobs.Table.{Table, Moment, answered, find}
use codera.Jobs.Store.{Fetched, row, get}
use codera.Jobs.Pending.{recover_message}
use codera.Jobs.Lifecycle.{IsValid}

-- The calls of one message, where XACK succeeds.
abbrev pub calls_at : Fetched → Bool → AddReply → Entry → List QueueCall
calls_at f closed up e =
    recover_message (record { fetched = f; ack_up = true; queue_closed = closed; add_reply = up }) e

-- What keeps a job alive once its message has been acknowledged: it is done, or a worker holds a
-- lease that can run out, or a new message has been sent, or could not be because the queue is
-- closed or Redis refuses, and then the row waits in the queue for the dispatch sweep.
abbrev pub IsKept : Entry → Bool → AddReply → ExecutionJob → List QueueCall → Type 0
IsKept e closed up j calls =
    (j.status ≡ completed)
    ⊎ ((j.status ≡ running) × (is_some j.lease_expires_at ≡ true))
    ⊎ ((j.status ≡ queued) × (calls ≡ xack e.id ∷ xadd j.id "run" ∷ []))
    ⊎ ((j.status ≡ queued) × ((closed ≡ true) ⊎ (up ≡ not_added)))

-- A message whose job is a valid row is acknowledged only if the job is kept: it is completed, or
-- running under a lease, or queued with a new message sent or refused by the queue; for a claimed
-- or dead-lettered job no call is made.
pub recover_message-IsKept :
    (e : Entry) (j : ExecutionJob) (closed : Bool) (up : AddReply)
    → e.job_id ≡ some j.id
    → IsValid j
    → IsKept e closed up j (calls_at (row j) closed up e)
      ⊎ ((calls_at (row j) closed up e ≡ []) × ((j.status ≡ claimed) ⊎ (j.status ≡ dead_lettered)))
unfolding recover_message enqueue
recover_message-IsKept e j closed up k v = ground arith

-- A message whose job id is no key of `executions`, as that of every submission is, is
-- acknowledged, and nothing is sent in its place.
foreign_message_is_dropped :
    (m : Moment) (t : Table) (e : Entry) (id : String) (closed : Bool) (up : AddReply)
    → m.reply ≡ answered
    → e.job_id ≡ some id
    → find id t ≡ none
    → calls_at (get m id t) closed up e ≡ xack e.id ∷ []
unfolding recover_message get
foreign_message_is_dropped m t e id closed up a k h = ground arith
