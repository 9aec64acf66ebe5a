-- ===== src/Jobs/Creation.antt =====
-- Theorems on CreateExecution of jobs/service.go: its branches.
use codera.Base.{Bool, true, false, none, List, [], ◌∷◌, ◌≡◌, ◌⊎◌, arith, str_eq, bytes_eq}
use codera.Domain.{Language, JobRequest}
use codera.Queue.{not_added, answer_lost, QueueCall, xadd, enqueue}
use codera.Jobs.Job.{clone}
use codera.Jobs.Table.{Table, find}
use codera.Jobs.Store.{create, inserted}
use codera.Jobs.Service.{
  Created, job, failed, fields_required, unsupported_language, store_failed, enqueue_failed,
  Surroundings, new_job, create_execution,
}

module _ (supported : Language → Bool) (s : Surroundings) (req : JobRequest) (t : Table) where
  -- The row that the service asks the store for.
  abbrev pub stored : Table
  stored = inserted (new_job s req) ∷ t

  -- What is left, by the answer: the table, the messages sent, and why.
  abbrev pub Answered : Table → List QueueCall → Created → Type 0
  Answered t' calls (job j) =
      (t' ≡ stored)
      × (calls ≡ xadd s.fresh_id "run" ∷ [])
      × (j ≡ new_job s req)
      × (find s.fresh_id t ≡ none)
  Answered t' calls (failed (enqueue_failed e)) =
      (t' ≡ stored)
      × (((calls ≡ []) × ((s.queue_closed ≡ true) ⊎ (s.add_reply ≡ not_added)))
          ⊎ ((calls ≡ xadd s.fresh_id "run" ∷ []) × (s.add_reply ≡ answer_lost)))
  Answered t' calls (failed (store_failed e)) = ((t' ≡ t) ⊎ (t' ≡ stored)) × (calls ≡ [])
  Answered t' calls (failed fields_required) =
      (t' ≡ t)
      × (calls ≡ [])
      × ((str_eq req.language "" ≡ true) ⊎ (bytes_eq req.source_code [] ≡ true))
  Answered t' calls (failed (unsupported_language l)) =
      (t' ≡ t) × (calls ≡ []) × (l ≡ req.language) × (supported req.language ≡ false)

  -- CreateExecution sends a message only for a row that it has stored under a fresh key, and
  -- returns that job; if the queue fails, the row is there, and its message is not, unless it was
  -- sent and the answer of Redis got lost; if the store fails,
  -- the row may be there and no message is sent; a request without a language or a program, or of
  -- an unsupported language, changes nothing.
  pub create_execution-Answered :
      Answered
        (create_execution supported s req t).0
        (create_execution supported s req t).1
        (create_execution supported s req t).2
  unfolding create_execution create enqueue clone new_job inserted
  create_execution-Answered = ground arith
