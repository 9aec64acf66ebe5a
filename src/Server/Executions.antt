-- ===== src/Server/Executions.antt =====
-- backend/internal/server/execution_handler.go. The decoder of the body, and the texts of errors
-- that come from outside, are arguments.
use codera.Base.{
  ℕ, String, Bool, true, false, Option, none, some, List, [], ◌∷◌, ◌++◌, Bytes, codes, contains,
  if◌then◌else◌,
}
use codera.Domain.{Language, JobRequest}
use codera.Queue.{QueueError, queue_full, QueueCall}
use codera.Jobs.Job.{ExecutionJob}
use codera.Jobs.Table.{Table, Moment}
use codera.Jobs.Store.{StoreError, job_not_found, Fetched, row}
use codera.Jobs.Service.{
  ServiceError, fields_required, unsupported_language, store_failed, enqueue_failed, Created, job,
  Surroundings, create_execution, get_execution,
}

pub record Response : Type 0 where
  pub status_code : ℕ
  pub body : Option ExecutionJob

abbrev pub fails_with : ℕ → Response
fails_with n = record { status_code = n; body = none }

-- err.Error() of what CreateExecution returns.
unfoldable pub error_text : (StoreError → Bytes) → (QueueError → Bytes) → ServiceError → Bytes
error_text store_text queue_text fields_required = codes "language and source_code are required"
error_text store_text queue_text (unsupported_language l) =
    codes "unsupported language: " ++ codes l
error_text store_text queue_text (store_failed e) = codes "failed to store job: " ++ store_text e
error_text store_text queue_text (enqueue_failed e) = queue_text e

-- errors.Is(err, queue.ErrQueueFull)
abbrev pub is_queue_full : ServiceError → Bool
is_queue_full (enqueue_failed queue_full) = true
is_queue_full _ = false

unfoldable pub code_of_error : (StoreError → Bytes) → (QueueError → Bytes) → ServiceError → ℕ
code_of_error store_text queue_text e =
    if is_queue_full e
    then 429
    else if contains (error_text store_text queue_text e) (codes "required")
    then 400
    else 500

unfoldable pub answer : (StoreError → Bytes) → (QueueError → Bytes) → Created → Response
answer store_text queue_text (job j) = record { status_code = 202; body = some j }
answer store_text queue_text (Created.failed e) = fails_with (code_of_error store_text queue_text e)

module _ (supported : Language → Bool) (store_text : StoreError → Bytes)
    (queue_text : QueueError → Bytes) (s : Surroundings) where
  after_decode : Table → Option JobRequest → Table × List QueueCall × Response
  after_decode t none = (t, [], fails_with 400)
  after_decode t (some req) =
      let (t', calls, out) = create_execution supported s req t in
      (t', calls, answer store_text queue_text out)

  -- The body of HandleExecute, for a request with method POST or not.
  unfoldable pub handle_execute :
      Bool → Option JobRequest → Table → Table × List QueueCall × Response
  unfolding after_decode
  handle_execute is_post decoded t =
      if is_post then after_decode t decoded else (t, [], fails_with 405)

answer_fetched : Fetched → Response
answer_fetched (row j) = record { status_code = 200; body = some j }
answer_fetched (Fetched.failed job_not_found) = fails_with 404
answer_fetched (Fetched.failed _) = fails_with 500

-- `parts` is the path, split at its slashes.
get_part : Moment → List String → Table → Response
unfolding answer_fetched
get_part m (a ∷ b ∷ c ∷ d ∷ id ∷ parts) t = answer_fetched (get_execution m id t)
get_part m _ t = fails_with 400

unfoldable pub handle_get_execution : Moment → Bool → List String → Table → Response
unfolding get_part
handle_get_execution m is_get parts t = if is_get then get_part m parts t else fails_with 405
