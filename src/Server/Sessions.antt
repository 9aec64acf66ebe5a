-- ===== src/Server/Sessions.antt =====
-- backend/internal/server/ws_handler.go: handleRunWS and handleSubmissionWS. The two differ in what
-- they send and in what is final, which are arguments. What the loop selects is a list of events,
-- and the frames that are written are listed; errors of WriteJSON are ignored by the code.
use codera.Base.{
  String, Bool, true, false, ◌||◌, Option, none, some, List, [], ◌∷◌, str_eq, if◌then◌else◌,
}
use codera.Domain.{Submission, completed}
use codera.Jobs.Job.{ExecutionJob, is_completed, is_dead_lettered}
use codera.Repository.Rows.{Looked, found, missing, failing}

-- A message, decoded if it can be; a tick, with whether the ping can be written; the end of the
-- request's context; and the channel of messages closed, as it is once the client has left.
pub data Event (State : Type 0) : Type 0 where
  message : Option State → Event State
  tick : Bool → Event State
  done : Event State
  channel_closed : Event State

pub data Frame (State : Type 0) : Type 0 where
  state : State → Frame State
  not_found : Frame State
  normal_closure : Frame State
  ping : Frame State

-- `waiting` is a session whose events have not ended it. A receive from the closed channel gives
-- nil, whose Payload cannot be read.
pub data End : Type 0 where
  returned waiting panicked : End

-- What is written, and how the handler ends; 400 for a path without an id.
pub data Session (State : Type 0) : Type 0 where
  bad_request : Session State
  not_upgraded : Session State
  served : List (Frame State) → End → Session State

abbrev pub writes {ℓ} : {A : Type ℓ} {B : Type 0} → A → List A × B → List A × B
writes f (fs, e) = (f ∷ fs, e)

module _ {State : Type 0} (is_final : State → Bool) where
  -- The loop with its select.
  unfoldable pub listen : List (Event State) → List (Frame State) × End
  listen [] = ([], waiting)
  listen (message none ∷ es) = listen es
  listen (message (some s) ∷ es) =
      let rest = listen es in
      if is_final s then (state s ∷ normal_closure ∷ [], returned) else writes (state s) rest
  listen (tick false ∷ es) = ([], returned)
  listen (tick true ∷ es) = writes ping (listen es)
  listen (done ∷ es) = ([], returned)
  listen (channel_closed ∷ es) = ([], panicked)

  -- After the initial fetch, of which the handler tells no error from another.
  unfoldable pub after_fetch : List (Event State) → Looked State → List (Frame State) × End
  unfolding listen
  after_fetch es missing = (not_found ∷ [], returned)
  after_fetch es failing = (not_found ∷ [], returned)
  after_fetch es (found s) =
      if is_final s then (state s ∷ normal_closure ∷ [], returned) else writes (state s) (listen es)

  unfoldable pub handle_ws : String → Bool → Looked State → List (Event State) → Session State
  unfolding after_fetch
  handle_ws id upgrades fetched es =
      if str_eq id ""
      then bad_request
      else if upgrades
      then (let (fs, e) = after_fetch es fetched in served fs e)
      else not_upgraded

-- job.Status == jobs.StatusCompleted || job.Status == jobs.StatusDeadLettered
abbrev pub is_final_job : ExecutionJob → Bool
is_final_job j = is_completed j.status || is_dead_lettered j.status

abbrev pub is_final_submission : Submission → Bool
is_final_submission s = elim s.status [ completed ↦ true | _ ↦ false ]

unfoldable pub handle_run_ws :
    String → Bool → Looked ExecutionJob → List (Event ExecutionJob) → Session ExecutionJob
unfolding handle_ws
handle_run_ws = handle_ws is_final_job

unfoldable pub handle_submission_ws :
    String → Bool → Looked Submission → List (Event Submission) → Session Submission
unfolding handle_ws
handle_submission_ws = handle_ws is_final_submission
