-- ===== src/Server/Accepted.antt =====
-- Theorems on the handlers of executions and submissions: status codes and messages.
use codera.Base.{
  String, Bool, true, false, Option, none, some, List, [], ◌∷◌, ◌≡◌, ◌≢◌, ◌⊎◌, inl, inr, refl,
  arith, Bytes, not, ◌&&◌, ◌++◌, codes, contains, str_eq, bytes_eq, Option-cases, Bool-cases,
}
use codera.Domain.{Language, JobRequest, Problem, published}
use codera.Queue.{
  succeeds, AddReply, appended, not_added, answer_lost, QueueError, QueueCall, xadd, enqueue,
}
use codera.Jobs.Table.{Table}
use codera.Jobs.Store.{StoreError}
use codera.Jobs.Service as Service
use codera.Jobs.Service.{Created, job, Surroundings, new_job, create_execution}
use codera.Jobs.Creation.{Answered, create_execution-Answered}
use codera.Server.Executions.{handle_execute, answer, code_of_error, error_text}
use codera.Repository.Rows.{Looked, found, missing, failing}
use codera.Server.Submissions.{
  CreateSubmissionRequest, is_published, new_submission, Outcome, create_submission,
}

module _ (supported : Language → Bool) (created : Option String) (closed : Bool)
    (up : AddReply) where
  -- The submission is stored and its message sent, but the answer of Redis has been lost.
  abbrev pub IsUnanswered :
      {Float : Type 0} → Option CreateSubmissionRequest → Looked (Problem Float) → Outcome → Type 0
  IsUnanswered {Float} decoded problem o =
      (up ≡ answer_lost)
      × (o.response.status_code ≡ 500)
      × ((req : CreateSubmissionRequest) × (p : Problem Float) × (id : String) × ((decoded
              ≡ some req)
            × (problem ≡ found p)
            × (created ≡ some id))
          × (o.saved ≡ some (new_submission req p.id id))
          × (o.calls ≡ xadd id "submission" ∷ []))

  -- What a response of createSubmission says: an accepted submission is of a published problem and
  -- a supported language, and is stored, sent and returned; of any other nothing is sent, unless the answer of Redis has
  -- been lost.
  abbrev pub IsKeptPromise :
      {Float : Type 0} → Option CreateSubmissionRequest → Looked (Problem Float) → Outcome → Type 0
  IsKeptPromise {Float} decoded problem o =
      ((o.response.status_code ≡ 202)
        × ((req : CreateSubmissionRequest) × (p : Problem Float) × (id : String) × ((decoded
                ≡ some req)
              × (problem ≡ found p)
              × (created ≡ some id))
            × (p.status ≡ published)
            × (supported req.language ≡ true)
            × (o.saved ≡ some (new_submission req p.id id))
            × (o.calls ≡ xadd id "submission" ∷ [])
            × (o.response.body ≡ some (new_submission req p.id id))))
      ⊎ ((o.response.status_code ≢ 202) × ((o.calls ≡ []) ⊎ IsUnanswered decoded problem o))

  -- Whether the handler gets to its end, for a problem that is found.
  abbrev is_sent : {Float : Type 0} → CreateSubmissionRequest → Problem Float → Bool
  is_sent req p = is_published p.status && (supported req.language && (not closed && succeeds up))

  sent-IsKeptPromise :
      {Float : Type 0} (req : CreateSubmissionRequest) (p : Problem Float) (id : String)
      → created ≡ some id
      → is_sent req p ≡ true
      → IsKeptPromise
          (some req)
          (found p)
          (create_submission supported created closed up (some req) (found p))
  unfolding create_submission enqueue
  sent-IsKeptPromise req p id c e = inl (
    ground (arith, c, e),
    (
      req,
      p,
      id,
      (refl, refl, c),
      ground (arith, e),
      ground (arith, e),
      ground (arith, c, e),
      ground (arith, c, e),
      ground (arith, c, e),
    ),
  )

  unsent-IsKeptPromise :
      {Float : Type 0} (req : CreateSubmissionRequest) (p : Problem Float)
      → (created ≡ none)
        ⊎ ((is_published p.status && (supported req.language && not closed)) ≡ false)
        ⊎ (up ≡ not_added)
      → IsKeptPromise
          (some req)
          (found p)
          (create_submission supported created closed up (some req) (found p))
  unfolding create_submission enqueue
  unsent-IsKeptPromise req p e = inr (λ h. ground (arith, e, h), inl (ground (arith, e)))

  unanswered-IsKeptPromise :
      {Float : Type 0} (req : CreateSubmissionRequest) (p : Problem Float) (id : String)
      → created ≡ some id
      → (is_published p.status && (supported req.language && not closed)) ≡ true
      → up ≡ answer_lost
      → IsKeptPromise
          (some req)
          (found p)
          (create_submission supported created closed up (some req) (found p))
  unfolding create_submission enqueue
  unanswered-IsKeptPromise req p id c e l = inr (
    λ h. ground (arith, c, e, l, h),
    inr (
      l,
      ground (arith, c, e, l),
      (req, p, id, (refl, refl, c), ground (arith, c, e, l), ground (arith, c, e, l)),
    ),
  )

  replies : (up ≡ appended) ⊎ (up ≡ not_added) ⊎ (up ≡ answer_lost)
  replies = ground arith

  -- Every response of createSubmission keeps its promise: 202 is answered only if the problem is
  -- published, the language is supported, and the submission has been stored and its message sent;
  -- with any other answer no message has been sent, unless the answer of Redis has been lost: then
  -- the submission is stored, its message sent, and 500 is answered.
  pub create_submission-IsKeptPromise :
      {Float : Type 0} (decoded : Option CreateSubmissionRequest) (problem : Looked (Problem Float))
      → IsKeptPromise decoded problem
          (create_submission supported created closed up decoded problem)
  unfolding create_submission enqueue
  create_submission-IsKeptPromise none problem = inr (λ e. omega arith, inl refl)
  create_submission-IsKeptPromise (some req) missing = inr (λ e. omega arith, inl refl)
  create_submission-IsKeptPromise (some req) failing = inr (λ e. omega arith, inl refl)
  create_submission-IsKeptPromise (some req) (found p) = elim (Option-cases created) [
    | inl n ↦ unsent-IsKeptPromise req p (inl n)
    | inr (id, c) ↦
        elim (Bool-cases (is_published p.status && (supported req.language && not closed))) [
          | inr e ↦ unsent-IsKeptPromise req p (inr (inl e))
          | inl e ↦ elim replies [
            | inl a ↦ sent-IsKeptPromise req p id c (ground (arith, e, a))
            | inr (inl a) ↦ unsent-IsKeptPromise req p (inr (inr a))
            | inr (inr a) ↦ unanswered-IsKeptPromise req p id c e a
          ]
        ]
  ]

module _ (supported : Language → Bool) (store_text : StoreError → Bytes)
    (queue_text : QueueError → Bytes) (s : Surroundings) where
  code_of_error-ne-202 : (e : Service.ServiceError) → code_of_error store_text queue_text e ≢ 202
  unfolding code_of_error
  code_of_error-ne-202 e h = ground (arith, h)

  promised :
      (req : JobRequest) (t t' : Table) (calls : List QueueCall) (out : Created)
      → Answered supported s req t t' calls out
      → (answer store_text queue_text out).status_code ≡ 202
      → Answered supported s req t t' calls (job (new_job s req))
  unfolding answer
  promised req t t' calls (job j) (a, b, c, d) h = (a, b, refl, d)
  promised req t t' calls (Created.failed e) a h = absurd (code_of_error-ne-202 e h)

  -- HandleExecute answers 202 only if the request is a POST that decodes and CreateExecution
  -- returns a job; then the row is stored, its message sent, and the job returned.
  handle_execute_lem :
      (is_post : Bool) (decoded : Option JobRequest) (t : Table)
      → (handle_execute supported store_text queue_text s is_post decoded t).2.status_code ≡ 202
      → (req : JobRequest) × ((is_post ≡ true) × (decoded ≡ some req))
        × Answered supported s req t
            (handle_execute supported store_text queue_text s is_post decoded t).0
            (handle_execute supported store_text queue_text s is_post decoded t).1
            (job (new_job s req))
  unfolding handle_execute answer
  handle_execute_lem false decoded t h = absurd (omega (arith, h))
  handle_execute_lem true none t h = absurd (omega (arith, h))
  handle_execute_lem true (some req) t h =
      (req, (refl, refl), promised req t _ _ _ (create_execution-Answered supported s req t) h)

  -- A well-formed request for an unsupported language is answered 500, an error of the server,
  -- and not 400, unless the name of the language itself makes the text contain "required".
  unsupported_is_500 :
      (req : JobRequest) (t : Table)
      → str_eq req.language "" ≡ false
      → bytes_eq req.source_code [] ≡ false
      → supported req.language ≡ false
      → contains (codes "unsupported language: " ++ codes req.language) (codes "required") ≡ false
      → (handle_execute supported store_text queue_text s true (some req) t).2.status_code ≡ 500
  unfolding handle_execute answer code_of_error create_execution error_text
  unsupported_is_500 req t l c u q = ground (arith, l, c, u, q)
