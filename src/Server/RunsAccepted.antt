-- ===== src/Server/RunsAccepted.antt =====
-- Theorems on the run handlers and the guard against new work of backend/internal/server.
use codera.Base.{
  ℕ, Bool, true, false, Option, none, some, List, [], ◌∷◌, ◌≡◌, ◌⊎◌, inl, inr, refl, Bool-cases,
}
use codera.Domain.{Language}
use codera.Queue.{answer_lost, QueueCall, xadd}
use codera.Jobs.Table.{Table, find}
use codera.Jobs.Service.{
  Created, job, failed, fields_required, unsupported_language, store_failed, enqueue_failed,
  Surroundings, new_job,
}
use codera.Jobs.Creation.{Answered, create_execution-Answered, stored}
use codera.Server.Runs.{
  CreateRunRequest, RunBody, RunResponse, answered, refused, answer_created, job_request,
  create_run,
}

module _ (supported : Language → Bool) (s : Surroundings) (t : Table) where
  -- The row is stored and its message sent, but the answer of Redis has been lost.
  abbrev pub IsUnanswered : Option CreateRunRequest → Table × List QueueCall × ℕ → Type 0
  IsUnanswered decoded (t', calls, n) =
      (n ≡ 500)
      × (s.add_reply ≡ answer_lost)
      × (calls ≡ xadd s.fresh_id "run" ∷ [])
      × ((req : CreateRunRequest) × (decoded ≡ some req)
          × (t' ≡ stored supported s (job_request req) t))

  -- What createRun has done, by its answer.
  abbrev pub IsRunKept :
      Option CreateRunRequest → Table × List QueueCall × RunResponse RunBody → Type 0
  IsRunKept decoded (t', calls, answered n b) =
      (n ≡ 202)
      × ((req : CreateRunRequest) × (decoded ≡ some req)
          × (supported req.language ≡ true)
          × (t' ≡ stored supported s (job_request req) t)
          × (calls ≡ xadd b.id "run" ∷ [])
          × ((b.id ≡ s.fresh_id) × (b.status ≡ (new_job s (job_request req)).status))
          × (find s.fresh_id t ≡ none))
  IsRunKept decoded (t', calls, refused n) =
      ((calls ≡ []) ⊎ IsUnanswered decoded (t', calls, n))
      × (((n ≡ 400)
            × (t' ≡ t)
            × ((decoded ≡ none)
                ⊎ ((req : CreateRunRequest) × (decoded ≡ some req)
                    × (supported req.language ≡ false))))
          ⊎ ((n ≡ 500)
              × ((req : CreateRunRequest) × (decoded ≡ some req)
                  × (supported req.language ≡ true))))

  created-IsRunKept :
      (req : CreateRunRequest) (t' : Table) (calls : List QueueCall) (out : Created)
      → supported req.language ≡ true
      → Answered supported s (job_request req) t t' calls out
      → IsRunKept (some req) (t', calls, answer_created out)
  unfolding answer_created new_job
  created-IsRunKept req t' calls (job j) h (a, b, c, d) =
      (refl, (req, refl, h, a, rw c b, (rw c refl, rw c refl), d))
  created-IsRunKept req t' calls (failed fields_required) h (a, b, c) =
      (inl b, inr (refl, (req, refl, h)))
  created-IsRunKept req t' calls (failed (unsupported_language l)) h (a, b, c, d) =
      (inl b, inr (refl, (req, refl, h)))
  created-IsRunKept req t' calls (failed (store_failed e)) h (a, b) =
      (inl b, inr (refl, (req, refl, h)))
  created-IsRunKept req t' calls (failed (enqueue_failed e)) h (a, inl (b, c)) =
      (inl b, inr (refl, (req, refl, h)))
  created-IsRunKept req t' calls (failed (enqueue_failed e)) h (a, inr (b, c)) =
      (inr (refl, c, b, (req, refl, a)), inr (refl, (req, refl, h)))

  -- createRun answers 202 only if the body decodes and the language is supported; then the row of
  -- the job is stored under a fresh id, its message is sent, and the id and the status are those of
  -- the answer. It answers 400 exactly if the body does not decode or the language is not
  -- supported, and leaves the table as it is; any other failure is answered 500. Without 202 no
  -- message is sent, unless the answer of Redis has been lost: then the row and its message are there,
  -- and 500 is answered.
  pub create_run-IsRunKept :
      (decoded : Option CreateRunRequest) → IsRunKept decoded (create_run supported s decoded t)
  unfolding create_run
  create_run-IsRunKept none = (inl refl, inl (refl, refl, inl refl))
  create_run-IsRunKept (some req) = elim (Bool-cases (supported req.language)) [
    | inl e ↦
        rw e (
          created-IsRunKept req _ _ _ e (create_execution-Answered supported s (job_request req) t))
    | inr e ↦ rw e (inl refl, inl (refl, refl, inr (req, refl, e)))
  ]
