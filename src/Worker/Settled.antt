-- ===== src/Worker/Settled.antt =====
-- Theorems on processJobSafely of worker/pool.go: both types of messages.
use codera.Base.{String, true, some, ◌≡◌, if◌then◌else◌, inl, inr, Bool-cases, str_eq}
use codera.Domain.{Submission, TestCase}
use codera.Queue.{QueueMessage}
use codera.Judge.Comparator.{Floats, ComparatorRegistry}
use codera.Judge.Loop as Loop
use codera.Judge.Loop.{JudgeError}
use codera.Judge.Stored.{Database, Replies, save_all, stored_host, judge_stored}
use codera.Judge.Shown.{IsFinal, judged_is_shown}
use codera.Repository.Updates.{is_carried_out}
use codera.Repository.Rows.{found, look_up, OrderBy}
use codera.Repository.TestCases.{IsEarlier}
use codera.Repository.Submissions.{get_by_id}
use codera.Server.Submissions.{get_submission}
use codera.Jobs.Table.{Table}
use codera.Jobs.Rows.{Unique}
use codera.Worker.Process.{Surroundings}
use codera.Worker.Safety.{acks, IsDone, ack-IsDone}
use codera.Worker.Dispatch.{Processed, process_submission, process_job}

module _ (f : Floats) (h : Loop.Host f.Float) (comparators : ComparatorRegistry) (s : Surroundings)
    (worker : String) (msg : QueueMessage) (o : OrderBy TestCase IsEarlier)
    (replies : Replies) where
  -- What the worker leaves of a message, where Judge reads the tables as they are.
  abbrev pub handled : Database f.Float → Table → Processed
  handled d t =
      process_job f (stored_host f h comparators s.registry o replies msg.job_id d) comparators s
        worker msg t

  -- After the updates of Judge and what others write between them, getSubmission answers 200 with
  -- the submission completed, with a verdict.
  abbrev pub IsJudged : Submission → Database f.Float → Processed → Type 0
  IsJudged sub d p =
      (row : Submission) × (get_submission (
          get_by_id true sub.id (
            save_all replies.first_update replies.others replies.last_update d.submissions p.saved))
        ≡ record { status_code = 200; body = some row })
      × IsFinal h.clock sub row

  submission-IsJudged :
      (t : Table) (sub : Submission) (d : Database f.Float)
      → msg.job_id ≡ sub.id
      → replies.reads_submission ≡ true
      → is_carried_out replies.last_update ≡ true
      → look_up (λ r. r.id) true sub.id d.submissions ≡ found sub
      → str_eq msg.job_type "submission" ≡ true
      → IsJudged sub d (handled d t)
  unfolding process_job process_submission
  submission-IsJudged t sub d k r c l e =
      rw (e, k)
        (unfold judge_stored in judged_is_shown f h comparators s.registry o replies sub d r c l)

  -- A message that a worker acknowledges has led to an end, if the keys of the table are unique,
  -- its submission is in the table, Judge reads it, and the last update of Judge is carried out,
  -- which neither Judge nor the worker looks at: getSubmission answers 200 with the submission
  -- completed, with a verdict, or the job of the run is completed or dead-lettered.
  pub acknowledged_is_settled :
      (t : Table) (sub : Submission) (d : Database f.Float)
      → Unique t
      → msg.job_id ≡ sub.id
      → replies.reads_submission ≡ true
      → is_carried_out replies.last_update ≡ true
      → look_up (λ r. r.id) true sub.id d.submissions ≡ found sub
      → acks msg.id (handled d t).calls ≡ true
      → (if str_eq msg.job_type "submission"
          then IsJudged sub d (handled d t)
          else IsDone msg.job_id (handled d t).table)
  unfolding process_job
  acknowledged_is_settled t sub d u k r c l a =
      elim (Bool-cases (str_eq msg.job_type "submission")) [
        | inl e ↦
            let judged : IsJudged sub d (handled d t) = submission-IsJudged t sub d k r c l e in
            rw e (rw e at judged)
        | inr e ↦ rw e (ack-IsDone s worker msg t u (rw e at a))
      ]
