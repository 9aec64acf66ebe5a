-- ===== src/Judge/Shown.antt =====
-- Theorems on Judge with the repositories: what the row of a submission is in the end, and what
-- getSubmission of server/submission_handler.go answers.
use codera.Base.{ℕ, true, none, some, List, ◌≡◌, ◌≢◌, refl, sym, subst, ◌∙◌, inl, inr, [], ◌∷◌}
use codera.Domain.{Submission, SubmissionStatus, Verdict, TestCase}
use codera.Jobs.Table.{Reply}
use codera.Sandbox.Container.{ResourceCall}
use codera.Repository.Rows.{Looked, found, OrderBy, look_up}
use codera.Repository.TestCases.{IsEarlier}
use codera.Repository.Submissions.{
  get_by_id, updated, update, Write, inserts, updates, carry_out, write_all,
}
use codera.Repository.Updates.{
  after_update, is_carried_out, look_up-update, look_up-update_any, look_up-create,
}
use codera.Language.Registry.{MapRegistry}
use codera.Judge.Comparator.{Floats, ComparatorRegistry}
use codera.Judge.Loop.{JudgeEnd, Host}
use codera.Judge.Finalized.{Finalizes, judge-Finalizes}
use codera.Judge.Stored.{Database, Replies, save_all, stored_host, judge_stored}
use codera.Server.Submissions.{get_submission}

-- A row that shows the end of the judging of `sub`, which is what it was submitted as.
abbrev pub IsFinal : ℕ → Submission → Submission → Type 0
IsFinal clock sub row =
    ((row.status ≡ SubmissionStatus.completed) × (row.verdict ≢ Verdict.pending))
    × (row.completed_at ≡ some clock)
    × ((row.user_id ≡ sub.user_id) × (row.problem_id ≡ sub.problem_id))
    × ((row.language ≡ sub.language) × (row.source_code ≡ sub.source_code))

-- A row that can only have been changed by updates of the submission.
abbrev pub IsRowOf : Submission → Looked Submission → Type 0
IsRowOf sub l =
    (r : Submission) × (l ≡ found r)
    × ((r.id ≡ sub.id) × (r.user_id ≡ sub.user_id) × (r.problem_id ≡ sub.problem_id))
    × ((r.language ≡ sub.language) × (r.source_code ≡ sub.source_code))

IsRowOf-after_update :
    (sub s : Submission) (l : Looked Submission) → IsRowOf sub l → IsRowOf sub (after_update s l)
unfolding updated
IsRowOf-after_update sub s l (r, e, k, k') = (updated s r, rw e refl, k, k')

IsRowOf-update :
    (a : Reply) (sub s : Submission) (t : List Submission)
    → IsRowOf sub (look_up (λ r. r.id) true sub.id t)
    → IsRowOf sub (look_up (λ r. r.id) true sub.id (update a s t).0)
IsRowOf-update a sub s t h = elim (look_up-update_any sub.id s a t) [
  | inl q ↦ subst (IsRowOf sub) (sym q) h
  | inr q ↦ subst (IsRowOf sub) (sym q) (IsRowOf-after_update sub s _ h)
]

IsRowOf-write_all :
    (sub : Submission) (ws : List Write) (t : List Submission)
    → IsRowOf sub (look_up (λ r. r.id) true sub.id t)
    → IsRowOf sub (look_up (λ r. r.id) true sub.id (write_all ws t))
unfolding write_all carry_out
IsRowOf-write_all sub [] t h = h
IsRowOf-write_all sub (inserts reply s ∷ ws) t (r, e, k, k') =
    IsRowOf-write_all sub ws _ (r, look_up-create sub.id reply s t r e, k, k')
IsRowOf-write_all sub (updates a s ∷ ws) t h =
    IsRowOf-write_all sub ws _ (IsRowOf-update a sub s t h)

-- An update that is carried out decides what the row shows.
update-IsFinal :
    (b : Reply) (clock : ℕ) (sub last : Submission) (t : List Submission)
    → is_carried_out b ≡ true
    → last.id ≡ sub.id
    → (last.status ≡ SubmissionStatus.completed) × (last.verdict ≢ Verdict.pending)
    → last.completed_at ≡ some clock
    → IsRowOf sub (look_up (λ r. r.id) true sub.id t)
    → (row : Submission) × (look_up (λ r. r.id) true sub.id (update b last t).0 ≡ found row)
      × IsFinal clock sub row
unfolding updated
update-IsFinal b clock sub last t c e s q (r, l, (_, u, p), k) =
    (updated last r, look_up-update sub.id last e b t c ∙ rw l refl, (s, q, (u, p), k))

module _ (f : Floats) (h : Host f.Float) (comparators : ComparatorRegistry)
    (languages : MapRegistry) (o : OrderBy TestCase IsEarlier) (replies : Replies) where
  open f use {Float}

  reads :
      (sub : Submission) (d : Database Float)
      → replies.reads_submission ≡ true
      → look_up (λ r. r.id) true sub.id d.submissions ≡ found sub
      → (stored_host f h comparators languages o replies sub.id d).submission
        ≡ some (record sub { started_at = none })
  unfolding stored_host get_by_id
  reads sub d up l = rw (up, l) refl

  saved-IsFinal :
      (sub : Submission) (t saved : List Submission) (calls : List ResourceCall) (e : JudgeEnd)
      → is_carried_out replies.last_update ≡ true
      → look_up (λ r. r.id) true sub.id t ≡ found sub
      → Finalizes h.clock (record sub { started_at = none }) (saved, calls, e)
      → (row : Submission) × (look_up
            (λ r. r.id)
            true
            sub.id
            (save_all replies.first_update replies.others replies.last_update t saved)
          ≡ found row)
        × IsFinal h.clock sub row
  unfolding save_all write_all
  saved-IsFinal sub t saved calls e c l (first, last, q, (a, s), (a', s'), w, v, i, n) = rw q (
      update-IsFinal replies.last_update h.clock sub last _ c a' (s', v) w
        (IsRowOf-write_all sub replies.others _ (
          IsRowOf-update replies.first_update sub first t
            (sub, l, (refl, refl, refl), (refl, refl)))))

  -- Once a submission is in the table, whatever the problem, the tests, the containers, the
  -- processes and the analyser do, and whatever other judges and createSubmission write to the
  -- table between the two updates of this call, a call of Judge that reads it and whose last update
  -- the database carries out ends its judging: after that update getSubmission answers 200 with
  -- the submission as it was sent, completed, with the time of the clock and a verdict other than
  -- PENDING.
  pub judged_is_shown :
      (sub : Submission) (d : Database Float)
      → replies.reads_submission ≡ true
      → is_carried_out replies.last_update ≡ true
      → look_up (λ r. r.id) true sub.id d.submissions ≡ found sub
      → (row : Submission) × (get_submission (
            get_by_id true sub.id
              (judge_stored f h comparators languages o replies sub.id d).0.submissions)
          ≡ record { status_code = 200; body = some row })
        × IsFinal h.clock sub row
  unfolding judge_stored get_submission get_by_id
  judged_is_shown sub d up c l =
      let host = stored_host f h comparators languages o replies sub.id d in
      let (row, e, k) = saved-IsFinal sub d.submissions _ _ _ c l (
        judge-Finalizes f host comparators languages (record sub { started_at = none })
          (reads sub d up l)) in
      (record row { started_at = none }, rw e refl, k)
