-- ===== src/Repository/Submissions.antt =====
-- backend/internal/repository/submission_repo.go
use codera.Base.{String, Bool, true, false, Option, none, List, [], ◌∷◌, str_eq, if◌then◌else◌}
use codera.Domain.{Submission}
use codera.Jobs.Table.{Reply, answered, refused, lost}
use codera.Repository.Rows.{InsertReply, Looked, found, missing, failing, insert, look_up}

-- `s.ID` and `s.StartedAt` are not sent.
unfoldable pub create :
    InsertReply → Submission → List Submission → List Submission × Option Submission
unfolding insert
create reply s t = insert (λ id. record s { id = id }) reply t

-- StartedAt is not read either, and stays nil.
abbrev pub as_read : Looked Submission → Looked Submission
as_read (found s) = found (record s { started_at = none })
as_read missing = missing
as_read failing = failing

unfoldable pub get_by_id : Bool → String → List Submission → Looked Submission
unfolding look_up
get_by_id up id t = as_read (look_up (λ s. s.id) up id t)

-- The columns that UPDATE sets.
unfoldable pub updated : Submission → Submission → Submission
updated s row = record row {
  status = s.status;
  verdict = s.verdict;
  execution_time_ms = s.execution_time_ms;
  memory_used_bytes = s.memory_used_bytes;
  passed_test_cases = s.passed_test_cases;
  total_test_cases = s.total_test_cases;
  ai_time_complexity = s.ai_time_complexity;
  ai_space_complexity = s.ai_space_complexity;
  ai_feedback = s.ai_feedback;
  completed_at = s.completed_at;
}

-- UPDATE ... WHERE id = s.ID
unfoldable pub update_rows : Submission → List Submission → List Submission
unfolding updated
update_rows s [] = []
update_rows s (r ∷ t) = (if str_eq r.id s.id then updated s r else r) ∷ update_rows s t

-- The table that Exec leaves, and whether it returns no error; that no row has the id is none.
unfoldable pub update : Reply → Submission → List Submission → List Submission × Bool
unfolding update_rows
update answered s t = (update_rows s t, true)
update refused s t = (t, false)
update lost s t = (update_rows s t, false)

-- What others may do to the table: a submission is stored, or a judge saves one.
pub data Write : Type 0 where
  inserts : InsertReply → Submission → Write
  updates : Reply → Submission → Write

unfoldable pub carry_out : Write → List Submission → List Submission
unfolding create update
carry_out (inserts reply s) t = (create reply s t).0
carry_out (updates reply s) t = (update reply s t).0

unfoldable pub write_all : List Write → List Submission → List Submission
unfolding carry_out
write_all [] t = t
write_all (w ∷ ws) t = write_all ws (carry_out w t)
