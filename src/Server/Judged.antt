-- ===== src/Server/Judged.antt =====
-- Theorems on createSubmission, the worker's Judge and getSubmission together.
use codera.Base.{String}
use codera.Domain.{Language, Submission}
use codera.Repository.Rows.{returned}
use codera.Repository.Submissions as Submissions
use codera.Judge.Stored.{Database}

module _ {Float : Type 0} where
  -- The tables after createSubmission has stored the submission `s` under the id `id`.
  abbrev pub submitted : String → Submission → Database Float → Database Float
  submitted id s d = record d { submissions = (Submissions.create (returned id) s d.submissions).0 }
