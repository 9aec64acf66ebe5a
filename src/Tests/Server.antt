-- ===== src/Tests/Server.antt =====
-- The theorems on the handlers, at concrete requests.
use codera.Base.{Bool, false, some, str_eq}
use codera.Queue.{appended}
use codera.Domain.{Language}
use codera.Server.Submissions.{CreateSubmissionRequest, create_submission}
use codera.Repository.Rows.{found}
use codera.Server.Accepted.{IsKeptPromise, create_submission-IsKeptPromise}
use codera.Tests.Data.{source, problem}

abbrev only_python : Language → Bool
only_python lang = str_eq lang "python"

abbrev a_request : CreateSubmissionRequest
a_request = record { user_id = "u1"; language = "python"; source_code = source }

create_submission-IsKeptPromise_example :
    IsKeptPromise only_python
      (some "s1")
      false
      appended
      (some a_request)
      (found problem)
      (create_submission only_python (some "s1") false appended (some a_request) (found problem))
create_submission-IsKeptPromise_example =
    create_submission-IsKeptPromise only_python (some "s1") false appended (some a_request)
      (found problem)
