-- ===== src/Tests/Data.antt =====
-- The jobs, submissions, executors and surroundings that the tests run on.
use codera.Base.{
  ℕ, ◌+◌, ◌*◌, ◌-◌, String, Bool, true, false, ◌&&◌, ◌||◌, Option, none, some, List, [], ◌∷◌, Bytes,
  codes, ltb, leb, if◌then◌else◌, bytes_eq,
}
use codera.Config.Numbers.{pos}
use codera.Domain.{
  ExecutionRequest, Submission, SubmissionStatus, Verdict, Problem, TestCase, TestCaseVisibility,
  ProblemStatus, ComparisonMode,
}
use codera.Jobs.Job.{ExecutionJob, JobStatus}
use codera.Jobs.Table.{Table, Moment, answered}
use codera.Process.Run.{Behaviour, timer, waited}
use codera.Sandbox.Profile.{profile_small}
use codera.Sandbox.Container.{Arg, DockerReply}
use codera.Language.Executor.{System}
use codera.Language.Executors.{python_executor}
use codera.Language.Registry.{MapRegistry}
use codera.Execution.Service as ExecutionService
use codera.Judge.Comparator.{Floats, ComparatorRegistry, exact_comparator, whitespace_comparator}
use codera.Judge.Loop as Loop

-- Seconds, as the microseconds of the model.
abbrev pub seconds : ℕ → ℕ
seconds n = n * 1000000

abbrev pub at : ℕ → Moment
at n = record { now = seconds n; reply = answered }

abbrev pub source : Bytes
source = codes "print(1)"

abbrev pub new_job : String → ExecutionJob
new_job id = record {
  id = id;
  language = "python";
  source_code = source;
  inputs = codes "1" ∷ [];
  status = JobStatus.queued;
  results = [];
  created_at = 0;
  claimed_at = none;
  started_at = none;
  completed_at = none;
  worker_id = none;
  attempt_count = 0;
  max_attempts = 3;
  next_retry_at = none;
  lease_expires_at = none;
  last_error = none;
  dead_lettered_at = none;
  last_dispatched_at = none;
}

-- A job that worker "w1" is running, under a lease up to second 40.
abbrev pub leased_job : String → ExecutionJob
leased_job id = record (new_job id) {
  status = JobStatus.running;
  claimed_at = some (seconds 10);
  started_at = some (seconds 11);
  worker_id = some "w1";
  attempt_count = 1;
  lease_expires_at = some (seconds 40);
}

abbrev pub done_job : String → ExecutionJob
done_job id = record (leased_job id) {
  status = JobStatus.completed;
  completed_at = some (seconds 12);
  worker_id = none;
  lease_expires_at = none;
}

abbrev pub two_jobs : Table
two_jobs = leased_job "job-1" ∷ new_job "job-2" ∷ []

-- Every process prints "1\n" and exits with 0.
abbrev pub prints_one : Behaviour
prints_one = record {
  start_error = none;
  out_chunks = codes "1" ∷ codes "\n" ∷ [];
  err_chunks = [];
  ended = waited none;
  parent_first = false;
}

abbrev pub hangs : Behaviour
hangs = record prints_one { out_chunks = []; ended = timer }

abbrev pub system : System
system args stdin timeout = prints_one

abbrev pub hanging : System
hanging args stdin timeout = hangs

abbrev pub registry : MapRegistry
registry = ("python", python_executor profile_small) ∷ []

abbrev pub docker : List Arg → DockerReply
docker args = DockerReply.printed "c1"

abbrev pub host : ExecutionService.Host
host = record {
  workspace = some "/tmp/exec-1";
  docker = docker;
  seccomp_path = "/seccomp.json";
  writes = true;
  system = system;
}

abbrev pub request : ExecutionRequest
request = record { language = "python"; source_code = source; input = codes "1" }

-- Numbers without a fraction, and NaN as `none`.
abbrev pub digits : ℕ → Bytes → Option ℕ
digits n [] = some n
digits n (c ∷ s) = if leb 48 c && leb c 57 then digits (n * 10 + (c - 48)) s else none

abbrev number : Option ℕ → Option (Option ℕ)
number none = none
number (some n) = some (some n)

abbrev parse : Bytes → Option (Option ℕ)
parse [] = none
parse (c ∷ s) = if bytes_eq (c ∷ s) (codes "NaN") then some none else number (digits 0 (c ∷ s))

abbrev farther : Option ℕ → Option ℕ → Option ℕ → Bool
farther (some a) (some b) (some e) = ltb (b + e) a || ltb (a + e) b
farther _ _ _ = false

abbrev pub whole : Floats
whole = record { Float = Option ℕ; parse_float = parse; is_farther = farther }

abbrev pub comparators : ComparatorRegistry
comparators =
    (ComparisonMode.exact, exact_comparator)
    ∷ (ComparisonMode.normalized_whitespace, whitespace_comparator)
    ∷ []

abbrev pub a_test : Bytes → TestCase
a_test expected = record {
  id = "t";
  problem_id = "p1";
  input = codes "1";
  expected_output = expected;
  visibility = TestCaseVisibility.visible;
  sort_order = pos 0;
  created_at = 0;
}

abbrev pub problem : Problem (Option ℕ)
problem = record {
  id = "p1";
  title = "One";
  slug = "one";
  description = [];
  input_description = [];
  output_description = [];
  constraints = [];
  time_limit_ms = pos 1000;
  memory_limit_mb = pos 64;
  comparison_mode = ComparisonMode.normalized_whitespace;
  float_epsilon = some 0;
  status = ProblemStatus.published;
  created_at = 0;
}

abbrev pub submission : Submission
submission = record {
  id = "s1";
  user_id = "u1";
  problem_id = "p1";
  language = "python";
  source_code = source;
  status = SubmissionStatus.queued;
  verdict = Verdict.pending;
  execution_time_ms = 0;
  memory_used_bytes = 0;
  passed_test_cases = 0;
  total_test_cases = 0;
  ai_time_complexity = [];
  ai_space_complexity = [];
  ai_feedback = [];
  created_at = 0;
  started_at = none;
  completed_at = none;
}

abbrev pub tests : List TestCase
tests = a_test (codes "1") ∷ a_test (codes "1\n") ∷ []

abbrev pub judge_host : System → Loop.Host (Option ℕ)
judge_host os = record {
  submission = some submission;
  problem = some problem;
  test_cases = some tests;
  workspace = some "/tmp/judge-1";
  docker = λ n. docker;
  seccomp_path = "/seccomp.json";
  writes = true;
  system = os;
  analyzer = none;
  clock = seconds 20;
}
