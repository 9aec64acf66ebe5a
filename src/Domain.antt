-- ===== src/Domain.antt =====
-- backend/internal/domain: the request, result and status types that all parts share.
-- A Go `type T string` whose values are fixed by the code is an enumeration; `Language`,
-- `ProblemStatus`, `ComparisonMode` and `TestCaseVisibility` come from outside unchecked, so the
-- first is a text and the others keep every other text under `other`.
use codera.Base.{String, Bytes, ℕ, Option, List}
use codera.Config.Numbers.{ℤ}

abbrev pub Language : Type 0
Language = String

abbrev pub language_java : Language
language_java = "java"

abbrev pub language_python : Language
language_python = "python"

abbrev pub language_go : Language
language_go = "go"

abbrev pub language_cpp : Language
language_cpp = "cpp"

abbrev pub language_sql : Language
language_sql = "sql"

pub data ExecutionStatus : Type 0 where
  success compilation_error compilation_timeout runtime_error : ExecutionStatus
  time_limit_exceeded memory_limit_exceeded output_limit_exceeded : ExecutionStatus
  internal_error queued running dead_letter : ExecutionStatus

pub record JobRequest : Type 0 where
  pub language : Language
  pub source_code : Bytes
  pub inputs : List Bytes

pub record ExecutionRequest : Type 0 where
  pub language : Language
  pub source_code : Bytes
  pub input : Bytes

-- The exit code is what a process reports, or -1.
pub data ExitCode : Type 0 where
  code : ℕ → ExitCode
  minus_one : ExitCode

pub record ExecutionResult : Type 0 where
  pub status : ExecutionStatus
  pub stdout : Bytes
  pub stderr : Bytes
  pub exit_code : ExitCode

pub data SubmissionStatus : Type 0 where
  queued running completed failed_retryable : SubmissionStatus

pub data Verdict : Type 0 where
  accepted wrong_answer time_limit_exceeded memory_limit_exceeded runtime_error : Verdict
  compilation_error output_limit_exceeded internal_error pending : Verdict

pub record Submission : Type 0 where
  pub id : String
  pub user_id : String
  pub problem_id : String
  pub language : Language
  pub source_code : Bytes
  pub status : SubmissionStatus
  pub verdict : Verdict
  pub execution_time_ms : ℕ
  pub memory_used_bytes : ℕ
  pub passed_test_cases : ℕ
  pub total_test_cases : ℕ
  pub ai_time_complexity : Bytes
  pub ai_space_complexity : Bytes
  pub ai_feedback : Bytes
  pub created_at : ℕ
  pub started_at : Option ℕ
  pub completed_at : Option ℕ

pub data ProblemStatus : Type 0 where
  draft published archived : ProblemStatus
  other : String → ProblemStatus

pub data ComparisonMode : Type 0 where
  exact normalized_whitespace float_epsilon : ComparisonMode
  other : String → ComparisonMode

pub data TestCaseVisibility : Type 0 where
  visible hidden : TestCaseVisibility
  other : String → TestCaseVisibility

pub record TestCase : Type 0 where
  pub id : String
  pub problem_id : String
  pub input : Bytes
  pub expected_output : Bytes
  pub visibility : TestCaseVisibility
  pub sort_order : ℤ
  pub created_at : ℕ

-- `Float` stands for float64.
pub record Problem (Float : Type 0) : Type 0 where
  pub id : String
  pub title : String
  pub slug : String
  pub description : Bytes
  pub input_description : Bytes
  pub output_description : Bytes
  pub constraints : Bytes
  pub time_limit_ms : ℤ
  pub memory_limit_mb : ℤ
  pub comparison_mode : ComparisonMode
  pub float_epsilon : Float
  pub status : ProblemStatus
  pub created_at : ℕ
