-- ===== src/Language/Supported.antt =====
-- Theorems on the executors that backend/cmd/api/main.go registers: their languages and Validate.
use codera.Base.{
  Bool, true, false, not, ◌&&◌, Option, none, some, [], ◌∷◌, ◌≡◌, refl, arith, Bytes, codes,
  contains, contains-nil, str_eq, if◌then◌else◌,
}
use codera.Domain.{Language, ExecutionRequest}
use codera.Language.Executor.{LanguageExecutor}
use codera.Language.Executors.{
  java_executor, python_executor, go_executor, cpp_executor, sql_executor, validate_marker,
  validate_text, is_blank_text,
}
use codera.Language.Registry.{get, put, register, main_registry, profile_of}

-- The text that a program must contain; `none` for a language that is not supported.
abbrev pub marker_of : Language → Option Bytes
marker_of lang =
    if str_eq "java" lang
    then some (codes "public class Main")
    else if str_eq "python" lang
    then some []
    else if str_eq "go" lang
    then some (codes "package main")
    else if str_eq "cpp" lang
    then some (codes "int main")
    else if str_eq "sql" lang
    then some []
    else none

-- What the registry makes of a request: whether an executor is found and its Validate succeeds.
abbrev pub is_accepted : Option LanguageExecutor → ExecutionRequest → Bool
is_accepted none req = false
is_accepted (some e) req = elim (e.validate req) [ none ↦ true | some message ↦ false ]

abbrev pub holds_marker : Bytes → Option Bytes → Bool
holds_marker source none = false
holds_marker source (some marker) = not (is_blank_text source) && contains source marker

main_registry_lem : main_registry ≡ (
    ("java", java_executor (profile_of "java"))
    ∷ ("python", python_executor (profile_of "python"))
    ∷ ("go", go_executor (profile_of "go"))
    ∷ ("cpp", cpp_executor (profile_of "cpp"))
    ∷ ("sql", sql_executor (profile_of "sql"))
    ∷ [])
unfolding main_registry register put java_executor python_executor go_executor cpp_executor
    sql_executor
main_registry_lem = refl

-- The program accepts a request exactly if its language is one of the five, its source is not
-- blank, and it contains what the language asks for: "public class Main", "package main" or
-- "int main" for Java, Go and C++, nothing for Python and SQL.
pub accepted_lem :
    (req : ExecutionRequest)
    → is_accepted (get req.language main_registry) req
      ≡ holds_marker req.source_code (marker_of req.language)
unfolding get java_executor python_executor go_executor cpp_executor sql_executor validate_marker
    validate_text
accepted_lem req = rw main_registry_lem (ground (arith, contains-nil req.source_code))
