-- ===== src/Language/Executors.antt =====
-- backend/internal/language/{java,go,cpp,python,sql}/executor.go.
use codera.Base.{
  is_empty, String, Bool, false, not, ◌&&◌, Option, none, some, List, [], ◌∷◌, ◌++◌, Bytes, codes,
  contains, if◌then◌else◌, ◌==◌,
}
use codera.Config.Numbers.{ℤ, times}
use codera.Domain.{
  ExecutionRequest, language_java, language_python, language_go, language_cpp, language_sql,
}
use codera.Judge.Comparator.{fields}
use codera.Sandbox.Profile.{Profile}
use codera.Sandbox.Exec.{ExecOptions, ExecResult, exec}
use codera.Language.Executor.{
  System, Compiled, compile_broken, bypassed, compiled, LanguageExecutor,
}

-- `strings.TrimSpace(s) == ""`: the text has no word.
unfoldable pub is_blank_text : Bytes → Bool
is_blank_text s = is_empty (fields s)

abbrev empty_message : Bytes
empty_message = codes "source code cannot be empty"

-- The checks of Validate: the code is not blank and holds what its language asks for.
unfoldable pub validate_marker : Bytes → Bytes → ExecutionRequest → Option Bytes
validate_marker marker message req =
    if is_blank_text req.source_code
    then some empty_message
    else if not (contains req.source_code marker)
    then some message
    else none

unfoldable pub validate_text : ExecutionRequest → Option Bytes
validate_text req = if is_blank_text req.source_code then some empty_message else none

abbrev options : Profile → String → List String → Option Bytes → ℤ → ExecOptions
options p command args stdin timeout = record {
  command = command;
  args = args;
  stdin = stdin;
  stdout_limit = p.max_output_bytes;
  stderr_limit = p.max_output_bytes;
  timeout = timeout;
}

-- Compile of the executors that run a compiler on the file that they wrote.
unfoldable pub compile_with :
    Profile → String → List String → ℤ → System → Bool → ExecutionRequest → String → Compiled
compile_with p command args timeout os writes req container =
    if writes
    then compiled (exec os container (options p command args none timeout))
    else compile_broken

-- An empty input is no input.
unfoldable pub stdin_of : Bytes → Option Bytes
stdin_of [] = none
stdin_of (c ∷ s) = some (c ∷ s)

unfoldable pub execute_with :
    Profile → String → List String → System → ExecutionRequest → String → Option ExecResult
execute_with p command args os req container =
    some (exec os container (options p command args (stdin_of req.input) p.timeout))

unfoldable pub java_executor : Profile → LanguageExecutor
java_executor p = record {
  language = language_java;
  profile = p;
  validate =
      validate_marker (codes "public class Main")
        (codes "java source must contain 'public class Main'");
  compile =
      compile_with p "javac" ("-source" ∷ "1.8" ∷ "-target" ∷ "1.8" ∷ "Main.java" ∷ [])
        (times p.timeout 2);
  execute = execute_with p "java" ("Main" ∷ []);
}

unfoldable pub go_executor : Profile → LanguageExecutor
go_executor p = record {
  language = language_go;
  profile = p;
  validate = validate_marker (codes "package main") (codes "go source must contain 'package main'");
  compile =
      compile_with p "env"
        ("GOCACHE=/tmp/go-build" ∷ "GOMAXPROCS=1" ∷ "go" ∷ "build" ∷ "-o" ∷ "program" ∷ "main.go"
          ∷ [])
        (times p.timeout 2);
  execute = execute_with p "./program" [];
}

unfoldable pub cpp_executor : Profile → LanguageExecutor
cpp_executor p = record {
  language = language_cpp;
  profile = p;
  validate = validate_marker (codes "int main") (codes "cpp source must contain 'int main'");
  compile =
      compile_with p "g++" ("-O2" ∷ "-std=c++20" ∷ "-o" ∷ "program" ∷ "main.cpp" ∷ [])
        (times p.timeout 2);
  execute = execute_with p "./program" [];
}

unfoldable pub python_executor : Profile → LanguageExecutor
python_executor p = record {
  language = language_python;
  profile = p;
  validate = validate_text;
  compile = compile_with p "python" ("-m" ∷ "py_compile" ∷ "main.py" ∷ []) p.timeout;
  execute = execute_with p "python" ("main.py" ∷ []);
}

-- strings.HasSuffix(s, "\n")
unfoldable pub ends_line : Bytes → Bool
ends_line [] = false
ends_line (c ∷ []) = c == 10
ends_line (c ∷ d ∷ s) = ends_line (d ∷ s)

unfoldable pub full_script : Bytes → Bytes → Bytes
full_script input source_code =
    (if not (is_empty input) && not (ends_line input) then input ++ 10 ∷ [] else input)
    ++ source_code

unfoldable pub sql_execute : Profile → System → ExecutionRequest → String → Option ExecResult
unfolding full_script
sql_execute p os req container = some (
    exec os container (
      options p "sqlite3" ("-header" ∷ "-list" ∷ "-separator" ∷ "|" ∷ ":memory:" ∷ [])
        (some (full_script req.input req.source_code)) p.timeout))

unfoldable pub sql_executor : Profile → LanguageExecutor
sql_executor p = record {
  language = language_sql;
  profile = p;
  validate = validate_text;
  compile = λ os writes req container. bypassed;
  execute = sql_execute p;
}
