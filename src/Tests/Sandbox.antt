-- ===== src/Tests/Sandbox.antt =====
-- The theorems on processes, the sandbox and the execution service, at concrete processes.
use codera.Base.{true, false, none, some, [], ◌∷◌, ◌≡◌, ◌↔◌, ◌⊎◌, inr, refl, codes, take, ◌&&◌}
use codera.Config.Numbers.{pos}
use codera.Domain.{ExecutionStatus, ExecutionResult, code}
use codera.Process.Run.{run_process, exit_error, ctx_done, waited}
use codera.Process.Writer.{new_bounded_writer, write, write_all}
use codera.Process.Capture.{capture_lem}
use codera.Sandbox.Exec.{ExecOptions, exec}
use codera.Sandbox.Classifier.{classify, mentions_memory}
use codera.Sandbox.Outcomes.{exceeds, success_exact}
use codera.Sandbox.Container.{nests, start_container, start_args}
use codera.Judge.Comparator.{fields, fields_from, space_width}
use codera.Language.Executor.{LanguageExecutor}
use codera.Language.Executors.{
  python_executor, validate_text, is_blank_text, compile_with, execute_with, stdin_of,
}
use codera.Language.Registry.{get}
use codera.Execution.Service.{execute}
use codera.Execution.Phases.{execute_releases, run_status_is_of_run, Ran}
use codera.Tests.Data.{prints_one, system, registry, host, request}

-- Three writes of four bytes into a writer of ten.
capture_lem_example :
    let (w, counts) =
      write_all (codes "abcd" ∷ codes "efgh" ∷ codes "ijkl" ∷ []) (new_bounded_writer 10 true) in
    (w.buf ≡ take 10 (codes "abcdefghijkl"))
    × (w.exceeded ≡ true)
    × (w.canceled ≡ (true && w.exceeded))
    × (counts ≡ 4 ∷ 4 ∷ 4 ∷ [])
capture_lem_example = capture_lem 10 true (codes "abcd" ∷ codes "efgh" ∷ codes "ijkl" ∷ [])

abbrev opts : ExecOptions
opts = record {
  command = "python";
  args = "main.py" ∷ [];
  stdin = none;
  stdout_limit = 1;
  stderr_limit = 10;
  timeout = pos 2000000;
}

success_exact_example : ((classify (exec system "c1" opts)).status ≡ ExecutionStatus.success) ↔ (
    (prints_one.start_error ≡ none)
    × (exceeds 1 (codes "1" ∷ codes "\n" ∷ []) ≡ false)
    × (exceeds 10 [] ≡ false)
    × ((prints_one.ended ≡ ctx_done)
        ⊎ (prints_one.ended ≡ waited none)
        ⊎ (prints_one.ended ≡ waited (some (exit_error (code 0))))))
success_exact_example = success_exact system "c1" opts refl

abbrev answer : ExecutionResult
answer = record {
  status = ExecutionStatus.success;
  stdout = codes "1\n";
  stderr = [];
  exit_code = code 0;
}

execute_releases_example : nests [] (execute host registry request).0 ≡ true
execute_releases_example = execute_releases host registry request

run_status_is_of_run_example :
    (e : LanguageExecutor) × (get "python" registry ≡ some e)
    × (e.validate request ≡ none)
    × Ran host request answer e
unfolding execute get python_executor validate_text is_blank_text fields fields_from space_width
    start_container start_args compile_with execute_with stdin_of exec run_process write_all write
    classify mentions_memory
run_status_is_of_run_example =
    run_status_is_of_run host registry request answer refl (inr (inr refl))
