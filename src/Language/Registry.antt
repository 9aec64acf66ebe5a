-- ===== src/Language/Registry.antt =====
-- backend/internal/language/registry.go, and the registrations of backend/cmd/api/main.go. Each
-- method holds the registry's lock.
use codera.Base.{String, Option, none, some, List, [], ◌∷◌, if◌then◌else◌, str_eq, map}
use codera.Config.Numbers.{pos}
use codera.Domain.{Language}
use codera.Sandbox.Profile.{Profile, get_profile_for_language}
use codera.Language.Executor.{LanguageExecutor}
use codera.Language.Executors.{
  java_executor, go_executor, cpp_executor, python_executor, sql_executor,
}

abbrev pub MapRegistry : Type 0
MapRegistry = List (Language × LanguageExecutor)

unfoldable pub put : Language → LanguageExecutor → MapRegistry → MapRegistry
put lang e [] = (lang, e) ∷ []
put lang e ((l, d) ∷ r) = if str_eq l lang then (l, e) ∷ r else (l, d) ∷ put lang e r

unfoldable pub register : LanguageExecutor → MapRegistry → MapRegistry
register e r = put e.language e r

-- `none` is ErrUnsupportedLanguage.
unfoldable pub get : Language → MapRegistry → Option LanguageExecutor
get lang [] = none
get lang ((l, e) ∷ r) = if str_eq l lang then some e else get lang r

unfoldable pub supported_languages : MapRegistry → List Language
supported_languages r = map (λ e. e.0) r

-- The error of GetProfileForLanguage is dropped, and then the profile is the zero one.
abbrev zero_profile : Profile
zero_profile = record {
  name = "";
  image = "";
  memory_limit_bytes = pos 0;
  cpu_limit = 0;
  pids_limit = 0;
  tmpfs_size_bytes = 0;
  timeout = pos 0;
  max_output_bytes = 0;
}

abbrev or_zero : Option Profile → Profile
or_zero none = zero_profile
or_zero (some p) = p

unfoldable pub profile_of : String → Profile
profile_of lang = or_zero (get_profile_for_language lang)

unfoldable pub main_registry : MapRegistry
unfolding profile_of register put java_executor python_executor go_executor cpp_executor
    sql_executor
main_registry = register (sql_executor (profile_of "sql")) (
    register (cpp_executor (profile_of "cpp")) (
      register (go_executor (profile_of "go")) (
        register (python_executor (profile_of "python"))
          (register (java_executor (profile_of "java")) []))))
