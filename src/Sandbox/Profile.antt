-- ===== src/Sandbox/Profile.antt =====
-- backend/internal/sandbox/profile.go. Durations are microseconds; a CPU limit is in tenths.
use codera.Base.{ℕ, ◌*◌, String, ◌||◌, Option, none, some, if◌then◌else◌, str_eq}
use codera.Config.Numbers.{ℤ, pos}

pub record Profile : Type 0 where
  pub name : String
  pub image : String
  pub memory_limit_bytes : ℤ
  pub cpu_limit : ℕ
  pub pids_limit : ℕ
  pub tmpfs_size_bytes : ℕ
  pub timeout : ℤ
  pub max_output_bytes : ℕ

abbrev pub profile_small : Profile
profile_small = record {
  name = "SMALL";
  image = "";
  memory_limit_bytes = pos (128 * 1024 * 1024);
  cpu_limit = 5;
  pids_limit = 128;
  tmpfs_size_bytes = 32 * 1024 * 1024;
  timeout = pos (2 * 1000000);
  max_output_bytes = 1024 * 1024;
}

abbrev pub profile_medium : Profile
profile_medium = record {
  name = "MEDIUM";
  image = "";
  memory_limit_bytes = pos (256 * 1024 * 1024);
  cpu_limit = 10;
  pids_limit = 256;
  tmpfs_size_bytes = 64 * 1024 * 1024;
  timeout = pos (15 * 1000000);
  max_output_bytes = 5 * 1024 * 1024;
}

abbrev pub profile_large : Profile
profile_large = record {
  name = "LARGE";
  image = "";
  memory_limit_bytes = pos (512 * 1024 * 1024);
  cpu_limit = 20;
  pids_limit = 512;
  tmpfs_size_bytes = 128 * 1024 * 1024;
  timeout = pos (10 * 1000000);
  max_output_bytes = 10 * 1024 * 1024;
}

-- The switch of GetProfileForLanguage.
image_for : String → Option String
image_for lang =
    if str_eq lang "python"
    then some "python:3.11-alpine"
    else if str_eq lang "java"
    then some "eclipse-temurin:21-jdk-alpine"
    else if str_eq lang "go"
    then some "golang:1.22-alpine"
    else if str_eq lang "c" || str_eq lang "cpp"
    then some "gcc:13"
    else if str_eq lang "sql"
    then some "keinos/sqlite3"
    else none

with_image : Option String → Option Profile
with_image none = none
with_image (some image) = some (record profile_medium { image = image })

-- `none` is ErrUnsupportedLanguage.
unfoldable pub get_profile_for_language : String → Option Profile
unfolding image_for with_image
get_profile_for_language lang = with_image (image_for lang)
