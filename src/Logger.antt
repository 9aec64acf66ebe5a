-- ===== src/Logger.antt =====
-- backend/internal/platform/logger/logger.go: the level and the format of the log. strings.ToLower
-- is an argument.
use codera.Base.{String, if◌then◌else◌, str_eq}

pub data Level : Type 0 where
  debug_level info_level warn_level error_level : Level

-- The handlers of log/slog, both on os.Stdout.
pub data Handler : Type 0 where
  json_handler text_handler : Level → Handler

unfoldable pub level_of : String → Level
level_of text =
    if str_eq text "debug"
    then debug_level
    else if str_eq text "info"
    then info_level
    else if str_eq text "warn"
    then warn_level
    else if str_eq text "error"
    then error_level
    else info_level

-- The handler of the logger that New makes.
unfoldable pub new_logger : (String → String) → String → String → Handler
unfolding level_of
new_logger to_lower env level =
    if str_eq env "production"
    then json_handler (level_of (to_lower level))
    else text_handler (level_of (to_lower level))
