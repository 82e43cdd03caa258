-- ===== src/Program/Level.antt =====
-- log/LoggingLevel.cpp: the logging levels and their names.
use phud.Prelude.{ℕ, List, [], ◌∷◌, Bytes, codes}
use phud.Prelude.Result.{Result}
use phud.Enums

pub data LoggingLevel : Type 0 where
  none trace debug info warn error critical : LoggingLevel

abbrev pub short_of : LoggingLevel → ℕ
short_of none = 0
short_of trace = 1
short_of debug = 2
short_of info = 3
short_of warn = 4
short_of error = 5
short_of critical = 6

-- LOGGING_MAPPER
abbrev pub logging_mapper : List (LoggingLevel × Bytes)
logging_mapper =
    (trace, codes "trace")
    ∷ (debug, codes "debug")
    ∷ (info, codes "info")
    ∷ (warn, codes "warning")
    ∷ (error, codes "error")
    ∷ (critical, codes "critical")
    ∷ (none, codes "none")
    ∷ []

unfoldable pub to_logging_level : Bytes → Result LoggingLevel
to_logging_level s = Enums.from_string short_of logging_mapper s

unfoldable pub to_string : LoggingLevel → Result Bytes
to_string l = Enums.to_string short_of logging_mapper l
