-- ===== src/Program/Config.antt =====
-- phud/ConfigReader.cpp: the properties file beside the executable.
pub mod Lines
use phud.Prelude.{
  ℕ, zero, suc, ◌+◌, Bool, true, false, not, ◌&&◌, ◌||◌, ◌==◌, Option, none, some, List, [], ◌∷◌,
  ◌++◌, Bytes, codes, bytes_eq, is_empty, if◌then◌else◌,
}
use phud.Prelude.Result.{Result, ok, err, out_of_fuel}
use phud.Prelude.Words.{npos}
use phud.Text
use phud.Strings.{trim}
use phud.TextFile.{TextFile, open_file, next, get_line, line_is_empty, starts_with}
use phud.Program.Stop.{
  Stop, Outcome, stop, go, ◌>>=◌, lift, failed, missing_equals, invalid_level, unknown_key,
  not_created,
}
use phud.Program.Level.{LoggingLevel, to_logging_level}

pub record Config : Type 0 where
  pub logging_level : Option LoggingLevel
  pub history_directory : Option Bytes
  pub logging_pattern : Option Bytes

abbrev pub no_config : Config
no_config = record { logging_level = none; history_directory = none; logging_pattern = none }

unfoldable pub read_key_value_from_line : ℕ → Bytes → Outcome (Bytes × Bytes)
read_key_value_from_line line_nb line =
    let trimmed = trim line in
    let place = Text.find trimmed (codes "=") in
    if place == npos
    then stop (missing_equals line_nb)
    else (lift (Text.substr trimmed 0 place) >>= λ key.
        lift (Text.substr trimmed (place + 1) npos) >>= λ value. go (trim key, trim value))

-- catch (const std::exception&) around toLoggingLevel
abbrev pub level_or_stop : ℕ → Bytes → Config → Result LoggingLevel → Outcome Config
level_or_stop line_nb value config (ok l) = go (record config { logging_level = some l })
level_or_stop line_nb value config (err why) = stop (invalid_level line_nb value)

-- what one key and its value do to the configuration
unfoldable pub set_key : ℕ → Bytes → Bytes → Config → Outcome Config
set_key line_nb key value config =
    if is_empty value
    then go config
    else if bytes_eq key (codes "logging.level")
    then level_or_stop line_nb value config (to_logging_level value)
    else if bytes_eq key (codes "history.directory")
    then go (record config { history_directory = some value })
    else if bytes_eq key (codes "logging.pattern")
    then go (record config { logging_pattern = some value })
    else stop (unknown_key line_nb key)

-- the body of the loop behind ++lineNb
unfoldable pub config_line : ℕ → Bytes → Config → Outcome Config
unfolding read_key_value_from_line set_key
config_line line_nb line config =
    if not (is_empty line) && not (Text.starts_with line (codes "#"))
    then (read_key_value_from_line line_nb line >>= λ kv. set_key line_nb kv.0 kv.1 config)
    else go config

-- while (file.next())
unfoldable pub config_loop : ℕ → ℕ → TextFile → Config → Outcome Config
unfolding config_line
config_loop zero line_nb tf config = stop (failed out_of_fuel)
config_loop (suc fuel) line_nb tf config = elim (next tf).1 [
  | false ↦ go config
  | true ↦ config_line (line_nb + 1) (next tf).0.line config >>= λ config'.
      config_loop fuel (line_nb + 1) (next tf).0 config'
]

unfoldable pub parse_properties_file : ℕ → Bytes → Outcome Config
unfolding config_loop
parse_properties_file fuel content = config_loop fuel 0 (open_file content) no_config

-- what createDefaultConfigFile writes
abbrev pub default_config : Bytes
default_config =
    codes "# phud Configuration File\n"
    ++ (codes "# Generated automatically with default values\n\n"
        ++ (codes "# Logging level: trace, debug, info, warn, error, critical, off\n"
            ++ (codes "logging.level=info\n\n"
                ++ (codes
                      "# Logging pattern (spdlog format): %Y-%m-%d for YYYY-MM-DD, %Y%m%d for YYYYMMDD\n"
                    ++ (codes
                          "# See https://github.com/gabime/spdlog/wiki/3.-Custom-formatting#pattern-flags\n"
                        ++ (codes "logging.pattern=[%Y%m%d %H:%M:%S.%e] [%l] [%t] %v\n\n"
                            ++ (codes
                                  "# History directory (leave empty if no directory configured)\n"
                                ++ codes "history.directory=\n")))))))

-- ConfigReader::loadConfig, on the file's content where there is one. `writable` tells whether the
-- file can be created.
unfoldable pub load_config : ℕ → Bool → Option Bytes → Outcome Config
unfolding parse_properties_file
load_config fuel writable (some content) = parse_properties_file fuel content
load_config fuel writable none =
    if writable then parse_properties_file fuel default_config else stop not_created
