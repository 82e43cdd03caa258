-- ===== src/Program/Configuration.antt =====
-- phud/ProgramConfiguration.cpp: the program's arguments over the configuration file.
pub mod Precedence
use phud.Prelude.{ℕ, Bool, Option, none, some, List, Bytes, codes}
use phud.Program.Stop.{Stop, Outcome, stop, go, ◌>>=◌, no_logging_level}
use phud.Program.Level.{LoggingLevel}
use phud.Program.Arguments.{parse_program_arguments}
use phud.Program.Config.{Config, load_config}

pub record Configuration : Type 0 where
  pub history_directory : Option Bytes
  pub logging_level : LoggingLevel
  pub logging_pattern : Bytes

abbrev pub default_logging_pattern : Bytes
default_logging_pattern = codes "[%Y%m%d %H:%M:%S.%e] [%l] [%t] %v"

-- the lambda that chooses the logging level
unfoldable pub choose_level : Option LoggingLevel → Config → Outcome LoggingLevel
choose_level (some l) config = go l
choose_level none config = elim config.logging_level [
  | some l ↦ go l
  | none ↦ stop no_logging_level
]

abbrev pub or_value {ℓ} : {A : Type ℓ} → Option A → A → A
or_value none a = a
or_value (some b) a = b

abbrev pub or_option {ℓ} : {A : Type ℓ} → Option A → Option A → Option A
or_option none o = o
or_option (some a) o = some a

unfoldable pub combine : Option Bytes × Option LoggingLevel → Config → Outcome Configuration
unfolding choose_level
combine args config = choose_level args.1 config >>= λ level. go (record {
  history_directory = or_option args.0 config.history_directory;
  logging_level = level;
  logging_pattern = or_value config.logging_pattern default_logging_pattern;
})

unfoldable pub read_configuration :
    (Bytes → Bool) → ℕ → Bool → Option Bytes → List Bytes → Outcome Configuration
unfolding combine
read_configuration is_dir fuel writable file args = parse_program_arguments is_dir args >>= λ given.
    load_config fuel writable file >>= combine given
