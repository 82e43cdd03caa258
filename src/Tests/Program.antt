-- ===== src/Tests/Program.antt =====
-- The command line and the configuration file at concrete values.
use phud.Prelude.{
  ℕ, ◌≡◌, refl, true, Option, none, some, List, [], ◌∷◌, Bytes, codes, get_elem?, arith,
}
use phud.Prelude.Result.{err, invalid_argument}
use phud.Enums.{from_string}
use phud.Text.{find?, find, substr}
use phud.Strings.{trim, drop_spaces, is_space}
use phud.TextFile.{next, getline, extract, count_line, open_file, line_of, behind_line}
use phud.TextFile.Reading.{lines}
use phud.Program.Stop.{go}
use phud.Program.Level.{LoggingLevel, info, to_logging_level}
use phud.Program.Arguments.{parse_program_arguments, is_known_arg, is_odd}
use phud.Program.Arguments.Accepted.{parse_program_arguments-accepts}
use phud.Program.Config.{Config, no_config, parse_properties_file, load_config}
use phud.Program.Config.Lines.{fold_lines, parse_properties_file-lines}
use phud.Program.Configuration.{Configuration, read_configuration, combine, default_logging_pattern}
use phud.Program.Configuration.Precedence.{ComesFrom, read_configuration-ComesFrom}

abbrev args : List Bytes
args = codes "phud" ∷ codes "-d" ∷ codes "dir" ∷ []

args_read : parse_program_arguments (λ p. true) args ≡ go (some (codes "dir"), none)
unfolding parse_program_arguments
args_read = refl

parse_program_arguments-accepts_example :
    ((i : ℕ) (a : Bytes) → get_elem? args i ≡ some a → is_odd i ≡ true → is_known_arg a ≡ true)
    × ((d : Bytes) → some (codes "dir") ≡ some d → true ≡ true)
    × (◌≡◌ {A = Option LoggingLevel} none none)
parse_program_arguments-accepts_example =
    parse_program_arguments-accepts (λ p. true) args (some (codes "dir")) none args_read

-- The name that the file's own comment gives for a level is not one.
level_warn_unknown : to_logging_level (codes "warn") ≡ err invalid_argument
unfolding to_logging_level from_string
level_warn_unknown = refl

abbrev text : Bytes
text = codes "# c\nlogging.level = info\nhistory.directory=x"

parse_properties_file-lines_example :
    parse_properties_file 60 text ≡ fold_lines 0 (lines text) no_config
parse_properties_file-lines_example = parse_properties_file-lines text 60 (omega arith)

abbrev config_read : Config
config_read = record {
  logging_level = some info;
  history_directory = some (codes "x");
  logging_pattern = none;
}

text_read : parse_properties_file 60 text ≡ go config_read
unfolding parse_properties_file next getline extract count_line open_file line_of behind_line trim
    drop_spaces is_space find find? substr from_string to_logging_level
text_read = refl

default_read :
    load_config 500 true none
    ≡ go (record {
      logging_level = some info;
      history_directory = none;
      logging_pattern = some default_logging_pattern;
    })
unfolding load_config next getline extract count_line open_file line_of behind_line trim drop_spaces
    is_space find find? substr from_string to_logging_level
default_read = refl

abbrev configuration : Configuration
configuration = record {
  history_directory = some (codes "dir");
  logging_level = info;
  logging_pattern = default_logging_pattern;
}

configuration_read : read_configuration (λ p. true) 60 true (some text) args ≡ go configuration
unfolding read_configuration load_config
configuration_read = rw (args_read, text_read) (unfold combine in refl)

read_configuration-ComesFrom_example :
    (dir : Option Bytes) × (config : Config) × (parse_program_arguments (λ p. true) args
      ≡ go (dir, none))
    × (load_config 60 true (some text) ≡ go config)
    × ComesFrom dir config configuration
read_configuration-ComesFrom_example =
    read_configuration-ComesFrom (λ p. true) 60 true (some text) args configuration
      configuration_read
