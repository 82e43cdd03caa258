-- ===== src/Program/Arguments.antt =====
-- phud/ProgramArguments.cpp, on the program's arguments, the first of which is its own name. The disk is
-- asked for one thing, whether a path is a directory.
pub mod Accepted
use phud.Prelude.{
  ℕ, zero, suc, ◌+◌, ◌%◌, Bool, true, false, not, ◌&&◌, ◌||◌, ◌==◌, leb, Option, none, some, List,
  [], ◌∷◌, Bytes, codes, bytes_eq, is_empty, get_elem?, if◌then◌else◌,
}
use phud.Prelude.Result.{Result, ok, err, undefined_behaviour}
use phud.Program.Stop.{
  Stop, Outcome, stop, go, ◌>>=◌, lift, user_asked_for_help, unknown_arguments, no_such_directory,
  terminated,
}
use phud.Program.Level.{LoggingLevel, to_logging_level}

-- std::find, by the index of what it finds
unfoldable pub position : List Bytes → Bytes → Option ℕ
position [] option = none
position (a ∷ args) option = elim (position args option) [
  | none ↦ if bytes_eq a option then some 0 else none
  | some i ↦ if bytes_eq a option then some 0 else some (suc i)
]

-- gsl::at(arguments, i)
unfoldable pub at_checked : List Bytes → ℕ → Outcome Bytes
at_checked args i = elim (get_elem? args i) [ none ↦ stop terminated | some a ↦ go a ]

unfoldable pub value_at : List Bytes → ℕ → Outcome (Option Bytes)
unfolding at_checked
value_at args i = at_checked args (i + 1) >>= λ a. go (some a)

unfoldable pub get_option_value : List Bytes → Bytes → Bytes → Outcome (Option Bytes)
unfolding position value_at
get_option_value args short_option long_option = elim (position args short_option) [
  | some i ↦ value_at args i
  | none ↦ elim (position args long_option) [ some i ↦ value_at args i | none ↦ go none ]
]

-- parseHistoryDir, on the value of its option
unfoldable pub history_dir_of : (Bytes → Bool) → Option Bytes → Outcome (Option Bytes)
history_dir_of is_dir none = go none
history_dir_of is_dir (some dir) =
    if is_dir dir then go (some dir) else stop (no_such_directory dir)

unfoldable pub parse_history_dir : (Bytes → Bool) → List Bytes → Outcome (Option Bytes)
unfolding get_option_value history_dir_of
parse_history_dir is_dir args =
    get_option_value args (codes "-d") (codes "--historyDir") >>= history_dir_of is_dir

-- toLowerCase writes behind the end of a string that has room but no character: an output iterator that
-- may not be written through, unless there is nothing to write.
unfoldable pub to_lower_case : Bytes → Result Bytes
to_lower_case [] = ok []
to_lower_case (c ∷ s) = err undefined_behaviour

-- parseLoggingLevel, on the value of its option
unfoldable pub logging_level_of : Option Bytes → Outcome (Option LoggingLevel)
unfolding to_lower_case
logging_level_of none = go none
logging_level_of (some level) =
    lift (to_lower_case level) >>= λ lower. lift (to_logging_level lower) >>= λ l. go (some l)

unfoldable pub parse_logging_level : List Bytes → Outcome (Option LoggingLevel)
unfolding get_option_value logging_level_of
parse_logging_level args =
    get_option_value args (codes "-l") (codes "--logLevel") >>= logging_level_of

abbrev pub is_known_arg : Bytes → Bool
is_known_arg arg =
    bytes_eq arg (codes "-d")
    || (bytes_eq arg (codes "--historyDir")
        || (bytes_eq arg (codes "-l") || bytes_eq arg (codes "--logLevel")))

abbrev pub is_odd : ℕ → Bool
is_odd n = not (n % 2 == 0)

-- the loop of listUnknownArguments, at the index of the next argument
unfoldable pub unknown_from : ℕ → List Bytes → List Bytes
unknown_from index [] = []
unknown_from index (arg ∷ args) =
    let rest = unknown_from (index + 1) args in
    if is_odd index && not (is_known_arg arg) then arg ∷ rest else rest

unfoldable pub list_unknown_arguments : List Bytes → List Bytes
unfolding unknown_from
list_unknown_arguments args = unknown_from 0 args

-- std::ranges::find_if with isEqualTo
unfoldable pub has_arg : List Bytes → Bytes → Bool
has_arg [] s = false
has_arg (a ∷ args) s = bytes_eq a s || has_arg args s

unfoldable pub parse_program_arguments :
    (Bytes → Bool) → List Bytes → Outcome (Option Bytes × Option LoggingLevel)
unfolding at_checked has_arg list_unknown_arguments parse_history_dir parse_logging_level
parse_program_arguments is_dir args = at_checked args 0 >>= λ program_name.
    if has_arg args (codes "-h") || has_arg args (codes "--help")
    then stop user_asked_for_help
    else if not (is_empty (list_unknown_arguments args))
    then stop (unknown_arguments (list_unknown_arguments args))
    else (parse_history_dir is_dir args >>= λ dir.
        parse_logging_level args >>= λ level. go (dir, level))
