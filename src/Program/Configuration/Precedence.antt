-- ===== src/Program/Configuration/Precedence.antt =====
-- Where the values of a configuration come from.
use phud.Prelude.{
  ℕ, ◌≡◌, ap, subst, codes, ◌∙◌, inl, inr, Bool, Option, none, some, List, Bytes, arith,
  Option-cases,
}
use phud.Program.Stop.{go, Outcome-cases}
use phud.Program.Arguments.{parse_program_arguments}
use phud.Program.Arguments.Accepted.{parse_program_arguments-accepts}
use phud.Program.Config.{Config, load_config}
use phud.Program.Configuration.{
  Configuration, combine, choose_level, or_option, or_value, default_logging_pattern,
  read_configuration,
}

-- The directory that is taken: that of the arguments where there is one, and else the file's.
pub data Directory : Option Bytes → Option Bytes → Option Bytes → Type 0 where
  given : {d : Bytes} {o : Option Bytes} → Directory (some d) o (some d)
  left_to_file : {o : Option Bytes} → Directory none o o

-- The pattern that is taken: the file's where there is one, and else the default one.
pub data Pattern : Option Bytes → Bytes → Type 0 where
  written : {p : Bytes} → Pattern (some p) p
  missing : Pattern none (codes "[%Y%m%d %H:%M:%S.%e] [%l] [%t] %v")

-- A configuration from the directory of the arguments and the configuration file.
pub record ComesFrom (dir : Option Bytes) (config : Config) (c : Configuration) : Type 0 where
  pub directory : Directory dir config.history_directory c.history_directory
  pub level : config.logging_level ≡ some c.logging_level
  pub pattern : Pattern config.logging_pattern c.logging_pattern

or_option-Directory : (d o : Option Bytes) → Directory d o (or_option d o)
or_option-Directory none o = left_to_file
or_option-Directory (some a) o = given

or_value-Pattern : (o : Option Bytes) → Pattern o (or_value o default_logging_pattern)
or_value-Pattern none = missing
or_value-Pattern (some p) = written

combine-ComesFrom :
    (dir : Option Bytes) (config : Config) (c : Configuration)
    → combine (dir, none) config ≡ go c
    → ComesFrom dir config c
unfolding combine choose_level
combine-ComesFrom dir config c e = elim (Option-cases config.logging_level) [
  | inl n ↦ absurd (ground (arith, rw n at e))
  | inr (l, s) ↦
      let made : Configuration = record {
        history_directory = or_option dir config.history_directory;
        logging_level = l;
        logging_pattern = or_value config.logging_pattern default_logging_pattern;
      } in
      let same : made ≡ c = ground (arith, rw (s, choose_level) at e) in
      record {
        directory =
            subst
              (λ (r : Configuration). Directory dir config.history_directory r.history_directory)
              same (or_option-Directory dir config.history_directory);
        level = s ∙ ap (λ (r : Configuration). some r.logging_level) same;
        pattern =
            subst (λ (r : Configuration). Pattern config.logging_pattern r.logging_pattern) same
              (or_value-Pattern config.logging_pattern);
      }
]

-- A configuration that is read comes from arguments and a file that are both accepted. Its logging
-- level is the one of the file, its history directory the one of the arguments if they have one and
-- else the one of the file, and its pattern the one of the file or else the default one.
pub read_configuration-ComesFrom :
    (is_dir : Bytes → Bool) (fuel : ℕ) (writable : Bool) (file : Option Bytes) (args : List Bytes)
    (c : Configuration)
    → read_configuration is_dir fuel writable file args ≡ go c
    → (dir : Option Bytes) × (config : Config) × (parse_program_arguments is_dir args
        ≡ go (dir, none))
      × (load_config fuel writable file ≡ go config)
      × ComesFrom dir config c
unfolding read_configuration
read_configuration-ComesFrom is_dir fuel writable file args c e =
    elim (Outcome-cases (parse_program_arguments is_dir args)) [
      | inr (x, p) ↦ absurd (ground (arith, e, p))
      | inl ((dir, level), p) ↦ elim (Outcome-cases (load_config fuel writable file)) [
        | inr (x, q) ↦ absurd (ground (arith, e, p, q))
        | inl (config, q) ↦
            let n = (parse_program_arguments-accepts is_dir args dir level p).2 in
            let p' = p ∙ ap (λ l. go (dir, l)) n in
            (dir, config, p', q, combine-ComesFrom dir config c (ground (arith, e, p', q)))
      ]
    ]
