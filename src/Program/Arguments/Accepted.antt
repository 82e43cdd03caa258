-- ===== src/Program/Arguments/Accepted.antt =====
-- What is known of arguments that parseProgramArguments accepts.
use phud.Prelude.{
  ℕ, zero, suc, ◌+◌, ◌≡◌, refl, ap, ◌∙◌, subst, inl, inr, Bool, true, false, not, ◌&&◌, ◌||◌,
  Option, none, some, List, [], ◌∷◌, Bytes, codes, is_empty, get_elem?, if◌then◌else◌, arith,
  Bool-cases,
}
use phud.Prelude.Result.{undefined_behaviour, invalid_argument, Error}
use phud.Enums.{from_string}
use phud.Program.Stop.{stop, go, failed, Outcome-cases}
use phud.Program.Level.{LoggingLevel, to_logging_level}
use phud.Program.Arguments.{
  at_checked, get_option_value, parse_history_dir, history_dir_of, to_lower_case, logging_level_of,
  parse_logging_level, is_known_arg, is_odd, unknown_from, list_unknown_arguments, has_arg,
  parse_program_arguments,
}

-- A logging level that is given is never read: the call fails, whatever the text of the level is.
logging_level_of-some :
    (v : Bytes) → (why : Error) × (logging_level_of (some v) ≡ stop (failed why))
unfolding logging_level_of to_lower_case to_logging_level from_string
logging_level_of-some [] = (invalid_argument, refl)
logging_level_of-some (c ∷ v) = (undefined_behaviour, refl)

unknown-known :
    (n i : ℕ) (args : List Bytes) (a : Bytes)
    → unknown_from n args ≡ []
    → get_elem? args i ≡ some a
    → is_odd (n + i) ≡ true
    → is_known_arg a ≡ true
unfolding unknown_from
unknown-known n i [] a h e o = cc
unknown-known n zero (b ∷ args) a h e o =
    let same : b ≡ a = ground (arith, e) in
    let z : n + zero ≡ n = omega arith in
    let odd = rw z at o in
    elim (Bool-cases (is_known_arg b)) [
      | inl k ↦ subst (λ c. is_known_arg c ≡ true) same k
      | inr k ↦ absurd (nonempty b _ (rw (odd, k) at h))
    ]
  where
    nonempty : (x : Bytes) (l : List Bytes) → x ∷ l ≡ [] → ⊥
    nonempty x l q = cc
unknown-known n (suc i) (b ∷ args) a h e o =
    let z : n + suc i ≡ (n + 1) + i = omega arith in
    let odd = rw z at o in
    unknown-known (n + 1) i args a (tail_of (is_odd n && not (is_known_arg b)) b _ h) e odd
  where
    tail_of : (t : Bool) (x : Bytes) (l : List Bytes) → (if t then x ∷ l else l) ≡ [] → l ≡ []
    tail_of true x l q = cc
    tail_of false x l q = q

module _ (is_dir : Bytes → Bool) (args : List Bytes) where
  record Accepted (dir : Option Bytes) (level : Option LoggingLevel) : Type 0 where
    no_unknown : list_unknown_arguments args ≡ []
    read_dir : parse_history_dir is_dir args ≡ go dir
    read_level : parse_logging_level args ≡ go level

  is_empty-eq : (l : List Bytes) → is_empty l ≡ true → l ≡ []
  is_empty-eq [] h = refl
  is_empty-eq (x ∷ l) h = cc

  accepted :
      (dir : Option Bytes) (level : Option LoggingLevel)
      → parse_program_arguments is_dir args ≡ go (dir, level)
      → Accepted dir level
  unfolding parse_program_arguments
  accepted dir level e = elim (Outcome-cases (at_checked args 0)) [
    | inr (x, p) ↦ absurd (ground (arith, e, p))
    | inl (name, p) ↦
        elim (Bool-cases (has_arg args (codes "-h") || has_arg args (codes "--help"))) [
          | inl h ↦ absurd (ground (arith, rw (p, h) at e))
          | inr h ↦ elim (Bool-cases (is_empty (list_unknown_arguments args))) [
            | inr u ↦ absurd (ground (arith, rw (p, h, u) at e))
            | inl u ↦ elim (Outcome-cases (parse_history_dir is_dir args)) [
              | inr (x, q) ↦ absurd (ground (arith, rw (p, h, u, q) at e))
              | inl (d, q) ↦ elim (Outcome-cases (parse_logging_level args)) [
                | inr (x, r) ↦ absurd (ground (arith, rw (p, h, u, q, r) at e))
                | inl (l, r) ↦
                    let e' = rw (p, h, u, q, r) at e in
                    let same_dir : d ≡ dir = ground (arith, e') in
                    let same_level : l ≡ level = ground (arith, e') in
                    record {
                      no_unknown = is_empty-eq (list_unknown_arguments args) u;
                      read_dir = q ∙ ap go same_dir;
                      read_level = r ∙ ap go same_level;
                    }
              ]
            ]
          ]
        ]
  ]

  level_none : (level : Option LoggingLevel) → parse_logging_level args ≡ go level → level ≡ none
  unfolding parse_logging_level
  level_none level e =
      elim (Outcome-cases (get_option_value args (codes "-l") (codes "--logLevel"))) [
        | inr (x, p) ↦ absurd (ground (arith, e, p))
        | inl (none, p) ↦ unfold logging_level_of in (ground (arith, e, p))
        | inl (some v, p) ↦
            let (why, f) = logging_level_of-some v in absurd (ground (arith, rw (p, f) at e))
      ]

  dir-is_dir :
      (dir : Option Bytes) (d : Bytes)
      → parse_history_dir is_dir args ≡ go dir
      → dir ≡ some d
      → is_dir d ≡ true
  unfolding parse_history_dir
  dir-is_dir dir d e s =
      elim (Outcome-cases (get_option_value args (codes "-d") (codes "--historyDir"))) [
        | inr (x, p) ↦ absurd (ground (arith, e, p))
        | inl (none, p) ↦ unfold history_dir_of in (absurd (ground (arith, e, p, s)))
        | inl (some v, p) ↦ elim (Bool-cases (is_dir v)) [
          | inl q ↦
              let same : v ≡ d = unfold history_dir_of in (ground (arith, e, p, s, q)) in
              subst (λ c. is_dir c ≡ true) same q
          | inr q ↦ unfold history_dir_of in (absurd (ground (arith, e, p, q)))
        ]
      ]

  -- If parseProgramArguments returns, each argument at an odd place is one of the known options,
  -- the history directory is a directory where one is given, and there is no logging level.
  pub parse_program_arguments-accepts :
      (dir : Option Bytes) (level : Option LoggingLevel)
      → parse_program_arguments is_dir args ≡ go (dir, level)
      → ((i : ℕ) (a : Bytes) → get_elem? args i ≡ some a → is_odd i ≡ true → is_known_arg a ≡ true)
        × ((d : Bytes) → dir ≡ some d → is_dir d ≡ true)
        × (level ≡ none)
  unfolding list_unknown_arguments
  parse_program_arguments-accepts dir level e =
      let k = accepted dir level e in
      (
        λ i a g o.
            let z : 0 + i ≡ i = omega arith in
            let odd = rw (← z) at o in unknown-known 0 i args a k.no_unknown g odd,
        λ d s. dir-is_dir dir d k.read_dir s,
        level_none level k.read_level,
      )
