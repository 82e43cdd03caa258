-- ===== src/History/HandBuilder/Actions/Truncated.antt =====
-- parseActionsAndWinners (history/WinamaxHandBuilder.cpp) on hands that the file does not finish.
use phud.Prelude.{
  ℕ, zero, suc, ◌<◌, ◌≡◌, refl, ◌∙◌, inl, inr, ◌⊎◌, Bytes, codes, length, drop, take, List, [], ◌∷◌,
  ◌++◌, Bool, true, Option, none, some, arith, Bool-cases, Option-cases,
}
use phud.Prelude.Result.{Result, ok, err, release, out_of_fuel}
use phud.Prelude.Words.{add64}
use phud.Strings.Floats.{Doubles}
use phud.Text.{rfind?, rfind, substr, contains, ends_with}
use phud.TextFile.{TextFile, skip, contains_one_of}
use phud.TextFile.Reading.{IsGood}
use phud.TextFile.Seek.{first, visited, skips, NoneAhead, NoneAhead-skips, NoneAhead-visited}
use phud.Entities.Action.{
  Action, ActionType, fold, check, call, bet, raise, new_action, Street, no_street,
}
use phud.History.Fields.{substr_from}
use phud.History.HandBuilder.Actions.{
  ActionParams, parse_line_for_action_params, push_action, actions_loop, parse_actions,
  streets_loop, parse_actions_and_winners, action_tokens, parse_street, street_of, with_bet,
  without_bet,
}

rfind?-lt : (s p : Bytes) (c i : ℕ) → rfind? s (c ∷ p) ≡ some i → i < length s
unfolding rfind?
rfind?-lt [] p c i h = ground arith
rfind?-lt (d ∷ s) p c i h = elim (Option-cases (rfind? s (c ∷ p))) [
  | inl e ↦ ground (arith, e)
  | inr (j, e) ↦ ground (arith, e, rfind?-lt s p c j e)
]

-- The amount of a line starts behind its last space, or at 0 where it has none.
amount_lem :
    (line : Bytes) → (t : Bytes) × (substr_from line (add64 (rfind line (codes " ")) 1) ≡ ok t)
unfolding substr_from rfind
amount_lem line = elim (Option-cases (rfind? line (codes " "))) [
  | inl e ↦ (line, ground (arith, e))
  | inr (i, e) ↦ (drop (add64 i 1) line, rw e (ground (arith, rfind?-lt line [] 32 i e)))
]

substr_start : (s : Bytes) (n : ℕ) → substr s 0 n ≡ ok (take n s)
unfolding substr
substr_start s n = ground arith

module _ (fp : Doubles) where
  open fp use {Double}

  with_bet_lem :
      (line token : Bytes) (kind : ActionType)
      → (o : Option (ActionParams Double)) × (with_bet fp release line token kind ≡ ok o)
  unfolding with_bet
  with_bet_lem line token kind = let (t, e) = amount_lem line in rw (substr_start, e) (_, refl)

  without_bet_lem :
      (line : Bytes) (kind : ActionType)
      → (o : Option (ActionParams Double)) × (without_bet fp release line kind ≡ ok o)
  unfolding without_bet
  without_bet_lem line kind = rw substr_start (_, refl)

  -- No line makes parseLineForActionParams throw.
  params_lem :
      (line : Bytes)
      → (o : Option (ActionParams Double)) × (parse_line_for_action_params fp release line ≡ ok o)
  unfolding parse_line_for_action_params
  params_lem line = elim (Bool-cases (ends_with line (codes " folds"))) [
    | inl e ↦ rw e (without_bet_lem line fold)
    | inr e ↦ elim (Bool-cases (ends_with line (codes " checks"))) [
      | inl f ↦ rw (e, f) (without_bet_lem line check)
      | inr f ↦ elim (Bool-cases (contains line (codes " calls "))) [
        | inl g ↦ rw (e, f, g) (with_bet_lem line (codes " calls ") call)
        | inr g ↦ elim (Bool-cases (contains line (codes " bets "))) [
          | inl h ↦ rw (e, f, g, h) (with_bet_lem line (codes " bets ") bet)
          | inr h ↦ elim (Bool-cases (contains line (codes " raises "))) [
            | inl k ↦ rw (e, f, g, h, k) (with_bet_lem line (codes " raises ") raise)
            | inr k ↦ rw (e, f, g, h, k) (none, refl)
          ]
        ]
      ]
    ]
  ]

  push_lem :
      (st : Street) (id : Bytes) (actions : List (Action Double)) (o : Option (ActionParams Double))
      → (l : List (Action Double)) × (push_action fp release st id actions o ≡ ok l)
  unfolding push_action new_action
  push_lem st id actions none = (actions, refl)
  push_lem st id actions (some p) = (_, refl)

  actions_step :
      (fuel : ℕ) (tf : TextFile) (st : Street) (id : Bytes) (actions l : List (Action Double))
      (o : Option (ActionParams Double))
      → contains_one_of tf action_tokens ≡ true
      → parse_line_for_action_params fp release tf.line ≡ ok o
      → push_action fp release st id actions o ≡ ok l
      → actions_loop fp release (suc fuel) tf st id actions
        ≡ actions_loop fp release fuel (skip tf) st id l
  unfolding actions_loop
  actions_step fuel tf st id actions l o c e f = rw (c, actions_loop) (rw (e, f) refl)

  -- parseActions runs out of fuel, or it stops on a line further on.
  Ends : Result (TextFile × List (Action Double)) → TextFile → Type 0
  Ends r tf =
      (r ≡ err out_of_fuel) ⊎ ((n : ℕ) × (l : List (Action Double)) × (r ≡ ok (skips n tf, l)))

  actions_loop-Ends :
      (fuel : ℕ) (tf : TextFile) (st : Street) (id : Bytes) (actions : List (Action Double))
      → Ends (actions_loop fp release fuel tf st id actions) tf
  unfolding actions_loop Ends
  actions_loop-Ends zero tf st id actions = inl refl
  actions_loop-Ends (suc fuel) tf st id actions =
      elim (Bool-cases (contains_one_of tf action_tokens)) [
        | inr c ↦ inr (0, actions, rw (c, actions_loop) refl)
        | inl c ↦
            let (o, e) = params_lem tf.line in
            let (l, f) = push_lem st id actions o in
            let step = actions_step fuel tf st id actions l o c e f in
            elim (actions_loop-Ends fuel (skip tf) st id l) [
              | inl h ↦ inl (step ∙ h)
              | inr (n, l', h) ↦ inr (suc n, l', step ∙ h)
            ]
      ]

  abbrev pub wins : Bytes → Bool
  wins line = contains line (codes " collected ")

  streets_loop-forever :
      (fuel : ℕ) (tf : TextFile) (id : Bytes) (st : Street) (actions : List (Action Double))
      → NoneAhead wins tf
      → streets_loop fp release fuel tf id st actions ≡ err out_of_fuel
  unfolding streets_loop parse_street parse_actions Ends
  streets_loop-forever zero tf id st actions h = refl
  streets_loop-forever (suc fuel) tf id st actions h =
      elim (actions_loop-Ends fuel (skip tf) (street_of tf.line) id []) [
        | inl e ↦ rw (h 0, streets_loop) (rw e refl)
        | inr (n, l, e) ↦
            rw (h 0, streets_loop)
              (rw e (
                streets_loop-forever fuel (skips n (skip tf)) id (street_of tf.line) (actions ++ l)
                  (NoneAhead-skips wins (suc n) tf h)))
      ]

  -- In a release build the parsing of the actions never ends on a stream that is good and where
  -- neither the current line nor one behind it holds " collected ": no amount of fuel is enough.
  pub parse_actions_and_winners_forever :
      (fuel : ℕ) (tf : TextFile) (id : Bytes)
      → IsGood tf
      → first wins (tf.line ∷ visited tf.content) ≡ none
      → parse_actions_and_winners fp release fuel tf id ≡ err out_of_fuel
  unfolding parse_actions_and_winners
  parse_actions_and_winners_forever fuel tf id g h =
      rw (streets_loop-forever fuel tf id no_street [] (NoneAhead-visited wins tf g h)) refl
