-- ===== src/History/HandBuilder/Actions/Lines.antt =====
-- parseLineForActionParams (history/WinamaxHandBuilder.cpp) on lines that are put together.
use phud.Prelude.{
  ℕ, ◌+◌, ◌≡◌, ◌≢◌, refl, Bytes, codes, length, [], ◌∷◌, ◌++◌, false, true, none, some, arith, All,
  take-append, drop-append, length-append, ◌<◌, ◌^◌, sym, append_assoc,
}
use mathlib.Core.List.{reverse-append}
use phud.Prelude.Result.{ok, Build}
use phud.Prelude.Words.{add64}
use phud.Strings.Floats.{Doubles}
use phud.Strings.{to_amount}
use phud.Text.{find?, find, rfind?, rfind, substr, contains, ends_with}
use phud.Text.Search.{ends_with-append, find?-behind, substr-append}
use phud.Entities.Action.{fold, check, raise}
use phud.History.Fields.{substr_from}
use phud.History.HandBuilder.Actions.{parse_line_for_action_params, with_bet, without_bet}

rfind?-none : (s : Bytes) (c : ℕ) → All (λ d. d ≢ c) s → rfind? s (c ∷ []) ≡ none
unfolding rfind?
rfind?-none [] c h = refl
rfind?-none (d ∷ s) c h = rw (rfind?-none s c h.1, rfind?) (ground arith)

rfind?-one :
    (s r : Bytes) (c : ℕ) → All (λ d. d ≢ c) r → rfind? (s ++ (c ∷ r)) (c ∷ []) ≡ some (length s)
unfolding rfind?
rfind?-one [] r c h = rw (rfind?-none r c h, rfind?) (ground arith)
rfind?-one (a ∷ s) r c h = rw (rfind?-one s r c h, rfind?) refl

-- What stands before the last word of a text.
name_lem :
    (name word : Bytes)
    → All (λ d. d ≢ 32) word
    → substr (name ++ (32 ∷ word)) 0 (rfind (name ++ (32 ∷ word)) (codes " ")) ≡ ok name
unfolding substr rfind
name_lem name word h = rw (rfind?-one name word 32 h) (ground (arith, take-append name (32 ∷ word)))

not_folds : (name : Bytes) → ends_with (name ++ codes " checks") (codes " folds") ≡ false
not_folds name = rw (reverse-append name (codes " checks")) refl

module _ (fp : Doubles) (b : Build) (name : Bytes) where
  -- A line that is a name followed by " folds" or " checks" gives this name and a fold or a check,
  -- whatever the name holds: spaces and the words of other actions too.
  pub parse_folds_and_checks :
      (parse_line_for_action_params fp b (name ++ codes " folds")
        ≡ ok (some (record { player_name = name; kind = fold; bet_amount = fp.zero_double })))
      × (parse_line_for_action_params fp b (name ++ codes " checks")
          ≡ ok (some (record { player_name = name; kind = check; bet_amount = fp.zero_double })))
  unfolding parse_line_for_action_params without_bet
  parse_folds_and_checks = (
    rw (ends_with-append name (codes " folds"), name_lem name (codes "folds") (ground arith)) refl,
    rw
        (
          not_folds name,
          ends_with-append name (codes " checks"),
          name_lem name (codes "checks") (ground arith),
        )
        refl,
  )

  find-lem :
      (token rest : Bytes)
      → All (λ d. d ≢ 32) name
      → find? (name ++ ((32 ∷ token) ++ rest)) (32 ∷ token) ≡ some (length name)
  find-lem token rest h = find?-behind name token rest 32 h

  amount_lem :
      (front amount : Bytes)
      → All (λ d. d ≢ 32) amount
      → length front + 1 < 2 ^ 64
      → substr_from (front ++ (32 ∷ amount)) (add64 (rfind (front ++ (32 ∷ amount)) (codes " ")) 1)
        ≡ ok amount
  unfolding substr_from rfind
  amount_lem front amount h l =
      let e : front ++ (32 ∷ amount) ≡ (front ++ (32 ∷ [])) ++ amount = simp append_assoc in
      let n : length (front ++ (32 ∷ [])) ≡ length front + 1 = length-append front (32 ∷ []) in
      let a : add64 (length front) 1 ≡ length front + 1 = omega arith in
      rw (rfind?-one front amount 32 h, a, sym n, e, drop-append)
        (ground (arith, length-append (front ++ (32 ∷ [])) amount))

  raise_lem :
      (line amount : Bytes)
      → ends_with line (codes " folds") ≡ false
      → ends_with line (codes " checks") ≡ false
      → contains line (codes " calls ") ≡ false
      → contains line (codes " bets ") ≡ false
      → find? line (codes " raises ") ≡ some (length name)
      → substr line 0 (length name) ≡ ok name
      → substr_from line (add64 (rfind line (codes " ")) 1) ≡ ok amount
      → parse_line_for_action_params fp b line
        ≡ ok (some (record { player_name = name; kind = raise; bet_amount = to_amount fp amount }))
  unfolding parse_line_for_action_params with_bet find
  raise_lem line amount f c k bets m s a =
      let r : contains line (codes " raises ") ≡ true = unfold contains in rw m refl in
      rw (f, c, k, bets, r, m, s, a) refl

  -- A line that is a name without a space, " raises ", an amount, " to " and a second amount
  -- without a space gives the name, a raise and the second amount, if the line up to it is shorter
  -- than 2^64 and no earlier test of the function takes the line.
  pub parse_raises :
      (by amount : Bytes)
      → All (λ d. d ≢ 32) name
      → All (λ d. d ≢ 32) amount
      → length (name ++ (codes " raises " ++ (by ++ codes " to"))) + 1 < 2 ^ 64
      → ends_with (name ++ (codes " raises " ++ (by ++ (codes " to " ++ amount)))) (codes " folds")
        ≡ false
      → ends_with (name ++ (codes " raises " ++ (by ++ (codes " to " ++ amount)))) (codes " checks")
        ≡ false
      → contains (name ++ (codes " raises " ++ (by ++ (codes " to " ++ amount)))) (codes " calls ")
        ≡ false
      → contains (name ++ (codes " raises " ++ (by ++ (codes " to " ++ amount)))) (codes " bets ")
        ≡ false
      → parse_line_for_action_params fp b
          (name ++ (codes " raises " ++ (by ++ (codes " to " ++ amount))))
        ≡ ok (some (record { player_name = name; kind = raise; bet_amount = to_amount fp amount }))
  parse_raises by amount hn ha l f c k bets =
      let e : name ++ (codes " raises " ++ (by ++ (codes " to " ++ amount)))
          ≡ (name ++ (codes " raises " ++ (by ++ codes " to"))) ++ (32 ∷ amount) =
        simp append_assoc in
      raise_lem (name ++ (codes " raises " ++ (by ++ (codes " to " ++ amount)))) amount f c k bets
        (find-lem (codes "raises ") (by ++ (codes " to " ++ amount)) hn)
        (substr-append [] name (codes " raises " ++ (by ++ (codes " to " ++ amount))))
        (rw e (amount_lem (name ++ (codes " raises " ++ (by ++ codes " to"))) amount ha l))
