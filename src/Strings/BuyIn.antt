-- ===== src/Strings/BuyIn.antt =====
-- toBuyIn (strings/StringViewUtils.cpp) against a sum over the parts of the text.
use phud.Prelude.{
  ℕ, ◌≡◌, refl, sym, ap, ◌∙◌, inl, inr, List, [], ◌∷◌, ◌++◌, append_assoc, append-nil, Bytes, map,
  ◌==◌, if◌then◌else◌, Bool-cases,
}
use phud.Strings.Floats.{Doubles}
use phud.Strings.{kept, process_token, buy_in_loop, to_buy_in}

abbrev pub on_head : (Bytes → Bytes) → List Bytes → List Bytes
on_head f [] = []
on_head f (p ∷ ps) = f p ∷ ps

-- The parts of a text between the plus signs; there is always one.
pub parts : Bytes → List Bytes
parts [] = [] ∷ []
parts (c ∷ s) = if c == 43 then [] ∷ parts s else on_head (◌∷◌ c) (parts s)

module _ (fp : Doubles) where
  open fp use {Double, zero_double, add_double}

  -- The characters of a part that count.
  pub cleaned : Bytes → Bytes
  cleaned [] = []
  cleaned (c ∷ s) = kept fp c ++ cleaned s

  -- The sum of the amounts, from the left.
  pub total : List Bytes → Double → Double
  total [] result = result
  total (p ∷ ps) result = total ps (add_double result (process_token fp p))

  map-on_head :
      (c : ℕ) (token : Bytes) (ps : List Bytes)
      → on_head (◌++◌ token) (map cleaned (on_head (◌∷◌ c) ps))
        ≡ on_head (◌++◌ (token ++ kept fp c)) (map cleaned ps)
  unfolding cleaned
  map-on_head c token [] = refl
  map-on_head c token (p ∷ ps) = rw append_assoc

  on_head_nil : (ps : List Bytes) → on_head (◌++◌ []) ps ≡ ps
  on_head_nil [] = refl
  on_head_nil (p ∷ ps) = refl

  buy_in_loop-total :
      (s token : Bytes) (result : Double)
      → buy_in_loop fp s token result ≡ total (on_head (◌++◌ token) (map cleaned (parts s))) result
  unfolding buy_in_loop parts cleaned total
  buy_in_loop-total [] token result = rw append-nil
  buy_in_loop-total (c ∷ s) token result = elim (Bool-cases (c == 43)) [
    | inl e ↦
        rw (e, buy_in_loop)
          (buy_in_loop-total s [] (add_double result (process_token fp token))
            ∙ rw (on_head_nil, append-nil))
    | inr e ↦
        rw (e, buy_in_loop)
          (buy_in_loop-total s (token ++ kept fp c) result
            ∙ ap (λ l. total l result) (sym (map-on_head c token (parts s))))
  ]

  -- toBuyIn is the sum, from the left, of the amounts that stand between the plus signs of the
  -- text, each read from its digits, dots and commas alone.
  pub to_buy_in-total : (s : Bytes) → to_buy_in fp s ≡ total (map cleaned (parts s)) zero_double
  unfolding to_buy_in
  to_buy_in-total s = buy_in_loop-total s [] zero_double ∙ rw on_head_nil
