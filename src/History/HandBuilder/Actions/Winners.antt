-- ===== src/History/HandBuilder/Actions/Winners.antt =====
-- createActionForWinnersWithoutAction (history/WinamaxHandBuilder.cpp).
use phud.Prelude.{
  ◌≡◌, ◌≢◌, refl, ◌∙◌, inl, inr, Bytes, List, [], ◌∷◌, ◌++◌, not, ◌||◌, ◌&&◌, false, true, is_empty,
  bytes_eq, eq_of_bytes_eq, arith, Bool-cases,
}
use phud.Prelude.Result.{ok, Build, debug, release, >>=-eq-ok}
use phud.Strings.Floats.{Doubles}
use phud.Entities.Action.{Action, new_action, new_action-valid, Street}
use phud.Entities.Hand.{acted, is_one_of}
use phud.History.HandBuilder.Actions.{winner_action, winner_actions, create_action_for_winners}

acted-append :
    {D : Type 0}
    → (xs ys : List (Action D)) (n : Bytes) → acted (xs ++ ys) n ≡ acted xs n || acted ys n
unfolding acted
acted-append [] ys n = refl
acted-append (x ∷ xs) ys n = ground (arith, acted-append xs ys n)

bytes_eq_sym : (s t : Bytes) → bytes_eq s t ≡ bytes_eq t s
bytes_eq_sym [] [] = refl
bytes_eq_sym [] (d ∷ t) = refl
bytes_eq_sym (c ∷ s) [] = refl
bytes_eq_sym (c ∷ s) (d ∷ t) = ground (arith, bytes_eq_sym s t)

is_empty_lem : (s : Bytes) → s ≢ [] → is_empty s ≡ false
is_empty_lem [] h = absurd (h refl)
is_empty_lem (c ∷ s) h = refl

new_action_self :
    (fp : Doubles) (b : Build) (a a' : Action fp.Double) → new_action fp b a ≡ ok a' → a' ≡ a
unfolding new_action
new_action_self fp debug a a' h = (new_action-valid fp a a' h).0
new_action_self fp release a a' h = ground arith

module _ (fp : Doubles) (b : Build) where
  open fp use {Double}

  winner_action-acted :
      (actions : List (Action Double)) (st : Street) (id w n : Bytes)
      (ret ret' : List (Action Double))
      → winner_action fp b actions st id w ret ≡ ok ret'
      → n ≢ []
      → (bytes_eq w n || (acted actions n || acted ret n)) ≡ true
      → (acted actions n || acted ret' n) ≡ true
  unfolding winner_action acted
  winner_action-acted actions st id w n ret ret' h k t =
      elim (Bool-cases (not (is_empty w) && not (acted actions w))) [
        | inl e ↦
            let (a, p, q) = >>=-eq-ok _ (λ a. ok (ret ++ (a ∷ []))) (rw (e, winner_action) at h) in
            let s = new_action_self fp b _ a p in
            ground (arith, acted-append ret (a ∷ []) n, bytes_eq_sym w n)
        | inr e ↦ ground (arith, eq_of_bytes_eq w n, is_empty_lem n)
      ]

  winner_actions-acted :
      (actions : List (Action Double)) (st : Street) (id n : Bytes) (ws : List Bytes)
      (ret ret' : List (Action Double))
      → winner_actions fp b actions st id ws ret ≡ ok ret'
      → n ≢ []
      → (is_one_of ws n || (acted actions n || acted ret n)) ≡ true
      → (acted actions n || acted ret' n) ≡ true
  unfolding winner_actions is_one_of
  winner_actions-acted actions st id n [] ret ret' h k t = ground arith
  winner_actions-acted actions st id n (w ∷ ws) ret ret' h k t =
      let (r, p, q) =
        >>=-eq-ok (winner_action fp b actions st id w ret) (winner_actions fp b actions st id ws)
          h in
      winner_actions-acted actions st id n ws r ret' q k
        (ground (arith, winner_action-acted actions st id w n ret r p k))

  -- With the actions that are made for them, every winner with a name has acted.
  pub create_action_for_winners-acted :
      (actions more : List (Action Double)) (st : Street) (id n : Bytes) (ws : List Bytes)
      → create_action_for_winners fp b ws actions st id ≡ ok more
      → n ≢ []
      → is_one_of ws n ≡ true
      → acted (actions ++ more) n ≡ true
  unfolding create_action_for_winners
  create_action_for_winners-acted actions more st id n ws h k t =
      acted-append actions more n
      ∙ winner_actions-acted actions st id n ws [] more h k (ground (arith, t))
