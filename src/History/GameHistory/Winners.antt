-- ===== src/History/GameHistory/Winners.antt =====
-- The hands of the sites that parseGameHistory (history/WinamaxGameHistory.cpp) returns.
use phud.Prelude.{
  ℕ, ◌≡◌, refl, ◌∙◌, subst, inl, inr, [], ◌∷◌, Bytes, codes, true, false, Bool, Option, none, some,
  All, ltb, length, arith, Bool-cases,
}
use phud.Prelude.Result.{ok, ◌>>◌, require, Build, debug, release, Result-cases}
use phud.Strings.Floats.{Doubles}
use phud.System.Times.{Times}
use phud.Text.{contains}
use phud.Strings.{sanitize}
use phud.TextFile.{TextFile}
use phud.Prelude.Words.{pos}
use phud.Entities.Hand.{Hand, cash_game, tournament}
use phud.Entities.Game.{
  Game, Tournament, CashGame, add_hand, new_game, new_tournament, new_cash_game,
}
use phud.Entities.Site.{Site, new_site, add_cash_game, add_tournament}
use phud.Threads.PlayerCache.{PlayerCache}
use phud.History.HandBuilder.{build_cashgame_hand, build_tournament_hand}
use phud.History.HandBuilder.PokerLine.{parse_start_of_line, level_date_hand_id}
use phud.History.HandBuilder.Hands.{
  get_hand-acted, build_cashgame_hand-and_game_data, build_tournament_hand-and_game_data,
}
use phud.History.GameHistory.{
  create_game, cash_games, tournaments, handle_game, add_created, is_neither, parse_game_history,
  no_game, winamax,
}
use phud.History.GameHistory.Loop.{WinnersAct, Sound, AllAct, Acting, create_game-Acting}

new_cash_game-hands :
    (fp : Doubles) {T : Type 0} (b : Build) (g : Game fp.Double T) (g' : CashGame fp.Double T)
    (small big : fp.Double)
    → new_cash_game fp b g small big ≡ ok g'
    → g'.game.hands ≡ []
unfolding new_cash_game new_game
new_cash_game-hands fp debug g g' small big e = ground arith
new_cash_game-hands fp release g g' small big e = ground arith

new_tournament-hands :
    (fp : Doubles) {T : Type 0} (b : Build) (g : Game fp.Double T) (t : Tournament fp.Double T)
    (buy_in : fp.Double)
    → new_tournament fp b g buy_in ≡ ok t
    → t.game.hands ≡ []
unfolding new_tournament new_game
new_tournament-hands fp debug g t buy_in e = ground arith
new_tournament-hands fp release g t buy_in e = ground arith

abbrev empty_site : {D T : Type 0} → Site D T
empty_site = record { name = winamax; players = []; cash_games = []; tournaments = [] }

new_site_lem : {D T : Type 0} (b : Build) → new_site {D = D} {T = T} b winamax ≡ ok empty_site
unfolding new_site
new_site_lem debug = refl
new_site_lem release = refl

required : {A : Type 0} (b : Build) (t : Bool) (s u : A) → (require b t >> ok s) ≡ ok u → s ≡ u
required debug true s u e = cc
required debug false s u e = cc
required release t s u e = cc

module _ (fp : Doubles) (ts : Times) (b : Build) (fuel : ℕ) where
  open fp use {Double}
  open ts use {Time}

  build_cashgame_hand-WinnersAct :
      (tf tf' : TextFile) (c c' : PlayerCache) (h : Hand Double Time)
      → build_cashgame_hand fp ts b fuel tf c ≡ ok (tf', c', h)
      → WinnersAct h
  unfolding build_cashgame_hand
  build_cashgame_hand-WinnersAct tf tf' c c' h e n k w =
      elim (Result-cases (parse_start_of_line ts tf.line)) [
        | inr (x, p) ↦ ground (arith, p)
        | inl (s, p) ↦
            get_hand-acted fp ts b fuel cash_game tf tf' c c' (pos 0) s.hand_start_date s.hand_id n
              h (ground (arith, p)) k w
      ]

  build_tournament_hand-WinnersAct :
      (tf tf' : TextFile) (c c' : PlayerCache) (h : Hand Double Time)
      → build_tournament_hand fp ts b fuel tf c ≡ ok (tf', c', h)
      → WinnersAct h
  unfolding build_tournament_hand
  build_tournament_hand-WinnersAct tf tf' c c' h e n k w =
      elim (Result-cases (level_date_hand_id ts tf.line)) [
        | inr (x, p) ↦ ground (arith, p)
        | inl (s, p) ↦
            get_hand-acted fp ts b fuel tournament tf tf' c c' s.level s.date s.hand_id n h
              (ground (arith, p)) k w
      ]

  cash_games-Sound : Sound (cash_games fp ts b fuel) (λ g. g.game.hands)
  unfolding cash_games
  cash_games-Sound = record {
    builds = build_cashgame_hand-WinnersAct;
    builds_first = λ tf tf' c c' h gd e.
        build_cashgame_hand-WinnersAct tf tf' c c' h
          (build_cashgame_hand-and_game_data fp ts b fuel tf tf' c c' h gd e).0;
    starts = λ s gd g e. new_cash_game-hands fp b _ g _ _ e;
    adds = λ g h. unfold add_hand in refl;
  }

  tournaments-Sound : Sound (tournaments fp ts b fuel) (λ g. g.game.hands)
  unfolding tournaments
  tournaments-Sound = record {
    builds = build_tournament_hand-WinnersAct;
    builds_first = λ tf tf' c c' h gd e.
        build_tournament_hand-WinnersAct tf tf' c c' h
          (build_tournament_hand-and_game_data fp ts b fuel tf tf' c c' h gd e).0;
    starts = λ s gd g e. new_tournament-hands fp b _ g _ e;
    adds = λ g h. unfold add_hand in refl;
  }

  -- The hands of all games of a site.
  AllHandsAct : Site Double Time → Type 0
  AllHandsAct site =
      All (λ g. All WinnersAct g.game.hands) site.cash_games
      × All (λ t. All WinnersAct t.game.hands) site.tournaments

  created_cash_game-AllHandsAct :
      (c c' : PlayerCache) (o : Option (CashGame Double Time)) (site : Site Double Time)
      → Acting (cash_games fp ts b fuel) (λ g. g.game.hands) o
      → add_created fp ts b fuel (add_cash_game b) (c, o) ≡ ok (c', site)
      → AllHandsAct site
  unfolding add_created add_cash_game Acting AllAct AllHandsAct
  created_cash_game-AllHandsAct c c' none site v e =
      let e' : ok (c, empty_site) ≡ ok (c', site) = rw (new_site_lem b) at e in
      let s : empty_site ≡ site = ground (arith, e') in subst AllHandsAct s (tt, tt)
  created_cash_game-AllHandsAct c c' (some g) site v e =
      elim (Result-cases (add_cash_game b empty_site g)) [
        | inr (x, p) ↦ ground (arith, rw (new_site_lem b) at e, p)
        | inl (u, p) ↦
            let s : u ≡ site = ground (arith, rw (new_site_lem b) at e, p) in
            subst AllHandsAct (required b _ (record empty_site { cash_games = g ∷ [] }) u p ∙ s)
              ((v, tt), tt)
      ]

  created_tournament-AllHandsAct :
      (c c' : PlayerCache) (o : Option (Tournament Double Time)) (site : Site Double Time)
      → Acting (tournaments fp ts b fuel) (λ g. g.game.hands) o
      → add_created fp ts b fuel (add_tournament b) (c, o) ≡ ok (c', site)
      → AllHandsAct site
  unfolding add_created add_tournament Acting AllAct AllHandsAct
  created_tournament-AllHandsAct c c' none site v e =
      let e' : ok (c, empty_site) ≡ ok (c', site) = rw (new_site_lem b) at e in
      let s : empty_site ≡ site = ground (arith, e') in subst AllHandsAct s (tt, tt)
  created_tournament-AllHandsAct c c' (some g) site v e =
      elim (Result-cases (add_tournament b empty_site g)) [
        | inr (x, p) ↦ ground (arith, rw (new_site_lem b) at e, p)
        | inl (u, p) ↦
            let s : u ≡ site = ground (arith, rw (new_site_lem b) at e, p) in
            subst AllHandsAct (required b _ (record empty_site { tournaments = g ∷ [] }) u p ∙ s)
              (tt, (v, tt))
      ]

  no_game-AllHandsAct :
      (c c' : PlayerCache) (site : Site Double Time)
      → no_game fp ts b fuel c ≡ ok (c', site)
      → AllHandsAct site
  unfolding no_game AllHandsAct
  no_game-AllHandsAct c c' site e =
      let e' : ok (c, empty_site) ≡ ok (c', site) = rw (new_site_lem b) at e in
      let s : empty_site ≡ site = ground (arith, e') in subst AllHandsAct s (tt, tt)

  handle_cash_game-AllHandsAct :
      (stem content : Bytes) (c c' : PlayerCache) (site : Site Double Time)
      → handle_game fp ts b fuel (cash_games fp ts b fuel) (add_cash_game b) stem content c
        ≡ ok (c', site)
      → AllHandsAct site
  unfolding handle_game
  handle_cash_game-AllHandsAct stem content c c' site e =
      elim (Result-cases (create_game (cash_games fp ts b fuel) fuel (sanitize stem) content c)) [
        | inr (x, p) ↦ ground (arith, p)
        | inl ((c1, o), p) ↦
            created_cash_game-AllHandsAct c1 c' o site
              (create_game-Acting _ _ cash_games-Sound fuel (sanitize stem) content c c1 o p)
              (ground (arith, p))
      ]

  handle_tournament-AllHandsAct :
      (stem content : Bytes) (c c' : PlayerCache) (site : Site Double Time)
      → handle_game fp ts b fuel (tournaments fp ts b fuel) (add_tournament b) stem content c
        ≡ ok (c', site)
      → AllHandsAct site
  unfolding handle_game
  handle_tournament-AllHandsAct stem content c c' site e =
      elim (Result-cases (create_game (tournaments fp ts b fuel) fuel (sanitize stem) content c)) [
        | inr (x, p) ↦ ground (arith, p)
        | inl ((c1, o), p) ↦
            created_tournament-AllHandsAct c1 c' o site
              (create_game-Acting _ _ tournaments-Sound fuel (sanitize stem) content c c1 o p)
              (ground (arith, p))
      ]

  -- In every hand of every game of a site that parseGameHistory returns, each winner with a name
  -- has an action, whatever the name and the content of the file are, in either build.
  pub parse_game_history-AllHandsAct :
      (stem content : Bytes) (c c' : PlayerCache) (site : Site Double Time)
      → parse_game_history fp ts b fuel stem content c ≡ ok (c', site)
      → All (λ g. All WinnersAct g.game.hands) site.cash_games
        × All (λ t. All WinnersAct t.game.hands) site.tournaments
  unfolding parse_game_history AllHandsAct
  parse_game_history-AllHandsAct stem content c c' site e =
      elim (Bool-cases (ltb (length stem) 12)) [
        | inl p ↦ no_game-AllHandsAct c c' site (rw p at e)
        | inr p ↦ elim (Bool-cases (contains stem (codes "!"))) [
          | inl q ↦ no_game-AllHandsAct c c' site (rw (p, q) at e)
          | inr q ↦ elim (Bool-cases (is_neither stem)) [
            | inl r ↦ no_game-AllHandsAct c c' site (rw (p, q, r) at e)
            | inr r ↦ elim (Bool-cases (contains stem (codes "("))) [
              | inl t ↦ handle_tournament-AllHandsAct stem content c c' site (rw (p, q, r, t) at e)
              | inr t ↦ handle_cash_game-AllHandsAct stem content c c' site (rw (p, q, r, t) at e)
            ]
          ]
        ]
      ]
