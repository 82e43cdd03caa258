-- ===== src/History/GameHistory/Sharing.antt =====
-- parseGameHistory (history/WinamaxGameHistory.cpp) on its own player cache and on one in which others
-- have added players.
use phud.Prelude.{ℕ, zero, suc, inl, inr, Option, none, some, Bytes, codes, length, ltb, Bool-cases}
use phud.Prelude.Result.{Result, ok, Build}
use phud.Strings.Floats.{Doubles}
use phud.Strings.{sanitize}
use phud.System.Times.{Times}
use phud.Text.{contains}
use phud.TextFile.{TextFile, next, open_file}
use phud.Entities.Site.{Site, new_site, add_cash_game, add_tournament}
use phud.Threads.PlayerCache.{PlayerCache}
use phud.Threads.PlayerCache.Sharing.{Follows, same, thrown, Follows-bind, Follows-step, Near}
use phud.History.HandBuilder.Sharing.{
  Alike, alike, after_Alike, build_cashgame_hand-Alike, build_tournament_hand-Alike,
  build_cashgame_hand_and_game_data-Alike, build_tournament_hand_and_game_data-Alike,
}
use phud.History.GameHistory.{
  fill_from_file_name, FileStem, GameKind, create_step, create_loop, create_game, parse_file_stem,
  cash_games, tournaments, handle_game, add_created, is_neither, parse_game_history, no_game,
  winamax,
}

-- The same but for the cache.
pub data Sharing (s : PlayerCache) {A : Type 0} : PlayerCache × A → PlayerCache × A → Type 0 where
  shares : {c d : PlayerCache} {a : A} → Near s c d → Sharing s (c, a) (d, a)

after_Sharing :
    {s : PlayerCache} {A V W : Type 0} {S : V → W → Type 0} (f : PlayerCache × A → Result V)
    (g : PlayerCache × A → Result W)
    → ((c d : PlayerCache) (a : A) → Near s c d → Follows S (f (c, a)) (g (d, a)))
    → (v w : PlayerCache × A) → Sharing s v w
    → Follows S (f v) (g w)
after_Sharing f g h v w (shares {c} {d} {a} n) = h c d a n

-- What the loop needs of a kind of game.
record Shares {D T G : Type 0} (s : PlayerCache) (kind : GameKind D T G) : Type 0 where
  builds :
      (tf : TextFile) (c d : PlayerCache)
      → Near s c d
      → Follows (Alike s) (kind.build_hand tf c) (kind.build_hand tf d)
  builds_first :
      (tf : TextFile) (c d : PlayerCache)
      → Near s c d
      → Follows (Alike s) (kind.build_hand_and_game_data tf c) (kind.build_hand_and_game_data tf d)

module _ {D T G : Type 0} (s : PlayerCache) (kind : GameKind D T G) (k : Shares s kind) where
  create_step-Alike :
      (stem : Bytes) (values : FileStem) (tf : TextFile) (c d : PlayerCache) (ret : Option G)
      → Near s c d
      → Follows
          (Alike s)
          (create_step kind stem values tf c ret)
          (create_step kind stem values tf d ret)
  unfolding create_step
  create_step-Alike stem values tf c d none v = Follows-bind (k.builds_first tf c d v) (
      after_Alike _ _ (λ tf' c' d' r n.
        Follows-step (kind.new_game stem (fill_from_file_name values r.1))
          (λ game. same (alike n))))
  create_step-Alike stem values tf c d (some game) v =
      Follows-bind (k.builds tf c d v) (after_Alike _ _ (λ tf' c' d' hand n. same (alike n)))

  create_loop-Sharing :
      (fuel : ℕ) (stem : Bytes) (values : FileStem) (tf : TextFile) (c d : PlayerCache)
      (ret : Option G)
      → Near s c d
      → Follows
          (Sharing s)
          (create_loop kind fuel stem values tf c ret)
          (create_loop kind fuel stem values tf d ret)
  unfolding create_loop
  create_loop-Sharing zero stem values tf c d ret v = thrown
  create_loop-Sharing (suc fuel) stem values tf c d ret v = elim (Bool-cases (next tf).1) [
    | inr n ↦ rw (n, create_loop) (same (shares v))
    | inl y ↦
        rw (y, create_loop)
          (Follows-bind (create_step-Alike stem values (next tf).0 c d ret v) (
            after_Alike _ _
              (λ tf' c' d' game n. create_loop-Sharing fuel stem values tf' c' d' (some game) n)))
  ]

  create_game-Sharing :
      (fuel : ℕ) (stem content : Bytes) (c d : PlayerCache)
      → Near s c d
      → Follows
          (Sharing s)
          (create_game kind fuel stem content c)
          (create_game kind fuel stem content d)
  unfolding create_game
  create_game-Sharing fuel stem content c d v = Follows-step (parse_file_stem stem) created
    where
      created :
          (o : Option FileStem)
          → Follows
              (Sharing s)
              (elim o [
                | none ↦ ok (c, none)
                | some values ↦ create_loop kind fuel stem values (open_file content) c none
              ])
              (elim o [
                | none ↦ ok (d, none)
                | some values ↦ create_loop kind fuel stem values (open_file content) d none
              ])
      created none = same (shares v)
      created (some values) = create_loop-Sharing fuel stem values (open_file content) c d none v

module _ (fp : Doubles) (ts : Times) (b : Build) (fuel : ℕ) (s : PlayerCache) where
  open fp use {Double}
  open ts use {Time}

  cash_games-Shares : Shares s (cash_games fp ts b fuel)
  unfolding cash_games
  cash_games-Shares = record {
    builds = build_cashgame_hand-Alike fp ts b fuel s;
    builds_first = build_cashgame_hand_and_game_data-Alike fp ts b fuel s;
  }

  tournaments-Shares : Shares s (tournaments fp ts b fuel)
  unfolding tournaments
  tournaments-Shares = record {
    builds = build_tournament_hand-Alike fp ts b fuel s;
    builds_first = build_tournament_hand_and_game_data-Alike fp ts b fuel s;
  }

  add_created-Sharing :
      {G : Type 0} (add_game : Site Double Time → G → Result (Site Double Time)) (c d : PlayerCache)
      (o : Option G)
      → Near s c d
      → Follows
          (Sharing s)
          (add_created fp ts b fuel add_game (c, o))
          (add_created fp ts b fuel add_game (d, o))
  unfolding add_created
  add_created-Sharing add_game c d none v =
      Follows-step (new_site b winamax) (λ site. same (shares v))
  add_created-Sharing add_game c d (some g) v =
      Follows-step (new_site b winamax)
        (λ site. Follows-step (add_game site g) (λ site'. same (shares v)))

  handle_game-Sharing :
      {G : Type 0} (kind : GameKind Double Time G)
      (add_game : Site Double Time → G → Result (Site Double Time)) (stem content : Bytes)
      (c d : PlayerCache)
      → Shares s kind
      → Near s c d
      → Follows
          (Sharing s)
          (handle_game fp ts b fuel kind add_game stem content c)
          (handle_game fp ts b fuel kind add_game stem content d)
  unfolding handle_game
  handle_game-Sharing kind add_game stem content c d k v =
      Follows-bind (create_game-Sharing s kind k fuel (sanitize stem) content c d v)
        (after_Sharing _ _ (λ c' d' o n. add_created-Sharing add_game c' d' o n))

  no_game-Sharing :
      (c d : PlayerCache)
      → Near s c d
      → Follows (Sharing s) (no_game fp ts b fuel c) (no_game fp ts b fuel d)
  unfolding no_game
  no_game-Sharing c d v = Follows-step (new_site b winamax) (λ site. same (shares v))

  pub parse_game_history-Sharing :
      (stem content : Bytes) (c d : PlayerCache)
      → Near s c d
      → Follows
          (Sharing s)
          (parse_game_history fp ts b fuel stem content c)
          (parse_game_history fp ts b fuel stem content d)
  unfolding parse_game_history
  parse_game_history-Sharing stem content c d v = elim (Bool-cases (ltb (length stem) 12)) [
    | inl p ↦ rw p (no_game-Sharing c d v)
    | inr p ↦ elim (Bool-cases (contains stem (codes "!"))) [
      | inl q ↦ rw (p, q) (no_game-Sharing c d v)
      | inr q ↦ elim (Bool-cases (is_neither stem)) [
        | inl r ↦ rw (p, q, r) (no_game-Sharing c d v)
        | inr r ↦ elim (Bool-cases (contains stem (codes "("))) [
          | inl t ↦
              rw (p, q, r, t)
                (handle_game-Sharing (tournaments fp ts b fuel) (add_tournament b) stem content c d
                  tournaments-Shares v)
          | inr t ↦
              rw (p, q, r, t)
                (handle_game-Sharing (cash_games fp ts b fuel) (add_cash_game b) stem content c d
                  cash_games-Shares v)
        ]
      ]
    ]
  ]
