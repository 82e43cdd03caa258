-- ===== src/History/GameHistory/Loop.antt =====
-- The loop of createGame (history/WinamaxGameHistory.cpp) and the hands of its game.
use phud.Prelude.{
  ℕ, zero, suc, ◌≡◌, ◌≢◌, sym, subst, inl, inr, List, [], ◌∷◌, ◌++◌, Bytes, true, Option, none,
  some, All, All-append, arith, Bool-cases,
}
use phud.Prelude.Result.{ok, Result-cases}
use phud.TextFile.{TextFile, next, open_file}
use phud.Entities.Hand.{Hand, is_winner, is_player_involved}
use phud.Threads.PlayerCache.{PlayerCache}
use phud.History.HandBuilder.{GameData}
use phud.History.GameHistory.{
  fill_from_file_name, FileStem, GameKind, create_step, create_loop, create_game, parse_file_stem,
}

-- Every winner with a name has acted.
abbrev pub WinnersAct : {D T : Type 0} → Hand D T → Type 0
WinnersAct h = (n : Bytes) → n ≢ [] → is_winner h n ≡ true → is_player_involved h n ≡ true

module _ {D T G : Type 0} (kind : GameKind D T G) (hands : G → List (Hand D T)) where
  -- What the loop needs of a kind of game.
  pub record Sound : Type 0 where
    pub builds :
        (tf tf' : TextFile) (c c' : PlayerCache) (h : Hand D T)
        → kind.build_hand tf c ≡ ok (tf', c', h)
        → WinnersAct h
    pub builds_first :
        (tf tf' : TextFile) (c c' : PlayerCache) (h : Hand D T) (gd : GameData D T)
        → kind.build_hand_and_game_data tf c ≡ ok (tf', c', (h, gd))
        → WinnersAct h
    pub starts : (s : Bytes) (gd : GameData D T) (g : G) → kind.new_game s gd ≡ ok g → hands g ≡ []
    pub adds : (g : G) (h : Hand D T) → hands (kind.add g h) ≡ hands g ++ (h ∷ [])

  unfoldable pub AllAct : G → Type 0
  AllAct g = All WinnersAct (hands g)

  unfoldable pub Acting : Option G → Type 0
  Acting none = Unit
  Acting (some g) = AllAct g

  module _ (sound : Sound) where
    add-AllAct : (g : G) (h : Hand D T) → AllAct g → WinnersAct h → AllAct (kind.add g h)
    unfolding AllAct
    add-AllAct g h v w =
        subst (All WinnersAct) (sym (sound.adds g h))
          (All-append WinnersAct (hands g) (h ∷ []) v (w, tt))

    create_step-AllAct :
        (stem : Bytes) (values : FileStem) (tf tf' : TextFile) (c c' : PlayerCache) (ret : Option G)
        (g : G)
        → Acting ret
        → create_step kind stem values tf c ret ≡ ok (tf', c', g)
        → AllAct g
    unfolding create_step Acting fill_from_file_name
    create_step-AllAct stem values tf tf' c c' none g v e =
        elim (Result-cases (kind.build_hand_and_game_data tf c)) [
          | inr (x, p) ↦ ground (arith, p)
          | inl ((tf1, c1, (h, gd)), p) ↦
              elim (Result-cases (kind.new_game stem (fill_from_file_name values gd))) [
                | inr (x, q) ↦ ground (arith, p, q)
                | inl (g1, q) ↦
                    let s : kind.add g1 h ≡ g = ground (arith, p, q) in
                    let z : AllAct g1 =
                      unfold AllAct in subst (All WinnersAct) (sym (sound.starts _ _ g1 q)) tt in
                    subst AllAct s (add-AllAct g1 h z (sound.builds_first tf tf1 c c1 h gd p))
              ]
        ]
    create_step-AllAct stem values tf tf' c c' (some g1) g v e =
        elim (Result-cases (kind.build_hand tf c)) [
          | inr (x, p) ↦ ground (arith, p)
          | inl ((tf1, c1, h), p) ↦
              let s : kind.add g1 h ≡ g = ground (arith, p) in
              subst AllAct s (add-AllAct g1 h v (sound.builds tf tf1 c c1 h p))
        ]

    create_loop-Acting :
        (fuel : ℕ) (stem : Bytes) (values : FileStem) (tf : TextFile) (c c' : PlayerCache)
        (ret o : Option G)
        → Acting ret
        → create_loop kind fuel stem values tf c ret ≡ ok (c', o)
        → Acting o
    unfolding create_loop Acting
    create_loop-Acting zero stem values tf c c' ret o v e = cc
    create_loop-Acting (suc fuel) stem values tf c c' ret o v e = elim (Bool-cases (next tf).1) [
      | inr n ↦
          let e' : ok (c, ret) ≡ ok (c', o) = rw (n, create_loop) at e in
          let s : ret ≡ o = ground (arith, e') in subst Acting s v
      | inl n ↦ elim (Result-cases (create_step kind stem values (next tf).0 c ret)) [
        | inr (x, p) ↦ ground (arith, rw (n, create_loop) at e, p)
        | inl ((tf1, c1, g), p) ↦
            create_loop-Acting fuel stem values tf1 c1 c' (some g) o
              (create_step-AllAct stem values (next tf).0 tf1 c c1 ret g v p)
              (ground (arith, rw (n, create_loop) at e, p))
      ]
    ]

    pub create_game-Acting :
        (fuel : ℕ) (stem content : Bytes) (c c' : PlayerCache) (o : Option G)
        → create_game kind fuel stem content c ≡ ok (c', o)
        → Acting o
    unfolding create_game
    create_game-Acting fuel stem content c c' o e = elim (Result-cases (parse_file_stem stem)) [
      | inr (x, p) ↦ ground (arith, p)
      | inl (none, p) ↦ let q : none ≡ o = ground (arith, p) in subst Acting q (unfold Acting in tt)
      | inl (some values, p) ↦
          create_loop-Acting fuel stem values (open_file content) c c' none o (unfold Acting in tt)
            (ground (arith, p))
    ]
