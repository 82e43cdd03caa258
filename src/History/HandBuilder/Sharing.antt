-- ===== src/History/HandBuilder/Sharing.antt =====
-- The builders of a hand (history/WinamaxHandBuilder.cpp) on their own player cache and on one in which
-- others have added players: where they return on the first, they return the same hand on the second.
use phud.Prelude.{
  ℕ, inl, inr, Bool, true, false, List, [], ◌∷◌, Bytes, codes, is_empty, if◌then◌else◌, Bool-cases,
}
use phud.Prelude.Words.{ℤ, pos}
use phud.Prelude.Result.{Result, ok, Build}
use phud.Strings.Floats.{Doubles}
use phud.System.Times.{Times}
use phud.Text.{starts_with, find_from, substr}
use phud.Prelude.Words.{sub64}
use phud.TextFile.{TextFile}
use phud.Entities.Hand.{GameType, cash_game, tournament, new_hand}
use phud.Threads.PlayerCache.{PlayerCache, add_if_missing}
use phud.Threads.PlayerCache.Sharing.{
  Follows, same, Follows-bind, Follows-step, Near, add_if_missing-Near, set_hero-Near,
}
use phud.History.Fields.{parse_seats}
use phud.History.HandBuilder.PokerLine.{
  parse_start_of_line, level_date_hand_id, buy_in_level_date_hand_id, blinds_date_hand_id,
}
use phud.History.HandBuilder.Table.{
  table_line, add_seats, parse_ante, hero_line, parse_hero_cards, parse_cards,
}
use phud.History.HandBuilder.{
  HandHead, parse_head, parse_tail, hand_of, get_hand, build_cashgame_hand, build_tournament_hand,
  build_cashgame_hand_and_game_data, build_tournament_hand_and_game_data,
}

-- The same but for the cache.
pub data Alike (s : PlayerCache) {X A : Type 0}
    : X × PlayerCache × A → X × PlayerCache × A → Type 0 where
  alike : {x : X} {c d : PlayerCache} {a : A} → Near s c d → Alike s (x, c, a) (x, d, a)

data AlikeHead (s : PlayerCache) : HandHead → HandHead → Type 0 where
  alike_head :
      {h : HandHead} {d : PlayerCache} → Near s h.cache d → AlikeHead s h (record h { cache = d })

-- What both runs do next.
pub after_Alike :
    {s : PlayerCache} {X A : Type 0} {V W : Type 0} {S : V → W → Type 0}
    (f : X × PlayerCache × A → Result V) (g : X × PlayerCache × A → Result W)
    → ((x : X) (c d : PlayerCache) (a : A) → Near s c d → Follows S (f (x, c, a)) (g (x, d, a)))
    → (v w : X × PlayerCache × A) → Alike s v w
    → Follows S (f v) (g w)
after_Alike f g h v w (alike {x} {c} {d} {a} n) = h x c d a n

after_AlikeHead :
    {s : PlayerCache} {V W : Type 0} {S : V → W → Type 0} (f : HandHead → Result V)
    (g : HandHead → Result W)
    → ((h : HandHead) (d : PlayerCache)
        → Near s h.cache d
        → Follows S (f h) (g (record h { cache = d })))
    → (v w : HandHead) → AlikeHead s v w
    → Follows S (f v) (g w)
after_AlikeHead f g k v w (alike_head {h} {d} n) = k h d n

module _ (b : Build) (s : PlayerCache) where
  add_seats-Near :
      (seats : List Bytes) (c d : PlayerCache)
      → Near s c d
      → Follows (Near s) (add_seats b c seats) (add_seats b d seats)
  unfolding add_seats
  add_seats-Near [] c d v = same v
  add_seats-Near (p ∷ seats) c d v =
      Follows-bind (seat (is_empty p)) (λ c' d' w. add_seats-Near seats c' d' w)
    where
      seat :
          (e : Bool)
          → Follows
              (Near s)
              (if e then ok c else add_if_missing b c p)
              (if e then ok d else add_if_missing b d p)
      seat true = same v
      seat false = add_if_missing-Near b s c d p v

  parse_hero_cards-Alike :
      (tf : TextFile) (c d : PlayerCache)
      → Near s c d
      → Follows (Alike s) (parse_hero_cards b tf c) (parse_hero_cards b tf d)
  unfolding parse_hero_cards hero_line
  parse_hero_cards-Alike tf c d v = elim (Bool-cases (starts_with tf.line (codes "Dealt to "))) [
    | inr e ↦ rw e (same (alike v))
    | inl e ↦ rw e (
        Follows-step (substr tf.line 9 (sub64 (find_from tf.line (codes " ") 9) 9)) (λ name.
          Follows-bind (set_hero-Near b s c d name v)
            (λ c' d' w. Follows-step (parse_cards tf.line) (λ cards. same (alike w)))))
  ]

module _ (fp : Doubles) (ts : Times) (b : Build) (fuel : ℕ) (s : PlayerCache) where
  parse_head-AlikeHead :
      (tf : TextFile) (c d : PlayerCache)
      → Near s c d
      → Follows (AlikeHead s) (parse_head fp ts b fuel tf c) (parse_head fp ts b fuel tf d)
  unfolding parse_head
  parse_head-AlikeHead tf c d v = Follows-step (table_line b tf) (λ t.
      Follows-step (parse_seats fuel t.0) (λ r.
        Follows-bind (add_seats-Near b s r.1 c d v) (λ c' d' w.
          Follows-step (parse_ante fuel r.0) (λ a.
            Follows-bind (parse_hero_cards-Alike b s a.0 c' d' w)
              (after_Alike _ _ (λ x c' d' cards n. same (alike_head n)))))))

  get_hand-Alike :
      (g : GameType) (tf : TextFile) (c d : PlayerCache) (level : ℤ) (date : ts.Time) (id : Bytes)
      → Near s c d
      → Follows
          (Alike s)
          (get_hand fp ts b fuel g tf c level date id)
          (get_hand fp ts b fuel g tf d level date id)
  unfolding get_hand hand_of
  get_hand-Alike g tf c d level date id v = Follows-bind (parse_head-AlikeHead tf c d v) (
      after_AlikeHead _ _ (λ h d' n. Follows-step (parse_tail fp ts b fuel h.reader id) (λ tail.
        Follows-step (new_hand b (hand_of fp ts b fuel g level date id h tail))
          (λ hand. same (alike n)))))

  pub build_cashgame_hand-Alike :
      (tf : TextFile) (c d : PlayerCache)
      → Near s c d
      → Follows
          (Alike s)
          (build_cashgame_hand fp ts b fuel tf c)
          (build_cashgame_hand fp ts b fuel tf d)
  unfolding build_cashgame_hand
  build_cashgame_hand-Alike tf c d v =
      Follows-step (parse_start_of_line ts tf.line)
        (λ l. get_hand-Alike cash_game tf c d (pos 0) l.hand_start_date l.hand_id v)

  pub build_tournament_hand-Alike :
      (tf : TextFile) (c d : PlayerCache)
      → Near s c d
      → Follows
          (Alike s)
          (build_tournament_hand fp ts b fuel tf c)
          (build_tournament_hand fp ts b fuel tf d)
  unfolding build_tournament_hand
  build_tournament_hand-Alike tf c d v =
      Follows-step (level_date_hand_id ts tf.line)
        (λ l. get_hand-Alike tournament tf c d l.level l.date l.hand_id v)

  pub build_cashgame_hand_and_game_data-Alike :
      (tf : TextFile) (c d : PlayerCache)
      → Near s c d
      → Follows
          (Alike s)
          (build_cashgame_hand_and_game_data fp ts b fuel tf c)
          (build_cashgame_hand_and_game_data fp ts b fuel tf d)
  unfolding build_cashgame_hand_and_game_data
  build_cashgame_hand_and_game_data-Alike tf c d v =
      Follows-step (blinds_date_hand_id ts fp tf.line) (λ l.
        Follows-bind (get_hand-Alike cash_game tf c d (pos 0) l.date l.hand_id v)
          (after_Alike _ _ (λ tf' c' d' hand n. same (alike n))))

  pub build_tournament_hand_and_game_data-Alike :
      (tf : TextFile) (c d : PlayerCache)
      → Near s c d
      → Follows
          (Alike s)
          (build_tournament_hand_and_game_data fp ts b fuel tf c)
          (build_tournament_hand_and_game_data fp ts b fuel tf d)
  unfolding build_tournament_hand_and_game_data
  build_tournament_hand_and_game_data-Alike tf c d v =
      Follows-step (buy_in_level_date_hand_id ts fp tf.line) (λ l.
        Follows-bind (get_hand-Alike tournament tf c d l.level l.date l.hand_id v)
          (after_Alike _ _ (λ tf' c' d' hand n. same (alike n))))
