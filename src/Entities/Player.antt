-- ===== src/Entities/Player.antt =====
-- entities/Player.hpp and Player.cpp.
use phud.Prelude.{Bytes, Bool, false, not, is_empty}
use phud.Prelude.Result.{Result, ok, ◌>>◌, Build, require}

pub record Player : Type 0 where
  pub name : Bytes
  pub site : Bytes
  pub comments : Bytes
  pub is_hero : Bool

-- Player::Player
unfoldable pub new_player : Build → Bytes → Bytes → Bytes → Result Player
new_player b name site comments = do
  require b (not (is_empty name))
  require b (not (is_empty site))
  ok (record { name = name; site = site; comments = comments; is_hero = false })

-- Player::setIsHero
abbrev pub set_is_hero : Player → Bool → Player
set_is_hero p h = record p { is_hero = h }
