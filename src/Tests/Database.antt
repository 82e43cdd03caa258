-- ===== src/Tests/Database.antt =====
-- The statements of the database at concrete values.
use phud.Prelude.{◌≡◌, refl, true, false, [], ◌∷◌, ◌++◌, map, Bytes, codes, arith}
use phud.Prelude.Result.{ok, ◌>>=◌, debug, release}
use phud.Text.{find?, contains, rfind, rfind?, substr}
use phud.Entities.Player.{Player}
use phud.Db.Insertor.{
  SqlInsertor, new_insertor, new_insert, build, player_name, site_name, is_hero, comments,
}
use phud.Db.Insertor.Rows.{
  Row, Fills, filled, put, AllFill, no_rows, more, fill_rows, fill_rows-build, in_brackets,
  template_of,
}
use phud.Db.Saving.{save_players}
use phud.Db.Saving.Players.{save_players-values, player_values, start, lacks}

abbrev one : Bytes
one = codes "1"

abbrev row : Bytes → Row
row v = (codes "?a", v) ∷ []

abbrev model : Bytes
model = codes "?a, 0"

one_row : (v : Bytes) → Fills (row v) model (v ++ codes ", 0")
one_row v = put [] (codes "?a") v (codes ", 0") tt filled

two_rows : AllFill model (row one ∷ row (codes "2") ∷ []) (codes "1, 0" ∷ codes "2, 0" ∷ [])
two_rows = more (one_row one) (more (one_row (codes "2")) no_rows)

has_mark : contains (template_of (codes "INSERT ") model (codes ";")) (codes "?") ≡ true
unfolding contains find?
has_mark = refl

fill_rows-build_example :
    (s : SqlInsertor) × (new_insertor debug (template_of (codes "INSERT ") model (codes ";"))
        >>= fill_rows debug (row one ∷ row (codes "2") ∷ [])
        >>= build
      ≡ ok (s, codes "INSERT " ++ (in_brackets (codes "1, 0") (codes "2, 0" ∷ []) ++ codes ";")))
fill_rows-build_example =
    fill_rows-build debug (codes "INSERT ") model (codes ";") (row one) (row (codes "2") ∷ [])
      (codes "1, 0") (codes "2, 0" ∷ []) (lacks 40 (model ++ codes ");") refl)
      (lacks 41 (codes ";") refl) has_mark (omega arith) two_rows

abbrev named : Bytes → Player
named s = record { name = s; site = codes "Winamax"; comments = []; is_hero = false }

save_players-values_example :
    save_players release (named (codes "Al") ∷ named (codes "Bo") ∷ [])
    ≡ ok (
        (start
          ++ (in_brackets
                (player_values (named (codes "Al")))
                (map player_values (named (codes "Bo") ∷ []))
              ++ codes ";"))
        ∷ [])
save_players-values_example =
    save_players-values release (named (codes "Al")) (named (codes "Bo") ∷ []) (
      (lacks 63 (codes "Al") refl, lacks 63 (codes "Winamax") refl, tt),
      ((lacks 63 (codes "Bo") refl, lacks 63 (codes "Winamax") refl, tt), tt),
    )

-- A name that is a place holder takes the value that another one should have had.
name_taken :
    save_players release (named (codes "?siteName") ∷ [])
    ≡ ok ((start ++ codes "('Winamax', '?siteName', 0, '');") ∷ [])
unfolding save_players find? rfind? rfind contains substr new_insertor player_name site_name is_hero
    comments build new_insert
name_taken = refl
