-- ===== src/Db/Saving/Players.antt =====
-- The statement that saves players.
use phud.Prelude.{
  ◌==◌, ◌||◌, ℕ, ◌≡◌, ◌≢◌, refl, Bool, ap, ◌∙◌, subst, true, false, List, [], ◌∷◌, ◌++◌,
  append_assoc, map, Bytes, codes, arith, All,
}
use phud.Prelude.Result.{Result, ok, err, ◌>>=◌, Build}
use phud.Text.{find?, contains}
use phud.Text.Search.{NotBefore-lacks}
use phud.Entities.Player.{Player}
use phud.Db.Insertor.{
  SqlInsertor, new_insertor, new_insert, build, player_name, site_name, is_hero, comments,
  bool_to_string,
}
use phud.Db.Insertor.Rows.{
  Row, Fills, filled, put, AllFill, no_rows, more, fill_row, fill_rows, fill_rows-build,
  in_brackets,
}
use phud.Db.Templates.{insert_player}
use phud.Db.Saving.{statement, save_players, insert_players}

abbrev question_mark : ℕ
question_mark = 63

-- A part of a row: the text before a place holder, the place holder behind its question mark, and the
-- text that takes its place.
abbrev Part : Type 0
Part = Bytes × Bytes × Bytes

abbrev model_of : List Part → Bytes → Bytes
model_of [] last = last
model_of ((before, name, text) ∷ parts) last =
    before ++ ((question_mark ∷ name) ++ model_of parts last)

abbrev filled_of : List Part → Bytes → Bytes
filled_of [] last = last
filled_of ((before, name, text) ∷ parts) last = before ++ (text ++ filled_of parts last)

abbrev row_of : List Part → Row
row_of [] = []
row_of ((before, name, text) ∷ parts) = ((question_mark ∷ name), text) ∷ row_of parts

abbrev pub Lacks : Bytes → Type 0
Lacks = All (λ c. c ≢ question_mark)

abbrev AllLack : List Part → Type 0
AllLack [] = Unit
AllLack ((before, name, text) ∷ parts) = Lacks before × Lacks text × AllLack parts

Lacks-append : (s t : Bytes) → Lacks s → Lacks t → Lacks (s ++ t)
Lacks-append [] t h k = k
Lacks-append (c ∷ s) t h k = (h.0, Lacks-append s t h.1 k)

Fills-parts :
    (start : Bytes) (parts : List Part) (last : Bytes)
    → Lacks start
    → AllLack parts
    → Fills (row_of parts) (start ++ model_of parts last) (start ++ filled_of parts last)
Fills-parts start [] last s h = filled
Fills-parts start ((before, name, text) ∷ parts) last s (x, y, h) =
    let behind = model_of parts last in
    let result = filled_of parts last in
    let k = Lacks-append start before s x in
    let l = Lacks-append (start ++ before) text k y in
    let e : ((start ++ before) ++ text) ++ result ≡ start ++ (before ++ (text ++ result)) =
      simp append_assoc in
    let rest =
      subst (λ u. Fills (row_of parts) (((start ++ before) ++ text) ++ behind) u) e
        (Fills-parts ((start ++ before) ++ text) parts last l h) in
    let rest' =
      subst (λ u. Fills (row_of parts) u (start ++ (before ++ (text ++ result))))
        (append_assoc (start ++ before) text behind) rest in
    subst
      (λ u. Fills (row_of ((before, name, text) ∷ parts)) u (start ++ (before ++ (text ++ result))))
      (append_assoc start before ((question_mark ∷ name) ++ behind))
      (put (start ++ before) (question_mark ∷ name) text behind
        (NotBefore-lacks (start ++ before) ((question_mark ∷ name) ++ behind) name question_mark k)
        rest')

-- The parts of a player's row.
abbrev parts_of : Player → List Part
parts_of p =
    (codes "'", codes "playerName", p.name)
    ∷ (codes "', '", codes "siteName", p.site)
    ∷ (codes "', ", codes "isHero", bool_to_string p.is_hero)
    ∷ (codes ", '", codes "comments", p.comments)
    ∷ []

-- The values of a player, as they stand in the statement.
abbrev pub player_values : Player → Bytes
player_values p =
    codes "'"
    ++ (p.name
        ++ (codes "', '"
            ++ (p.site
                ++ (codes "', "
                    ++ (bool_to_string p.is_hero ++ (codes ", '" ++ (p.comments ++ codes "'")))))))

-- No text of the player holds a question mark.
abbrev pub IsPlain : Player → Type 0
IsPlain p = Lacks p.name × Lacks p.site × Lacks p.comments

Lacks-bool_to_string : (p : Player) → Lacks (bool_to_string p.is_hero)
Lacks-bool_to_string p = elim p.is_hero as (λ h. Lacks (bool_to_string h)) [
  | true ↦ ((λ e. absurd (omega (arith, e))), tt)
  | false ↦ ((λ e. absurd (omega (arith, e))), tt)
]

-- The values that the template of a player asks for, between its start and its end.
abbrev value_model : Bytes
value_model = codes "'?playerName', '?siteName', ?isHero, '?comments'"

abbrev pub start : Bytes
start = codes "\nINSERT OR IGNORE INTO Player (playerName, siteName, isHero, comments)\nVALUES "

-- Texts of which it is computed that they lack a character.
abbrev pub has : ℕ → Bytes → Bool
has c [] = false
has c (d ∷ s) = d == c || has c s

pub lacks : (c : ℕ) (s : Bytes) → has c s ≡ false → All (λ d. d ≢ c) s
lacks c [] h = tt
lacks c (d ∷ s) h = ((λ e. absurd (ground (arith, h, e))), lacks c s (ground (arith, h)))

Fills-player : (p : Player) → IsPlain p → Fills (row_of (parts_of p)) value_model (player_values p)
Fills-player p (n, s, c) = Fills-parts [] (parts_of p) (codes "'") tt (
    (
      lacks question_mark (codes "'") refl,
      n,
      (
        lacks question_mark (codes "', '") refl,
        s,
        (
          lacks question_mark (codes "', ") refl,
          Lacks-bool_to_string p,
          (lacks question_mark (codes ", '") refl, c, tt),
        ),
      ),
    ))

AllFill-players :
    (players : List Player)
    → All IsPlain players
    → AllFill value_model (map (λ p. row_of (parts_of p)) players) (map player_values players)
AllFill-players [] h = no_rows
AllFill-players (p ∷ players) h = more (Fills-player p h.0) (AllFill-players players h.1)

-- The setters of a row, one after the other, are the calls of fill_row.
module _ {S : Type 0} where
  chain1 : (r : Result S) (k : S → Result S) → r >>= k ≡ (r >>= λ s. ok s) >>= k
  chain1 (ok s) k = refl
  chain1 (err e) k = refl

  chain2 :
      (r : Result S) (h k : S → Result S) → r >>= h >>= k ≡ (r >>= λ s. h s >>= λ t. ok t) >>= k
  chain2 (ok s) h k = chain1 (h s) k
  chain2 (err e) h k = refl

  chain3 :
      (r : Result S) (g h k : S → Result S)
      → r >>= g >>= h >>= k ≡ (r >>= λ s. g s >>= λ t. h t >>= λ u. ok u) >>= k
  chain3 (ok s) g h k = chain2 (g s) h k
  chain3 (err e) g h k = refl

  chain4 :
      (r : Result S) (f g h k : S → Result S)
      → r >>= f >>= g >>= h >>= k ≡ (r >>= λ s. f s >>= λ t. g t >>= λ u. h u >>= λ v. ok v) >>= k
  chain4 (ok s) f g h k = chain3 (f s) g h k
  chain4 (err e) f g h k = refl

  >>=-ext : (r : Result S) {f g : S → Result S} → ((s : S) → f s ≡ g s) → r >>= f ≡ r >>= g
  >>=-ext (ok s) h = h s
  >>=-ext (err e) h = refl

insert_players-fill_rows :
    (b : Build) (players : List Player) (s : SqlInsertor)
    → insert_players b players s ≡ fill_rows b (map (λ p. row_of (parts_of p)) players) s
unfolding insert_players fill_rows fill_row player_name site_name is_hero comments
insert_players-fill_rows b [] s = refl
insert_players-fill_rows b (p ∷ players) s =
    chain4 (player_name b p.name s) (site_name b p.site) (is_hero b p.is_hero)
      (comments b p.comments) (λ t. insert_players b players (new_insert t))
    ∙ >>=-ext (fill_row b (row_of (parts_of p)) s)
        (λ t. insert_players-fill_rows b players (new_insert t))

-- The end of a saving with one statement.
sent_one :
    (r : Result (SqlInsertor × Bytes))
    → (r >>= λ p. ok p.1) >>= (λ sql. ok (sql ∷ [])) ≡ r >>= λ p. ok (p.1 ∷ [])
sent_one (ok p) = refl
sent_one (err e) = refl

sent_filled :
    (r : Result SqlInsertor)
    → r >>= (λ filled. statement filled >>= λ sql. ok (sql ∷ []))
      ≡ r >>= build >>= λ p. ok (p.1 ∷ [])
sent_filled (ok s) = sent_one (build s)
sent_filled (err e) = refl

sent :
    (r : Result SqlInsertor) (fill : SqlInsertor → Result SqlInsertor)
    → r >>= (λ query. fill query >>= λ filled. statement filled >>= λ sql. ok (sql ∷ []))
      ≡ r >>= fill >>= build >>= λ p. ok (p.1 ∷ [])
sent (ok s) fill = sent_filled (fill s)
sent (err e) fill = refl

found_mark : contains insert_player (codes "?") ≡ true
unfolding contains find?
found_mark = refl

-- Saving one player or more builds one statement, in either build: the start of the template, and
-- the values of the players between brackets, in their order, with commas between them and a
-- semicolon behind, if no text of a player holds a question mark.
pub save_players-values :
    (b : Build) (p : Player) (players : List Player)
    → All IsPlain (p ∷ players)
    → save_players b (p ∷ players)
      ≡ ok
          ((start ++ (in_brackets (player_values p) (map player_values players) ++ codes ";")) ∷ [])
unfolding save_players
save_players-values b p players h =
    let behind = codes ";\n" in
    let (s, e) =
      fill_rows-build b start value_model behind _ _ _ _
        (lacks 40 (value_model ++ (codes ")" ++ behind)) refl) (lacks 41 behind refl) found_mark
        (omega arith) (AllFill-players (p ∷ players) h) in
    sent (new_insertor b insert_player) (insert_players b (p ∷ players))
    ∙ (ap (λ r. r >>= build >>= λ t. ok (t.1 ∷ []))
          (>>=-ext (new_insertor b insert_player) (insert_players-fill_rows b (p ∷ players)))
        ∙ ap (λ r. r >>= λ t. ok (t.1 ∷ [])) e)
