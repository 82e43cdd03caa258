-- ===== src/Db/Insertor/Rows.antt =====
-- The statement that an insertor builds from several rows.
use phud.Prelude.{
  ℕ, ◌^◌, ◌<◌, ◌≡◌, ◌≢◌, refl, sym, ap, ◌∙◌, inl, inr, true, none, some, List, [], ◌∷◌, ◌++◌,
  append_assoc, append-nil, Bytes, codes, length, arith, All, Option-cases, take-append,
  drop-append, length-append,
}
use phud.Prelude.Result.{Result, ok, ◌>>=◌, Build, debug, release}
use phud.Prelude.Words.{add64, sub64}
use phud.Text.{find?, rfind?, rfind, substr, contains}
use phud.Text.Search.{NotBefore, find?-found, substr-append}
use phud.Strings.{replace_at}
use phud.Strings.Replace.{found_inside}
use phud.Db.Insertor.{
  SqlInsertor, new_insertor, is_ok, replace_in_values, new_insert, build, last, without_last,
}

-- The values of a row, by their place holders, in the order of the setters' calls.
abbrev pub Row : Type 0
Row = List (Bytes × Bytes)

-- The calls of the setters for one row, and for several rows with a newInsert behind each.
unfoldable pub fill_row : Build → Row → SqlInsertor → Result SqlInsertor
fill_row b [] s = ok s
fill_row b ((place_holder, text) ∷ row) s =
    replace_in_values b place_holder (ok text) s >>= fill_row b row

unfoldable pub fill_rows : Build → List Row → SqlInsertor → Result SqlInsertor
unfolding fill_row
fill_rows b [] s = ok s
fill_rows b (row ∷ rows) s = fill_row b row s >>= λ filled. fill_rows b rows (new_insert filled)

-- A row's texts stand in the model, each in the first place of its place holder.
pub data Fills : Row → Bytes → Bytes → Type 0 where
  filled : {s : Bytes} → Fills [] s s
  put :
      {row : Row} {result : Bytes} (before place_holder text behind : Bytes)
      → NotBefore (before ++ (place_holder ++ behind)) place_holder (length before)
      → Fills row (before ++ (text ++ behind)) result
      → Fills ((place_holder, text) ∷ row) (before ++ (place_holder ++ behind)) result

pub data AllFill (model : Bytes) : List Row → List Bytes → Type 0 where
  no_rows : AllFill model [] []
  more :
      {row : Row} {v : Bytes} {rows : List Row} {vs : List Bytes}
      → Fills row model v
      → AllFill model rows vs
      → AllFill model (row ∷ rows) (v ∷ vs)

-- Rows between brackets, with commas between them.
abbrev pub in_brackets : Bytes → List Bytes → Bytes
in_brackets v [] = codes "(" ++ (v ++ codes ")")
in_brackets v (w ∷ vs) = codes "(" ++ (v ++ (codes ")," ++ in_brackets w vs))

abbrev joined : List Bytes → Bytes
joined [] = []
joined (v ∷ vs) = (codes "(" ++ (v ++ codes "),")) ++ joined vs

abbrev insertor : Bytes → Bytes → Bytes → SqlInsertor
insertor q model v = record { query = q; value_model = model; values = v }

replace_at-append :
    (a p r v : Bytes) → replace_at (a ++ (p ++ r)) (length a) (length p) v ≡ a ++ (v ++ r)
replace_at-append a p r v = rw (take-append a (p ++ r), drop-append a (p ++ r), drop-append p r)

fill_row-Fills :
    (b : Build) (q model : Bytes) {row : Row} {s v : Bytes}
    → Fills row s v
    → fill_row b row (insertor q model s) ≡ ok (insertor q model v)
unfolding fill_row replace_in_values
fill_row-Fills b q model filled = refl
fill_row-Fills debug q model (put a p t r n f) =
    rw (find?-found a p r n, replace_at-append a p r t) (fill_row-Fills debug q model f)
fill_row-Fills release q model (put a p t r n f) =
    rw (find?-found a p r n, replace_at-append a p r t) (fill_row-Fills release q model f)

fill_rows-AllFill :
    (b : Build) (model q : Bytes) {rows : List Row} {vs : List Bytes}
    → AllFill model rows vs
    → fill_rows b rows (insertor q model model) ≡ ok (insertor (q ++ joined vs) model model)
unfolding fill_rows new_insert
fill_rows-AllFill b model q no_rows = ap (λ u. ok (insertor u model model)) (sym (append-nil q))
fill_rows-AllFill b model q (more {row} {v} {rows} {vs} f fs) = rw (fill_row-Fills b q model f) (
    fill_rows-AllFill b model (q ++ (codes "(" ++ (v ++ codes "),"))) fs
    ∙ ap (λ u. ok (insertor u model model))
        (append_assoc q (codes "(" ++ (v ++ codes "),")) (joined vs)))

last-append : (s : Bytes) (c : ℕ) → last (s ++ (c ∷ [])) ≡ some c
unfolding last
last-append [] c = refl
last-append (d ∷ []) c = refl
last-append (d ∷ e ∷ s) c = last-append (e ∷ s) c

without_last-append : (s : Bytes) (c : ℕ) → without_last (s ++ (c ∷ [])) ≡ s
unfolding without_last
without_last-append [] c = refl
without_last-append (d ∷ []) c = refl
without_last-append (d ∷ e ∷ s) c = ap (◌∷◌ d) (without_last-append (e ∷ s) c)

joined-in_brackets : (v : Bytes) (vs : List Bytes) → joined (v ∷ vs) ≡ in_brackets v vs ++ codes ","
joined-in_brackets v [] = simp (append_assoc, append-nil)
joined-in_brackets v (w ∷ vs) =
    ap (λ u. (codes "(" ++ (v ++ codes "),")) ++ u) (joined-in_brackets w vs) ∙ simp append_assoc

rfind?-none : (s : Bytes) (c : ℕ) → All (λ d. d ≢ c) s → rfind? s (c ∷ []) ≡ none
unfolding rfind?
rfind?-none [] c h = refl
rfind?-none (d ∷ s) c h = ground (arith, rfind?-none s c h.1)

rfind?-last :
    (s r : Bytes) (c : ℕ) → All (λ d. d ≢ c) r → rfind? (s ++ (c ∷ r)) (c ∷ []) ≡ some (length s)
unfolding rfind?
rfind?-last [] r c h = rw (rfind?-none r c h) (ground arith)
rfind?-last (d ∷ s) r c h = rw (rfind?-last s r c h)

contains-inside : (a p r : Bytes) → contains (a ++ (p ++ r)) p ≡ true
unfolding contains
contains-inside a p r = elim (Option-cases (find? (a ++ (p ++ r)) p)) [
  | inl e ↦ absurd (found_inside a p r e)
  | inr (i, e) ↦ rw e refl
]

-- A template: its start, the model of a row between the last brackets, and what follows them.
abbrev pub template_of : Bytes → Bytes → Bytes → Bytes
template_of start model behind = start ++ (codes "(" ++ (model ++ (codes ")" ++ behind)))

rfind-open :
    (start model behind : Bytes)
    → All (λ c. c ≢ 40) (model ++ (codes ")" ++ behind))
    → rfind (template_of start model behind) (codes "(") ≡ length start
unfolding rfind
rfind-open start model behind h = rw (rfind?-last start (model ++ (codes ")" ++ behind)) 40 h) refl

rfind-close :
    (start model behind : Bytes)
    → All (λ c. c ≢ 41) behind
    → rfind (template_of start model behind) (codes ")") ≡ length (start ++ (codes "(" ++ model))
unfolding rfind
rfind-close start model behind h =
    let e : template_of start model behind ≡ (start ++ (codes "(" ++ model)) ++ (41 ∷ behind) =
      simp append_assoc in
    rw (e, rfind?-last (start ++ (codes "(" ++ model)) behind 41 h) refl

substr-model :
    (start model behind : Bytes) (i j : ℕ)
    → i ≡ length start
    → j ≡ length (start ++ (codes "(" ++ model))
    → length (template_of start model behind) < 2 ^ 64
    → substr (template_of start model behind) (add64 i 1) (sub64 (sub64 j i) 1) ≡ ok model
substr-model start model behind i j hi hj l =
    let s1 = start ++ codes "(" in
    let rest = model ++ (codes ")" ++ behind) in
    let n = length-append start (codes "(") in
    let m = length-append start (codes "(" ++ model) in
    let k = length-append start (codes "(" ++ rest) in
    let o = length-append model (codes ")" ++ behind) in
    let p : add64 i 1 ≡ length s1 = omega (arith, hi, n, k, o, l) in
    let c : sub64 (sub64 j i) 1 ≡ length model = omega (arith, hi, hj, m, k, o, l) in
    let e : template_of start model behind ≡ s1 ++ rest = simp append_assoc in
    rw (p, c, e) (substr-append s1 model (codes ")" ++ behind))

new_insertor-template :
    (b : Build) (start model behind : Bytes)
    → All (λ c. c ≢ 40) (model ++ (codes ")" ++ behind))
    → All (λ c. c ≢ 41) behind
    → contains (template_of start model behind) (codes "?") ≡ true
    → length (template_of start model behind) < 2 ^ 64
    → new_insertor b (template_of start model behind) ≡ ok (insertor start model model)
unfolding new_insertor is_ok
new_insertor-template b start model behind ho hc q l =
    let t = template_of start model behind in
    let o : contains t (codes "(") ≡ true =
      contains-inside start (codes "(") (model ++ (codes ")" ++ behind)) in
    let e : t ≡ (start ++ (codes "(" ++ model)) ++ (codes ")" ++ behind) = simp append_assoc in
    let c : contains t (codes ")") ≡ true =
      ap (λ u. contains u (codes ")")) e
      ∙ contains-inside (start ++ (codes "(" ++ model)) (codes ")") behind in
    let first : substr t 0 (rfind t (codes "(")) ≡ ok start =
      rw (rfind-open start model behind ho) (substr-append [] start _) in
    let second =
      substr-model start model behind _ _ (rfind-open start model behind ho)
        (rfind-close start model behind hc) l in
    elim b as (λ k. new_insertor k t ≡ ok (insertor start model model)) [
      | debug ↦ rw (o, c, q, first, second) refl
      | release ↦ rw (first, second) refl
    ]

build_comma :
    (q model : Bytes)
    → build (insertor (q ++ codes ",") model model)
      ≡ ok (insertor (q ++ codes ";") model model, q ++ codes ";")
unfolding build
build_comma q model = rw (last-append q 44, build, without_last-append q 44) refl

build-joined :
    (start model v : Bytes) (vs : List Bytes)
    → let q = start ++ (in_brackets v vs ++ codes ";") in
      build (insertor (start ++ joined (v ∷ vs)) model model) ≡ ok (insertor q model model, q)
build-joined start model v vs =
    let e : start ++ joined (v ∷ vs) ≡ (start ++ in_brackets v vs) ++ codes "," =
      ap (λ u. start ++ u) (joined-in_brackets v vs)
      ∙ sym (append_assoc start (in_brackets v vs) (codes ",")) in
    ap (λ u. build (insertor u model model)) e
    ∙ (build_comma (start ++ in_brackets v vs) model
        ∙ ap (λ u. ok (insertor u model model, u))
            (append_assoc start (in_brackets v vs) (codes ";")))

-- An insertor of a template that ends with the model of a row between brackets, filled with the
-- texts of one row or more with a newInsert behind each, builds in either build the start of the
-- template and the filled rows between brackets with commas between them, if each text takes the
-- first place of its place holder, the brackets stand nowhere else behind, the template holds a
-- question mark, and it is shorter than 2^64.
pub fill_rows-build :
    (b : Build) (start model behind : Bytes) (row : Row) (rows : List Row) (v : Bytes)
    (vs : List Bytes)
    → All (λ c. c ≢ 40) (model ++ (codes ")" ++ behind))
    → All (λ c. c ≢ 41) behind
    → contains (template_of start model behind) (codes "?") ≡ true
    → length (template_of start model behind) < 2 ^ 64
    → AllFill model (row ∷ rows) (v ∷ vs)
    → (s : SqlInsertor) × ((new_insertor b (template_of start model behind)
          >>= fill_rows b (row ∷ rows)
          >>= build)
        ≡ ok (s, start ++ (in_brackets v vs ++ codes ";")))
fill_rows-build b start model behind row rows v vs ho hc q l f = (
  insertor (start ++ (in_brackets v vs ++ codes ";")) model model,
  rw (new_insertor-template b start model behind ho hc q l, fill_rows-AllFill b model start f)
      (build-joined start model v vs),
)
