-- ===== src/History/WinamaxHistory/Latest.antt =====
-- The history file that is found for the title of a table's window: the latest one that matches.
use phud.Prelude.{
  ◌≤◌, ◌≡◌, ◌↔◌, ◌⊎◌, refl, sym, ap, ◌∙◌, subst, inl, inr, true, false, none, some, List, [], ◌∷◌,
  ◌++◌, Bytes, codes, ltb, arith, All, Bool-cases, append_assoc,
}
use phud.Prelude.Result.{ok, Build}
use phud.Filesystem.{Disk, list_files_matching_pattern}
use phud.Filesystem.Patterns.{star}
use phud.Filesystem.Kinds.{is_lone_suffix}
use phud.Filesystem.Several.{is_lone_suffix-two_parts}
use phud.Filesystem.Listing.{In, Matching, list_files_matching_pattern-Matching}
use phud.History.WinamaxHistory.{
  get_table_name_from_table_window_title, get_history_file_from_table_window_title, insert_by_time,
  sort_by_time, back, table_pattern,
}

table_pattern-is_lone_suffix : (name : Bytes) → is_lone_suffix (table_pattern name) ≡ false
table_pattern-is_lone_suffix name =
    subst (λ u. is_lone_suffix (star ∷ 95 ∷ u) ≡ false)
      (append_assoc name (codes "_") (codes "*.txt"))
      (is_lone_suffix-two_parts 95 (name ++ codes "_") 46 (codes "txt") (λ e. absurd (omega arith))
        (λ e. absurd (omega arith)))

list_cases : (l : List Bytes) → (l ≡ []) ⊎ ((p : Bytes) × (t : List Bytes) × (l ≡ p ∷ t))
list_cases [] = inl refl
list_cases (p ∷ t) = inr (p, t, refl)

module _ (disk : Disk) where
  open disk use {is_dir, entries, child, last_write_time}

  abbrev AtLeast : Bytes → List Bytes → Type 0
  AtLeast p = All (λ q. last_write_time p ≤ last_write_time q)

  abbrev Ordered : List Bytes → Type 0
  Ordered [] = Unit
  Ordered (p ∷ paths) = AtLeast p paths × Ordered paths

  AtLeast-insert :
      (p q : Bytes) (l : List Bytes)
      → last_write_time p ≤ last_write_time q
      → AtLeast p l
      → AtLeast p (insert_by_time disk q l)
  unfolding insert_by_time
  AtLeast-insert p q [] h a = (h, tt)
  AtLeast-insert p q (r ∷ l) h a = elim (Bool-cases (ltb (last_write_time r) (last_write_time q))) [
    | inl e ↦ rw e (a.0, AtLeast-insert p q l h a.1)
    | inr e ↦ rw e (h, a)
  ]

  AtLeast-mono :
      (p q : Bytes) (l : List Bytes)
      → last_write_time p ≤ last_write_time q
      → AtLeast q l
      → AtLeast p l
  AtLeast-mono p q [] h a = tt
  AtLeast-mono p q (r ∷ l) h a = (omega (arith, h, a.0), AtLeast-mono p q l h a.1)

  Ordered-insert : (q : Bytes) (l : List Bytes) → Ordered l → Ordered (insert_by_time disk q l)
  unfolding insert_by_time
  Ordered-insert q [] o = (tt, tt)
  Ordered-insert q (r ∷ l) o = elim (Bool-cases (ltb (last_write_time r) (last_write_time q))) [
    | inl e ↦ rw e (AtLeast-insert r q l (ground (arith, e)) o.0, Ordered-insert q l o.1)
    | inr e ↦
        let h : last_write_time q ≤ last_write_time r = ground (arith, e) in
        rw e ((h, AtLeast-mono q r l h o.0), o)
  ]

  Ordered-sort : (l : List Bytes) → Ordered (sort_by_time disk l)
  unfolding sort_by_time
  Ordered-sort [] = tt
  Ordered-sort (p ∷ l) = Ordered-insert p (sort_by_time disk l) (Ordered-sort l)

  In-insert : (a p : Bytes) (l : List Bytes) → In a (insert_by_time disk p l) ↔ ((a ≡ p) ⊎ In a l)
  unfolding insert_by_time
  In-insert a p [] = (λ h. h, λ h. h)
  In-insert a p (q ∷ l) =
      let (out, into) = In-insert a p l in
      elim (Bool-cases (ltb (last_write_time q) (last_write_time p))) [
        | inl e ↦ rw e (
          λ h. elim h [
            | inl s ↦ inr (inl s)
            | inr later ↦ elim (out later) [ inl s ↦ inl s | inr m ↦ inr (inr m) ]
          ],
          λ h. elim h [
            | inl s ↦ inr (into (inl s))
            | inr m ↦ elim m [ inl s ↦ inl s | inr later ↦ inr (into (inr later)) ]
          ],
        )
        | inr e ↦ rw e (λ h. h, λ h. h)
      ]

  In-sort : (a : Bytes) (l : List Bytes) → In a (sort_by_time disk l) ↔ In a l
  unfolding sort_by_time
  In-sort a [] = (λ h. h, λ h. h)
  In-sort a (p ∷ l) =
      let (out, into) = In-insert a p (sort_by_time disk l) in
      let (out', into') = In-sort a l in
      (
        λ h. elim (out h) [ inl s ↦ inl s | inr m ↦ inr (out' m) ],
        λ h. elim h [ inl s ↦ into (inl s) | inr m ↦ into (inr (into' m)) ],
      )

  -- The last of an ordered list that is not empty.
  back-Ordered :
      (p : Bytes) (l : List Bytes)
      → Ordered (p ∷ l)
      → (r : Bytes) × (back (p ∷ l) ≡ some r)
        × In r (p ∷ l)
        × ((q : Bytes) → In q (p ∷ l) → last_write_time q ≤ last_write_time r)
  unfolding back
  back-Ordered p [] o = (
    p,
    refl,
    inl refl,
    λ q h. elim h [ inl e ↦ let f = ap last_write_time e in omega (arith, f) | inr n ↦ absurd n ],
  )
  back-Ordered p (q ∷ l) o =
      let (r, e, m, top) = back-Ordered q l o.1 in
      (
        r,
        e,
        inr m,
        λ s h. elim h [
          | inl e' ↦ let f = ap last_write_time e' in omega (arith, f, o.0.0, top q (inl refl))
          | inr later ↦ top s later
        ],
      )

  found_file :
      (b : Build) (dir title name : Bytes) (l : List Bytes)
      → get_table_name_from_table_window_title title ≡ ok name
      → list_files_matching_pattern disk b (child dir (codes "history")) (table_pattern name) ≡ ok l
      → get_history_file_from_table_window_title disk b dir title ≡ ok (back (sort_by_time disk l))
  unfolding get_history_file_from_table_window_title
  found_file b dir title name l n e = rw (n, e)

  -- What the search for the pattern `pattern` in `dir` returns.
  pub record IsLatest (dir pattern found : Bytes) : Type 0 where
    pub listed : In found (entries dir)
    pub matching : Matching disk pattern found
    pub latest :
        (q : Bytes)
        → In q (entries dir)
        → Matching disk pattern q
        → last_write_time q ≤ last_write_time found

  sort_by_time-IsLatest :
      (dir pattern : Bytes) (l : List Bytes)
      → ((p : Bytes) → In p l ↔ (In p (entries dir) × Matching disk pattern p))
      → ((back (sort_by_time disk l) ≡ none)
          × ((p : Bytes) → In p (entries dir) → ¬ Matching disk pattern p))
        ⊎ ((p : Bytes) × (back (sort_by_time disk l) ≡ some p) × IsLatest dir pattern p)
  sort_by_time-IsLatest dir pattern l same = elim (list_cases (sort_by_time disk l)) [
    | inl e ↦ inl (
      ap back e ∙ (unfold back in refl),
      λ p i m. subst (In p) e ((In-sort p l).1 ((same p).1 (i, m))),
    )
    | inr (p, t, e) ↦
        let (r, found, m, top) = back-Ordered p t (subst Ordered e (Ordered-sort l)) in
        let back_in : (q : Bytes) → In q l → In q (p ∷ t) =
          λ q i. subst (In q) e ((In-sort q l).1 i) in
        let (i, g) = (same r).0 ((In-sort r l).0 (subst (In r) (sym e) m)) in
        inr (
          r,
          ap back e ∙ found,
          record {
            listed = i;
            matching = g;
            latest = λ q j h. top q (back_in q ((same q).1 (j, h)));
          },
        )
  ]

  -- If the history directory is there and the title of a window has a table name, the call returns
  -- in either build: a latest one of the regular files whose names match *_name_*.txt, or nothing
  -- if no file does.
  pub get_history_file-IsLatest :
      (b : Build) (dir title name : Bytes)
      → is_dir (child dir (codes "history")) ≡ true
      → get_table_name_from_table_window_title title ≡ ok name
      → ((get_history_file_from_table_window_title disk b dir title ≡ ok none)
          × ((p : Bytes)
              → In p (entries (child dir (codes "history")))
              → ¬ Matching disk (table_pattern name) p))
        ⊎ ((p : Bytes) × (get_history_file_from_table_window_title disk b dir title ≡ ok (some p))
            × IsLatest (child dir (codes "history")) (table_pattern name) p)
  get_history_file-IsLatest b dir title name d n =
      let pattern = table_pattern name in
      let history = child dir (codes "history") in
      let (l, e, same) =
        list_files_matching_pattern-Matching disk b history pattern d
          (λ z. absurd (ground (arith, z))) (table_pattern-is_lone_suffix name) in
      let run = found_file b dir title name l n e in
      elim (sort_by_time-IsLatest history pattern l same) [
        | inl (f, no_one) ↦ inl (run ∙ ap ok f, no_one)
        | inr (p, f, best) ↦ inr (p, run ∙ ap ok f, best)
      ]
