-- ===== src/Filesystem/Listing.antt =====
-- What the listings of a directory hold.
use phud.Prelude.{
  ℕ, ◌≡◌, ◌≢◌, ◌↔◌, ◌⊎◌, refl, sym, ap, ◌∙◌, subst, inl, inr, Bool, true, false, not, ◌||◌, List,
  [], ◌∷◌, Bytes, codes, arith, Bool-cases,
}
use phud.Prelude.Result.{Result, ok, Build}
use phud.Text.{ends_with}
use phud.Filesystem.{
  Disk, keep, is_matching, matching_loop, list_files_matching_pattern, list_files_and_dirs,
  list_txt_files_in_dir,
}
use phud.Filesystem.Patterns.{matches_pattern}
use phud.Filesystem.Glob.{Glob}
use phud.Filesystem.Kinds.{is_lone_suffix, Answers, require-true}
use phud.Filesystem.Decision.{matches_pattern-Answers}

-- An element of a list.
abbrev pub In : {A : Type 0} → A → List A → Type 0
In a [] = ⊥
In a (x ∷ xs) = (a ≡ x) ⊎ In a xs

pub In-keep :
    {A : Type 0} (p : A → Bool) (a : A) (xs : List A) → In a (keep p xs) ↔ (In a xs × (p a ≡ true))
unfolding keep
In-keep p a [] = (λ h. absurd h, λ h. absurd h.0)
In-keep p a (x ∷ xs) =
    let (out, into) = In-keep p a xs in
    elim (Bool-cases (p x)) [
      | inl e ↦ rw e (
        λ h. elim h [
          | inl same ↦ (inl same, ap p same ∙ e)
          | inr later ↦ (inr (out later).0, (out later).1)
        ],
        λ h. elim h.0 [ inl same ↦ inl same | inr later ↦ inr (into (later, h.1)) ],
      )
      | inr n ↦ rw n (
        λ h. (inr (out h).0, (out h).1),
        λ h. elim h.0 [
          | inl same ↦ absurd (ground (arith, n, h.1, ap p same))
          | inr later ↦ into (later, h.1)
        ],
      )
    ]

-- The test of listTxtFilesInDir.
tests :
    (a b c : Bool) → (not (not a || (not b || c)) ≡ true) ↔ ((a ≡ true) × (b ≡ true) × (c ≡ false))
tests true true true = (λ h. absurd (ground (arith, h)), λ h. absurd (ground (arith, h.2)))
tests true true false = (λ h. (refl, refl, refl), λ h. refl)
tests true false c = (λ h. absurd (ground (arith, h)), λ h. absurd (ground (arith, h.1)))
tests false b c = (λ h. absurd (ground (arith, h)), λ h. absurd (ground (arith, h.0)))

List-cases : (s : Bytes) → (s ≡ []) ⊎ ((c : ℕ) × (t : Bytes) × (s ≡ c ∷ t))
List-cases [] = inl refl
List-cases (c ∷ t) = inr (c, t, refl)

module _ (disk : Disk) where
  open disk use {is_dir, is_file, entries, filename}

  -- An entry that the listing for a pattern keeps.
  abbrev pub Matching : Bytes → Bytes → Type 0
  Matching pattern p = (is_file p ≡ true) × (filename p ≢ []) × Glob pattern (filename p)

  is_matching-Answers :
      (b : Build) (pattern p : Bytes)
      → pattern ≢ []
      → is_lone_suffix pattern ≡ false
      → Answers (Matching pattern p) (is_matching disk b pattern p)
  unfolding is_matching
  is_matching-Answers b pattern p h l = elim (Bool-cases (is_file p)) [
    | inr n ↦ inr (rw n refl, λ m. absurd (ground (arith, n, m.0)))
    | inl f ↦ elim (List-cases (filename p)) [
      | inl e ↦ inr (rw (f, e) refl, λ m. absurd (m.1 e))
      | inr (c, t, e) ↦
          let ne : filename p ≢ [] = λ z. absurd (ground (arith, sym e ∙ z)) in
          let step : is_matching disk b pattern p ≡ matches_pattern b (filename p) pattern =
            rw (f, e) refl in
          elim (matches_pattern-Answers b (filename p) pattern ne h l) [
            | inl (a, g) ↦ inl (step ∙ a, (f, ne, g))
            | inr (a, n) ↦ inr (step ∙ a, λ m. n m.2)
          ]
    ]
  ]

  -- The listing returns, and has exactly the elements of the list that match.
  abbrev Lists : Bytes → List Bytes → Result (List Bytes) → Type 0
  Lists pattern paths r =
      (l : List Bytes) × (r ≡ ok l) × ((p : Bytes) → In p l ↔ (In p paths × Matching pattern p))

  matching_loop-Lists :
      (b : Build) (pattern : Bytes) (paths : List Bytes)
      → pattern ≢ []
      → is_lone_suffix pattern ≡ false
      → Lists pattern paths (matching_loop disk b pattern paths)
  unfolding matching_loop
  matching_loop-Lists b pattern [] h n = ([], refl, λ p. (λ x. absurd x, λ x. absurd x.0))
  matching_loop-Lists b pattern (q ∷ paths) h n =
      let (l, e, same) = matching_loop-Lists b pattern paths h n in
      elim (is_matching-Answers b pattern q h n) [
        | inl (kept, m) ↦ (
          q ∷ l,
          rw (kept, e) refl,
          λ p. (
            λ x. elim x [
              | inl s ↦ (inl s, subst (Matching pattern) (sym s) m)
              | inr later ↦ (inr ((same p).0 later).0, ((same p).0 later).1)
            ],
            λ x. elim x.0 [ inl s ↦ inl s | inr later ↦ inr ((same p).1 (later, x.1)) ],
          ),
        )
        | inr (dropped, m) ↦ (
          l,
          rw (dropped, e) refl,
          λ p. (
            λ x. (inr ((same p).0 x).0, ((same p).0 x).1),
            λ x. elim x.0 [
              | inl s ↦ absurd (m (subst (Matching pattern) s x.1))
              | inr later ↦ (same p).1 (later, x.1)
            ],
          ),
        )
      ]

  -- In a directory, for a pattern that is not empty and not one part without a star behind one star
  -- or more, the listing returns in either build. It holds exactly the regular files of the
  -- directory whose names are not empty and match the pattern.
  pub list_files_matching_pattern-Matching :
      (b : Build) (dir pattern : Bytes)
      → is_dir dir ≡ true
      → pattern ≢ []
      → is_lone_suffix pattern ≡ false
      → (l : List Bytes) × (list_files_matching_pattern disk b dir pattern ≡ ok l)
        × ((p : Bytes) → In p l ↔ (In p (entries dir) × Matching pattern p))
  unfolding list_files_matching_pattern
  list_files_matching_pattern-Matching b dir [] d h n = absurd (h refl)
  list_files_matching_pattern-Matching b dir (c ∷ pattern) d h n =
      let (l, e, same) = matching_loop-Lists b (c ∷ pattern) (entries dir) h n in
      (l, rw (require-true b, d) e, same)

  -- The text files of a directory: its regular files whose paths end with .txt, without summaries.
  pub In-list_txt_files_in_dir :
      (dir p : Bytes)
      → is_dir dir ≡ true
      → In p (list_txt_files_in_dir disk dir) ↔ (
          In p (entries dir)
          × (is_file p ≡ true)
          × (ends_with p (codes ".txt") ≡ true)
          × (ends_with p (codes "_summary.txt") ≡ false))
  unfolding list_txt_files_in_dir list_files_and_dirs
  In-list_txt_files_in_dir dir p d =
      let s = codes ".txt" in
      let u = codes "_summary.txt" in
      let test : Bytes → Bool =
        λ q. not (not (is_file q) || (not (ends_with q s) || ends_with q u)) in
      let (all, back) = tests (is_file p) (ends_with p s) (ends_with p u) in
      let (out, into) = In-keep test p (entries dir) in
      rw d (
        λ x. ((out x).0, (all (out x).1).0, (all (out x).1).1, (all (out x).1).2),
        λ x. into (x.0, back (x.1, x.2, x.3)),
      )
