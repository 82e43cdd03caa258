-- ===== src/History/WinamaxHistory/Titles.antt =====
-- The table's name in the title of its window, and the history file that is found for it.
use phud.Prelude.{
  ℕ, zero, suc, ◌≤◌, ◌<◌, ◌≡◌, ◌≢◌, refl, ap, ◌∙◌, subst, Bool, true, false, none, some, [], ◌∷◌,
  ◌++◌, Bytes, codes, length, take, ltb, ◌==◌, if◌then◌else◌, arith, All, take-append,
  length-append, drop-append,
}
use phud.Prelude.Result.{Result, ok, ◌>>=◌}
use phud.Prelude.Words.{npos}
use phud.Text.{starts_with, find, find?, substr}
use phud.Text.Search.{NotBefore, find?-found, find?-lacks, find?-behind, starts_with-append}
use phud.History.WinamaxHistory.{prefix, get_table_name_from_table_window_title, without_prefix}

abbrev pub hash : ℕ
hash = 35

-- A title in the new format, and in the old one.
abbrev pub titled : Bool → Bytes → Bytes
titled true t = prefix ++ t
titled false t = t

take_all : (n : ℕ) (s : Bytes) → length s ≤ n → take n s ≡ s
take_all zero [] h = refl
take_all zero (c ∷ s) h = absurd (omega arith)
take_all (suc n) [] h = refl
take_all (suc n) (c ∷ s) h = ap (◌∷◌ c) (take_all n s (omega arith))

substr_start : (s : Bytes) (n : ℕ) → substr s 0 n ≡ ok (take n s)
unfolding substr
substr_start s n = ground arith

find-some : (s p : Bytes) {i : ℕ} → find? s p ≡ some i → find s p ≡ i
unfolding find
find-some s p h = rw h

find-none : (s p : Bytes) → find? s p ≡ none → find s p ≡ npos
unfolding find
find-none s p h = rw h

substr_behind : (s t : Bytes) (n : ℕ) → length t ≤ n → substr (s ++ t) (length s) n ≡ ok t
unfolding substr
substr_behind s t n h =
    let l : ltb (length (s ++ t)) (length s) ≡ false = ground (arith, length-append s t) in
    rw (l, drop-append s t, take_all n t h)

without_prefix_new : (t : Bytes) → length t ≤ npos → without_prefix (prefix ++ t) ≡ ok t
unfolding without_prefix
without_prefix_new t h =
    ap (λ c. if c then substr (prefix ++ t) (length prefix) npos else ok (prefix ++ t))
      (starts_with-append prefix t)
    ∙ substr_behind prefix t npos h

without_prefix_old : (t : Bytes) → starts_with t prefix ≡ false → without_prefix t ≡ ok t
unfolding without_prefix
without_prefix_old t h = ap (λ c. if c then substr t (length prefix) npos else ok t) h

-- A title is short, and one of the old format does not begin like one of the new.
abbrev pub IsTitle : Bool → Bytes → Type 0
IsTitle true t = length (prefix ++ t) < npos
IsTitle false t = (length t < npos) × (starts_with t prefix ≡ false)

length-IsTitle : (new_format : Bool) (t : Bytes) → IsTitle new_format t → length t < npos
length-IsTitle true t h = omega (arith, h, length-append prefix t)
length-IsTitle false t h = h.0

without_prefix-titled :
    (new_format : Bool) (t : Bytes)
    → IsTitle new_format t
    → without_prefix (titled new_format t) ≡ ok t
without_prefix-titled true t h = without_prefix_new t (omega (arith, length-IsTitle true t h))
without_prefix-titled false t h = without_prefix_old t h.1

-- The name in a title without the prefix.
abbrev working_name : Bytes → Result Bytes
working_name t =
    if find t (codes "#") == npos
    then substr t 0 (find t (codes " / "))
    else substr t 0 (find t (codes "#"))

get_table_name-titled :
    (new_format : Bool) (t : Bytes)
    → IsTitle new_format t
    → get_table_name_from_table_window_title (titled new_format t) ≡ working_name t
unfolding get_table_name_from_table_window_title
get_table_name-titled new_format t h =
    ap (λ r. r >>= working_name) (without_prefix-titled new_format t h)

by_hash :
    (t : Bytes) (i : ℕ) → find? t (codes "#") ≡ some i → i < npos → working_name t ≡ ok (take i t)
by_hash t i e h =
    let f = find-some t (codes "#") e in
    let n : (find t (codes "#") == npos) ≡ false = ground (arith, f, h) in
    rw n (ap (substr t 0) f ∙ substr_start t i)

by_slash :
    (t : Bytes) (i : ℕ)
    → find? t (codes "#") ≡ none
    → find t (codes " / ") ≡ i
    → working_name t ≡ ok (take i t)
by_slash t i e f =
    let n : (find t (codes "#") == npos) ≡ true = ground (arith, find-none t (codes "#") e) in
    rw n (ap (substr t 0) f ∙ substr_start t i)

-- The table's name is what stands before the first #, with the prefix of the new format or without.
pub table_name-hash :
    (new_format : Bool) (name rest : Bytes)
    → All (λ c. c ≢ hash) name
    → IsTitle new_format (name ++ (hash ∷ rest))
    → get_table_name_from_table_window_title (titled new_format (name ++ (hash ∷ rest))) ≡ ok name
table_name-hash new_format name rest a h =
    let t = name ++ (hash ∷ rest) in
    get_table_name-titled new_format t h
    ∙ (by_hash t (length name) (find?-behind name [] rest hash a)
          (omega (arith, length-IsTitle new_format t h, length-append name (hash ∷ rest)))
        ∙ ap ok (take-append name (hash ∷ rest)))

abbrev pub separator : Bytes
separator = codes " / "

-- In a title without # it is what stands before the first separator.
pub table_name-separator :
    (new_format : Bool) (name rest : Bytes)
    → All (λ c. c ≢ hash) (name ++ (separator ++ rest))
    → NotBefore (name ++ (separator ++ rest)) separator (length name)
    → IsTitle new_format (name ++ (separator ++ rest))
    → get_table_name_from_table_window_title (titled new_format (name ++ (separator ++ rest)))
      ≡ ok name
table_name-separator new_format name rest a n h =
    let t = name ++ (separator ++ rest) in
    get_table_name-titled new_format t h
    ∙ (by_slash t (length name) (find?-lacks t [] hash a)
          (find-some t separator (find?-found name separator rest n))
        ∙ ap ok (take-append name (separator ++ rest)))

-- A title with neither is the name as a whole.
pub table_name_whole :
    (new_format : Bool) (t : Bytes)
    → All (λ c. c ≢ hash) t
    → find? t separator ≡ none
    → IsTitle new_format t
    → get_table_name_from_table_window_title (titled new_format t) ≡ ok t
table_name_whole new_format t a n h =
    get_table_name-titled new_format t h
    ∙ (by_slash t npos (find?-lacks t [] hash a) (find-none t separator n)
        ∙ ap ok (take_all npos t (omega (arith, length-IsTitle new_format t h))))

-- The table's name in a title without the prefix: what stands before the first #, or else before the
-- first separator, or else the whole.
pub data NameIn (t name : Bytes) : Type 0 where
  before_hash :
      (rest : Bytes) → t ≡ name ++ (hash ∷ rest) → All (λ c. c ≢ hash) name → NameIn t name
  before_separator :
      (rest : Bytes)
      → t ≡ name ++ (separator ++ rest)
      → All (λ c. c ≢ hash) t
      → NotBefore t separator (length name)
      → NameIn t name
  whole : t ≡ name → All (λ c. c ≢ hash) t → find? t separator ≡ none → NameIn t name

-- For a title in the new format or the old one that is shorter than npos, the old one not beginning
-- like the new one, the table name is what stands before its first hash, or if there is none before
-- its first " / ", or if there is neither the whole of it.
pub table_name-NameIn :
    (new_format : Bool) (t name : Bytes)
    → NameIn t name
    → IsTitle new_format t
    → get_table_name_from_table_window_title (titled new_format t) ≡ ok name
table_name-NameIn new_format t name (before_hash rest e a) h =
    ap (λ u. get_table_name_from_table_window_title (titled new_format u)) e
    ∙ table_name-hash new_format name rest a (subst (IsTitle new_format) e h)
table_name-NameIn new_format t name (before_separator rest e a n) h =
    ap (λ u. get_table_name_from_table_window_title (titled new_format u)) e
    ∙ table_name-separator new_format name rest (subst (All (λ c. c ≢ hash)) e a)
        (subst (λ u. NotBefore u separator (length name)) e n) (subst (IsTitle new_format) e h)
table_name-NameIn new_format t name (whole e a n) h = table_name_whole new_format t a n h ∙ ap ok e
