-- ===== src/Enums.antt =====
-- language/EnumMapper.hpp: a list of pairs of an enumeration's value and its name, searched from the
-- front. Two enumerators are compared by the integers under them.
use phud.Prelude.{
  ℕ, ◌≡◌, refl, ap, Bool, true, false, inl, inr, List, [], ◌∷◌, Bytes, bytes_eq, eq_of_bytes_eq,
  eq_of_==, ◌==◌, ◌&&◌, not, ◌||◌, if◌then◌else◌, arith, Bool-cases,
}
use phud.Prelude.Result.{Result, ok, err, invalid_argument}

module _ {E : Type 0} (short_of : E → ℕ) where
  -- EnumMapper::toString
  unfoldable pub to_string : List (E × Bytes) → E → Result Bytes
  to_string [] e = err invalid_argument
  to_string ((v, name) ∷ pairs) e = if short_of v == short_of e then ok name else to_string pairs e

  -- EnumMapper::fromString
  unfoldable pub from_string : List (E × Bytes) → Bytes → Result E
  from_string [] s = err invalid_argument
  from_string ((v, name) ∷ pairs) s = if bytes_eq name s then ok v else from_string pairs s

  -- EnumMapper::isValid
  unfoldable pub is_valid : List (E × Bytes) → Bytes → Bool
  is_valid [] s = false
  is_valid ((v, name) ∷ pairs) s = bytes_eq name s || is_valid pairs s

  abbrev pub has_value : List (E × Bytes) → E → Bool
  has_value [] e = false
  has_value ((v, name) ∷ pairs) e = short_of v == short_of e || has_value pairs e

  -- No two pairs have one value.
  abbrev pub distinct : List (E × Bytes) → Bool
  distinct [] = true
  distinct ((v, name) ∷ pairs) = not (has_value pairs v) && distinct pairs

  has_value-from :
      (pairs : List (E × Bytes)) (s : Bytes) (e : E)
      → from_string pairs s ≡ ok e
      → has_value pairs e ≡ true
  unfolding from_string
  has_value-from [] s e h = cc
  has_value-from ((v, name) ∷ pairs) s e h = elim (Bool-cases (bytes_eq name s)) [
    | inl q ↦
        let v_is : v ≡ e = ground (arith, q) in
        let same : short_of v ≡ short_of e = ap short_of v_is in ground (arith, same)
    | inr q ↦ ground (arith, has_value-from pairs s e (ground (arith, q)))
  ]

  has_value-same :
      (pairs : List (E × Bytes)) (v e : E)
      → short_of v ≡ short_of e
      → has_value pairs v ≡ has_value pairs e
  has_value-same [] v e h = refl
  has_value-same ((w, name) ∷ pairs) v e h = rw (h, has_value-same pairs v e h)

  -- Where no two pairs have one value, a name that is read is the name that is printed.
  pub to_string-from :
      (pairs : List (E × Bytes)) (s : Bytes) (e : E)
      → distinct pairs ≡ true
      → from_string pairs s ≡ ok e
      → to_string pairs e ≡ ok s
  unfolding from_string to_string
  to_string-from [] s e d h = cc
  to_string-from ((v, name) ∷ pairs) s e d h = elim (Bool-cases (bytes_eq name s)) [
    | inl q ↦
        let v_is : v ≡ e = ground (arith, q) in
        let same : short_of v ≡ short_of e = ap short_of v_is in
        ground (arith, same, eq_of_bytes_eq name s q)
    | inr q ↦
        let h' : from_string pairs s ≡ ok e = ground (arith, q) in
        let ih : to_string pairs e ≡ ok s = to_string-from pairs s e (ground arith) h' in
        elim (Bool-cases (short_of v == short_of e)) [
          | inl z ↦ absurd (
              ground (
                arith,
                z,
                d,
                has_value-from pairs s e h',
                has_value-same pairs v e (eq_of_== _ _ z),
              ))
          | inr z ↦ rw z ih
        ]
  ]

  pub is_valid-from :
      (pairs : List (E × Bytes)) (s : Bytes)
      → is_valid pairs s ≡ false
      → from_string pairs s ≡ err invalid_argument
  unfolding is_valid from_string
  is_valid-from [] s h = refl
  is_valid-from ((v, name) ∷ pairs) s h = ground (arith, is_valid-from pairs s)
