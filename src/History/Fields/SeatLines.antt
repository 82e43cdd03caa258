-- ===== src/History/Fields/SeatLines.antt =====
-- Lines `Seat 3: name (stack)` in parseSeats (history/PokerSiteHandBuilder.cpp).
use phud.Prelude.{
  ℕ, ◌+◌, ◌-◌, ◌^◌, ◌<◌, ◌≤◌, ◌≡◌, ◌≢◌, refl, List, [], ◌∷◌, ◌++◌, append_assoc, Bytes, codes,
  length, set, none, some, All, arith, length-append,
}
use phud.Prelude.Result.{ok}
use phud.Prelude.Words.{add64, sub64}
use phud.Strings.{to_size_t}
use phud.Text.{rfind?, find_from, rfind, substr}
use phud.Text.Search.{find?-behind, starts_with-append, substr-append}
use phud.History.Fields.{parse_seat_line, set_at}

rfind?-lacks : (s p : Bytes) (c d : ℕ) → All (λ x. x ≢ d) s → rfind? s (c ∷ d ∷ p) ≡ none
unfolding rfind?
rfind?-lacks [] p c d h = refl
rfind?-lacks (a ∷ []) p c d h = ground arith
rfind?-lacks (a ∷ b ∷ s) p c d h = rw (rfind?-lacks (b ∷ s) p c d h.1, rfind?) (ground arith)

rfind?-last :
    (s r p : Bytes) (c d : ℕ)
    → c ≢ d
    → All (λ x. x ≢ d) (p ++ r)
    → rfind? (s ++ ((c ∷ d ∷ p) ++ r)) (c ∷ d ∷ p) ≡ some (length s)
unfolding rfind?
rfind?-last [] r p c d n h =
    rw (rfind?-lacks (p ++ r) p c d h, rfind?) (ground (arith, starts_with-append (c ∷ d ∷ p) r))
rfind?-last (a ∷ s) r p c d n h = rw (rfind?-last s r p c d n h, rfind?) refl

-- "Seat " digits ": " name " (" stack
abbrev pub seat_line : Bytes → Bytes → Bytes → Bytes
seat_line digits name stack =
    codes "Seat " ++ (digits ++ (codes ": " ++ (name ++ (codes " (" ++ stack))))

module _ (digits name stack : Bytes) where
  abbrev head : Bytes
  head = codes "Seat " ++ (digits ++ (codes ": " ++ name))

  head_lem : seat_line digits name stack ≡ head ++ (codes " (" ++ stack)
  head_lem = simp append_assoc

  length-head : length head ≡ 7 + length digits + length name
  length-head = ground (arith, length-append digits (codes ": " ++ name))

  colon_lem :
      All (λ c. c ≢ 58) digits
      → find_from (seat_line digits name stack) (codes ": ") 5 ≡ 5 + length digits
  unfolding find_from
  colon_lem h = ground (arith, find?-behind digits (32 ∷ []) (name ++ (codes " (" ++ stack)) 58 h)

  stack_lem :
      All (λ c. c ≢ 40) stack
      → rfind (seat_line digits name stack) (codes " (") ≡ 7 + length digits + length name
  unfolding rfind
  stack_lem h = rw (head_lem, rfind?-last head stack [] 32 40 (omega arith) h, length-head) refl

  digits_lem : substr (seat_line digits name stack) 5 (length digits) ≡ ok digits
  digits_lem = substr-append (codes "Seat ") digits (codes ": " ++ (name ++ (codes " (" ++ stack)))

  name_lem : substr (seat_line digits name stack) (7 + length digits) (length name) ≡ ok name
  name_lem =
      let pre = codes "Seat " ++ (digits ++ codes ": ") in
      let e : seat_line digits name stack ≡ pre ++ (name ++ (codes " (" ++ stack)) =
        simp append_assoc in
      let n : 7 + length digits ≡ length pre = ground (arith, length-append digits (codes ": ")) in
      rw (e, n) (substr-append pre name (codes " (" ++ stack))

  -- A line "Seat <digits>: <name> (<stack>" files the name at its seat, whatever characters the
  -- name has, if the digits are read as a number from 1 to the length of the array and hold no
  -- colon, the stack holds no opening bracket, and the array and the line up to the stack are
  -- shorter than 2^63.
  pub parse_seat_line-seat_line :
      (n : ℕ) (ret : List Bytes)
      → to_size_t digits ≡ ok n
      → 0 < n
      → n ≤ length ret
      → length ret < 2 ^ 63
      → All (λ c. c ≢ 58) digits
      → All (λ c. c ≢ 40) stack
      → 7 + length digits + length name < 2 ^ 63
      → parse_seat_line (seat_line digits name stack) ret ≡ ok (set ret (n - 1) name)
  unfolding parse_seat_line set_at
  parse_seat_line-seat_line n ret e z l m hd hs b =
      let a : sub64 (5 + length digits) 5 ≡ length digits = omega arith in
      let c : add64 (5 + length digits) 2 ≡ 7 + length digits = omega arith in
      let g : sub64 (sub64 (7 + length digits + length name) (5 + length digits)) 2 ≡ length name =
        omega arith in
      let k : sub64 n 1 ≡ n - 1 = omega arith in
      rw (colon_lem hd, a, digits_lem, e, stack_lem hs, c, g, name_lem, k) (ground arith)
