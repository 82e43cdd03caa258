-- ===== src/Tests/Texts.antt =====
-- Texts and text files at concrete values.
use phud.Prelude.{Bool, ◌==◌, ◌≡◌, refl, [], ◌∷◌, Bytes, codes, false, reverse, arith}
use phud.Prelude.Result.{ok, err, out_of_fuel}
use phud.Text.{find?}
use phud.TextFile.{open_file}
use phud.TextFile.Reading.{lines, read_lines, read_lines-lines}
use phud.Strings.{trim, drop_spaces, is_space, replace_all, to_size_t}
use phud.Strings.Trim.{Padded, Starts, trim-Padded}
use phud.Strings.Numbers.{to_size_t_lem}
use phud.Strings.Replace.{replace_all_ends, replace_all_diverges}

to_size_t_lem_example : to_size_t (codes " 42x ") ≡ ok 42
unfolding trim drop_spaces is_space
to_size_t_lem_example =
    to_size_t_lem (codes " 42x ") (codes "42")
      (record { rest = codes "x"; splits = refl; all_digits = ground arith; ends = refl })

trim-Padded_example :
    Padded (codes " a ") (trim (codes " a "))
    × Starts (trim (codes " a "))
    × Starts (reverse (trim (codes " a ")))
trim-Padded_example = trim-Padded (codes " a ")

replace_all_ends_example :
    (t : Bytes) × (replace_all 7 (codes "abcabc") (codes "ab") (codes "x") ≡ ok t)
replace_all_ends_example =
    replace_all_ends 7 (codes "abcabc") (codes "ab") (codes "x") (omega arith) (omega arith)

replace_all_diverges_example :
    replace_all 100 (codes "abc") (codes "b") (codes "abc") ≡ err out_of_fuel
unfolding find?
replace_all_diverges_example =
    replace_all_diverges 100 (codes "abc") (codes "b") (codes "a") (codes "c") (λ e. cc)

read_lines-lines_example : read_lines 10 (open_file (codes "a\n\nbc")) ≡ lines (codes "a\n\nbc")
read_lines-lines_example = read_lines-lines (codes "a\n\nbc") 10 (omega arith)

abbrev starts_b : Bytes → Bool
starts_b [] = false
starts_b (c ∷ s) = c == 98
