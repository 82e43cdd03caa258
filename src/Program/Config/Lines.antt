-- ===== src/Program/Config/Lines.antt =====
-- The configuration file, line by line.
use phud.Prelude.{
  ℕ, zero, suc, ◌+◌, ◌≤◌, ◌<◌, ◌≡◌, refl, ap, ◌∙◌, inl, inr, ◌==◌, List, [], ◌∷◌, Bytes, length,
  arith, Bool-cases,
}
use phud.TextFile.{TextFile, open_file, next, skip, newline}
use phud.TextFile.Reading.{lines, read_lines, read_lines-lines, add}
use phud.Program.Stop.{Outcome, stop, go, ◌>>=◌}
use phud.Program.Config.{Config, no_config, config_line, config_loop, parse_properties_file}

-- The lines of a file from line `n` on, each one on the configuration that those before it give.
pub fold_lines : ℕ → List Bytes → Config → Outcome Config
fold_lines n [] config = go config
fold_lines n (l ∷ ls) config =
    config_line (n + 1) l config >>= λ config'. fold_lines (n + 1) ls config'

>>=-ext :
    (r : Outcome Config) {f g : Config → Outcome Config}
    → ((c : Config) → f c ≡ g c)
    → (r >>= f) ≡ (r >>= g)
>>=-ext (go c) h = h c
>>=-ext (stop w) h = refl

config_loop-fold :
    (fuel n : ℕ) (tf : TextFile) (config : Config)
    → length (read_lines fuel tf) < fuel
    → config_loop fuel n tf config ≡ fold_lines n (read_lines fuel tf) config
unfolding config_loop fold_lines read_lines skip
config_loop-fold zero n tf config h = absurd (omega arith)
config_loop-fold (suc fuel) n tf config h = elim (Bool-cases (next tf).1) [
  | inl e ↦
      let l = (next tf).0 in
      let h' = rw (e, read_lines) at h in
      rw (e, config_loop, read_lines)
        (>>=-ext (config_line (n + 1) l.line config)
          (λ c. config_loop-fold fuel (n + 1) l c (unfold skip in (omega (arith, h')))))
  | inr e ↦ rw (e, config_loop, read_lines)
]

length-add : (c : ℕ) (ls : List Bytes) → length (add c ls) ≤ length ls + 1
length-add c [] = omega arith
length-add c (l ∷ ls) = omega arith

length-lines : (s : Bytes) → length (lines s) ≤ length s
unfolding lines
length-lines [] = omega arith
length-lines (c ∷ s) = elim (Bool-cases (c == newline)) [
  | inl e ↦ rw e (omega (arith, length-lines s))
  | inr e ↦ rw e (omega (arith, length-lines s, length-add c (lines s)))
]

-- With more fuel than the file has characters, the configuration is that of the lines of the file,
-- each in its turn on what those before it give; the first line that is refused ends the reading,
-- and its number is that of the line.
pub parse_properties_file-lines :
    (content : Bytes) (fuel : ℕ)
    → length content < fuel
    → parse_properties_file fuel content ≡ fold_lines 0 (lines content) no_config
unfolding parse_properties_file
parse_properties_file-lines content fuel h =
    let e = read_lines-lines content fuel h in
    config_loop-fold fuel 0 (open_file content) no_config
      (let k = ap length e in omega (arith, k, length-lines content))
    ∙ ap (λ l. fold_lines 0 l no_config) e
