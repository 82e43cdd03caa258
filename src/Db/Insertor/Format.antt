-- ===== src/Db/Insertor/Format.antt =====
-- formatSQL (db/SqlInsertor.cpp) puts line breaks around words by replacing each word by a text that holds
-- it.
use phud.Prelude.{ℕ, ◌≡◌, ◌≢◌, ap, none, [], Bytes, codes}
use phud.Prelude.Result.{err, out_of_fuel, ◌>>=◌}
use phud.Text.{find?}
use phud.Strings.{replace_all}
use phud.Strings.Replace.{replace_all_diverges}
use phud.Db.Insertor.{format_sql}

-- No amount of fuel is enough for a statement that holds FROM.
pub format_sql_forever :
    (fuel : ℕ) (sql : Bytes)
    → find? sql (codes "FROM") ≢ none
    → format_sql fuel sql ≡ err out_of_fuel
unfolding format_sql
format_sql_forever fuel sql h =
    ap
      (λ r.
        r
        >>= (λ s. replace_all fuel s (codes "WHERE") (codes "\nWHERE"))
        >>= (λ s. replace_all fuel s (codes ",") (codes ",\n\t"))
        >>= (λ s. replace_all fuel s (codes "AND") (codes "AND\n\t"))
        >>= (λ s. replace_all fuel s (codes "OR") (codes "OR\n\t")))
      (replace_all_diverges fuel sql (codes "FROM") (codes "\n") [] h)
