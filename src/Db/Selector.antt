-- ===== src/Db/Selector.antt =====
-- db/SqlSelector.hpp: the building of a query from a template. Its setters replace all places of a place
-- holder with replaceAll, which runs on fuel here.
use phud.Prelude.{ℕ, not, Bytes, codes}
use phud.Prelude.Result.{Result, ok, ◌>>◌, Build, require}
use phud.Text.{contains}
use phud.Strings.{replace_all}

-- m_query is the whole of a SqlSelector.
abbrev pub SqlSelector : Type 0
SqlSelector = Bytes

unfoldable pub new_selector : Build → Bytes → Result SqlSelector
new_selector b template = do require b (contains template (codes "?")); ok template

unfoldable pub to_string : Build → SqlSelector → Result Bytes
to_string b query = do require b (not (contains query (codes "?"))); ok query

unfoldable pub site : ℕ → Bytes → SqlSelector → Result SqlSelector
site fuel value query = replace_all fuel query (codes "?siteName") value

unfoldable pub table : ℕ → Bytes → SqlSelector → Result SqlSelector
table fuel value query = replace_all fuel query (codes "?tableName") value

unfoldable pub player : ℕ → Bytes → SqlSelector → Result SqlSelector
player fuel value query = replace_all fuel query (codes "?playerName") value
