-- ===== src/Storage/Sql.antt =====
-- Values in filter expressions: `sql_str` of src/smalt_mcp/storage/lance.py.
pub mod Quote
mod Tests
use smalt_mcp.Prelude.{ℕ, List, [], ◌∷◌, ◌++◌, ◌==◌, if◌then◌else◌, Text}

abbrev pub quote : ℕ
quote = 39

-- `value.replace("'", "''")`
unfoldable pub double_quotes : Text → Text
double_quotes [] = []
double_quotes (c ∷ rest) =
    let after = double_quotes rest in if c == quote then c ∷ c ∷ after else c ∷ after

unfoldable pub sql_str : Text → Text
unfolding double_quotes
sql_str value = quote ∷ (double_quotes value ++ quote ∷ [])
