-- ===== src/Storage/Sql/Tests.antt =====
-- A value that tries to end its literal.
use smalt_mcp.Prelude.{◌≡◌, ◌∷◌, ◌++◌, some, Text, codes, arith}
use smalt_mcp.Storage.Sql.{quote, sql_str}
use smalt_mcp.Storage.Sql.Quote.{read_literal, read_literal-sql_str}

read_literal-sql_str_example :
    (inner : Text) × (sql_str (codes "x' OR 'a'='a") ++ codes " AND 1=1" ≡ quote ∷ inner)
    × (read_literal inner ≡ some (codes "x' OR 'a'='a", codes " AND 1=1"))
read_literal-sql_str_example =
    read_literal-sql_str (codes "x' OR 'a'='a") (codes " AND 1=1") (omega arith)
