-- ===== src/Storage/Sql/Quote.antt =====
-- A quoted value is one SQL string literal, whatever the value holds.
use smalt_mcp.Prelude.{
  ℕ, ◌≡◌, ◌≢◌, refl, ap, inl, inr, Bool-cases, Option, none, some, [], ◌∷◌, ◌++◌, append_assoc,
  arith, ◌==◌, ==_iff, if◌then◌else◌, Text,
}
use smalt_mcp.Storage.Sql.{quote, double_quotes, sql_str}

abbrev push : ℕ → Option (Text × Text) → Option (Text × Text)
push c none = none
push c (some (value, rest)) = some (c ∷ value, rest)

-- The standard's string literal, read behind its opening quote: a doubled quote stands for one, a
-- single quote ends the literal, and what follows is left over.
pub read_literal : Text → Option (Text × Text)
read_literal [] = none
read_literal (c ∷ []) = if c == quote then some ([], []) else none
read_literal (c ∷ d ∷ rest) =
    let after = read_literal rest in
    let next = read_literal (d ∷ rest) in
    if c == quote then if d == quote then push quote after else some ([], d ∷ rest) else push c next

-- The text that follows an embedded value does not begin with a quote.
abbrev pub StartsUnquoted : Text → Type 0
StartsUnquoted [] = Unit
StartsUnquoted (c ∷ _) = c ≢ quote

read_literal-plain : (c : ℕ) (t : Text) → c ≢ quote → read_literal (c ∷ t) ≡ push c (read_literal t)
unfolding read_literal
read_literal-plain c [] h = ground arith
read_literal-plain c (d ∷ t) h = ground arith

read_literal-close : (t : Text) → StartsUnquoted t → read_literal (quote ∷ t) ≡ some ([], t)
unfolding read_literal
read_literal-close [] h = refl
read_literal-close (d ∷ t) h = ground arith

read_literal-pair : (t : Text) → read_literal (quote ∷ quote ∷ t) ≡ push quote (read_literal t)
unfolding read_literal
read_literal-pair t = refl

read_literal-double :
    (v rest : Text)
    → StartsUnquoted rest
    → read_literal (double_quotes v ++ quote ∷ rest) ≡ some (v, rest)
unfolding double_quotes
read_literal-double [] rest h = read_literal-close rest h
read_literal-double (c ∷ v) rest h = elim (Bool-cases (c == quote)) [
  | inl e ↦ rw (e, (==_iff c quote).0 e, read_literal-pair) (rw (read_literal-double v rest h))
  | inr e ↦ rw (e, read_literal-plain c _ (λ q. ground arith), read_literal-double v rest h)
]

-- Read as SQL, `sql_str value` in front of any text that starts with no quote is one literal that
-- denotes `value`, and exactly that text is left over.
pub read_literal-sql_str :
    (value rest : Text)
    → StartsUnquoted rest
    → (inner : Text) × (sql_str value ++ rest ≡ quote ∷ inner)
      × (read_literal inner ≡ some (value, rest))
unfolding sql_str
read_literal-sql_str value rest h = (
  double_quotes value ++ quote ∷ rest,
  ap (λ t. quote ∷ t) (append_assoc (double_quotes value) (quote ∷ []) rest),
  read_literal-double value rest h,
)
