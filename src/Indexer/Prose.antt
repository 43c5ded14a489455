-- ===== src/Indexer/Prose.antt =====
-- The text of the generated index pages: `_first_sentence` and the body of `_format_index_page` of
-- src/smalt_mcp/storage/indexer.py.
use smalt_mcp.Prelude.{
  ℕ, zero, suc, ◌+◌, ◌-◌, ◌/◌, ◌%◌, Bool, true, ◌&&◌, ◌||◌, List, [], ◌∷◌, ◌++◌, map, leb, ltb,
  ◌==◌, if◌then◌else◌, length, take, Text, codes, text_eq,
}
use mathlib.Core.List.{reverse}

-- What `str.strip` removes: white space by `str.isspace`.
unfoldable pub is_space : ℕ → Bool
is_space c =
    leb 9 c && leb c 13
    || leb 28 c && leb c 32
    || c == 0x85
    || c == 0xA0
    || c == 0x1680
    || leb 0x2000 c && leb c 0x200A
    || c == 0x2028
    || c == 0x2029
    || c == 0x202F
    || c == 0x205F
    || c == 0x3000

unfoldable pub lstrip : Text → Text
lstrip [] = []
lstrip (c ∷ rest) = let next = lstrip rest in if is_space c then next else c ∷ rest

unfoldable pub rstrip : Text → Text
unfolding lstrip
rstrip t = reverse (lstrip (reverse t))

unfoldable pub strip : Text → Text
unfolding rstrip
strip t = rstrip (lstrip t)

-- `i + 1 == len(text) or text[i + 1] in " \t\n"`
abbrev ends_sentence : Text → Bool
ends_sentence [] = true
ends_sentence (c ∷ _) = c == 32 || c == 9 || c == 10

-- The text up to the first full stop that ends a sentence, or all of it.
unfoldable pub up_to_stop : Text → Text
up_to_stop [] = []
up_to_stop (c ∷ rest) =
    let next = up_to_stop rest in if c == b'.' && ends_sentence rest then c ∷ [] else c ∷ next

unfoldable pub first_sentence : Text → ℕ → Text
unfolding strip up_to_stop
first_sentence body max_chars =
    let text = lstrip body in
    let first = strip (up_to_stop text) in
    if text_eq text []
    then []
    else if ltb max_chars (length first)
    then rstrip (take (max_chars - 1) first) ++ 0x2026 ∷ []
    else first

-- Decimal digits; one digit for each unit of fuel, and a number has at most that many.
digits_from : ℕ → ℕ → Text → Text
digits_from zero n acc = acc
digits_from (suc fuel) n acc =
    let next = digits_from fuel (n / 10) ((b'0' + n % 10) ∷ acc) in
    if ltb n 10 then (b'0' + n) ∷ acc else next

-- `str(n)`
unfoldable pub decimal : ℕ → Text
unfolding digits_from
decimal n = digits_from (suc n) n []

pub record Entry : Type 0 where
  pub id : Text
  pub title : Text
  pub body : Text
  pub domains : List Text

abbrev definition_max_chars : ℕ
definition_max_chars = 300

-- `", ".join(parts)` behind the first part
abbrev join_commas : List Text → Text
join_commas [] = []
join_commas (part ∷ parts) = codes ", " ++ (part ++ join_commas parts)

abbrev dash_definition : Text → Text
dash_definition definition = if text_eq definition [] then [] else 32 ∷ 0x2014 ∷ 32 ∷ definition

unfoldable pub bullet : Entry → Text
unfolding first_sentence
bullet e =
    codes "- **"
    ++ (e.title
        ++ (codes "** ("
            ++ (e.id
                ++ (join_commas e.domains
                    ++ (b')' ∷ dash_definition (first_sentence e.body definition_max_chars))))))

-- Each line behind the first, after a line feed.
abbrev join_lines : List Text → Text
join_lines [] = []
join_lines (line ∷ lines) = 10 ∷ (line ++ join_lines lines)

abbrev empty_note : Text → Text
empty_note flag =
    codes "_Auto-generated by the indexer. No entries yet "
    ++ (0x2014
        ∷ (codes " add a concept page with `"
            ++ (flag
                ++ codes
                    ": true` and re-run an indexer pass (any write_page call auto-triggers one)._")))

-- The body of an index page over `entries`.
unfoldable pub index_body : Text → Text → List Entry → Text
unfolding bullet decimal
index_body title flag [] = codes "# " ++ (title ++ (10 ∷ 10 ∷ (empty_note flag ++ 10 ∷ [])))
index_body title flag (e ∷ entries) =
    codes "# "
    ++ (title
        ++ join_lines (
            []
            ∷ (codes "_Auto-generated by the indexer. "
                ++ (decimal (length (e ∷ entries)) ++ codes " entries._"))
            ∷ []
            ∷ (map bullet (e ∷ entries) ++ [] ∷ [])))
