-- ===== src/Storage/Indexes.antt =====
-- `create_or_refresh_fts`, `create_or_refresh_vector_index` and `_short_lance_error` of
-- src/smalt_mcp/storage/lance.py, and `_refresh_indexes` of src/smalt_mcp/storage/indexer.py. Whether
-- LanceDB builds an index or raises is a parameter.
pub mod Short
use smalt_mcp.Prelude.{
  ℕ, Bool, true, false, ◌||◌, ◌&&◌, Option, none, some, List, [], ◌∷◌, ◌++◌, any, length, take,
  if◌then◌else◌, leb, ltb, ◌==◌, Text, codes,
}
use smalt_mcp.Indexer.Prose.{strip}

-- The state of a search index: built, failed with an error, or skipped with so few rows.
pub data IndexState : Type 0 where
  built : IndexState
  build_failed : Text → IndexState
  build_skipped : ℕ → IndexState

-- An exception: `type(e).__name__` and `str(e)`.
pub record Fault : Type 0 where
  pub type_name : Text
  pub message : Text

-- A call that may raise.
pub data Called (A : Type 0) : Type 0 where
  returned : A → Called A
  raised : Fault → Called A

-- The code points at which `str.splitlines` splits.
abbrev pub is_line_break : ℕ → Bool
is_line_break c = leb 10 c && leb c 13 || leb 28 c && leb c 30 || c == 133 || c == 8232 || c == 8233

-- `splitlines()[0]` of a text that is not empty
abbrev pub first_line : Text → Text
first_line [] = []
first_line (c ∷ t) = let rest = first_line t in if is_line_break c then [] else c ∷ rest

abbrev pub stripped_or : Text → Text → Text
stripped_or name [] = name
stripped_or name (c ∷ t) = first_line (c ∷ t)

-- The cap of 200 characters, with an ellipsis.
abbrev pub capped : Text → Text
capped text = if ltb 200 (length text) then take 200 text ++ 8230 ∷ [] else text

-- `_short_lance_error`
unfoldable pub short_lance_error : Fault → Text
unfolding strip
short_lance_error e =
    e.type_name ++ codes ": " ++ capped (stripped_or e.type_name (strip e.message))

abbrev pub state_of : Option Fault → IndexState
state_of none = built
state_of (some e) = build_failed (short_lance_error e)

-- Opening the table may raise, and so may the building of the index of each field.
unfoldable pub create_or_refresh_fts :
    Option Fault → (Text → Option Fault) → Called (List (Text × IndexState))
unfolding short_lance_error
create_or_refresh_fts (some e) builds = raised e
create_or_refresh_fts none builds = returned (
    (codes "title", state_of (builds (codes "title")))
    ∷ (codes "body", state_of (builds (codes "body")))
    ∷ [])

unfoldable pub create_or_refresh_vector_index : Option Fault → ℕ → Option Fault → Called IndexState
unfolding short_lance_error
create_or_refresh_vector_index (some e) row_count builds = raised e
create_or_refresh_vector_index none row_count builds =
    returned (if ltb row_count 256 then build_skipped row_count else state_of builds)

-- `_refresh_indexes` catches what the two raise.
abbrev pub call_failed : Fault → IndexState
call_failed e = build_failed (e.type_name ++ codes ": " ++ take 200 e.message)

abbrev pub caught_fts : Called (List (Text × IndexState)) → List (Text × IndexState)
caught_fts (returned states) = states
caught_fts (raised e) = (codes "_call", call_failed e) ∷ []

abbrev pub caught_vector : Called IndexState → IndexState
caught_vector (returned state) = state
caught_vector (raised e) = call_failed e

-- What LanceDB does in a refresh.
pub record Building : Type 0 where
  pub opens_pages : Option Fault
  pub builds_fts : Text → Option Fault
  pub opens_embeddings : Option Fault
  pub row_count : ℕ
  pub builds_vector : Option Fault

unfoldable pub refreshed : Building → List (Text × IndexState) × IndexState
unfolding create_or_refresh_fts create_or_refresh_vector_index
refreshed b = (
  caught_fts (create_or_refresh_fts b.opens_pages b.builds_fts),
  caught_vector (create_or_refresh_vector_index b.opens_embeddings b.row_count b.builds_vector),
)
