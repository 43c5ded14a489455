-- ===== src/Storage/Indexes/Short.antt =====
-- Errors of search indexes in the status are short.
use smalt_mcp.Prelude.{
  ℕ, ◌+◌, ◌≡◌, ◌≤◌, refl, arith, false, Option, none, some, [], ◌∷◌, ◌++◌, All, length,
  length-append, take, length-take, ◌<◌, inl, inr, Bool-cases, Text, codes, ltb,
}
use smalt_mcp.Indexer.Prose.{strip}
use smalt_mcp.Storage.Indexes.{
  IndexState, built, build_failed, build_skipped, Fault, stripped_or, capped, short_lance_error,
  state_of, create_or_refresh_fts, create_or_refresh_vector_index, Building, caught_fts,
  caught_vector, call_failed, refreshed,
}

-- The name of the exception's type is so long at most.
abbrev pub IsNamed : ℕ → Option Fault → Type 0
IsNamed n none = Unit
IsNamed n (some e) = length e.type_name ≤ n

abbrev pub IsShort : ℕ → IndexState → Type 0
IsShort n built = Unit
IsShort n (build_failed error) = length error ≤ n + 203
IsShort n (build_skipped rows) = rows < 256

not_above : (t : Text) → ltb 200 (length t) ≡ false → length t ≤ 201
not_above t e = ground (arith, e)

length-capped : (t : Text) → length (capped t) ≤ 201
length-capped t = elim (Bool-cases (ltb 200 (length t))) [
  | inl e ↦ rw e (omega (arith, length-append (take 200 t) (8230 ∷ []), length-take 200 t))
  | inr e ↦ rw e (not_above t e)
]

-- A text of 201 characters at most behind the name of a type.
length-labelled :
    (n : ℕ) (name text : Text)
    → length name ≤ n
    → length text ≤ 201
    → length (name ++ codes ": " ++ text) ≤ n + 203
length-labelled n name text h k =
    let two : length (codes ": ") ≡ 2 = refl in
    omega
      (arith, h, k, two, length-append (name ++ codes ": ") text, length-append name (codes ": "))

short_lance_error-IsShort :
    (n : ℕ) (e : Fault) → length e.type_name ≤ n → length (short_lance_error e) ≤ n + 203
unfolding short_lance_error
short_lance_error-IsShort n e h =
    let shown = stripped_or e.type_name (strip e.message) in
    length-labelled n e.type_name (capped shown) h (length-capped shown)

state_of-IsShort : (n : ℕ) (o : Option Fault) → IsNamed n o → IsShort n (state_of o)
state_of-IsShort n none h = tt
state_of-IsShort n (some e) h = short_lance_error-IsShort n e h

call_failed-IsShort : (n : ℕ) (e : Fault) → length e.type_name ≤ n → IsShort n (call_failed e)
call_failed-IsShort n e h =
    length-labelled n e.type_name (take 200 e.message) h (omega (arith, length-take 200 e.message))

fts-IsShort :
    (n : ℕ) (opens : Option Fault) (builds : Text → Option Fault)
    → IsNamed n opens
    → ((field : Text) → IsNamed n (builds field))
    → All (λ s. IsShort n s.1) (caught_fts (create_or_refresh_fts opens builds))
unfolding create_or_refresh_fts
fts-IsShort n (some e) builds h k = (call_failed-IsShort n e h, tt)
fts-IsShort n none builds h k = (
  state_of-IsShort n (builds (codes "title")) (k (codes "title")),
  (state_of-IsShort n (builds (codes "body")) (k (codes "body")), tt),
)

vector-IsShort :
    (n : ℕ) (opens : Option Fault) (row_count : ℕ) (builds : Option Fault)
    → IsNamed n opens
    → IsNamed n builds
    → IsShort n (caught_vector (create_or_refresh_vector_index opens row_count builds))
unfolding create_or_refresh_vector_index
vector-IsShort n (some e) row_count builds h k = call_failed-IsShort n e h
vector-IsShort n none row_count builds h k = elim (Bool-cases (ltb row_count 256)) [
  | inl e ↦ rw e (ground (arith, e))
  | inr e ↦ rw e (state_of-IsShort n builds k)
]

-- Whatever LanceDB raises in a refresh, with names of exception types of `n` characters at most, each
-- error in the states of the indexes has `n + 203` characters at most, and an index is skipped only
-- below 256 rows.
refreshed-IsShort :
    (n : ℕ) (b : Building)
    → IsNamed n b.opens_pages
    → ((field : Text) → IsNamed n (b.builds_fts field))
    → IsNamed n b.opens_embeddings
    → IsNamed n b.builds_vector
    → All (λ s. IsShort n s.1) (refreshed b).0 × IsShort n (refreshed b).1
unfolding refreshed
refreshed-IsShort n b pages fields embeddings vector = (
  fts-IsShort n b.opens_pages b.builds_fts pages fields,
  vector-IsShort n b.opens_embeddings b.row_count b.builds_vector embeddings vector,
)
