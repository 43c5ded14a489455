-- ===== src/Reads/Similar.antt =====
-- `source_similarity`: the pages whose embeddings are nearest to that of a page.
pub mod Ranked
mod Tests
use smalt_mcp.Prelude.{
  ℕ, ◌+◌, ◌*◌, ◌≡◌, Bool, true, false, not, ◌&&◌, Option, none, some, is_some, List, [], ◌∷◌, any,
  map, length, max, if◌then◌else◌, Text, text_eq, leb, ltb, member, ◌==◌,
}
use smalt_mcp.Schema.{PageType, entity, concept, source, synthesis, index}
use smalt_mcp.Storage.Paths.{FilePath}
use smalt_mcp.Corpus.{External, World, Do, PageRow, EmbeddingRow}
use smalt_mcp.Corpus.Actions.{
  Outcome, done, fail, missing_argument, invalid_argument, not_found, vector_search_failed, settled,
  ◌>>=◌, ◌>>◌, gets, or_stop, stop_if,
}
use smalt_mcp.Corpus.Pages.{ensure_initialized}
use smalt_mcp.Tools.Links.{absent, value_or}
use smalt_mcp.Tasks.Handlers.{LimitArg, default_limit, no_integer, plus, minus}
use smalt_mcp.Reads.Listing.{type_value}
use smalt_mcp.Reads.Search.{row_of}

-- The argument `types`: missing, a list of strings, or something else.
pub data TypesArg : Type 0 where
  any_types no_type_list : TypesArg
  types_given : List Text → TypesArg

abbrev pub parse_top_k : LimitArg → Outcome ℕ
parse_top_k default_limit = done 10
parse_top_k no_integer = fail invalid_argument
parse_top_k (plus n) = if n == 0 then fail invalid_argument else done n
parse_top_k (minus n) = fail invalid_argument

-- `{p.value for p in PageType}`
abbrev pub valid_types : List Text
valid_types = map type_value (entity ∷ concept ∷ source ∷ synthesis ∷ index ∷ [])

abbrev pub parse_types : TypesArg → Outcome (Option (List Text))
parse_types any_types = done none
parse_types no_type_list = fail invalid_argument
parse_types (types_given ts) =
    if any (λ t. not (member t valid_types)) ts then fail invalid_argument else done (some ts)

-- `fetch_k`
abbrev pub similar_fetch_k : Option (List Text) → ℕ → ℕ
similar_fetch_k types top_k = if is_some types then max ((top_k + 1) * 5) 50 else top_k + 1

-- The filter of the loop: an empty list of types filters nothing.
abbrev pub passes_types : Option (List Text) → PageType → Bool
passes_types none type = true
passes_types (some []) type = true
passes_types (some (t ∷ ts)) type = member (type_value type) (t ∷ ts)

-- An entry of `results`.
pub record SimilarPage (S : Type 0) : Type 0 where
  pub id : Text
  pub title : Text
  pub type : PageType
  pub path : FilePath
  pub aliases : List Text
  pub similarity : S

-- The reply; without hits it has no `truncated`.
pub record SimilarPages (S : Type 0) : Type 0 where
  pub source_id : Text
  pub results : List (SimilarPage S)
  pub count : ℕ
  pub types_filter : Option (List Text)
  pub truncated : Option Bool

-- `nearest` is LanceDB's search for the embeddings that pass a filter, nearest first, up to a limit,
-- where `none` is an exception. `similarity` is `round(1.0 - distance, 6)`, of 1.0 where there is no distance.
module _ (x : External) {D S : Type 0}
    (nearest : World x → (EmbeddingRow x.Vector → Bool) → x.Vector → ℕ → Option (List (Text × D)))
    (similarity : Option D → S) where
  abbrev or_that : Option D → Text × D → Text → Option D
  or_that (some later) hit id = some later
  or_that none hit id = if text_eq hit.0 id then some hit.1 else none

  -- `id_to_distance.get(pid)`: as in a `dict`, the last distance of an id counts.
  unfoldable pub distance_of : Text → List (Text × D) → Option D
  distance_of id [] = none
  distance_of id (hit ∷ hits) = or_that (distance_of id hits) hit id

  abbrev page_for : List (Text × D) → Text → PageRow x.Rest → SimilarPage S
  page_for hits id r = record {
    id = id;
    title = r.title;
    type = r.type;
    path = r.path;
    aliases = r.frontmatter.aliases;
    similarity = similarity (distance_of id hits);
  }

  abbrev pub add_similar :
      Option (PageRow x.Rest)
      → Option (List Text)
      → Bool
      → List (Text × D)
      → Text
      → (more same : List (SimilarPage S)) → List (SimilarPage S)
  add_similar none types full hits id more same = same
  add_similar (some r) types full hits id more same =
      if passes_types types r.type then page_for hits id r ∷ (if full then [] else more) else same

  -- The loop over the hits; `found` results are there already, and `hits` are all of them.
  unfoldable pub pick_similar :
      List (PageRow x.Rest)
      → Option (List Text)
      → ℕ
      → ℕ
      → List (Text × D)
      → List (Text × D)
      → List (SimilarPage S)
  unfolding row_of distance_of
  pick_similar rows types top_k found hits [] = []
  pick_similar rows types top_k found hits ((id, d) ∷ rest) =
      add_similar (row_of x id rows) types (leb top_k (found + 1)) hits id
        (pick_similar rows types top_k (found + 1) hits rest)
        (pick_similar rows types top_k found hits rest)

  abbrev pub hit_rows : World x → List (Text × D) → List (PageRow x.Rest)
  hit_rows w hits = x.pages.select (λ r. member r.id (map (λ h. h.0) hits)) (length hits) w.pages

  unfoldable pub similar_reply :
      World x → Text → ℕ → Option (List Text) → List (Text × D) → SimilarPages S
  unfolding pick_similar
  similar_reply w source_id top_k types [] = record {
    source_id = source_id;
    results = [];
    count = 0;
    types_filter = types;
    truncated = none;
  }
  similar_reply w source_id top_k types (hit ∷ hits) =
      let results =
        pick_similar (hit_rows w (hit ∷ hits)) types top_k 0 (hit ∷ hits) (hit ∷ hits) in
      record {
        source_id = source_id;
        results = results;
        count = length results;
        types_filter = types;
        truncated = some (
            is_some types
            && ltb (length results) top_k
            && leb (similar_fetch_k types top_k) (length (hit ∷ hits)));
      }

  abbrev first_vector : List (EmbeddingRow x.Vector) → Option x.Vector
  first_vector [] = none
  first_vector (r ∷ rows) = some r.vector

  -- The stored embedding of the page.
  unfoldable pub source_vector : World x → Text → Option x.Vector
  source_vector w source_id =
      first_vector (x.embeddings.select (λ r. text_eq r.page_id source_id) 1 w.embeddings)

  abbrev pub searched :
      World x → Text → ℕ → Option (List Text) → Option (List (Text × D)) → Outcome (SimilarPages S)
  searched w source_id top_k types none = fail (vector_search_failed source_id)
  searched w source_id top_k types (some hits) = done (similar_reply w source_id top_k types hits)

  -- `page_id != source_id`
  abbrev pub other_page : Text → EmbeddingRow x.Vector → Bool
  other_page source_id r = not (text_eq r.page_id source_id)

  unfoldable pub source_similarity : Option Text → LimitArg → TypesArg → Do x (SimilarPages S)
  unfolding similar_reply source_vector
  source_similarity source_id top_k_raw types_raw = do
    ensure_initialized x
    stop_if (absent source_id) missing_argument
    top_k ← settled (parse_top_k top_k_raw)
    types ← settled (parse_types types_raw)
    vector ← gets (λ w. source_vector w (value_or [] source_id))
    query_vec ← or_stop vector (not_found (value_or [] source_id))
    outcome ← gets (λ w.
        searched w (value_or [] source_id) top_k types
          (nearest w (other_page (value_or [] source_id)) query_vec (similar_fetch_k types top_k)))
    settled outcome
