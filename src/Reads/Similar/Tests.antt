-- ===== src/Reads/Similar/Tests.antt =====
-- Pages similar to an indexed page, on the corpus of two pages.
use smalt_mcp.Prelude.{
  ℕ, ◌≡◌, refl, arith, false, Option, some, List, [], ◌∷◌, any, Text, codes, Bool, take, keep, ap,
  ◌∙◌, sym, any-keep, any-take,
}
use mathlib.Core.Option.{some-injective}
use smalt_mcp.Schema.{concept}
use smalt_mcp.Corpus.{World, EmbeddingRow}
use smalt_mcp.Corpus.Actions.{done, ◌>>=◌}
use smalt_mcp.Corpus.Pages.{ensure_initialized}
use smalt_mcp.Corpus.Memory.{memory}
use smalt_mcp.Tools.Tests.{world, cats_path}
use smalt_mcp.Tasks.Handlers.{plus}
use smalt_mcp.Reads.Search.{row_of}
use smalt_mcp.Reads.Similar.{
  types_given, SimilarPages, source_similarity, similar_reply, source_vector, pick_similar,
  distance_of,
}
use smalt_mcp.Reads.Similar.Ranked.{Filters, AreSimilar, source_similarity-AreSimilar}

abbrev Embedding : Type 0
Embedding = EmbeddingRow (Unit {0})

-- The pages of some rows, each at the same distance.
abbrev measured : List Embedding → List (Text × ℕ)
measured [] = []
measured (r ∷ rows) = (r.page_id, 1) ∷ measured rows

-- The first rows that pass the filter.
abbrev near : World memory → (Embedding → Bool) → Unit {0} → ℕ → Option (List (Text × ℕ))
near w p v n = some (measured (take n (keep p w.embeddings)))

abbrev same_distance : Option ℕ → Option ℕ
same_distance d = d

measured-any :
    (q : Text → Bool) (rows : List Embedding)
    → any (λ h. q h.0) (measured rows) ≡ any (λ r. q r.page_id) rows
measured-any q [] = refl
measured-any q (r ∷ rows) = ground (arith, measured-any q rows)

near-Filters : Filters memory near same_distance
near-Filters w p v n hits q found h =
    let here = ap (any (λ z. q z.0)) (some-injective _ _ found) ∙ h in
    let taken = sym (measured-any q (take n (keep p w.embeddings))) ∙ here in
    sym (any-keep p (λ r. q r.page_id) w.embeddings)
    ∙ any-take n (λ r. q r.page_id) (keep p w.embeddings) taken

abbrev embedding_of : Text → Embedding
embedding_of id = record { page_id = id; vector = tt; model_version = codes "none" }

-- The source is the first row of the table.
abbrev embedded : World memory
embedded = record world {
  embeddings = embedding_of (codes "dogs") ∷ embedding_of (codes "cats") ∷ [];
}

abbrev cats_similar : SimilarPages (Option ℕ)
cats_similar = record {
  source_id = codes "dogs";
  results =
      record {
        id = codes "cats";
        title = codes "Cats";
        type = concept;
        path = cats_path;
        aliases = [];
        similarity = some 1;
      }
      ∷ [];
  count = 1;
  types_filter = some (codes "concept" ∷ []);
  truncated = some false;
}

dogs-answered :
    (source_similarity memory near same_distance
      (some (codes "dogs"))
      (plus 3)
      (types_given (codes "concept" ∷ []))
      embedded).0
    ≡ done cats_similar
unfolding source_similarity similar_reply source_vector pick_similar distance_of row_of
    ensure_initialized ◌>>=◌
dogs-answered = refl

source_similarity-AreSimilar_example :
    AreSimilar memory near same_distance (codes "dogs") 3 cats_similar
source_similarity-AreSimilar_example =
    source_similarity-AreSimilar memory near same_distance (codes "dogs") (plus 3)
      (types_given (codes "concept" ∷ [])) 3 embedded cats_similar near-Filters refl dogs-answered
