-- ===== src/Storage/Embedder.antt =====
-- `make_embedder` and the embedder for tests of src/smalt_mcp/storage/embedder.py.
pub mod Dims
mod Tests
use smalt_mcp.Prelude.{
  ℕ, zero, suc, ◌+◌, ◌*◌, ◌-◌, Bool, Option, none, some, List, [], ◌∷◌, ◌++◌, length, min,
  if◌then◌else◌, ltb, Text, codes, text_eq, ◌||◌,
}

-- `EmbeddingConfig` of src/smalt_mcp/config.py, with a dimension that is not negative.
pub record EmbeddingConfig : Type 0 where
  pub provider : Text
  pub model : Text
  pub dim : ℕ

pub data Embedder : Type 0 where
  fastembed_embedder : Text → ℕ → Embedder
  fake_embedder : ℕ → Embedder

-- `NotImplementedError` and `ValueError`.
pub data Made : Type 0 where
  made : Embedder → Made
  not_implemented unknown_provider : Text → Made

-- `lower` is `str.lower`.
unfoldable pub make_embedder : (Text → Text) → EmbeddingConfig → Made
make_embedder lower cfg =
    let provider = lower cfg.provider in
    if text_eq provider (codes "fastembed")
    then made (fastembed_embedder cfg.model cfg.dim)
    else if text_eq provider (codes "fake")
    then made (fake_embedder cfg.dim)
    else if text_eq provider (codes "voyage") || text_eq provider (codes "openai")
    then not_implemented provider
    else unknown_provider provider

unfoldable pub model_version : Embedder → Text
model_version (fastembed_embedder model dim) = codes "fastembed:" ++ model
model_version (fake_embedder dim) = codes "fake:test"

-- A component of a vector, a multiple of 2 ^ -31: `plus n` is n / 2 ^ 31, and `minus n` is the number
-- below zero. Such a number of at most 32 bits is exact as a float.
pub data Component : Type 0 where
  plus minus : ℕ → Component

-- `struct.unpack("i", ...)` of four bytes, the lowest first, over 2 ^ 31.
abbrev pub unpack : ℕ → ℕ → ℕ → ℕ → Component
unpack a b c d =
    let word = a + 256 * b + 65536 * c + 16777216 * d in
    if ltb word 2147483648 then plus word else minus (4294967296 - word)

-- `max(-1.0, min(1.0, ...))`
abbrev pub clamp : Component → Component
clamp (plus n) = plus (min n 2147483648)
clamp (minus n) = minus (min n 2147483648)

abbrev pub one_more : Component → Option (List Component) → Option (List Component)
one_more c none = none
one_more c (some cs) = some (c ∷ cs)

-- The inner loop, with room for so many components; `none` is the error of `struct.unpack` on fewer
-- than four bytes.
unfoldable pub take_words : ℕ → List ℕ → Option (List Component)
take_words zero seed = some []
take_words (suc room) [] = some []
take_words (suc room) (a ∷ b ∷ c ∷ d ∷ seed) =
    one_more (clamp (unpack a b c d)) (take_words room seed)
take_words (suc room) _ = none

abbrev pub joined : Option (List Component) → Option (List Component) → Option (List Component)
joined (some first) (some rest) = some (first ++ rest)
joined _ _ = none

abbrev pub room_after : ℕ → Option (List Component) → ℕ
room_after room none = room
room_after room (some first) = room - length first

abbrev pub one_vector :
    Option (List Component) → Option (List (List Component)) → Option (List (List Component))
one_vector (some v) (some vs) = some (v ∷ vs)
one_vector _ _ = none

-- `sha256` is the digest of bytes, and `encode` is UTF-8.
module _ (sha256 : List ℕ → List ℕ) (encode : Text → List ℕ) where
  -- The outer loop, on fuel: `none` is an error or a lack of fuel.
  unfoldable pub expand : ℕ → ℕ → List ℕ → Option (List Component)
  unfolding take_words
  expand fuel zero seed = some []
  expand zero (suc room) seed = none
  expand (suc fuel) (suc room) seed =
      let first = take_words (suc room) seed in
      joined first (expand fuel (room_after (suc room) first) (sha256 seed))

  -- `_hash_to_vec`; each round makes one component at least, so the dimension is enough fuel.
  unfoldable pub hash_to_vec : Text → ℕ → Option (List Component)
  unfolding expand
  hash_to_vec text dim = expand dim dim (sha256 (encode text))

  -- `FakeEmbedder.embed`
  unfoldable pub embed : ℕ → List Text → Option (List (List Component))
  unfolding hash_to_vec
  embed dim [] = some []
  embed dim (t ∷ texts) = one_vector (hash_to_vec t dim) (embed dim texts)
