-- ===== src/Storage/Embedder/Tests.antt =====
-- A digest that repeats eight words, with the largest and the smallest component among them.
use smalt_mcp.Prelude.{ℕ, ◌≡◌, refl, some, List, [], ◌∷◌, All, length, codes}
use smalt_mcp.Storage.Embedder.{Component, plus, minus, take_words, expand, hash_to_vec, embed}
use smalt_mcp.Storage.Embedder.Dims.{IsVector, Digests, embed-IsVector}

abbrev word_of : ℕ → List ℕ → List ℕ
word_of top rest = 255 ∷ 255 ∷ 255 ∷ top ∷ rest

abbrev digest : List ℕ → List ℕ
digest bytes =
    0
    ∷ 0
    ∷ 0
    ∷ 128
    ∷ word_of 127 (word_of 255 (word_of 0 (word_of 1 (word_of 2 (word_of 3 (word_of 4 []))))))

digest-Digests : Digests digest (λ t. t)
digest-Digests bytes = refl

-- The smallest and the largest number of 32 bits, and minus one.
three-computed :
    hash_to_vec digest (λ t. t) (codes "cat") 3
    ≡ some (minus 2147483648 ∷ plus 2147483647 ∷ minus 1 ∷ [])
unfolding hash_to_vec expand take_words
three-computed = refl

embed-IsVector_example :
    (vs : List (List Component)) × (embed digest (λ t. t) 12 (codes "cat" ∷ codes "dog" ∷ [])
      ≡ some vs)
    × (length vs ≡ 2)
    × All (IsVector 12) vs
embed-IsVector_example =
    embed-IsVector digest (λ t. t) 12 (codes "cat" ∷ codes "dog" ∷ []) digest-Digests
