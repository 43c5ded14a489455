-- ===== src/Storage/Embedder/Dims.antt =====
-- Vectors of the embedder for tests have the dimension that was asked for.
use smalt_mcp.Prelude.{
  ℕ, zero, suc, ◌+◌, ◌*◌, ◌-◌, ◌≡◌, ◌≤◌, refl, ap, arith, Option, some, List, [], ◌∷◌, ◌++◌, All,
  subst, length, length-append, min, Text,
}
use smalt_mcp.Storage.Embedder.{
  Component, plus, minus, unpack, clamp, one_more, take_words, joined, room_after, expand,
  hash_to_vec, one_vector, embed,
}

-- The component is between -1 and 1.
abbrev pub IsUnit : Component → Type 0
IsUnit (plus n) = n ≤ 2147483648
IsUnit (minus n) = n ≤ 2147483648

clamp-IsUnit : (c : Component) → IsUnit (clamp c)
clamp-IsUnit (plus n) = omega arith
clamp-IsUnit (minus n) = omega arith

-- A list of so many components between -1 and 1.
pub record IsVector (n : ℕ) (v : List Component) : Type 0 where
  pub has_length : length v ≡ n
  pub all_units : All IsUnit v

abbrev Gives : ℕ → Option (List Component) → Type 0
Gives n o = (v : List Component) × (o ≡ some v) × IsVector n v

one_more-Gives :
    (n : ℕ) (c : Component) (o : Option (List Component))
    → IsUnit c
    → Gives n o
    → Gives (suc n) (one_more c o)
one_more-Gives n c o u (v, e, h) = (
  c ∷ v,
  ap (one_more c) e,
  record { has_length = ap suc h.has_length; all_units = (u, h.all_units) },
)

-- The inner loop on a whole number of words.
take_words-Gives :
    (room n : ℕ) (seed : List ℕ) → length seed ≡ 4 * n → Gives (min room n) (take_words room seed)
unfolding take_words
take_words-Gives zero n seed h = ([], refl, record { has_length = omega arith; all_units = tt })
take_words-Gives (suc room) n [] h =
    ([], refl, record { has_length = omega (arith, h); all_units = tt })
take_words-Gives (suc room) zero (a ∷ seed) h = absurd (omega (arith, h))
take_words-Gives (suc room) (suc n) (a ∷ b ∷ c ∷ d ∷ seed) h =
    let rest = take_words-Gives room n seed (omega (arith, h)) in
    let same : suc (min room n) ≡ min (suc room) (suc n) = omega arith in
    subst (λ m. Gives m (one_more (clamp (unpack a b c d)) (take_words room seed))) same
      (one_more-Gives (min room n) (clamp (unpack a b c d)) (take_words room seed)
        (clamp-IsUnit (unpack a b c d)) rest)
take_words-Gives (suc room) (suc n) (a ∷ b ∷ c ∷ []) h = absurd (omega (arith, h))
take_words-Gives (suc room) (suc n) (a ∷ b ∷ []) h = absurd (omega (arith, h))
take_words-Gives (suc room) (suc n) (a ∷ []) h = absurd (omega (arith, h))

All-append : (v w : List Component) → All IsUnit v → All IsUnit w → All IsUnit (v ++ w)
All-append [] w h k = k
All-append (c ∷ v) w h k = (h.0, All-append v w h.1 k)

module _ (sha256 : List ℕ → List ℕ) (encode : Text → List ℕ) where
  -- A digest has 32 bytes.
  abbrev pub Digests : Type 0
  Digests = (bytes : List ℕ) → length (sha256 bytes) ≡ 32

  joined-Gives :
      (n m : ℕ) (o p : Option (List Component)) → Gives n o → Gives m p → Gives (n + m) (joined o p)
  joined-Gives n m o p (v, e, h) (w, f, k) = (
    v ++ w,
    rw (e, f) refl,
    record {
      has_length = omega (arith, length-append v w, h.has_length, k.has_length);
      all_units = All-append v w h.all_units k.all_units;
    },
  )

  room_after-Gives :
      (room n : ℕ) (o : Option (List Component)) → Gives n o → room_after room o ≡ room - n
  room_after-Gives room n o (v, e, h) = rw e (ap (λ k. room - k) h.has_length)

  expand-Gives :
      (fuel room : ℕ) (seed : List ℕ)
      → Digests
      → length seed ≡ 32
      → room ≤ fuel
      → Gives room (expand sha256 encode fuel room seed)
  unfolding expand
  expand-Gives fuel zero seed d h f = ([], refl, record { has_length = refl; all_units = tt })
  expand-Gives zero (suc room) seed d h f = absurd (omega (arith, f))
  expand-Gives (suc fuel) (suc room) seed d h f =
      let first = take_words-Gives (suc room) 8 seed (omega (arith, h)) in
      let left =
        room_after-Gives (suc room) (min (suc room) 8) (take_words (suc room) seed) first in
      let rest =
        expand-Gives fuel (room_after (suc room) (take_words (suc room) seed)) (sha256 seed) d
          (d seed) (omega (arith, left, f)) in
      let whole : min (suc room) 8 + room_after (suc room) (take_words (suc room) seed) ≡ suc room =
        omega (arith, left) in
      subst
        (λ m. Gives m (
          joined (take_words (suc room) seed) (
            expand sha256 encode fuel (room_after (suc room) (take_words (suc room) seed))
              (sha256 seed))))
        whole (joined-Gives _ _ _ _ first rest)

  one_vector-embed :
      (dim : ℕ) (n : ℕ) (o : Option (List Component)) (vs : List (List Component))
      → Gives dim o
      → length vs ≡ n
      → All (IsVector dim) vs
      → (ws : List (List Component)) × (one_vector o (some vs) ≡ some ws)
        × (length ws ≡ suc n)
        × All (IsVector dim) ws
  one_vector-embed dim n o vs (v, e, h) k l = (v ∷ vs, rw e refl, ap suc k, (h, l))

  -- With a digest of 32 bytes, embedding ends without an error, with one vector for each text, each of
  -- the dimension asked for and with components between -1 and 1.
  pub embed-IsVector :
      (dim : ℕ) (texts : List Text)
      → Digests
      → (vs : List (List Component)) × (embed sha256 encode dim texts ≡ some vs)
        × (length vs ≡ length texts)
        × All (IsVector dim) vs
  unfolding embed hash_to_vec
  embed-IsVector dim [] d = ([], refl, refl, tt)
  embed-IsVector dim (t ∷ texts) d =
      let (vs, e, k, l) = embed-IsVector dim texts d in
      rw e (
        one_vector-embed dim (length texts) (hash_to_vec sha256 encode t dim) vs
          (expand-Gives dim dim (sha256 (encode t)) d (d (encode t)) (omega arith)) k l)
