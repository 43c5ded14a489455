-- ===== src/Indexer/Order.antt =====
-- Python's `sorted` on texts, paths and entries: insertion by a Boolean order, equal items in order.
use smalt_mcp.Prelude.{
  Bool, true, false, ◌&&◌, ◌||◌, List, [], ◌∷◌, ltb, ◌==◌, if◌then◌else◌, Text, any, ◌≡◌, arith,
  refl, ap, ◌∙◌, suc, length, All, inl, inr, Bool-cases,
}
use smalt_mcp.Storage.Paths.{FilePath}

-- `s <= t` on strings, by code points
abbrev pub text_le : Text → Text → Bool
text_le [] t = true
text_le (a ∷ s) [] = false
text_le (a ∷ s) (b ∷ t) = ltb a b || a == b && text_le s t

abbrev pub path_le : FilePath → FilePath → Bool
path_le [] q = true
path_le (a ∷ p) [] = false
path_le (a ∷ p) (b ∷ q) = if text_le a b then (if text_le b a then path_le p q else true) else false

module _ {A : Type 0} (le : A → A → Bool) where
  unfoldable pub insert_sorted : A → List A → List A
  insert_sorted x [] = x ∷ []
  insert_sorted x (y ∷ ys) = if le x y then x ∷ y ∷ ys else y ∷ insert_sorted x ys

  unfoldable pub sort_by : List A → List A
  unfolding insert_sorted
  sort_by [] = []
  sort_by (x ∷ xs) = insert_sorted x (sort_by xs)

  any-insert_sorted :
      (q : A → Bool) (x : A) (ys : List A) → any q (insert_sorted x ys) ≡ (q x || any q ys)
  unfolding insert_sorted
  any-insert_sorted q x [] = refl
  any-insert_sorted q x (y ∷ ys) = ground (arith, any-insert_sorted q x ys)

  -- Sorting keeps the members.
  pub any-sort_by : (q : A → Bool) (xs : List A) → any q (sort_by xs) ≡ any q xs
  unfolding sort_by
  any-sort_by q [] = refl
  any-sort_by q (x ∷ xs) = ground (arith, any-insert_sorted q x (sort_by xs), any-sort_by q xs)

  length-insert_sorted : (x : A) (ys : List A) → length (insert_sorted x ys) ≡ suc (length ys)
  unfolding insert_sorted
  length-insert_sorted x [] = refl
  length-insert_sorted x (y ∷ ys) = ground (arith, length-insert_sorted x ys)

  pub length-sort_by : (xs : List A) → length (sort_by xs) ≡ length xs
  unfolding sort_by
  length-sort_by [] = refl
  length-sort_by (x ∷ xs) = length-insert_sorted x (sort_by xs) ∙ ap suc (length-sort_by xs)

  -- Neighbours are in order.
  abbrev pub IsSorted : List A → Type 0
  IsSorted [] = Unit
  IsSorted (x ∷ []) = Unit
  IsSorted (x ∷ y ∷ ys) = (le x y ≡ true) × IsSorted (y ∷ ys)

  tail-IsSorted : (y : A) (ys : List A) → IsSorted (y ∷ ys) → IsSorted ys
  tail-IsSorted y [] h = tt
  tail-IsSorted y (z ∷ ys) h = h.1

  behind-IsSorted :
      (y x : A) (ys : List A)
      → le y x ≡ true
      → IsSorted (y ∷ ys)
      → IsSorted (insert_sorted x ys)
      → IsSorted (y ∷ insert_sorted x ys)
  unfolding insert_sorted
  behind-IsSorted y x [] e h k = (e, tt)
  behind-IsSorted y x (z ∷ ys) e h k = elim (Bool-cases (le x z)) [
    | inl i ↦ rw i (e, (rw i at k))
    | inr i ↦ rw i (h.0, (rw i at k))
  ]

  insert_sorted-IsSorted :
      ((a b : A) → le a b ≡ false → le b a ≡ true)
      → (x : A) (ys : List A) → IsSorted ys
      → IsSorted (insert_sorted x ys)
  unfolding insert_sorted
  insert_sorted-IsSorted total x [] h = tt
  insert_sorted-IsSorted total x (y ∷ ys) h = elim (Bool-cases (le x y)) [
    | inl e ↦ rw e (e, h)
    | inr e ↦ rw e (
        behind-IsSorted y x ys (total x y e) h
          (insert_sorted-IsSorted total x ys (tail-IsSorted y ys h)))
  ]

  All-insert_sorted {κ} :
      (P : A → Type κ) (x : A) (ys : List A) → P x → All P ys → All P (insert_sorted x ys)
  unfolding insert_sorted
  All-insert_sorted P x [] h k = (h, tt)
  All-insert_sorted P x (y ∷ ys) h k = elim (Bool-cases (le x y)) [
    | inl e ↦ rw e (h, k)
    | inr e ↦ rw e (k.0, All-insert_sorted P x ys h k.1)
  ]

  pub All-sort_by {κ} : (P : A → Type κ) (xs : List A) → All P xs → All P (sort_by xs)
  unfolding sort_by
  All-sort_by P [] h = tt
  All-sort_by P (x ∷ xs) h = All-insert_sorted P x (sort_by xs) h.0 (All-sort_by P xs h.1)

  -- Where any two items are in order one way or the other, the result of sorting is sorted.
  pub sort_by-IsSorted :
      ((a b : A) → le a b ≡ false → le b a ≡ true) → (xs : List A) → IsSorted (sort_by xs)
  unfolding sort_by
  sort_by-IsSorted total [] = tt
  sort_by-IsSorted total (x ∷ xs) =
      insert_sorted-IsSorted total x (sort_by xs) (sort_by-IsSorted total xs)

pub text_le_total : (s t : Text) → text_le s t ≡ false → text_le t s ≡ true
text_le_total [] t h = ground arith
text_le_total (a ∷ s) [] h = refl
text_le_total (a ∷ s) (b ∷ t) h = ground (arith, h, text_le_total s t)
