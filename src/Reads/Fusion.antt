-- ===== src/Reads/Fusion.antt =====
-- `_rrf_fuse`: reciprocal rank fusion, with exact fractions for Python's floats.
use smalt_mcp.Prelude.{
  ℕ, ◌+◌, ◌*◌, ◌≡◌, refl, ap, ◌∙◌, arith, Bool, ◌||◌, List, [], ◌∷◌, any, if◌then◌else◌, Text,
  text_eq, text_eq→eq, Bool-cases, inl, inr,
}
use smalt_mcp.Indexer.Order.{sort_by, any-sort_by, IsSorted, sort_by-IsSorted}
use smalt_mcp.Reads.Fuzzy.{Score, score_le}

-- An item of the dictionary `scores`, which keeps the order of its keys.
pub record Scored : Type 0 where
  pub id : Text
  pub score : Score

abbrev plus : Score → Score → Score
plus a b = record {
  numerator = a.numerator * b.denominator + b.numerator * a.denominator;
  denominator = a.denominator * b.denominator;
}

-- `1.0 / (k + rank)` with the default `k = 60`
abbrev reciprocal : ℕ → Score
reciprocal rank = record { numerator = 1; denominator = 60 + rank }

-- `scores[pid] = scores.get(pid, 0.0) + ...`
unfoldable pub bump : Text → ℕ → List Scored → List Scored
bump id rank [] = record { id = id; score = reciprocal rank } ∷ []
bump id rank (s ∷ scores) =
    let rest = bump id rank scores in
    if text_eq s.id id
    then record s { score = plus s.score (reciprocal rank) } ∷ scores
    else s ∷ rest

unfoldable pub add_ranks : ℕ → List Text → List Scored → List Scored
unfolding bump
add_ranks rank [] scores = scores
add_ranks rank (id ∷ ranks) scores = add_ranks (rank + 1) ranks (bump id rank scores)

unfoldable pub add_rankings : List (List Text) → List Scored → List Scored
unfolding add_ranks
add_rankings [] scores = scores
add_rankings (ranks ∷ rankings) scores = add_rankings rankings (add_ranks 1 ranks scores)

-- `key=lambda kv: kv[1], reverse=True`
abbrev pub higher_first : Scored → Scored → Bool
higher_first a b = score_le b.score a.score

unfoldable pub rrf_fuse : List (List Text) → List Scored
unfolding add_rankings sort_by
rrf_fuse rankings = sort_by higher_first (add_rankings rankings [])

abbrev pub has_id : Text → Scored → Bool
has_id id s = text_eq s.id id

bump-has_id :
    (id other : Text) (rank : ℕ) (scores : List Scored)
    → any (has_id other) (bump id rank scores) ≡ (text_eq id other || any (has_id other) scores)
unfolding bump
bump-has_id id other rank [] = ground arith
bump-has_id id other rank (s ∷ scores) = elim (Bool-cases (text_eq s.id id)) [
  | inl e ↦
      let same : text_eq s.id other ≡ text_eq id other =
        ap (λ t. text_eq t other) (text_eq→eq s.id id e) in
      ground (arith, e, same)
  | inr e ↦ ground (arith, e, bump-has_id id other rank scores)
]

add_ranks-has_id :
    (rank : ℕ) (ranks : List Text) (scores : List Scored) (id : Text)
    → any (has_id id) (add_ranks rank ranks scores)
      ≡ (any (λ t. text_eq t id) ranks || any (has_id id) scores)
unfolding add_ranks
add_ranks-has_id rank [] scores id = refl
add_ranks-has_id rank (t ∷ ranks) scores id =
    ground (
      arith,
      add_ranks-has_id (rank + 1) ranks (bump t rank scores) id,
      bump-has_id t id rank scores,
    )

add_rankings-has_id :
    (rankings : List (List Text)) (scores : List Scored) (id : Text)
    → any (has_id id) (add_rankings rankings scores)
      ≡ (any (any (λ t. text_eq t id)) rankings || any (has_id id) scores)
unfolding add_rankings
add_rankings-has_id [] scores id = refl
add_rankings-has_id (ranks ∷ rankings) scores id = ground (
  arith,
  add_rankings-has_id rankings (add_ranks 1 ranks scores) id,
  add_ranks-has_id 1 ranks scores id,
)

-- Fusion ranks exactly the ids of its rankings, the higher scores first.
pub rrf_fuse-ids :
    (rankings : List (List Text)) (id : Text)
    → (any (has_id id) (rrf_fuse rankings) ≡ any (any (λ t. text_eq t id)) rankings)
      × IsSorted higher_first (rrf_fuse rankings)
unfolding rrf_fuse
rrf_fuse-ids rankings id = (
  any-sort_by higher_first (has_id id) (add_rankings rankings [])
      ∙ (add_rankings-has_id rankings [] id ∙ ground arith),
  sort_by-IsSorted higher_first (λ a b h. ground (arith, h)) (add_rankings rankings []),
)
