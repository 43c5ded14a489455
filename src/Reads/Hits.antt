-- ===== src/Reads/Hits.antt =====
-- What `search` returns.
use smalt_mcp.Prelude.{
  ℕ, suc, ◌+◌, ◌-◌, ◌≤◌, ◌<◌, ◌≡◌, refl, ◌∙◌, sym, arith, Bool, true, false, Option, none, some,
  List, [], ◌∷◌, any, any-take, take, length, length-take, length-append, All, max, leb, ltb,
  if◌then◌else◌, Text, codes, text_eq, text_eq_refl, subst,
}
use smalt_mcp.Corpus.{External, World, PageRow}
use smalt_mcp.Corpus.Actions.{Outcome, done, fail}
use smalt_mcp.Reads.Filters.{Moment, Filters}
use smalt_mcp.Reads.Fusion.{Scored, has_id, rrf_fuse, rrf_fuse-ids}
use smalt_mcp.Reads.Search.{
  ℤ, pos, negsuc, up_to, room, Hit, snippet_of, row_of, pick_hit, pick, picked, answer,
  candidate_pool,
}

ellipsis-length : (b : Bool) → length (if b then codes "…" else []) ≤ 1
ellipsis-length true = omega arith
ellipsis-length false = omega arith

snippet_of-length : (body : Text) → length (snippet_of body) ≤ 201
snippet_of-length body =
    let cut = length-take 200 body in
    let mark = ellipsis-length (ltb 200 (length body)) in
    let whole = length-append (take 200 body) (if ltb 200 (length body) then codes "…" else []) in
    omega (arith, cut, mark, whole)

any-up_to {ℓ} :
    {A : Type ℓ} (k : ℤ) (p : A → Bool) (items : List A)
    → any p (up_to k items) ≡ true
    → any p items ≡ true
any-up_to (pos n) p items h = any-take n p items h
any-up_to (negsuc n) p items h = any-take (length items - suc n) p items h

module _ (x : External) (fromisoformat : Text → Option Moment) (split : Text → List Text)
    (by_text by_vector : World x → Text → ℤ → Option (List Text)) where
  -- The hit's id is one of the pool's, and its snippet is short.
  abbrev pub IsHit : List Scored → Hit → Type 0
  IsHit pool h = (any (has_id h.id) pool ≡ true) × (length h.snippet ≤ 201)

  All-later :
      (s : Scored) (pool : List Scored) (hits : List Hit)
      → All (IsHit pool) hits
      → All (IsHit (s ∷ pool)) hits
  All-later s pool [] h = tt
  All-later s pool (hit ∷ hits) h = ((ground (arith, h.0.0), h.0.1), All-later s pool hits h.1)

  -- Hits from a pool, as many as there is room for.
  abbrev AreHits : ℕ → ℕ → List Scored → List Hit → Type 0
  AreHits top_k found pool hits =
      All (IsHit pool) hits × (found + length hits ≤ max (found + 1) top_k)

  pick_hit-AreHits :
      (o : Option (PageRow x.Rest)) (full : Bool) (top_k found : ℕ) (s : Scored)
      (pool : List Scored) (more same : List Hit)
      → full ≡ leb top_k (found + 1)
      → AreHits top_k (found + 1) pool more
      → AreHits top_k found pool same
      → AreHits top_k found
          (s ∷ pool)
          (pick_hit x fromisoformat split by_text by_vector o full s more same)
  pick_hit-AreHits none full top_k found s pool more same e h k = (All-later s pool same k.0, k.1)
  pick_hit-AreHits (some r) true top_k found s pool more same e h k =
      (((ground (arith, text_eq_refl s.id), snippet_of-length r.body), tt), omega arith)
  pick_hit-AreHits (some r) false top_k found s pool more same e h k =
      let room : found + 1 < top_k = ground (arith, e) in
      (
        ((ground (arith, text_eq_refl s.id), snippet_of-length r.body), All-later s pool more h.0),
        omega (arith, room, h.1),
      )

  pick-AreHits :
      (rows : List (PageRow x.Rest)) (top_k found : ℕ) (pool : List Scored)
      → AreHits top_k found pool
          (pick x fromisoformat split by_text by_vector rows top_k found pool)
  unfolding pick
  pick-AreHits rows top_k found [] = (tt, omega arith)
  pick-AreHits rows top_k found (s ∷ pool) =
      pick_hit-AreHits (row_of x s.id rows) _ top_k found s pool _ _ refl
        (pick-AreHits rows top_k (found + 1) pool) (pick-AreHits rows top_k found pool)

  picked-AreHits :
      (o : Outcome (List (PageRow x.Rest))) (top_k : ℕ) (pool : List Scored) (hits : List Hit)
      → picked x fromisoformat split by_text by_vector o top_k pool ≡ done hits
      → AreHits top_k 0 pool hits
  picked-AreHits (fail e) top_k pool hits h = cc
  picked-AreHits (done rows) top_k pool hits h =
      let same : pick x fromisoformat split by_text by_vector rows top_k 0 pool ≡ hits = cc in
      subst (AreHits top_k 0 pool) same (pick-AreHits rows top_k 0 pool)

  answer-AreHits :
      (w : World x) (f : Filters) (top_k : ℤ) (pool : List Scored) (hits : List Hit)
      → answer x fromisoformat split by_text by_vector w f top_k pool ≡ done hits
      → AreHits (room top_k) 0 pool hits
  unfolding answer
  answer-AreHits w f top_k [] hits h =
      let same : [] ≡ hits = cc in subst (AreHits (room top_k) 0 []) same (tt, omega arith)
  answer-AreHits w f top_k (s ∷ pool) hits h = picked-AreHits _ (room top_k) (s ∷ pool) hits h

  -- The id was ranked, and the snippet has 200 characters at most and an ellipsis.
  abbrev pub IsRanked : List (List Text) → Hit → Type 0
  IsRanked lists h = (any (any (λ t. text_eq t h.id)) lists ≡ true) × (length h.snippet ≤ 201)

  ranked :
      (f : Filters) (top_k : ℤ) (lists : List (List Text)) (hits : List Hit)
      → All
          (IsHit (candidate_pool x fromisoformat split by_text by_vector f top_k (rrf_fuse lists)))
          hits
      → All (IsRanked lists) hits
  ranked f top_k lists [] h = tt
  ranked f top_k lists (hit ∷ hits) h = (
    (sym (rrf_fuse-ids lists hit.id).0 ∙ any-up_to _ (has_id hit.id) (rrf_fuse lists) h.0.0, h.0.1),
    ranked f top_k lists hits h.1,
  )

  -- The answer of a search that succeeds has `top_k` hits at most, and one at most where `top_k` is
  -- zero or negative. Each was ranked by one of the fused rankings, and has a snippet of 200 characters at most, with an
  -- ellipsis where the body is longer.
  pub answer-IsRanked :
      (w : World x) (f : Filters) (top_k : ℤ) (lists : List (List Text)) (hits : List Hit)
      → answer x fromisoformat split by_text by_vector w f top_k
          (candidate_pool x fromisoformat split by_text by_vector f top_k (rrf_fuse lists))
        ≡ done hits
      → All (IsRanked lists) hits × (length hits ≤ max 1 (room top_k))
  answer-IsRanked w f top_k lists hits h =
      let (good, few) = answer-AreHits w f top_k _ hits h in
      (ranked f top_k lists hits good, omega (arith, few))
