-- ===== src/Reads/Similar/Ranked.antt =====
-- What `source_similarity` returns.
use smalt_mcp.Prelude.{
  ℕ, Bool, ◌&&◌, sym, ◌∙◌, ◌+◌, ◌≤◌, ◌<◌, ◌≡◌, refl, ap, subst, arith, true, false, Option, none,
  some, List, [], ◌∷◌, any, All, length, max, Text, text_eq, text_eq_refl, text_eq→eq, leb, inl,
  inr, Bool-cases,
}
use smalt_mcp.Corpus.{External, World, PageRow, EmbeddingRow}
use smalt_mcp.Corpus.Actions.{done}
use smalt_mcp.Corpus.Yields.{Yields, Yields-then, Yields-settled, Yields-bind, Yields-gets}
use smalt_mcp.Tasks.Handlers.{LimitArg, default_limit, no_integer, plus, minus}
use smalt_mcp.Reads.Search.{row_of}
use smalt_mcp.Reads.Similar.{
  TypesArg, SimilarPage, SimilarPages, passes_types, parse_top_k, add_similar, pick_similar,
  hit_rows, other_page, searched, similar_reply, source_similarity,
}

parse_top_k-positive : (raw : LimitArg) (k : ℕ) → parse_top_k raw ≡ done k → 0 < k
parse_top_k-positive default_limit k h = let e : 10 ≡ k = cc in omega (arith, e)
parse_top_k-positive no_integer k h = cc
parse_top_k-positive (plus n) k h = ground (arith, h)
parse_top_k-positive (minus n) k h = cc

module _ (x : External) {D S : Type 0}
    (nearest : World x → (EmbeddingRow x.Vector → Bool) → x.Vector → ℕ → Option (List (Text × D)))
    (similarity : Option D → S) where
  -- The page is one of the hits, and its type passes.
  abbrev pub IsPicked : Option (List Text) → List (Text × D) → SimilarPage S → Type 0
  IsPicked types hits s =
      (any (λ h. text_eq h.0 s.id) hits ≡ true) × (passes_types types s.type ≡ true)

  All-more :
      (types : Option (List Text)) (h : Text × D) (hits : List (Text × D))
      (found : List (SimilarPage S))
      → All (IsPicked types hits) found
      → All (IsPicked types (h ∷ hits)) found
  All-more types h hits [] k = tt
  All-more types h hits (s ∷ found) k =
      ((ground (arith, k.0.0), k.0.1), All-more types h hits found k.1)

  abbrev ArePicked : Option (List Text) → ℕ → ℕ → List (Text × D) → List (SimilarPage S) → Type 0
  ArePicked types top_k found hits results =
      All (IsPicked types hits) results × (found + length results ≤ max (found + 1) top_k)

  add_similar-ArePicked :
      (o : Option (PageRow x.Rest)) (types : Option (List Text)) (top_k found : ℕ)
      (all : List (Text × D)) (id : Text) (d : D) (rest : List (Text × D))
      (more same : List (SimilarPage S))
      → ArePicked types top_k (found + 1) rest more
      → ArePicked types top_k found rest same
      → ArePicked types top_k found
          ((id, d) ∷ rest)
          (add_similar x nearest similarity o types (leb top_k (found + 1)) all id more same)
  add_similar-ArePicked none types top_k found all id d rest more same h k =
      (All-more types (id, d) rest same k.0, k.1)
  add_similar-ArePicked (some r) types top_k found all id d rest more same h k =
      elim (Bool-cases (passes_types types r.type)) [
        | inr e ↦ rw e (All-more types (id, d) rest same k.0, k.1)
        | inl e ↦ elim (Bool-cases (leb top_k (found + 1))) [
          | inl f ↦ rw (e, f) (((ground (arith, text_eq_refl id), e), tt), omega arith)
          | inr f ↦
              let room : found + 1 < top_k = ground (arith, f) in
              rw (e, f)
                (
                  ((ground (arith, text_eq_refl id), e), All-more types (id, d) rest more h.0),
                  omega (arith, room, h.1),
                )
        ]
      ]

  pick_similar-ArePicked :
      (rows : List (PageRow x.Rest)) (types : Option (List Text)) (top_k found : ℕ)
      (all hits : List (Text × D))
      → ArePicked types top_k found hits
          (pick_similar x nearest similarity rows types top_k found all hits)
  unfolding pick_similar
  pick_similar-ArePicked rows types top_k found all [] = (tt, omega arith)
  pick_similar-ArePicked rows types top_k found all ((id, d) ∷ rest) =
      add_similar-ArePicked (row_of x id rows) types top_k found all id d rest _ _
        (pick_similar-ArePicked rows types top_k (found + 1) all rest)
        (pick_similar-ArePicked rows types top_k found all rest)

  -- A page that passes and is not the source.
  abbrev pub IsSimilar : Text → Option (List Text) → SimilarPage S → Type 0
  IsSimilar source_id types s =
      (text_eq s.id source_id ≡ false) × (passes_types types s.type ≡ true)

  picked-IsSimilar :
      (source_id : Text) (types : Option (List Text)) (hits : List (Text × D))
      (results : List (SimilarPage S))
      → any (λ h. text_eq h.0 source_id) hits ≡ false
      → All (IsPicked types hits) results
      → All (IsSimilar source_id types) results
  picked-IsSimilar source_id types hits [] h k = tt
  picked-IsSimilar source_id types hits (s ∷ results) h k = (
    (
      elim (Bool-cases (text_eq s.id source_id)) [
        | inl e ↦
            let same = ap (λ i. any (λ h. text_eq h.0 i) hits) (text_eq→eq s.id source_id e) in
            cc (k.0.0, same, h)
        | inr e ↦ e
      ],
      k.0.1,
    ),
    picked-IsSimilar source_id types hits results h k.1,
  )

  -- What a reply to `source_id` with at most `top_k` results is like.
  abbrev pub AreSimilar : Text → ℕ → SimilarPages S → Type 0
  AreSimilar source_id top_k reply =
      All (IsSimilar source_id reply.types_filter) reply.results
      × (length reply.results ≤ top_k)
      × (reply.count ≡ length reply.results)

  similar_reply-AreSimilar :
      (w : World x) (source_id : Text) (top_k : ℕ) (types : Option (List Text))
      (hits : List (Text × D))
      → 0 < top_k
      → any (λ h. text_eq h.0 source_id) hits ≡ false
      → AreSimilar source_id top_k (similar_reply x nearest similarity w source_id top_k types hits)
  unfolding similar_reply
  similar_reply-AreSimilar w source_id top_k types [] pos own = (tt, omega arith, refl)
  similar_reply-AreSimilar w source_id top_k types (h ∷ hits) pos own =
      let (good, few) =
        pick_similar-ArePicked (hit_rows x nearest similarity w (h ∷ hits)) types top_k 0 (h ∷ hits)
          (h ∷ hits) in
      (picked-IsSimilar source_id types (h ∷ hits) _ own good, omega (arith, pos, few), refl)

  -- Every hit of the search is a row of the embeddings table that passes the filter, as LanceDB
  -- documents.
  abbrev pub Filters : Type 0
  Filters =
      (w : World x) (p : EmbeddingRow x.Vector → Bool) (v : x.Vector) (n : ℕ)
      (hits : List (Text × D)) (q : Text → Bool)
      → nearest w p v n ≡ some hits
      → any (λ h. q h.0) hits ≡ true
      → any (λ r. q r.page_id && p r) (x.embeddings.scan w.embeddings) ≡ true

  never_other :
      (source_id : Text) (rows : List (EmbeddingRow x.Vector))
      → any (λ r. text_eq r.page_id source_id && other_page x nearest similarity source_id r) rows
        ≡ false
  never_other source_id [] = refl
  never_other source_id (r ∷ rows) = ground (arith, never_other source_id rows)

  -- The filter of the program leaves the source out.
  hits-other :
      (w : World x) (source_id : Text) (v : x.Vector) (n : ℕ) (hits : List (Text × D))
      → Filters
      → nearest w (other_page x nearest similarity source_id) v n ≡ some hits
      → any (λ h. text_eq h.0 source_id) hits ≡ false
  hits-other w source_id v n hits filters found =
      elim (Bool-cases (any (λ h. text_eq h.0 source_id) hits)) [
        | inl e ↦
            let passed =
              filters w (other_page x nearest similarity source_id) v n hits
                (λ t. text_eq t source_id) found e in
            let no : false ≡ true =
              sym (never_other source_id (x.embeddings.scan w.embeddings)) ∙ passed in
            cc
        | inr e ↦ e
      ]

  searched-AreSimilar :
      (w : World x) (source_id : Text) (v : x.Vector) (n top_k : ℕ) (types : Option (List Text))
      (o : Option (List (Text × D))) (reply : SimilarPages S)
      → Filters
      → 0 < top_k
      → nearest w (other_page x nearest similarity source_id) v n ≡ o
      → searched x nearest similarity w source_id top_k types o ≡ done reply
      → AreSimilar source_id top_k reply
  searched-AreSimilar w source_id v n top_k types none reply own pos found h = cc
  searched-AreSimilar w source_id v n top_k types (some hits) reply own pos found h =
      let same : similar_reply x nearest similarity w source_id top_k types hits ≡ reply = cc in
      subst (AreSimilar source_id top_k) same (
        similar_reply-AreSimilar w source_id top_k types hits pos
          (hits-other w source_id v n hits own found))

  source_similarity-Yields :
      (source_id : Text) (top_k_raw : LimitArg) (types_raw : TypesArg) (top_k : ℕ)
      → Filters
      → parse_top_k top_k_raw ≡ done top_k
      → Yields
          (AreSimilar source_id top_k)
          (source_similarity x nearest similarity (some source_id) top_k_raw types_raw)
  unfolding source_similarity
  source_similarity-Yields source_id top_k_raw types_raw top_k own given = Yields-then _ _ λ u1.
      Yields-then _ _ λ u2. Yields-settled _ _ λ k parsed. Yields-settled _ _ λ types e.
        Yields-then _ _ λ vector. Yields-then _ _ λ v.
          Yields-bind
            {Q = λ o. (reply : SimilarPages S) → o ≡ done reply → AreSimilar source_id top_k reply}
            _ _
            (Yields-gets _ λ w reply h.
              let same : k ≡ top_k = cc in
              subst (λ n. AreSimilar source_id n reply) same
                (searched-AreSimilar w source_id v _ k types _ reply own
                  (parse_top_k-positive top_k_raw k parsed) refl h))
            λ o h. record { at = λ w a q. h a q }

  -- With a search whose hits are rows of the embeddings table that pass its filter: a reply of
  -- `source_similarity` has as many results as `top_k` allows at most, and counts them. No result is
  -- the source, and each has a type that the filter of types lets through.
  pub source_similarity-AreSimilar :
      (source_id : Text) (top_k_raw : LimitArg) (types_raw : TypesArg) (top_k : ℕ) (w : World x)
      (reply : SimilarPages S)
      → Filters
      → parse_top_k top_k_raw ≡ done top_k
      → (source_similarity x nearest similarity (some source_id) top_k_raw types_raw w).0
        ≡ done reply
      → AreSimilar source_id top_k reply
  source_similarity-AreSimilar source_id top_k_raw types_raw top_k w reply own given =
      (source_similarity-Yields source_id top_k_raw types_raw top_k own given).at w reply
