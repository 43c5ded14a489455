-- ===== src/Reads/Search.antt =====
-- `_find_alias_matches` and `search`, over a pages table that has the `aliases` column.
use smalt_mcp.Prelude.{
  ℕ, suc, ◌+◌, ◌-◌, ◌*◌, Bool, true, false, Option, none, some, List, [], ◌∷◌, ◌++◌, map, any, take,
  length, max, if◌then◌else◌, Text, codes, text_eq, leb, ltb, member,
}
use smalt_mcp.Schema.{PageType}
use smalt_mcp.Corpus.{External, World, Do, PageRow}
use smalt_mcp.Corpus.Actions.{
  Outcome, done, fail, missing_argument, settled, ◌>>=◌, ◌>>◌, pure, gets, stop_if,
}
use smalt_mcp.Corpus.Pages.{ensure_initialized}
use smalt_mcp.Tools.Links.{absent, value_or}
use smalt_mcp.Reads.Filters.{
  Moment, FilterArgs, Filters, has_filters, parse_property_filters, apply_property_filters,
}
use smalt_mcp.Reads.Listing.{prepend}
use smalt_mcp.Reads.Fuzzy.{Score, round_6}
use smalt_mcp.Reads.Fusion.{Scored, rrf_fuse}

-- An integer as an argument: `pos n` is `n`, and `negsuc n` is `-n - 1`.
pub data ℤ : Type 0 where
  pos negsuc : ℕ → ℤ

-- An entry of `results`.
pub record Hit : Type 0 where
  pub id : Text
  pub aliases : List Text
  pub title : Text
  pub type : PageType
  pub snippet : Text
  pub score : Score

pub record SearchResults : Type 0 where
  pub results : List Hit
  pub count : ℕ

-- `body[:200] + ("…" if len(body) > 200 else "")`
abbrev pub snippet_of : Text → Text
snippet_of body = take 200 body ++ (if ltb 200 (length body) then codes "…" else [])

-- `max(top_k * 3, top_k + 5)`, which is `top_k + 5` for a negative number.
abbrev pub fetched : ℤ → ℤ
fetched (pos n) = pos (max (n * 3) (n + 5))
fetched (negsuc n) = if leb n 4 then pos (4 - n) else negsuc (n - 5)

-- `max(fetch_k * 5, 100)`
abbrev pub deeper : ℤ → ℤ
deeper (pos n) = pos (max (n * 5) 100)
deeper (negsuc n) = pos 100

abbrev pub fetch_k : Bool → ℤ → ℤ
fetch_k has_props top_k = if has_props then deeper (fetched top_k) else fetched top_k

-- `items[:k]`, where a negative number counts from the end.
abbrev pub up_to {ℓ} : {A : Type ℓ} → ℤ → List A → List A
up_to (pos n) items = take n items
up_to (negsuc n) items = take (length items - suc n) items

-- `top_k`, as the number of results is compared with it: every number reaches a negative one.
abbrev pub room : ℤ → ℕ
room (pos n) = n
room (negsuc n) = 0

-- `except Exception`: no ranking.
abbrev pub ranking_or_none : Option (List Text) → List Text
ranking_or_none none = []
ranking_or_none (some ids) = ids

module _ (x : External) where
  abbrev pub or_this : Option (PageRow x.Rest) → PageRow x.Rest → Text → Option (PageRow x.Rest)
  or_this (some later) r id = some later
  or_this none r id = if text_eq r.id id then some r else none

  -- `by_id.get(pid)`: as in a `dict`, the last row of an id counts.
  unfoldable pub row_of : Text → List (PageRow x.Rest) → Option (PageRow x.Rest)
  row_of id [] = none
  row_of id (r ∷ rows) = or_this (row_of id rows) r id

-- `split` is `str.split`; `by_text` and `by_vector` are LanceDB's rankings of page ids for a query,
-- up to a limit (LanceDB's answer to a negative one included), where `none` is an exception.
module _ (x : External) (fromisoformat : Text → Option Moment) (split : Text → List Text)
    (by_text by_vector : World x → Text → ℤ → Option (List Text)) where
  -- `_find_alias_matches`
  unfoldable pub find_alias_matches : World x → Text → List Text
  find_alias_matches w query =
      map (λ r. r.id)
        (x.pages.select (λ r. any (λ needle. member needle r.aliases) (query ∷ split query)) 10000
          w.pages)

  abbrev pub rankings : World x → Text → ℤ → List (List Text)
  rankings w query limit =
      ranking_or_none (by_text w query limit)
      ∷ ranking_or_none (by_vector w query limit)
      ∷ find_alias_matches w query
      ∷ []

  abbrev passes_filters : Filters → PageRow x.Rest → Outcome Bool
  passes_filters f r =
      if has_filters f then apply_property_filters fromisoformat r.frontmatter f else done true

  abbrev keep_row :
      Outcome Bool
      → PageRow x.Rest
      → Outcome (List (PageRow x.Rest))
      → Outcome (List (PageRow x.Rest))
  keep_row (fail e) r rest = fail e
  keep_row (done true) r rest = prepend r rest
  keep_row (done false) r rest = rest

  -- The rows that make `by_id`.
  unfoldable pub hydrate : Filters → List (PageRow x.Rest) → Outcome (List (PageRow x.Rest))
  hydrate f [] = done []
  hydrate f (r ∷ rows) = keep_row (passes_filters f r) r (hydrate f rows)

  abbrev hit_of : Scored → PageRow x.Rest → Hit
  hit_of s r = record {
    id = s.id;
    aliases = r.frontmatter.aliases;
    title = r.title;
    type = r.type;
    snippet = snippet_of r.body;
    score = round_6 s.score;
  }

  abbrev pub pick_hit : Option (PageRow x.Rest) → Bool → Scored → List Hit → List Hit → List Hit
  pick_hit none full s more same = same
  pick_hit (some r) true s more same = hit_of s r ∷ []
  pick_hit (some r) false s more same = hit_of s r ∷ more

  -- The loop that picks `results`; `found` hits are there already.
  unfoldable pub pick : List (PageRow x.Rest) → ℕ → ℕ → List Scored → List Hit
  unfolding row_of
  pick rows top_k found [] = []
  pick rows top_k found (s ∷ pool) =
      pick_hit (row_of x s.id rows) (leb top_k (found + 1)) s (pick rows top_k (found + 1) pool)
        (pick rows top_k found pool)

  abbrev pub candidate_pool : Filters → ℤ → List Scored → List Scored
  candidate_pool f top_k fused = up_to (if has_filters f then fetch_k true top_k else top_k) fused

  abbrev pub ids_of : List Scored → List Text
  ids_of pool = map (λ s. s.id) pool

  abbrev pub picked : Outcome (List (PageRow x.Rest)) → ℕ → List Scored → Outcome (List Hit)
  picked (fail e) top_k pool = fail e
  picked (done rows) top_k pool = done (pick rows top_k 0 pool)

  -- The answer for a pool of candidates.
  unfoldable pub answer : World x → Filters → ℤ → List Scored → Outcome (List Hit)
  unfolding hydrate pick
  answer w f top_k [] = done []
  answer w f top_k (s ∷ pool) =
      let ids = ids_of (s ∷ pool) in
      picked (hydrate f (x.pages.select (λ r. member r.id ids) (length ids) w.pages)) (room top_k)
        (s ∷ pool)

  unfoldable pub search : Option Text → ℤ → FilterArgs → Do x SearchResults
  unfolding find_alias_matches rrf_fuse answer parse_property_filters
  search query top_k args = do
    ensure_initialized x
    stop_if (absent query) missing_argument
    f ← settled (parse_property_filters fromisoformat args)
    fused ← gets (λ w. rrf_fuse (rankings w (value_or [] query) (fetch_k (has_filters f) top_k)))
    outcome ← gets (λ w. answer w f top_k (candidate_pool f top_k fused))
    hits ← settled outcome
    pure (record { results = hits; count = length hits })
