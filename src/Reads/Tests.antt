-- ===== src/Reads/Tests.antt =====
-- Lookups on the corpus of the tool tests.
use smalt_mcp.Prelude.{
  map, ◌≡◌, ◌≤◌, ◌↔◌, refl, max, Bool, true, false, Option, none, some, List, [], ◌∷◌, length, All,
  Text, codes,
}
use smalt_mcp.Corpus.{World}
use smalt_mcp.Corpus.Memory.{memory}
use smalt_mcp.Corpus.Actions.{done}
use smalt_mcp.Indexer.Order.{IsSorted, sort_by, insert_sorted}
use smalt_mcp.Tools.Tests.{world, cats, cats_row}
use smalt_mcp.Reads.Filters.{Moment, Filters, no_filters}
use smalt_mcp.Reads.Conjunction.{singles, Passes, apply_property_filters-singles}
use smalt_mcp.Reads.Listing.{collect, list_rows}
use smalt_mcp.Reads.Fuzzy.{Score, round_4, find_pages_by_alias_fuzzy, better_first}
use smalt_mcp.Reads.Scores.{IsMatch, find_pages_by_alias_fuzzy-IsMatch}
use smalt_mcp.Reads.Aliases.{
  PageRead, fetch_page_row, find_pages_by_alias, resolved_via_alias, lookup,
}
use smalt_mcp.Reads.Resolve.{IsResolved, lookup-IsResolved}
use smalt_mcp.Reads.Fusion.{rrf_fuse, add_rankings, add_ranks, bump}
use smalt_mcp.Reads.Search.{
  ℤ, pos, negsuc, fetched, up_to, room, Hit, answer, candidate_pool, hydrate, pick, row_of,
}
use smalt_mcp.Reads.Hits.{IsRanked, answer-IsRanked}

-- No date is read, and strings are in lower case.
abbrev no_date : Text → Option Moment
no_date t = none

abbrev as_is : Text → Text
as_is t = t

abbrev like_none : Text → Text → Bool
like_none pattern t = false

abbrev one_word : Text → List Text
one_word t = t ∷ []

abbrev unranked : World memory → Text → ℤ → Option (List Text)
unranked w query limit = none

abbrev three_fifths : Score
three_fifths = record { numerator = 3; denominator = 5 }

-- The page of cats with an alias.
abbrev aliased : World memory
aliased = record world { pages = record cats_row { aliases = codes "felines" ∷ [] } ∷ [] }

abbrev not_glossary : Filters
not_glossary = record no_filters { glossary = some false; domain = some (codes "animals") }

apply_property_filters-singles_example :
    Passes no_date cats not_glossary ↔ All (Passes no_date cats) (singles not_glossary)
apply_property_filters-singles_example = apply_property_filters-singles no_date cats not_glossary

two-listed :
    list_rows memory no_date like_none no_filters 2 (cats_row ∷ cats_row ∷ cats_row ∷ [])
    ≡ done (cats_row ∷ cats_row ∷ [])
unfolding list_rows collect
two-listed = refl

find_pages_by_alias_fuzzy-IsMatch_example :
    All
      (IsMatch as_is memory three_fifths (codes "feline"))
      (find_pages_by_alias_fuzzy as_is memory three_fifths aliased (codes "feline"))
    × IsSorted
        (better_first as_is memory)
        (find_pages_by_alias_fuzzy as_is memory three_fifths aliased (codes "feline"))
find_pages_by_alias_fuzzy-IsMatch_example =
    find_pages_by_alias_fuzzy-IsMatch as_is memory three_fifths aliased (codes "feline")

abbrev by_alias : PageRead memory
by_alias = resolved_via_alias (record cats_row { aliases = codes "felines" ∷ [] }) (codes "felines")

felines-found : lookup memory as_is three_fifths aliased (codes "felines") true ≡ done by_alias
unfolding lookup fetch_page_row find_pages_by_alias
felines-found = refl

lookup-IsResolved_example : IsResolved memory as_is three_fifths aliased (codes "felines") by_alias
lookup-IsResolved_example =
    lookup-IsResolved memory as_is three_fifths aliased (codes "felines") true by_alias
      felines-found

-- 2 / 3 is reported as 0.6667, 1 / 3 as 0.3333, and the half of 1 / 32 goes to the even digit.
scores-rounded :
    (round_4 (record { numerator = 2; denominator = 3 })
      ≡ record { numerator = 6667; denominator = 10000 })
    × (round_4 (record { numerator = 1; denominator = 3 })
        ≡ record { numerator = 3333; denominator = 10000 })
    × (round_4 (record { numerator = 1; denominator = 32 })
        ≡ record { numerator = 312; denominator = 10000 })
scores-rounded = (refl, refl, refl)

abbrev hit : Hit
hit = record {
  id = codes "cats";
  aliases = [];
  title = codes "Cats";
  type = cats_row.type;
  snippet = codes "Cats.";
  score = record { numerator = 32522; denominator = 1000000 };
}

abbrev ranked_lists : List (List Text)
ranked_lists = (codes "cats" ∷ []) ∷ (codes "dogs" ∷ codes "cats" ∷ []) ∷ []

cats-answered :
    answer memory no_date one_word unranked unranked world no_filters (pos 2) (
      candidate_pool memory no_date one_word unranked unranked no_filters
        (pos 2)
        (rrf_fuse ranked_lists))
    ≡ done (hit ∷ [])
unfolding answer hydrate pick row_of rrf_fuse add_rankings add_ranks bump sort_by insert_sorted
cats-answered = refl

pools-cut :
    (map (λ s. s.id) (up_to (negsuc 0) (rrf_fuse ranked_lists)) ≡ codes "cats" ∷ [])
    × (up_to (negsuc 1) (rrf_fuse ranked_lists) ≡ [])
    × (fetched (negsuc 3) ≡ pos 1)
    × (fetched (negsuc 6) ≡ negsuc 1)
unfolding rrf_fuse add_rankings add_ranks bump sort_by insert_sorted
pools-cut = (refl, refl, refl, refl)

answer-IsRanked_example :
    All (IsRanked memory no_date one_word unranked unranked ranked_lists) (hit ∷ [])
    × (length (hit ∷ []) ≤ max 1 (room (pos 2)))
answer-IsRanked_example =
    answer-IsRanked memory no_date one_word unranked unranked world no_filters (pos 2) ranked_lists
      (hit ∷ []) cats-answered
