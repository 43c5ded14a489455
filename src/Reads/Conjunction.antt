-- ===== src/Reads/Conjunction.antt =====
-- Property filters are conjunctive.
use smalt_mcp.Prelude.{◌≡◌, ◌↔◌, arith, true, Option, List, [], ◌∷◌, All, Text}
use smalt_mcp.Schema.{Frontmatter}
use smalt_mcp.Corpus.Actions.{done}
use smalt_mcp.Reads.Filters.{Moment, Filters, no_filters, apply_property_filters}

-- The filters one at a time.
abbrev pub singles : Filters → List Filters
singles f =
    record no_filters { glossary = f.glossary }
    ∷ record no_filters { is_domain = f.is_domain }
    ∷ record no_filters { domain = f.domain }
    ∷ record no_filters { has_aliases_containing = f.has_aliases_containing }
    ∷ record no_filters { fetched_at_before = f.fetched_at_before }
    ∷ record no_filters { fetched_at_after = f.fetched_at_after }
    ∷ []

module _ (fromisoformat : Text → Option Moment) {Rest : Type 0} (fm : Frontmatter Rest) where
  abbrev pub Passes : Filters → Type 0
  Passes f = apply_property_filters fromisoformat fm f ≡ done true

  -- A page passes a set of filters exactly if it passes each filter of the set alone.
  pub apply_property_filters-singles : (f : Filters) → Passes f ↔ All Passes (singles f)
  unfolding apply_property_filters
  apply_property_filters-singles f = ground arith
