-- ===== src/Reads/Filters.antt =====
-- The property filters: `_parse_property_filters` and `_apply_property_filters`.
use smalt_mcp.Prelude.{
  ℕ, Bool, true, false, not, ◌&&◌, ◌||◌, Option, none, some, is_some, List, [], if◌then◌else◌, Text,
  text_eq, member, leb,
}
use smalt_mcp.Schema.{Frontmatter}
use smalt_mcp.Corpus.Actions.{Outcome, done, fail, validation_error, tool_error}

-- A `datetime`: with a time zone or without one, and its place on the time line.
pub record Moment : Type 0 where
  pub aware : Bool
  pub instant : ℕ

-- An argument: missing, of the right type, or of another one.
pub data Arg (A : Type 0) : Type 0 where
  missing wrong_type : Arg A
  given : A → Arg A

pub record FilterArgs : Type 0 where
  pub glossary : Arg Bool
  pub is_domain : Arg Bool
  pub domain : Arg Text
  pub has_aliases_containing : Arg Text
  pub fetched_at_before : Arg Text
  pub fetched_at_after : Arg Text

-- `filters`: the keys that the caller supplied.
pub record Filters : Type 0 where
  pub glossary : Option Bool
  pub is_domain : Option Bool
  pub domain : Option Text
  pub has_aliases_containing : Option Text
  pub fetched_at_before : Option Moment
  pub fetched_at_after : Option Moment

abbrev pub no_filters : Filters
no_filters = record {
  glossary = none;
  is_domain = none;
  domain = none;
  has_aliases_containing = none;
  fetched_at_before = none;
  fetched_at_after = none;
}

-- `bool(filters)`
abbrev pub has_filters : Filters → Bool
has_filters f =
    is_some f.glossary
    || is_some f.is_domain
    || is_some f.domain
    || is_some f.has_aliases_containing
    || is_some f.fetched_at_before
    || is_some f.fetched_at_after

abbrev and_then : {A B : Type 0} → Outcome A → (A → Outcome B) → Outcome B
and_then (fail e) f = fail e
and_then (done a) f = f a

abbrev bool_filter : Arg Bool → Outcome (Option Bool)
bool_filter missing = done none
bool_filter wrong_type = fail validation_error
bool_filter (given b) = done (some b)

-- A text must not be empty.
abbrev text_filter : Arg Text → Outcome (Option Text)
text_filter missing = done none
text_filter wrong_type = fail validation_error
text_filter (given t) = if text_eq t [] then fail validation_error else done (some t)

abbrev parsed_moment : Option Moment → Outcome (Option Moment)
parsed_moment none = fail validation_error
parsed_moment (some m) = done (some m)

-- `fm.get(key) != filters[key]`, negated.
abbrev pub bool_passes : Option Bool → Option Bool → Bool
bool_passes none value = true
bool_passes (some b) none = false
bool_passes (some true) (some v) = v
bool_passes (some false) (some v) = not v

abbrev pub member_passes : Option Text → List Text → Bool
member_passes none values = true
member_passes (some t) values = member t values

-- `a < b` for `datetime`s: with and without a time zone they do not compare.
abbrev earlier : Moment → Moment → Outcome Bool
earlier a b =
    if (a.aware && not b.aware) || (b.aware && not a.aware)
    then fail tool_error
    else done (not (leb b.instant a.instant))

abbrev pub before_passes : Option Moment → Moment → Outcome Bool
before_passes none m = done true
before_passes (some b) m = earlier m b

abbrev pub after_passes : Option Moment → Moment → Outcome Bool
after_passes none m = done true
after_passes (some b) m = earlier b m

-- Early returns of `False`.
abbrev pub and_passes : Outcome Bool → Outcome Bool → Outcome Bool
and_passes (fail e) rest = fail e
and_passes (done true) rest = rest
and_passes (done false) rest = done false

-- `fromisoformat` is `datetime.fromisoformat`; `none` is its `ValueError`.
module _ (fromisoformat : Text → Option Moment) where
  abbrev moment_filter : Arg Text → Outcome (Option Moment)
  moment_filter missing = done none
  moment_filter wrong_type = fail validation_error
  moment_filter (given t) = parsed_moment (fromisoformat t)

  -- `_parse_property_filters`
  unfoldable pub parse_property_filters : FilterArgs → Outcome Filters
  parse_property_filters args = and_then (bool_filter args.glossary) λ glossary.
      and_then (bool_filter args.is_domain) λ is_domain.
        and_then (text_filter args.domain) λ domain.
          and_then (text_filter args.has_aliases_containing) λ alias.
            and_then (moment_filter args.fetched_at_before) λ before.
              and_then (moment_filter args.fetched_at_after) λ after. done (record {
                glossary = glossary;
                is_domain = is_domain;
                domain = domain;
                has_aliases_containing = alias;
                fetched_at_before = before;
                fetched_at_after = after;
              })

  abbrev in_range : Filters → Option Moment → Outcome Bool
  in_range f none = done false
  in_range f (some m) =
      and_passes (before_passes f.fetched_at_before m) (after_passes f.fetched_at_after m)

  abbrev fetched_passes : Filters → Option Text → Outcome Bool
  fetched_passes f none = done false
  fetched_passes f (some t) = if text_eq t [] then done false else in_range f (fromisoformat t)

  abbrev range_passes : Filters → Option Text → Outcome Bool
  range_passes f fetched_at =
      if is_some f.fetched_at_before || is_some f.fetched_at_after
      then fetched_passes f fetched_at
      else done true

  -- `_apply_property_filters`; a failure is the `TypeError` of a comparison.
  unfoldable pub apply_property_filters :
      {Rest : Type 0} → Frontmatter Rest → Filters → Outcome Bool
  apply_property_filters fm f = and_passes (done (bool_passes f.glossary fm.glossary)) (
      and_passes (done (bool_passes f.is_domain fm.is_domain)) (
        and_passes (done (member_passes f.domain fm.domains)) (
          and_passes (done (member_passes f.has_aliases_containing fm.aliases))
            (range_passes f fm.fetched_at))))
