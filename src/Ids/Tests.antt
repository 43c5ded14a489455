-- ===== src/Ids/Tests.antt =====
-- The path theorems on concrete ids.
use smalt_mcp.Prelude.{◌≡◌, ◌≢◌, refl, List, [], ◌∷◌, ◌++◌, some, All, Text, codes}
use smalt_mcp.Schema.{source, concept}
use smalt_mcp.Storage.Paths.{pages_dir}
use smalt_mcp.Ids.{
  validate_id, has_sep, validate_slug_id, validate_section_id, accepted, matches_slug, is_reserved,
  matches_up_to, matches_any, matches_component, check_rel_path, check_components, check_component,
  base_name,
}
use smalt_mcp.Ids.Separators.{count_sep, split_sep, split_on}
use smalt_mcp.Ids.Chars.{is_alnum, is_slug_char, is_component_char, lower}
use smalt_mcp.Ids.Paths.{page_target_path, IsEntry, page_target_path-inside}
use smalt_mcp.Ids.Injective.{page_target_path-injective}

section_id-accepted : validate_id (codes "book::ch1/intro.md") ≡ accepted
unfolding validate_id has_sep count_sep validate_section_id split_sep validate_slug_id matches_slug
    matches_up_to is_alnum is_slug_char is_reserved lower check_rel_path split_on check_components
    check_component base_name matches_component matches_any is_component_char
section_id-accepted = refl

slug_id-accepted : validate_id (codes "cats") ≡ accepted
unfolding validate_id has_sep count_sep validate_slug_id matches_slug matches_up_to is_alnum
    is_slug_char is_reserved lower
slug_id-accepted = refl

page_target_path-inside_example :
    (entries : List Text) × (page_target_path [] source (codes "book::ch1/intro.md")
      ≡ some ((pages_dir [] ++ codes "sources" ∷ []) ++ entries))
    × (entries ≢ [])
    × All IsEntry entries
page_target_path-inside_example =
    page_target_path-inside [] source (codes "book::ch1/intro.md") section_id-accepted refl

page_target_path-injective_example : codes "cats" ≡ codes "cats"
page_target_path-injective_example =
    page_target_path-injective [] concept (codes "cats") (codes "cats") slug_id-accepted
      slug_id-accepted refl refl

-- `$` matches before a trailing newline, so this id passes, and it is no reserved name.
newline_id-accepted : validate_id (codes "con" ++ 10 ∷ []) ≡ accepted
unfolding validate_id has_sep count_sep validate_slug_id matches_slug matches_up_to is_alnum
    is_slug_char is_reserved lower
newline_id-accepted = refl
