-- ===== src/Tools/Publish/Tests.antt =====
-- An update and a creation on the corpus of the other tests.
use smalt_mcp.Prelude.{◌≡◌, refl, [], none, codes}
use smalt_mcp.Ids.{
  validate_id, accepted, has_sep, validate_slug_id, matches_slug, is_reserved, matches_up_to,
}
use smalt_mcp.Ids.Separators.{count_sep}
use smalt_mcp.Ids.Chars.{is_alnum, is_slug_char, lower}
use smalt_mcp.Corpus.{Page}
use smalt_mcp.Corpus.Memory.{memory}
use smalt_mcp.Corpus.Pages.{existing_page_path}
use smalt_mcp.Tools.Tests.{world, cats, cats_path, cats-known, page_of}
use smalt_mcp.Tools.Write.{update_known, create_new}
use smalt_mcp.Tools.Publish.{IsPublished, update_known-IsPublished, create_new-IsPublished}

abbrev birds : Page memory
birds = page_of (codes "birds-a1") [] []

cats-accepted : validate_id (codes "cats") ≡ accepted
unfolding validate_id has_sep count_sep validate_slug_id matches_slug is_reserved matches_up_to
    is_alnum is_slug_char lower
cats-accepted = refl

birds-accepted : validate_id (codes "birds-a1") ≡ accepted
unfolding validate_id has_sep count_sep validate_slug_id matches_slug is_reserved matches_up_to
    is_alnum is_slug_char lower
birds-accepted = refl

birds-unknown : existing_page_path memory world (codes "birds-a1") ≡ none
unfolding existing_page_path
birds-unknown = refl

update_known-IsPublished_example :
    IsPublished memory world
      (update_known memory cats (codes "Still cats.") world).1
      cats
      (codes "Still cats.")
update_known-IsPublished_example =
    update_known-IsPublished memory world cats (codes "Still cats.") cats_path cats-accepted refl
      cats-known

create_new-IsPublished_example :
    IsPublished memory world
      (create_new memory (codes "birds") birds (codes "Birds.") world).1
      birds
      (codes "Birds.")
create_new-IsPublished_example =
    create_new-IsPublished memory world (codes "birds") birds (codes "Birds.") birds-accepted refl
      birds-unknown
