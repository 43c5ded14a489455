-- ===== src/Tools/Indexed/Tests.antt =====
-- The index of the corpus of two pages after a run and after an update.
use mathlib.Core.Option.{some-injective}
use smalt_mcp.Prelude.{
  ◌≡◌, refl, ap, sym, ◌∙◌, arith, true, false, any, none, some, [], ◌∷◌, Text, codes, subst,
  text_eq_refl,
}
use smalt_mcp.Ids.{
  accepted, validate_id, has_sep, validate_slug_id, matches_slug, is_reserved, matches_up_to,
}
use smalt_mcp.Ids.Separators.{count_sep, split_on}
use smalt_mcp.Ids.Paths.{page_target_path}
use smalt_mcp.Storage.Paths.{join_path, parts_of}
use smalt_mcp.Ids.Chars.{is_alnum, is_slug_char, lower}
use smalt_mcp.Schema.{concept}
use smalt_mcp.Corpus.{World, IndexResult}
use smalt_mcp.Corpus.Memory.{memory}
use smalt_mcp.Corpus.Actions.{done, ◌>>=◌}
use smalt_mcp.Corpus.Files.{read_file, write_file, path_eq, path_eq→eq}
use smalt_mcp.Corpus.Pages.{
  ParsedPage, parse_page, parse_content, existing_page_path, serialize_and_write_page,
}
use smalt_mcp.Indexer.{
  distinct, iter_page_files, hash_of, page_rows, embedding_rows, replace_links_for_page,
  replace_claims_for_page, replace_owned, upsert, project, delete_page, delete_pages,
}
use smalt_mcp.Indexer.Run.{
  run_indexer, run_with, scan_files, scan_file, scan_parsed, stale_ids, sweep, finish,
  project_and_refresh, regenerate_index_pages, collect_concept_entries, format_index_page,
  file_content_matches,
}
use smalt_mcp.Indexer.Order.{sort_by}
use smalt_mcp.Indexer.Scanned.{clashes}
use smalt_mcp.Indexer.Projected.{IsIndexed}
use smalt_mcp.Indexer.Fresh.{IsAlone, run_indexer-IsIndexed}
use smalt_mcp.Tools.Write.{PageWritten, update_known, overwrite_page}
use smalt_mcp.Tools.Effects.{rewritten}
use smalt_mcp.Tools.Indexed.{update_known-IsIndexed}
use smalt_mcp.Tools.Tests.{world, cats, cats_path, parsed_cats, cats-known, cats-parsed}

abbrev one_updated : IndexResult
one_updated = record {
  scanned = 1;
  inserted = 0;
  updated = 1;
  skipped = 0;
  deleted = 0;
  failed = 0;
  failures = [];
  cancelled = false;
}

abbrev body : Text
body = codes "Still cats."

abbrev updated : PageWritten
updated = record {
  written = record {
    id = codes "cats";
    original_id = none;
    path = cats_path;
    type = concept;
    mangled = false;
    upserted = none;
  };
  index_result = one_updated;
}

world-files : iter_page_files memory world ≡ cats_path ∷ []
unfolding iter_page_files sort_by distinct
world-files = refl

abbrev after : World memory
after = (serialize_and_write_page memory cats_path cats body world).1

after-files : iter_page_files memory after ≡ cats_path ∷ []
unfolding iter_page_files sort_by distinct serialize_and_write_page write_file
after-files = refl

cats-accepted : validate_id (codes "cats") ≡ accepted
unfolding validate_id has_sep count_sep validate_slug_id matches_slug is_reserved matches_up_to
    is_alnum is_slug_char lower
cats-accepted = refl

after-parsed : parse_page memory after.files cats_path ≡ some (rewritten memory cats_path cats body)
unfolding parse_page parse_content read_file write_file serialize_and_write_page validate_id has_sep
    count_sep validate_slug_id matches_slug is_reserved matches_up_to is_alnum is_slug_char lower
after-parsed = refl

-- A corpus with one page file has no clashing one.
pub one-IsAlone :
    (w : World memory) (p : ParsedPage memory)
    → iter_page_files memory w ≡ cats_path ∷ []
    → parse_page memory w.files cats_path ≡ some p
    → IsAlone memory p w
one-IsAlone w p files parsed other q h k =
    let here : any (path_eq other) (cats_path ∷ []) ≡ true =
      subst (λ l. any (path_eq other) l ≡ true) files h in
    let e : other ≡ cats_path = path_eq→eq other cats_path (ground (arith, here)) in
    let same : p ≡ q =
      some-injective _ _ (sym parsed ∙ (ap (λ z. parse_page memory w.files z) (sym e) ∙ k)) in
    subst (λ z. clashes memory p z ≡ false) same
      (ground (arith, text_eq_refl p.frontmatter.id, text_eq_refl p.content_hash))

world-indexed : (run_indexer memory world).0 ≡ done one_updated
unfolding run_indexer run_with scan_files sweep finish iter_page_files hash_of project
    project_and_refresh regenerate_index_pages collect_concept_entries format_index_page
    file_content_matches distinct sort_by validate_id has_sep count_sep validate_slug_id
    matches_slug is_reserved matches_up_to is_alnum is_slug_char lower upsert page_rows
    embedding_rows replace_links_for_page replace_claims_for_page read_file write_file parse_page
    parse_content replace_owned delete_page delete_pages scan_file scan_parsed stale_ids ◌>>=◌
world-indexed = refl

run_indexer-IsIndexed_example : IsIndexed memory parsed_cats (run_indexer memory world).1
run_indexer-IsIndexed_example =
    run_indexer-IsIndexed memory world cats_path parsed_cats one_updated
      (ap (any (path_eq cats_path)) world-files) cats-parsed refl
      (one-IsAlone world parsed_cats world-files cats-parsed) world-indexed

cats-updated : (update_known memory cats body world).0 ≡ done updated
unfolding update_known overwrite_page existing_page_path serialize_and_write_page run_indexer
    run_with scan_files sweep finish iter_page_files hash_of project project_and_refresh
    regenerate_index_pages collect_concept_entries format_index_page file_content_matches distinct
    sort_by validate_id has_sep count_sep validate_slug_id matches_slug is_reserved matches_up_to
    is_alnum is_slug_char lower upsert page_rows embedding_rows replace_links_for_page
    replace_claims_for_page read_file write_file parse_page parse_content replace_owned delete_page
    delete_pages scan_file scan_parsed stale_ids page_target_path join_path parts_of split_on ◌>>=◌
cats-updated = refl

cats-target : page_target_path [] concept (codes "cats") ≡ some cats_path
unfolding page_target_path count_sep join_path parts_of split_on
cats-target = refl

update_known-IsIndexed_example :
    IsIndexed memory (rewritten memory cats_path cats body) (update_known memory cats body world).1
update_known-IsIndexed_example =
    update_known-IsIndexed memory world cats body cats_path cats_path updated cats-accepted refl
      cats-target cats-known refl
      (one-IsAlone after (rewritten memory cats_path cats body) after-files after-parsed)
      cats-updated
