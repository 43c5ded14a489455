-- ===== src/Setup/Tests.antt =====
-- A corpus that is set up twice, and one whose index is rebuilt.
use smalt_mcp.Prelude.{◌≡◌, refl, ap, Bool, true, false, [], ◌∷◌, any, Text}
use smalt_mcp.Ids.{validate_id, has_sep, validate_slug_id, matches_slug, is_reserved, matches_up_to}
use smalt_mcp.Ids.Separators.{count_sep}
use smalt_mcp.Ids.Chars.{is_alnum, is_slug_char, lower}
use smalt_mcp.Corpus.Memory.{memory}
use smalt_mcp.Corpus.Actions.{done, ◌>>=◌}
use smalt_mcp.Corpus.Files.{read_file, write_file, path_eq}
use smalt_mcp.Corpus.Pages.{parse_page, parse_content, with_mutex}
use smalt_mcp.Indexer.{
  distinct, iter_page_files, hash_of, page_rows, embedding_rows, replace_links_for_page,
  replace_claims_for_page, replace_owned, upsert, project, delete_page, delete_pages,
}
use smalt_mcp.Indexer.Run.{
  run_indexer, run_with, scan_files, scan_file, scan_parsed, stale_ids, sweep, finish,
  project_and_refresh, regenerate_index_pages, collect_concept_entries, format_index_page,
  file_content_matches,
}
use smalt_mcp.Indexer.Order.{sort_by}
use smalt_mcp.Indexer.Projected.{IsIndexed}
use smalt_mcp.Tools.Tests.{world, cats_path, parsed_cats, cats-parsed}
use smalt_mcp.Tools.Indexed.Tests.{one-IsAlone}
use smalt_mcp.Setup.Missing.{add_missing}
use smalt_mcp.Setup.Tables.{ensure_tables, clear_created, migrate_pages_aliases_column}
use smalt_mcp.Setup.{Site, Bootstrapped, prepare, bootstrap}
use smalt_mcp.Setup.Reindex.{Rebuilt, all_tables, drop_tables, rebuild, do_reindex}
use smalt_mcp.Setup.Rebuilt.{DropsAll, do_reindex-forgets, do_reindex-IsIndexed}
use smalt_mcp.Setup.Again.{IsReady, nothing_created, bootstrap-again, bootstrapped-IsReady}

abbrev bare : Site memory
bare = record { dirs = []; notes = []; tables = []; world = world }

bootstrapped-IsReady_example : IsReady memory (bootstrap memory bare).1
bootstrapped-IsReady_example = bootstrapped-IsReady memory bare

abbrev no_pages : Site memory
no_pages = record bare { world = record world { files = []; pages = [] } }

abbrev second : Bootstrapped
second = record {
  prepared = nothing_created memory;
  index_result = record {
    scanned = 2;
    inserted = 0;
    updated = 0;
    skipped = 2;
    deleted = 0;
    failed = 0;
    failures = [];
    cancelled = false;
  };
}

set_up-again : (bootstrap memory (bootstrap memory no_pages).1).0 ≡ done second
unfolding bootstrap prepare with_mutex add_missing ensure_tables clear_created
    migrate_pages_aliases_column run_indexer run_with scan_files sweep finish iter_page_files
    hash_of project project_and_refresh regenerate_index_pages collect_concept_entries
    format_index_page file_content_matches distinct sort_by validate_id has_sep count_sep
    validate_slug_id matches_slug is_reserved matches_up_to is_alnum is_slug_char lower upsert
    page_rows embedding_rows replace_links_for_page replace_claims_for_page read_file write_file
    parse_page parse_content replace_owned delete_page delete_pages scan_file scan_parsed stale_ids
    ◌>>=◌
set_up-again = refl

bootstrap-again_example : second.prepared ≡ nothing_created memory
bootstrap-again_example = bootstrap-again memory no_pages second set_up-again

abbrev always : Text → Bool
always n = true

always-DropsAll : DropsAll memory always
always-DropsAll n = refl

-- The same corpus behind an index that knows no page.
abbrev stale : Site memory
stale = record bare { world = record world { pages = []; links = [] } }

do_reindex-forgets_example :
    (do_reindex memory always false false stale).1.world
    ≡ (do_reindex memory always false false bare).1.world
do_reindex-forgets_example =
    do_reindex-forgets memory always bare stale always-DropsAll (record { same_world = refl })

abbrev rebuilt : Rebuilt
rebuilt = record {
  wiped_tables = [];
  recreated_tables = all_tables;
  index_result = record {
    scanned = 1;
    inserted = 1;
    updated = 0;
    skipped = 0;
    deleted = 0;
    failed = 0;
    failures = [];
    cancelled = false;
  };
}

stale-rebuilt : (do_reindex memory always false false stale).0 ≡ done rebuilt
unfolding do_reindex rebuild drop_tables add_missing ensure_tables clear_created run_with scan_files
    sweep finish iter_page_files hash_of project project_and_refresh regenerate_index_pages
    collect_concept_entries format_index_page file_content_matches distinct sort_by validate_id
    has_sep count_sep validate_slug_id matches_slug is_reserved matches_up_to is_alnum is_slug_char
    lower upsert page_rows embedding_rows replace_links_for_page replace_claims_for_page read_file
    write_file parse_page parse_content replace_owned delete_page delete_pages scan_file scan_parsed
    stale_ids ◌>>=◌
stale-rebuilt = refl

stale-files : iter_page_files memory stale.world ≡ cats_path ∷ []
unfolding iter_page_files sort_by distinct
stale-files = refl

do_reindex-IsIndexed_example :
    IsIndexed memory parsed_cats (do_reindex memory always false false stale).1.world
do_reindex-IsIndexed_example =
    do_reindex-IsIndexed memory always stale cats_path parsed_cats rebuilt always-DropsAll
      (ap (any (path_eq cats_path)) stale-files) cats-parsed refl
      (one-IsAlone stale.world parsed_cats stale-files cats-parsed) stale-rebuilt
