-- ===== src/Tools/WriteBatch/Tests.antt =====
-- Batches on the corpus of two pages.
use smalt_mcp.Prelude.{◌≡◌, refl, none, some, List, [], ◌∷◌, codes, false}
use smalt_mcp.Corpus.Memory.{memory}
use smalt_mcp.Corpus.Actions.{done, ◌>>=◌}
use smalt_mcp.Corpus.Pages.{
  ensure_initialized, with_mutex, parse_content, serialize_and_write_page, locate_page_file,
  existing_page_path, parse_page,
}
use smalt_mcp.Corpus.Files.{read_file, write_file}
use smalt_mcp.Ids.{validate_id, has_sep, validate_slug_id, matches_slug, is_reserved, matches_up_to}
use smalt_mcp.Ids.Separators.{count_sep}
use smalt_mcp.Ids.Chars.{is_alnum, is_slug_char, lower}
use smalt_mcp.Indexer.{
  distinct, iter_page_files, hash_of, page_rows, embedding_rows, replace_links_for_page,
  replace_claims_for_page, replace_owned, upsert, project, delete_page, delete_pages,
}
use smalt_mcp.Indexer.Run.{
  run_indexer, run_with, scan_files, scan_file, scan_parsed, stale_ids, sweep, finish,
  project_and_refresh, regenerate_index_pages, collect_concept_entries, format_index_page,
  file_content_matches,
}
use smalt_mcp.Indexer.Order.{sort_by}
use smalt_mcp.Tools.Claims.{update_claim_locked}
use smalt_mcp.Tools.WriteBatch.Validate.{
  RawOp, link_kind, validate_op, validate_ops, add_link, update_op,
}
use smalt_mcp.Tools.WriteBatch.{BatchWritten, write_batch, write_batch_locked}
use smalt_mcp.Tools.WriteBatch.Commit.{
  link_duplicate, check_op, check_ops, commit_op, commit_ops, commit_link,
}
use smalt_mcp.Tools.WriteBatch.Alone.{write_batch_locked-update_claim}
use smalt_mcp.Tools.WriteBatch.Results.{IsComplete, write_batch-IsComplete}
use smalt_mcp.Tools.Tests.{
  world, cats_path, claim_of, to_dogs, parsed_cats, cats-located, cats-parsed, purr-replaced,
}

write_batch_locked-update_claim_example :
    (write_batch_locked memory
      (update_op (codes "cats") (codes "c1") (claim_of (codes "hiss")) ∷ [])
      world).1
    ≡ (update_claim_locked memory (codes "cats") (codes "c1") (claim_of (codes "hiss")) world).1
write_batch_locked-update_claim_example =
    write_batch_locked-update_claim memory world (codes "cats") (codes "c1")
      (claim_of (codes "hiss")) cats_path parsed_cats (claim_of (codes "hiss") ∷ []) cats-located
      cats-parsed purr-replaced

-- A link that the page has already.
abbrev entries : List (RawOp memory)
entries =
    add_link (some (codes "cats")) (some (codes "dogs"))
      (some (record { label = none; via_source = none }))
    ∷ []

abbrev entries_written : BatchWritten
entries_written = record {
  count = 1;
  results =
      record { index = 0; kind = link_kind; id = codes "cats"; effect = link_duplicate to_dogs }
      ∷ [];
  index_result = record {
    scanned = 1;
    inserted = 0;
    updated = 1;
    skipped = 0;
    deleted = 0;
    failed = 0;
    failures = [];
    cancelled = false;
  };
}

entries-written : (write_batch memory entries world).0 ≡ done entries_written
unfolding write_batch validate_ops ensure_initialized with_mutex write_batch_locked check_ops
    commit_ops existing_page_path locate_page_file read_file write_file parse_page parse_content
    serialize_and_write_page run_indexer run_with scan_files sweep finish iter_page_files hash_of
    project project_and_refresh regenerate_index_pages collect_concept_entries format_index_page
    file_content_matches distinct sort_by validate_id has_sep count_sep validate_slug_id
    matches_slug is_reserved matches_up_to is_alnum is_slug_char lower upsert commit_link commit_op
    check_op validate_op page_rows embedding_rows replace_links_for_page replace_claims_for_page
    replace_owned delete_page delete_pages scan_file scan_parsed stale_ids ◌>>=◌
entries-written = refl

write_batch-IsComplete_example : IsComplete memory entries entries_written
write_batch-IsComplete_example =
    write_batch-IsComplete memory entries world entries_written entries-written
