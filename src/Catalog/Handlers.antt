-- ===== src/Catalog/Handlers.antt =====
-- The handlers that the table of tools names.
pub data Handler : Type 0 where
  run_status : Handler
  run_index_status : Handler
  run_list_pages : Handler
  run_read_page : Handler
  run_find_by_alias : Handler
  run_traverse : Handler
  run_incoming_links : Handler
  run_search : Handler
  run_list_domains : Handler
  run_source_similarity : Handler
  run_task_status : Handler
  run_task_list : Handler
  run_bootstrap : Handler
  run_write_page : Handler
  run_write_pages : Handler
  run_add_link : Handler
  run_add_claim : Handler
  run_add_links : Handler
  run_add_claims : Handler
  run_write_batch : Handler
  run_reindex_page : Handler
  run_reindex_all : Handler
  run_task_cancel : Handler
  run_remove_page : Handler
  run_update_claim : Handler
  run_remove_claim : Handler
  run_remove_link : Handler
