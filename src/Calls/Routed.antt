-- ===== src/Calls/Routed.antt =====
-- The table of tools leads each call to its own handler.
use smalt_mcp.Prelude.{◌≡◌, refl}
use smalt_mcp.Permissions.{remove_destructive}
use smalt_mcp.Corpus.{External}
use smalt_mcp.Tools.Dispatch.{runs, dispatch, tool_named}
use smalt_mcp.Tools.Handle.{
  link_request, unlink_request, links_request, claim_request, claims_request, claim_update,
  claim_removal, page_write, pages_write, page_removal, page_reindex, batch_write,
}
use smalt_mcp.Reads.Handle.{pages_list, domains_list, alias_search, page_read, page_search}
use smalt_mcp.Catalog.{tools}
use smalt_mcp.Catalog.Handlers.{
  Handler, run_add_link, run_remove_link, run_add_links, run_add_claim, run_add_claims,
  run_update_claim, run_remove_claim, run_write_page, run_write_pages, run_remove_page,
  run_reindex_page, run_write_batch, run_list_pages, run_list_domains, run_find_by_alias,
  run_read_page, run_search, run_status, run_index_status, run_bootstrap, run_reindex_all,
  run_traverse, run_incoming_links, run_source_similarity, run_task_status, run_task_cancel,
  run_task_list,
}
use smalt_mcp.Calls.{
  Outside, Call, change, inspect, show_status, show_index_status, set_up, reindex, walk_links,
  list_incoming, find_similar, show_task, cancel_task_named, show_tasks, name_of,
}

module _ (x : External) (o : Outside x) where
  -- The handler that `perform` runs.
  abbrev handler_of : Call x o → Handler
  handler_of (change (link_request _)) = run_add_link
  handler_of (change (unlink_request _)) = run_remove_link
  handler_of (change (links_request _ _)) = run_add_links
  handler_of (change (claim_request _ _)) = run_add_claim
  handler_of (change (claims_request _ _)) = run_add_claims
  handler_of (change (claim_update _ _ _ _)) = run_update_claim
  handler_of (change (claim_removal _ _)) = run_remove_claim
  handler_of (change (page_write _ _ _)) = run_write_page
  handler_of (change (pages_write _ _)) = run_write_pages
  handler_of (change (page_removal _)) = run_remove_page
  handler_of (change (page_reindex _)) = run_reindex_page
  handler_of (change (batch_write _)) = run_write_batch
  handler_of (inspect (pages_list _ _ _ _)) = run_list_pages
  handler_of (inspect domains_list) = run_list_domains
  handler_of (inspect (alias_search _ _)) = run_find_by_alias
  handler_of (inspect (page_read _ _)) = run_read_page
  handler_of (inspect (page_search _ _ _)) = run_search
  handler_of show_status = run_status
  handler_of show_index_status = run_index_status
  handler_of set_up = run_bootstrap
  handler_of reindex = run_reindex_all
  handler_of (walk_links _ _ _) = run_traverse
  handler_of (list_incoming _ _) = run_incoming_links
  handler_of (find_similar _ _ _) = run_source_similarity
  handler_of (show_task _) = run_task_status
  handler_of (cancel_task_named _) = run_task_cancel
  handler_of (show_tasks _ _ _) = run_task_list

  -- For a caller with the widest scope, `dispatch` runs for the name of a call the handler that
  -- `perform` runs.
  dispatch-handler_of :
      (c : Call x o) → dispatch (name_of x o c) remove_destructive tools ≡ runs (handler_of c)
  unfolding dispatch tool_named name_of
  dispatch-handler_of (change (link_request _)) = refl
  dispatch-handler_of (change (unlink_request _)) = refl
  dispatch-handler_of (change (links_request _ _)) = refl
  dispatch-handler_of (change (claim_request _ _)) = refl
  dispatch-handler_of (change (claims_request _ _)) = refl
  dispatch-handler_of (change (claim_update _ _ _ _)) = refl
  dispatch-handler_of (change (claim_removal _ _)) = refl
  dispatch-handler_of (change (page_write _ _ _)) = refl
  dispatch-handler_of (change (pages_write _ _)) = refl
  dispatch-handler_of (change (page_removal _)) = refl
  dispatch-handler_of (change (page_reindex _)) = refl
  dispatch-handler_of (change (batch_write _)) = refl
  dispatch-handler_of (inspect (pages_list _ _ _ _)) = refl
  dispatch-handler_of (inspect domains_list) = refl
  dispatch-handler_of (inspect (alias_search _ _)) = refl
  dispatch-handler_of (inspect (page_read _ _)) = refl
  dispatch-handler_of (inspect (page_search _ _ _)) = refl
  dispatch-handler_of show_status = refl
  dispatch-handler_of show_index_status = refl
  dispatch-handler_of set_up = refl
  dispatch-handler_of reindex = refl
  dispatch-handler_of (walk_links _ _ _) = refl
  dispatch-handler_of (list_incoming _ _) = refl
  dispatch-handler_of (find_similar _ _ _) = refl
  dispatch-handler_of (show_task _) = refl
  dispatch-handler_of (cancel_task_named _) = refl
  dispatch-handler_of (show_tasks _ _ _) = refl
