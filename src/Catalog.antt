-- ===== src/Catalog.antt =====
-- `TOOLS` of src/smalt_mcp/tools.py.
pub mod Inputs
pub mod Handlers
pub mod Reading
pub mod Writing
pub mod Removing
pub mod Agreement
mod Tests
use smalt_mcp.Prelude.{List, [], ◌∷◌}
use smalt_mcp.Prelude.{refl}
use smalt_mcp.Tools.Dispatch.{ToolDef, IsDistinct, are_distinct, are_distinct-IsDistinct}
use smalt_mcp.Catalog.Handlers.{Handler}
use smalt_mcp.Catalog.Reading.{
  status_tool, index_status_tool, list_pages_tool, read_page_tool, find_by_alias_tool,
  traverse_tool, incoming_links_tool, search_tool, list_domains_tool, source_similarity_tool,
  task_status_tool, task_list_tool,
}
use smalt_mcp.Catalog.Writing.{
  bootstrap_tool, write_page_tool, write_pages_tool, add_link_tool, add_claim_tool, add_links_tool,
  add_claims_tool, write_batch_tool, reindex_page_tool, reindex_all_tool, task_cancel_tool,
}
use smalt_mcp.Catalog.Removing.{
  remove_page_tool, update_claim_tool, remove_claim_tool, remove_link_tool,
}

-- `TOOLS`
abbrev pub tools : List (ToolDef Handler)
tools =
    status_tool ∷ index_status_tool ∷ list_pages_tool ∷ read_page_tool ∷ find_by_alias_tool
    ∷ traverse_tool ∷ incoming_links_tool ∷ search_tool ∷ list_domains_tool ∷ source_similarity_tool
    ∷ task_status_tool ∷ task_list_tool ∷ bootstrap_tool ∷ write_page_tool ∷ write_pages_tool
    ∷ add_link_tool ∷ add_claim_tool ∷ add_links_tool ∷ add_claims_tool ∷ write_batch_tool
    ∷ reindex_page_tool ∷ reindex_all_tool ∷ task_cancel_tool ∷ remove_page_tool ∷ update_claim_tool
    ∷ remove_claim_tool ∷ remove_link_tool ∷ []

-- The names of the tools are distinct.
pub tools-IsDistinct : IsDistinct tools
unfolding are_distinct
tools-IsDistinct = are_distinct-IsDistinct tools refl
