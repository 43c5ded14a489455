-- ===== src/Calls/Removal.antt =====
-- What a scope below `remove_destructive` keeps a caller from.
use smalt_mcp.Prelude.{◌≡◌, refl, Bool, true, false, ltb}
use smalt_mcp.Permissions.{Scope, read_only, read_write, remove_destructive, scope_tier}
use smalt_mcp.Corpus.{External}
use smalt_mcp.Corpus.Actions.{fail, forbidden_tool}
use smalt_mcp.Tools.Dispatch.{dispatch, tool_named}
use smalt_mcp.Tools.Handle.{Request, unlink_request, claim_update, claim_removal, page_removal}
use smalt_mcp.Calls.{Server, Outside, change, name_of, call}

-- The requests of `remove_page`, `remove_link`, `remove_claim` and `update_claim`, the tools that are
-- registered with `remove_destructive`. A batch of `write_batch` that updates claims is none of them.
abbrev pub is_removal : {x : External} → Request x → Bool
is_removal (unlink_request _) = true
is_removal (claim_update _ _ _ _) = true
is_removal (claim_removal _ _) = true
is_removal (page_removal _) = true
is_removal _ = false

module _ (x : External) (o : Outside x) (Value : Type 0) where
  removal-read_only :
      (request : Request x) (s : Server x Value)
      → is_removal request ≡ true
      → call x o Value read_only (change request) s ≡ (fail forbidden_tool, s)
  unfolding call name_of dispatch tool_named
  removal-read_only (unlink_request _) s h = refl
  removal-read_only (claim_update _ _ _ _) s h = refl
  removal-read_only (claim_removal _ _) s h = refl
  removal-read_only (page_removal _) s h = refl
  removal-read_only _ s h = cc

  removal-read_write :
      (request : Request x) (s : Server x Value)
      → is_removal request ≡ true
      → call x o Value read_write (change request) s ≡ (fail forbidden_tool, s)
  unfolding call name_of dispatch tool_named
  removal-read_write (unlink_request _) s h = refl
  removal-read_write (claim_update _ _ _ _) s h = refl
  removal-read_write (claim_removal _ _) s h = refl
  removal-read_write (page_removal _) s h = refl
  removal-read_write _ s h = cc

  -- With a scope below `remove_destructive`, a call of `remove_page`, `remove_link`, `remove_claim` or
  -- `update_claim` is refused as forbidden and changes nothing.
  pub call-is_removal :
      (scope : Scope) (request : Request x) (s : Server x Value)
      → ltb (scope_tier scope) (scope_tier remove_destructive) ≡ true
      → is_removal request ≡ true
      → call x o Value scope (change request) s ≡ (fail forbidden_tool, s)
  call-is_removal read_only request s low h = removal-read_only request s h
  call-is_removal read_write request s low h = removal-read_write request s h
  call-is_removal remove_destructive request s low h = cc
