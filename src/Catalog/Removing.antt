-- ===== src/Catalog/Removing.antt =====
-- The tools of src/smalt_mcp/tools.py that remove or replace what is stored.
use smalt_mcp.Prelude.{[], ◌∷◌, codes}
use smalt_mcp.Permissions.{remove_destructive}
use smalt_mcp.Tools.Dispatch.{ToolDef}
use smalt_mcp.Catalog.Inputs.{string, object, fields, arg, claim_shape}
use smalt_mcp.Catalog.Handlers.{
  Handler, run_remove_page, run_update_claim, run_remove_claim, run_remove_link,
}

-- The entry of `remove_page`.
abbrev pub remove_page_tool : ToolDef Handler
remove_page_tool = record {
  spec = record {
    name = codes "remove_page";
    input_schema = object (fields (arg (codes "page_id") string ∷ [])) (codes "page_id" ∷ []);
  };
  scope = remove_destructive;
  handler = run_remove_page;
}

-- The entry of `update_claim`.
abbrev pub update_claim_tool : ToolDef Handler
update_claim_tool = record {
  spec = record {
    name = codes "update_claim";
    input_schema =
        object
          (fields (
            arg (codes "page_id") string
            ∷ arg (codes "claim_id") string
            ∷ arg (codes "new_claim") claim_shape
            ∷ []))
          (codes "page_id" ∷ codes "claim_id" ∷ codes "new_claim" ∷ []);
  };
  scope = remove_destructive;
  handler = run_update_claim;
}

-- The entry of `remove_claim`.
abbrev pub remove_claim_tool : ToolDef Handler
remove_claim_tool = record {
  spec = record {
    name = codes "remove_claim";
    input_schema =
        object (fields (arg (codes "page_id") string ∷ arg (codes "claim_id") string ∷ []))
          (codes "page_id" ∷ codes "claim_id" ∷ []);
  };
  scope = remove_destructive;
  handler = run_remove_claim;
}

-- The entry of `remove_link`.
abbrev pub remove_link_tool : ToolDef Handler
remove_link_tool = record {
  spec = record {
    name = codes "remove_link";
    input_schema =
        object
          (fields (
            arg (codes "from_id") string
            ∷ arg (codes "to_id") string
            ∷ arg (codes "label") string
            ∷ []))
          (codes "from_id" ∷ codes "to_id" ∷ []);
  };
  scope = remove_destructive;
  handler = run_remove_link;
}
