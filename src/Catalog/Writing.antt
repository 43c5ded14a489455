-- ===== src/Catalog/Writing.antt =====
-- The tools of src/smalt_mcp/tools.py that change the corpus or a task.
use smalt_mcp.Prelude.{[], ◌∷◌, codes}
use smalt_mcp.Permissions.{read_write}
use smalt_mcp.Tools.Dispatch.{ToolDef}
use smalt_mcp.Catalog.Inputs.{
  any_object, string, one_of, array_of, object, end, fields, arg, arg_or, text_default, claim_shape,
}
use smalt_mcp.Catalog.Handlers.{
  Handler, run_bootstrap, run_write_page, run_write_pages, run_add_link, run_add_claim,
  run_add_links, run_add_claims, run_write_batch, run_reindex_page, run_reindex_all,
  run_task_cancel,
}

-- The entry of `bootstrap`.
abbrev pub bootstrap_tool : ToolDef Handler
bootstrap_tool = record {
  spec = record { name = codes "bootstrap"; input_schema = object end [] };
  scope = read_write;
  handler = run_bootstrap;
}

-- The entry of `write_page`.
abbrev pub write_page_tool : ToolDef Handler
write_page_tool = record {
  spec = record {
    name = codes "write_page";
    input_schema =
        object
          (fields (
            arg (codes "frontmatter") any_object
            ∷ arg_or (codes "body") string (text_default [])
            ∷ arg_or (codes "mode") (one_of (codes "create" ∷ codes "update" ∷ []))
                (text_default (codes "create"))
            ∷ []))
          (codes "frontmatter" ∷ []);
  };
  scope = read_write;
  handler = run_write_page;
}

-- The entry of `write_pages`.
abbrev pub write_pages_tool : ToolDef Handler
write_pages_tool = record {
  spec = record {
    name = codes "write_pages";
    input_schema =
        object
          (fields (
            arg (codes "pages") (
              array_of (
                object
                  (fields (arg (codes "frontmatter") any_object ∷ arg (codes "body") string ∷ []))
                  (codes "frontmatter" ∷ [])))
            ∷ arg_or (codes "mode") (one_of (codes "create" ∷ codes "update" ∷ []))
                (text_default (codes "create"))
            ∷ []))
          (codes "pages" ∷ []);
  };
  scope = read_write;
  handler = run_write_pages;
}

-- The entry of `add_link`.
abbrev pub add_link_tool : ToolDef Handler
add_link_tool = record {
  spec = record {
    name = codes "add_link";
    input_schema =
        object
          (fields (
            arg (codes "from_id") string
            ∷ arg (codes "to_id") string
            ∷ arg (codes "label") string
            ∷ arg (codes "via_source") string
            ∷ []))
          (codes "from_id" ∷ codes "to_id" ∷ []);
  };
  scope = read_write;
  handler = run_add_link;
}

-- The entry of `add_claim`.
abbrev pub add_claim_tool : ToolDef Handler
add_claim_tool = record {
  spec = record {
    name = codes "add_claim";
    input_schema =
        object (fields (arg (codes "page_id") string ∷ arg (codes "claim") claim_shape ∷ []))
          (codes "page_id" ∷ codes "claim" ∷ []);
  };
  scope = read_write;
  handler = run_add_claim;
}

-- The entry of `add_links`.
abbrev pub add_links_tool : ToolDef Handler
add_links_tool = record {
  spec = record {
    name = codes "add_links";
    input_schema =
        object
          (fields (
            arg (codes "page_id") string
            ∷ arg (codes "links") (
                array_of (
                  object
                    (fields (
                      arg (codes "target") string
                      ∷ arg (codes "label") string
                      ∷ arg (codes "via_source") string
                      ∷ []))
                    (codes "target" ∷ [])))
            ∷ []))
          (codes "page_id" ∷ codes "links" ∷ []);
  };
  scope = read_write;
  handler = run_add_links;
}

-- The entry of `add_claims`.
abbrev pub add_claims_tool : ToolDef Handler
add_claims_tool = record {
  spec = record {
    name = codes "add_claims";
    input_schema =
        object
          (fields (arg (codes "page_id") string ∷ arg (codes "claims") (array_of claim_shape) ∷ []))
          (codes "page_id" ∷ codes "claims" ∷ []);
  };
  scope = read_write;
  handler = run_add_claims;
}

-- The entry of `write_batch`.
abbrev pub write_batch_tool : ToolDef Handler
write_batch_tool = record {
  spec = record {
    name = codes "write_batch";
    input_schema =
        object
          (fields (
            arg (codes "ops") (
              array_of (
                object
                  (fields (
                    arg (codes "kind") (
                      one_of (
                        codes "write_page"
                        ∷ codes "add_link"
                        ∷ codes "add_claim"
                        ∷ codes "update_claim"
                        ∷ []))
                    ∷ []))
                  (codes "kind" ∷ [])))
            ∷ []))
          (codes "ops" ∷ []);
  };
  scope = read_write;
  handler = run_write_batch;
}

-- The entry of `reindex_page`.
abbrev pub reindex_page_tool : ToolDef Handler
reindex_page_tool = record {
  spec = record {
    name = codes "reindex_page";
    input_schema = object (fields (arg (codes "page_id") string ∷ [])) (codes "page_id" ∷ []);
  };
  scope = read_write;
  handler = run_reindex_page;
}

-- The entry of `reindex_all`.
abbrev pub reindex_all_tool : ToolDef Handler
reindex_all_tool = record {
  spec = record { name = codes "reindex_all"; input_schema = object end [] };
  scope = read_write;
  handler = run_reindex_all;
}

-- The entry of `task_cancel`.
abbrev pub task_cancel_tool : ToolDef Handler
task_cancel_tool = record {
  spec = record {
    name = codes "task_cancel";
    input_schema = object (fields (arg (codes "task_id") string ∷ [])) (codes "task_id" ∷ []);
  };
  scope = read_write;
  handler = run_task_cancel;
}
