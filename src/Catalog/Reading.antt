-- ===== src/Catalog/Reading.antt =====
-- The tools of src/smalt_mcp/tools.py that a read-only scope may run.
use smalt_mcp.Prelude.{true, none, some, [], ◌∷◌, codes}
use smalt_mcp.Permissions.{read_only}
use smalt_mcp.Tools.Dispatch.{ToolDef}
use smalt_mcp.Catalog.Inputs.{
  string, one_of, integer, boolean, array_of, object, end, fields, arg, arg_or, bool_default,
  number_default,
}
use smalt_mcp.Catalog.Handlers.{
  Handler, run_status, run_index_status, run_list_pages, run_read_page, run_find_by_alias,
  run_traverse, run_incoming_links, run_search, run_list_domains, run_source_similarity,
  run_task_status, run_task_list,
}

-- The entry of `status`.
abbrev pub status_tool : ToolDef Handler
status_tool = record {
  spec = record { name = codes "status"; input_schema = object end [] };
  scope = read_only;
  handler = run_status;
}

-- The entry of `index_status`.
abbrev pub index_status_tool : ToolDef Handler
index_status_tool = record {
  spec = record { name = codes "index_status"; input_schema = object end [] };
  scope = read_only;
  handler = run_index_status;
}

-- The entry of `list_pages`.
abbrev pub list_pages_tool : ToolDef Handler
list_pages_tool = record {
  spec = record {
    name = codes "list_pages";
    input_schema =
        object
          (fields (
            arg (codes "type") (
              one_of (
                codes "entity"
                ∷ codes "concept"
                ∷ codes "source"
                ∷ codes "synthesis"
                ∷ codes "index"
                ∷ []))
            ∷ arg (codes "prefix") string
            ∷ arg_or (codes "limit") (integer none none) (number_default 100)
            ∷ arg (codes "glossary") boolean
            ∷ arg (codes "is_domain") boolean
            ∷ arg (codes "domain") string
            ∷ arg (codes "fetched_at_before") string
            ∷ arg (codes "fetched_at_after") string
            ∷ arg (codes "has_aliases_containing") string
            ∷ []))
          [];
  };
  scope = read_only;
  handler = run_list_pages;
}

-- The entry of `read_page`.
abbrev pub read_page_tool : ToolDef Handler
read_page_tool = record {
  spec = record {
    name = codes "read_page";
    input_schema =
        object
          (fields (
            arg (codes "page_id") string ∷ arg_or (codes "fuzzy") boolean (bool_default true) ∷ []))
          (codes "page_id" ∷ []);
  };
  scope = read_only;
  handler = run_read_page;
}

-- The entry of `find_by_alias`.
abbrev pub find_by_alias_tool : ToolDef Handler
find_by_alias_tool = record {
  spec = record {
    name = codes "find_by_alias";
    input_schema =
        object
          (fields
            (arg (codes "alias") string ∷ arg_or (codes "fuzzy") boolean (bool_default true) ∷ []))
          (codes "alias" ∷ []);
  };
  scope = read_only;
  handler = run_find_by_alias;
}

-- The entry of `traverse`.
abbrev pub traverse_tool : ToolDef Handler
traverse_tool = record {
  spec = record {
    name = codes "traverse";
    input_schema =
        object
          (fields (
            arg (codes "from_id") string
            ∷ arg (codes "label") string
            ∷ arg_or (codes "hops") (integer (some 1) (some 5)) (number_default 1)
            ∷ []))
          (codes "from_id" ∷ []);
  };
  scope = read_only;
  handler = run_traverse;
}

-- The entry of `incoming_links`.
abbrev pub incoming_links_tool : ToolDef Handler
incoming_links_tool = record {
  spec = record {
    name = codes "incoming_links";
    input_schema =
        object (fields (arg (codes "page_id") string ∷ arg (codes "label") string ∷ []))
          (codes "page_id" ∷ []);
  };
  scope = read_only;
  handler = run_incoming_links;
}

-- The entry of `search`.
abbrev pub search_tool : ToolDef Handler
search_tool = record {
  spec = record {
    name = codes "search";
    input_schema =
        object
          (fields (
            arg (codes "query") string
            ∷ arg_or (codes "top_k") (integer none none) (number_default 10)
            ∷ arg (codes "glossary") boolean
            ∷ arg (codes "is_domain") boolean
            ∷ arg (codes "domain") string
            ∷ arg (codes "fetched_at_before") string
            ∷ arg (codes "fetched_at_after") string
            ∷ arg (codes "has_aliases_containing") string
            ∷ []))
          (codes "query" ∷ []);
  };
  scope = read_only;
  handler = run_search;
}

-- The entry of `list_domains`.
abbrev pub list_domains_tool : ToolDef Handler
list_domains_tool = record {
  spec = record { name = codes "list_domains"; input_schema = object end [] };
  scope = read_only;
  handler = run_list_domains;
}

-- The entry of `source_similarity`.
abbrev pub source_similarity_tool : ToolDef Handler
source_similarity_tool = record {
  spec = record {
    name = codes "source_similarity";
    input_schema =
        object
          (fields (
            arg (codes "source_id") string
            ∷ arg_or (codes "top_k") (integer (some 1) none) (number_default 10)
            ∷ arg (codes "types") (
                array_of (
                  one_of (
                    codes "entity"
                    ∷ codes "concept"
                    ∷ codes "source"
                    ∷ codes "synthesis"
                    ∷ codes "index"
                    ∷ [])))
            ∷ []))
          (codes "source_id" ∷ []);
  };
  scope = read_only;
  handler = run_source_similarity;
}

-- The entry of `task_status`.
abbrev pub task_status_tool : ToolDef Handler
task_status_tool = record {
  spec = record {
    name = codes "task_status";
    input_schema = object (fields (arg (codes "task_id") string ∷ [])) (codes "task_id" ∷ []);
  };
  scope = read_only;
  handler = run_task_status;
}

-- The entry of `task_list`.
abbrev pub task_list_tool : ToolDef Handler
task_list_tool = record {
  spec = record {
    name = codes "task_list";
    input_schema =
        object
          (fields (
            arg (codes "state") (
              one_of (
                codes "pending"
                ∷ codes "running"
                ∷ codes "succeeded"
                ∷ codes "failed"
                ∷ codes "cancelled"
                ∷ []))
            ∷ arg (codes "kind") string
            ∷ arg_or (codes "limit") (integer (some 1) none) (number_default 100)
            ∷ []))
          [];
  };
  scope = read_only;
  handler = run_task_list;
}
