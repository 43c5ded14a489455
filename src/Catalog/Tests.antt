-- ===== src/Catalog/Tests.antt =====
-- Arguments within and beyond the schemas.
use smalt_mcp.Prelude.{◌≡◌, refl, is_some, none, some, codes}
use smalt_mcp.Corpus.Memory.{memory}
use smalt_mcp.Tools.Tests.{world}
use smalt_mcp.Tools.Graph.{traverse}
use smalt_mcp.Tasks.Handlers.{parse_state}
use smalt_mcp.Catalog.Reading.{traverse_tool, task_list_tool}
use smalt_mcp.Catalog.Agreement.{
  arg_of, allows_text, allows_number, is_done, parse_state-allows_text, traverse-allows_number,
}

traverse-allows_number_example :
    is_done (traverse memory (some (codes "cats")) none (some 9) world).0
    ≡ allows_number (arg_of (codes "hops") traverse_tool) 9
traverse-allows_number_example =
    traverse-allows_number memory world (codes "cats") none 9 refl refl refl

parse_state-allows_text_example :
    is_some (parse_state (codes "done"))
    ≡ allows_text (arg_of (codes "state") task_list_tool) (codes "done")
parse_state-allows_text_example = parse_state-allows_text (codes "done")
