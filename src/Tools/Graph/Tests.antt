-- ===== src/Tools/Graph/Tests.antt =====
-- A walk of two hops over a cycle of links.
use smalt_mcp.Prelude.{◌≡◌, ◌↔◌, refl, false, true, none, some, List, [], ◌∷◌, Text, codes, member}
use smalt_mcp.Corpus.{World, LinkRow}
use smalt_mcp.Corpus.Actions.{done, ◌>>=◌}
use smalt_mcp.Corpus.Pages.{ensure_initialized}
use smalt_mcp.Indexer.Order.{sort_by}
use smalt_mcp.Corpus.Memory.{memory}
use smalt_mcp.Tools.Graph.{Traversal, traverse, walk, hop, visit}
use smalt_mcp.Tools.Graph.Reach.{Within}
use smalt_mcp.Tools.Graph.Traverse.{traverse_complete}

abbrev link_of : Text → Text → LinkRow
link_of from to = record { from_id = from; to_id = to; label = none; source_page = none }

abbrev cycle : List LinkRow
cycle = link_of (codes "a") (codes "b") ∷ link_of (codes "b") (codes "a") ∷ []

abbrev linked : World memory
linked = record {
  smalt_exists = true;
  db_opens = true;
  lance_dir = true;
  files = [];
  pages = [];
  embeddings = [];
  links = cycle;
  claims = [];
  clock = 0;
  drawn = 0;
  mutex = record { locked = false; holder = none; acquire_count = 0 };
  refreshes = 0;
  last_indexer_result = none;
}

-- One hop around the cycle.
abbrev around : Traversal
around = record {
  from_id = codes "a";
  hops = 1;
  edges = link_of (codes "a") (codes "b") ∷ [];
  count = 1;
  visited_nodes = codes "a" ∷ codes "b" ∷ [];
  truncated = false;
}

a-traversed : (traverse memory (some (codes "a")) none none linked).0 ≡ done around
unfolding traverse ensure_initialized walk hop visit sort_by ◌>>=◌
a-traversed = refl

traverse_complete_example :
    (member (codes "b") around.visited_nodes ≡ true) ↔ Within cycle none (codes "a") 1 (codes "b")
traverse_complete_example =
    traverse_complete memory linked (codes "a") none none around a-traversed refl (codes "b")
