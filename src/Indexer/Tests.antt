-- ===== src/Indexer/Tests.antt =====
-- The indexer's theorems on an empty corpus and small tables.
use smalt_mcp.Prelude.{List, ◌≡◌, refl, true, none, [], ◌∷◌, Text, codes, false}
use smalt_mcp.Schema.{concept}
use smalt_mcp.Storage.Paths.{FilePath}
use smalt_mcp.Corpus.{World, PageRow, LinkRow}
use smalt_mcp.Corpus.Respects.{Respects}
use smalt_mcp.Corpus.Memory.{memory}
use smalt_mcp.Indexer.{distinct}
use smalt_mcp.Indexer.Run.{stale_ids, never, run_with, full}
use smalt_mcp.Indexer.Effects.{SameFile, run_with-SameFile}

abbrev cats_path : FilePath
cats_path = codes "pages" ∷ codes "concepts" ∷ codes "cats.md" ∷ []

abbrev row_of : Text → PageRow (Unit {0})
row_of id = record {
  id = id;
  path = cats_path;
  type = concept;
  title = [];
  body = [];
  frontmatter = record {
    id = id;
    type = concept;
    title = [];
    aliases = [];
    links_out = [];
    claims = [];
    domains = [];
    is_domain = none;
    glossary = none;
    fetched_at = none;
    rest = tt;
  };
  content_hash = [];
  created_at = 0;
  updated_at = 0;
  aliases = [];
}

abbrev world : World memory
world = record {
  smalt_exists = true;
  db_opens = true;
  lance_dir = true;
  files = [];
  pages = row_of (codes "cats") ∷ row_of (codes "dogs") ∷ [];
  embeddings = [];
  links = [];
  claims = [];
  clock = 0;
  drawn = 0;
  mutex = record { locked = false; holder = none; acquire_count = 0 };
  refreshes = 0;
  last_indexer_result = none;
}

abbrev link_of : Text → Text → LinkRow
link_of from to = record { from_id = from; to_id = to; label = none; source_page = none }

run_with-SameFile_example :
    Respects (SameFile memory cats_path) (run_with memory full (never memory))
run_with-SameFile_example =
    run_with-SameFile memory cats_path (refl, (refl, tt)) full (never memory)

-- A full run starts from no indexed hashes, so nothing is stale, whatever was seen.
full-stale_ids : (seen : List Text) → stale_ids memory [] seen ≡ []
unfolding stale_ids distinct
full-stale_ids seen = refl
