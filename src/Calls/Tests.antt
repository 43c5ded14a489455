-- ===== src/Calls/Tests.antt =====
-- Calls of a client with few rights.
use smalt_mcp.Prelude.{ℕ, ◌≡◌, refl, Option, none, some, [], ◌∷◌, codes, false}
use smalt_mcp.Permissions.{read_only, read_write}
use smalt_mcp.Corpus.Actions.{fail, forbidden_tool}
use smalt_mcp.Corpus.Memory.{memory}
use smalt_mcp.Tools.Tests.{world}
use smalt_mcp.Tools.Handle.{page_removal}
use smalt_mcp.Setup.Tables.{table_schemas}
use smalt_mcp.Calls.{Server, Outside, change, call}
use smalt_mcp.Calls.Denied.{SameServer, call-read_only}
use smalt_mcp.Calls.Removal.{call-is_removal}

-- Nothing is ranked, and no date is read.
abbrev alone : Outside memory
alone = record {
  Distance = ℕ;
  Similarity = Option ℕ;
  lower = λ t. t;
  threshold = record { numerator = 3; denominator = 5 };
  fromisoformat = λ t. none;
  like = λ pattern t. false;
  split = λ t. t ∷ [];
  by_text = λ w query limit. none;
  by_vector = λ w query limit. none;
  nearest = λ w p v n. none;
  similarity = λ d. d;
}

abbrev server : Server memory ℕ
server = record {
  host = record {
    world = world;
    scheduler = record { tasks = []; gc_ttl_seconds = 3600; gc_running = false };
    now = 20;
    drawn_id = codes "t1";
  };
  dirs = [];
  notes = [];
  tables = table_schemas;
  source_rows = 0;
}

call-read_only_example :
    SameServer memory server
      (call memory alone ℕ read_only (change (page_removal (some (codes "cats")))) server).1
call-read_only_example =
    call-read_only memory alone ℕ (change (page_removal (some (codes "cats")))) server

call-is_removal_example :
    call memory alone ℕ read_write (change (page_removal (some (codes "cats")))) server
    ≡ (fail forbidden_tool, server)
call-is_removal_example =
    call-is_removal memory alone ℕ read_write (page_removal (some (codes "cats"))) server refl refl
