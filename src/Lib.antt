-- ===== src/Lib.antt =====
-- smalt-mcp: a server that lets agents keep a corpus of markdown pages (a "Smalt"), each page with a
-- validated YAML frontmatter, and an index of the corpus in LanceDB tables.
--
-- The parts and how they interact. An MCP call names a tool; the server's scope decides whether the
-- tool is listed and runs. A handler that changes the corpus checks its arguments, takes the corpus
-- mutex, finds the page's file through the index, parses it, writes the changed page, and runs the
-- indexer. The indexer scans the page files, compares their hashes with the index, projects changed
-- pages into four tables, sweeps pages whose files are gone, and writes the generated index pages.
--
-- Files:
--   Prelude            shared names, Boolean tests over the native numbers, lists, texts as code points
--   Ids                the id validators of src/smalt_mcp/schema.py. Ids/Paths has the target path
--                      (`_page_target_path` of src/smalt_mcp/tools.py)
--   Permissions        src/smalt_mcp/permissions.py and `_server_scope` of src/smalt_mcp/server.py
--   Mutex              src/smalt_mcp/mutex.py with interleaved threads; a schedule is any list of moves
--   Storage            directories (src/smalt_mcp/storage/paths.py) and `sql_str`
--                      (src/smalt_mcp/storage/lance.py). Embedder is
--                      src/smalt_mcp/storage/embedder.py, Indexes the states that a refresh of the search
--                      indexes reports (src/smalt_mcp/storage/lance.py); Embedder/Dims and Indexes/Short
--                      hold what is proved of them
--   Schema             the page model of src/smalt_mcp/schema.py, as far as the program reads it
--   Corpus             the state: files, tables, mutex, clock, counters. Corpus/Tables is the interface
--                      of a LanceDB table, Corpus/Actions the handlers' result, Corpus/Respects the
--                      rules for what an action keeps, Corpus/Pages parsing and writing of pages
--                      (src/smalt_mcp/storage/markdown.py, helpers of src/smalt_mcp/tools.py, `acquire` of
--                      src/smalt_mcp/mutex.py), Corpus/Yields the rules for the result of an action,
--                      Corpus/Hoare for its result and its last state, Corpus/Opened for actions that
--                      at most open the database, Corpus/Memory an instance in memory
--   Indexer            src/smalt_mcp/storage/indexer.py: the projection, Rows, Prose (index pages), Run;
--                      Owned, Counts, Effects, Scanned, Projected and Fresh hold what is proved of them
--   Setup              `bootstrap` of src/smalt_mcp/tools.py over a `Site`: Missing (a loop that makes what
--                      is missing), Tables (`ensure_tables` of src/smalt_mcp/storage/lance.py), Reindex
--                      (the work of `reindex_all`); Again and Rebuilt hold what is proved of them
--   Catalog            `TOOLS` of src/smalt_mcp/tools.py: Inputs (JSON schemas), Handlers, and the tools
--                      by scope in Reading, Writing and Removing; Agreement compares the schemas with
--                      what the handlers accept
--   Calls              a call of any tool (`call_tool` of src/smalt_mcp/server.py), Report (`status` and
--                      `index_status`); Denied and Removal hold what is proved of scopes
--   App                the lazy opening of the database and the embedder in src/smalt_mcp/app.py, with
--                      interleaved threads; Once holds what is proved of it. Observed has
--                      the observability fields and their lock, Observed/Whole what is proved of them
--   Tools              the handlers of src/smalt_mcp/tools.py that change the corpus: Links, Claims,
--                      Write, WriteBatch, Remove; and Graph; Dispatch and Handle for calls by name.
--                      Careful, Effects, Edits, Publish, Indexed, Batch, Replaced and Cascade,
--                      and Reach, Complete and Traverse below Graph, hold what is proved of them
--   Reads              the handlers that read pages: Filters (property filters), Listing
--                      (`list_pages`, `list_domains`), Fuzzy and Aliases (`find_by_alias`,
--                      `read_page`), Fusion and Search (`search`), Similar (`source_similarity`),
--                      Handle; Conjunction, Limits, Scores, Rows, Resolve, Hits and Similar/Ranked
--                      hold what is proved of them
--   Tasks              src/smalt_mcp/scheduler.py: a task and what the event loop may do with it,
--                      Registry (`Scheduler`), Handlers (the task tools of src/smalt_mcp/tools.py);
--                      Life, Ends, Lookup, Listing and Polls hold what is proved of them
--
-- State and operations. `World` is the shared state of `App`: the files under the corpus directory,
-- the four tables, and the mutex. A handler is a function of the state that ends with a payload or
-- with a `Failure`, which has a constructor for each `error` of the payloads; an exception that the
-- handler does not catch is `tool_error`. What was written before an error stays written, so the
-- state comes back beside the error. `with app.mutex.acquire(...)` is `with_mutex`, for a handler
-- that finds the lock free (Mutex has the lock with interleaved threads); the part under the lock is
-- a function of its own (`add_link_locked`).
--
-- What other packages do is the record `External`: YAML and pydantic, SHA-256, the embedder, uuid4
-- and LanceDB. Two things are assumed of it: a page that was written reads back with its body
-- stripped, and a table does row by row what its documentation says (a selection holds rows that pass
-- its filter, all of them if they are fewer than its limit; a table that was created has no rows).
--
-- The event loop of asyncio is not part of the repository either. A task carries the state of its
-- coroutine, and a run is a list of what happens to it: turns of the event loop, calls of `cancel`,
-- and shutdown. The rankings of a search, `str.lower`, `str.split`, `datetime.fromisoformat` and SQL's
-- LIKE are parameters of the reading tools, of which nothing is assumed; scores are exact fractions,
-- rounded where they are reported. So are the search for the nearest embeddings and the rounding of a
-- similarity; the hits of that search are assumed to be rows that pass the filter that the program
-- gives it. Of `drop_table` it is a parameter whether it works.
--
-- Every loop is over a list, or over the number of hops. But the decimal digits of a count
-- (Indexer/Prose) are computed on fuel, the number plus one: a number has no more digits than that; and
-- the rounds of `_hash_to_vec`, with the dimension as fuel: each round makes one component at least.
-- Numbers are natural numbers, and counters do not overflow, as Python's do not. The arguments `top_k`
-- of `search` and `source_similarity` and `limit` of `task_list` may be negative.
--
-- Not modelled: the timer of the garbage collector; lookups in a pages table without the column
-- `aliases`; a negative `limit` of `list_pages`, which counts as 0 where there are filters; an
-- index page with a key `claims`, on which the source raises; the HTTP server and the reading of
-- the environment; fastembed, and negative dimensions; the types of columns; log lines, progress
-- events and timings. Where the corpus directory is there, `reindex_all` opens the database
-- without an error. `bootstrap` and `reindex_all` find the mutex free, as the handlers do. The
-- text of an error in a reply is left out, and `mkdir` and temporary files are part of an atomic
-- write. In ids and scopes `str.lower` is taken at ASCII: ids have matched their patterns before,
-- and no other character has a lower case in a scope's name.
pub mod Prelude
pub mod Ids
pub mod Permissions
pub mod Mutex
pub mod Storage
pub mod Schema
pub mod Corpus
pub mod Indexer
pub mod Tasks
pub mod Reads
pub mod Tools
pub mod Catalog
pub mod Setup
pub mod Calls
pub mod App
