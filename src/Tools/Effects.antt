-- ===== src/Tools/Effects.antt =====
-- What the link and claim handlers do to the files.
use smalt_mcp.Prelude.{◌≡◌, ◌∙◌, false, some, List, Text}
use smalt_mcp.Storage.Paths.{FilePath}
use smalt_mcp.Ids.{accepted, validate_id}
use smalt_mcp.Corpus.{External, World, Page, IndexResult}
use smalt_mcp.Corpus.Actions.{◌>>=◌, pure}
use smalt_mcp.Corpus.Respects.{Respects, Respects-bind, Respects-pure}
use smalt_mcp.Corpus.Files.{read_file, path_eq, read_file-write_file_self, read_file-write_file_ne}
use smalt_mcp.Corpus.Pages.{ParsedPage, parse_page, parse_content, serialize_and_write_page}
use smalt_mcp.Indexer.Run.{run_indexer, canonical_index_pages}
use smalt_mcp.Indexer.Effects.{IsOwnPath, SameFile, SameFile-IsPreorder, run_indexer-SameFile}

module _ (x : External) where
  -- A file that the indexer does not generate.
  abbrev pub IsPageFile : FilePath → Type 0
  IsPageFile path = IsOwnPath x canonical_index_pages path

  -- In `w'` the file at `path` is the page of `fm` and `body`, and no other page file changed.
  pub record IsRewrite (w w' : World x) (path : FilePath) (fm : Page x) (body : Text) : Type 0 where
    pub content : read_file path w'.files ≡ some (x.dump_page fm body)
    pub others :
        (other : FilePath)
        → IsPageFile other
        → path_eq path other ≡ false
        → read_file other w'.files ≡ read_file other w.files

  module _ {A : Type 0} (k : IndexResult → A) where
    indexed-SameFile :
        (path : FilePath)
        → IsPageFile path
        → Respects (SameFile x path) (run_indexer x >>= λ r. pure (k r))
    indexed-SameFile path own =
        Respects-bind (SameFile-IsPreorder x path) _ _ (run_indexer-SameFile x path own)
          λ r. Respects-pure (SameFile-IsPreorder x path) (k r)

    -- A write, a run of the indexer, and a reply.
    pub written-IsRewrite :
        (w : World x) (path : FilePath) (fm : Page x) (body : Text)
        → IsPageFile path
        → IsRewrite w
            ((serialize_and_write_page x path fm body >>= λ _. run_indexer x >>= λ r. pure (k r))
              w).1
            path
            fm
            body
    unfolding ◌>>=◌ serialize_and_write_page
    written-IsRewrite w path fm body own = record {
      content =
          (indexed-SameFile path own).at _
          ∙ read_file-write_file_self path (x.dump_page fm body) w.files;
      others = λ other own' ne.
          (indexed-SameFile other own').at _
          ∙ read_file-write_file_ne path other (x.dump_page fm body) w.files ne;
    }

  pub read-parse :
      (files : List (FilePath × x.Content)) (path : FilePath) (content : x.Content) (fm : Page x)
      (body : Text)
      → read_file path files ≡ some content
      → x.load_page content ≡ some (fm, body)
      → validate_id fm.id ≡ accepted
      → parse_page x files path
        ≡ some (record {
          rel_path = path;
          frontmatter = fm;
          body = body;
          content_hash = x.hash_bytes content;
        })
  unfolding parse_page parse_content
  read-parse files path content fm body h k v = rw (h, k, v)

  -- The page that a rewrite leaves behind.
  abbrev pub rewritten : FilePath → Page x → Text → ParsedPage x
  rewritten path fm body = record {
    rel_path = path;
    frontmatter = fm;
    body = x.strip body;
    content_hash = x.hash_bytes (x.dump_page fm body);
  }

  -- A rewritten page with an accepted id reads back.
  pub IsRewrite-parse :
      (w w' : World x) (path : FilePath) (fm : Page x) (body : Text)
      → IsRewrite w w' path fm body
      → validate_id fm.id ≡ accepted
      → parse_page x w'.files path ≡ some (rewritten path fm body)
  IsRewrite-parse w w' path fm body h v =
      read-parse w'.files path _ fm (x.strip body) h.content (x.load-dump fm body) v
