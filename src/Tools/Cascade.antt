-- ===== src/Tools/Cascade.antt =====
-- What `remove_page` takes out of the tables.
use smalt_mcp.Prelude.{
  ◌≡◌, refl, ◌∙◌, Bool, true, false, not, ◌&&◌, ◌||◌, none, some, any, any-ext, Text, text_eq,
}
use smalt_mcp.Storage.Paths.{FilePath}
use smalt_mcp.Corpus.{External, World, PageRow, EmbeddingRow, LinkRow, ClaimRow}
use smalt_mcp.Corpus.Actions.{◌>>=◌}
use smalt_mcp.Corpus.Files.{read_file, read_file-unlink_self, read_file-unlink_ne, path_eq}
use smalt_mcp.Corpus.Pages.{existing_page_path}
use smalt_mcp.Tools.Remove.{cascade, erase_page, remove_page_locked}

-- In `w'` the page `id`, its file at `path` and all that names it is gone, and nothing else: a row
-- with any property `q` is there exactly if one was there that does not belong to the page.
pub record IsErased (x : External) (w w' : World x) (id : Text) (path : FilePath) : Type 0 where
  pub file : read_file path w'.files ≡ none
  pub other_files :
      (other : FilePath)
      → path_eq path other ≡ false
      → read_file other w'.files ≡ read_file other w.files
  pub page_rows :
      (q : PageRow x.Rest → Bool)
      → any q (x.pages.scan w'.pages)
        ≡ any (λ r. q r && not (text_eq r.id id)) (x.pages.scan w.pages)
  pub embedding_rows :
      (q : EmbeddingRow x.Vector → Bool)
      → any q (x.embeddings.scan w'.embeddings)
        ≡ any (λ r. q r && not (text_eq r.page_id id)) (x.embeddings.scan w.embeddings)
  pub link_rows :
      (q : LinkRow → Bool)
      → any q (x.links.scan w'.links)
        ≡ any (λ r. q r && not (text_eq r.from_id id || text_eq r.to_id id)) (x.links.scan w.links)
  pub claim_rows :
      (q : ClaimRow → Bool)
      → any q (x.claims.scan w'.claims)
        ≡ any (λ r. q r && not (text_eq r.page_id id)) (x.claims.scan w.claims)

neither : (a b c : Bool) → (a && not b) && not c ≡ (a && not (c || b))
neither true true true = refl
neither true true false = refl
neither true false true = refl
neither true false false = refl
neither false b c = refl

module _ (x : External) where
  cascade-IsErased :
      (id : Text) (path : FilePath) (w : World x) → IsErased x w (cascade x id path w) id path
  unfolding cascade
  cascade-IsErased id path w = record {
    file = read_file-unlink_self path w.files;
    other_files = λ other ne. read_file-unlink_ne path other w.files ne;
    page_rows = λ q. x.pages.any-delete _ w.pages q;
    embedding_rows = λ q. x.embeddings.any-delete _ w.embeddings q;
    link_rows = λ q.
        x.links.any-delete _ _ q
        ∙ (x.links.any-delete _ w.links _
            ∙ any-ext _ _ (x.links.scan w.links)
                λ r. neither (q r) (text_eq r.to_id id) (text_eq r.from_id id));
    claim_rows = λ q. x.claims.any-delete _ w.claims q;
  }

-- Removing an indexed page erases it: its file, its row, its embedding, its claims, and the links
-- from it and to it; every other row and every other file stays.
pub remove_page_locked-IsErased :
    (x : External) (w : World x) (id : Text) (path : FilePath)
    → existing_page_path x w id ≡ some path
    → IsErased x w (remove_page_locked x id w).1 id path
unfolding remove_page_locked erase_page ◌>>=◌
remove_page_locked-IsErased x w id path known = rw known (cascade-IsErased x id path w)
