-- ===== src/Tools/Indexed.antt =====
-- The index shows a page after `write_page` wrote it.
pub mod Tests
use mathlib.Core.Option.{some-injective}
use smalt_mcp.Prelude.{
  ℕ, ◌≡◌, ◌≢◌, refl, ap, ◌∙◌, sym, subst, arith, Bool, true, false, ◌&&◌, ◌||◌, Option, some, List,
  [], ◌∷◌, ◌++◌, any, any-keep, map, keep, if◌then◌else◌, Text, codes, text_eq, inl, inr,
  Bool-cases,
}
use smalt_mcp.Schema.{PageType}
use smalt_mcp.Storage.Paths.{FilePath, pages_dir}
use smalt_mcp.Ids.{accepted, validate_id}
use smalt_mcp.Ids.Separators.{split_on}
use smalt_mcp.Ids.Paths.{
  type_to_subdir, page_target_path, md_suffix, add_suffix, split_on-suffix, split_on-ne-nil,
  stored_name, target_path_parts,
}
use smalt_mcp.Corpus.{External, World, Page, IndexResult}
use smalt_mcp.Corpus.Actions.{done, ◌>>=◌, pure}
use smalt_mcp.Corpus.Hoare.{Hoare, Hoare-bind, Hoare-pure}
use smalt_mcp.Corpus.Files.{path_eq, path_eq_refl, write_file, read_file, read_file-write_file_self}
use smalt_mcp.Corpus.Pages.{ParsedPage, parse_page, existing_page_path, serialize_and_write_page}
use smalt_mcp.Indexer.{iter_page_files, is_md, last_is_md, is_page_file}
use smalt_mcp.Indexer.Order.{sort_by, path_le, any-sort_by}
use smalt_mcp.Indexer.Run.{run_indexer}
use smalt_mcp.Indexer.Scanned.{clashes}
use smalt_mcp.Indexer.Projected.{IsIndexed, IsNotGenerated}
use smalt_mcp.Indexer.Fresh.{IsAlone, run_indexer-IsIndexed}
use smalt_mcp.Tools.Write.{PageWritten, update_known, overwrite_page}
use smalt_mcp.Tools.Effects.{rewritten, read-parse}

is_md-suffix : (t : Text) → is_md (t ++ md_suffix) ≡ true
is_md-suffix [] = refl
is_md-suffix (c ∷ t) = ground (arith, is_md-suffix t)

last_is_md-add_suffix :
    (part : Text) (parts : List Text) → last_is_md (part ∷ add_suffix parts) ≡ true
last_is_md-add_suffix part [] = refl
last_is_md-add_suffix part (next ∷ []) = is_md-suffix next
last_is_md-add_suffix part (next ∷ other ∷ parts) = last_is_md-add_suffix next (other ∷ parts)

-- A target path is the path of a page file.
target-is_page_file :
    (subdir : Text) (name : Text)
    → is_page_file (codes "pages" ∷ subdir ∷ split_on b'/' (name ++ md_suffix)) ≡ true
target-is_page_file subdir name =
    let parts = split_on b'/' name in rw (split_on-suffix name) (last_is_md-add_suffix subdir parts)

target-is_file :
    (type : PageType) (id : Text) (target : FilePath) {subdir : Text}
    → validate_id id ≡ accepted
    → type_to_subdir type ≡ some subdir
    → page_target_path [] type id ≡ some target
    → is_page_file target ≡ true
target-is_file type id target {subdir} valid dir at_target =
    let shape = some-injective _ _ (sym at_target ∙ target_path_parts [] type id valid dir) in
    ap is_page_file shape ∙ target-is_page_file subdir (stored_name id)

module _ {C : Type 0} where
  written-is_listed :
      (path : FilePath) (content : C) (files : List (FilePath × C))
      → is_page_file path ≡ true
      → any (λ q. path_eq path q && is_page_file q) (map (λ f. f.0) (write_file path content files))
        ≡ true
  unfolding write_file
  written-is_listed path content [] h = ground (arith, h, path_eq_refl path)
  written-is_listed path content ((p, c) ∷ files) h = elim (Bool-cases (path_eq p path)) [
    | inl e ↦ rw e (ground (arith, h, path_eq_refl path))
    | inr e ↦ rw e (ground (arith, written-is_listed path content files h))
  ]

module _ (x : External) where
  write-iter_page_files :
      (w : World x) (path : FilePath) (page : Page x) (body : Text)
      → is_page_file path ≡ true
      → any (path_eq path) (iter_page_files x (serialize_and_write_page x path page body w).1)
        ≡ true
  unfolding iter_page_files serialize_and_write_page
  write-iter_page_files w path page body h =
      any-sort_by path_le (path_eq path) _
      ∙ (any-keep is_page_file (path_eq path) _
          ∙ written-is_listed path (x.dump_page page body) w.files h)

  -- A run of the indexer behind a write, and a reply.
  run_and_reply-IsIndexed :
      {A : Type 0} (k : IndexResult → A) (w : World x) (path : FilePath) (p : ParsedPage x) (a : A)
      → any (path_eq path) (iter_page_files x w) ≡ true
      → parse_page x w.files path ≡ some p
      → IsNotGenerated x p
      → IsAlone x p w
      → ((run_indexer x >>= λ r. pure (k r)) w).0 ≡ done a
      → IsIndexed x p ((run_indexer x >>= λ r. pure (k r)) w).1
  run_and_reply-IsIndexed k w path p a file parsed own alone ok =
      let ran : Hoare (λ v. v ≡ w) (λ u. IsIndexed x p) (run_indexer x) = record {
        at = λ v u e q.
            subst (λ z. (run_indexer x z).0 ≡ done u → IsIndexed x p (run_indexer x z).1) (sym e)
              (λ q'. run_indexer-IsIndexed x w path p u file parsed own alone q') q;
      } in
      (Hoare-bind {Q = λ u. IsIndexed x p} _ _ ran λ u. Hoare-pure (k u)).at w a refl ok

  -- An update of a known page that succeeds leaves a row with the page's id and the hash of the file
  -- that it wrote. The id must be accepted and of no generated index page, the type must have a
  -- directory, and no other page file may have the same id and other content.
  pub update_known-IsIndexed :
      (w : World x) (page : Page x) (body : Text) (known target : FilePath) {subdir : Text}
      (r : PageWritten)
      → validate_id page.id ≡ accepted
      → type_to_subdir page.type ≡ some subdir
      → page_target_path [] page.type page.id ≡ some target
      → existing_page_path x w page.id ≡ some known
      → IsNotGenerated x (rewritten x target page body)
      → IsAlone x (rewritten x target page body) (serialize_and_write_page x target page body w).1
      → (update_known x page body w).0 ≡ done r
      → IsIndexed x (rewritten x target page body) (update_known x page body w).1
  unfolding update_known overwrite_page ◌>>=◌ serialize_and_write_page
  update_known-IsIndexed w page body known target {subdir} r valid dir at_target old own alone ok =
      let files = write_file target (x.dump_page page body) w.files in
      let content = read_file-write_file_self target (x.dump_page page body) w.files in
      let parsed =
        read-parse x files target _ page (x.strip body) content (x.load-dump page body) valid in
      let file =
        write-iter_page_files w target page body
          (target-is_file page.type page.id target valid dir at_target) in
      rw (old, at_target)
        (run_and_reply-IsIndexed _ _ target (rewritten x target page body) r file parsed own alone
          (rw (old, at_target) at ok))
