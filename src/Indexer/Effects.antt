-- ===== src/Indexer/Effects.antt =====
-- What the steps of the indexer leave alone, and how they can fail.
use smalt_mcp.Prelude.{
  ℕ, ◌≡◌, refl, ap, ◌∙◌, Bool, true, false, Option, none, some, List, [], ◌∷◌, if◌then◌else◌, Text,
}
use smalt_mcp.Storage.Paths.{FilePath}
use smalt_mcp.Corpus.{External, World, Do, IndexResult, EmbeddingRow, PageRow}
use smalt_mcp.Corpus.Actions.{fail, Failure, tool_error}
use smalt_mcp.Corpus.Respects.{
  IsPreorder, Respects, Respects-bind, Respects-pure, FailsBy, FailsBy-bind, FailsBy-pure,
}
use smalt_mcp.Corpus.Files.{read_file, write_file, path_eq, read_file-write_file_ne}
use smalt_mcp.Corpus.Pages.{ParsedPage}
use smalt_mcp.Indexer.{replace_owned, upsert, project, delete_page, delete_pages, refresh_indexes}
use smalt_mcp.Indexer.Run.{
  Canonical, regenerate, regenerate_index_pages, canonical_index_pages, index_path, Mode, run_with,
  run_indexer, sweep, Scan, project_and_refresh, scan_files, mode_rows, mode_files, start_scan,
  stale_ids, finish, incremental, never,
}

module _ (x : External) where
  replace_owned-files :
      (items : List (ParsedPage x)) (w : World x) → (replace_owned x items w).files ≡ w.files
  unfolding replace_owned
  replace_owned-files [] w = refl
  replace_owned-files (p ∷ items) w = replace_owned-files items _

  upsert-files :
      (items : List (ParsedPage x)) (rows : Option (List (EmbeddingRow x.Vector))) (w : World x)
      → (upsert x items rows w).1.files ≡ w.files
  unfolding upsert
  upsert-files items none w = refl
  upsert-files items (some rows) w = replace_owned-files items _

  upsert-fail :
      (items : List (ParsedPage x)) (rows : Option (List (EmbeddingRow x.Vector))) (w : World x)
      {e : Failure}
      → (upsert x items rows w).0 ≡ fail e
      → e ≡ tool_error
  unfolding upsert
  upsert-fail items none w h = cc
  upsert-fail items (some rows) w h = cc

  -- Projecting pages writes no file.
  pub project-files :
      (items : List (ParsedPage x)) (w : World x) → (project x items w).1.files ≡ w.files
  unfolding project
  project-files [] w = refl
  project-files (p ∷ items) w = upsert-files (p ∷ items) _ w

  project-fail :
      (items : List (ParsedPage x)) (w : World x) {e : Failure}
      → (project x items w).0 ≡ fail e
      → e ≡ tool_error
  unfolding project
  project-fail [] w h = cc
  project-fail (p ∷ items) w h = upsert-fail (p ∷ items) _ w h

  delete_pages-files : (ids : List Text) (w : World x) → (delete_pages x ids w).files ≡ w.files
  unfolding delete_pages
  delete_pages-files [] w = refl
  delete_pages-files (id ∷ ids) w = delete_pages-files ids (delete_page x id w)

  sweep-files :
      (rows : List (PageRow x.Rest)) (s : Scan x) (w : World x)
      → (sweep x rows s w).1.files ≡ w.files
  unfolding sweep
  sweep-files rows s w = delete_pages-files (stale_ids x rows s.seen) w

  -- Not one of the pages that the indexer generates.
  abbrev pub IsOwnPath : List Canonical → FilePath → Type 0
  IsOwnPath [] path = Unit
  IsOwnPath (c ∷ cs) path = (path_eq (index_path x c) path ≡ false) × IsOwnPath cs path

  -- The file at `path` is as it was.
  abbrev pub SameFile : FilePath → World x → World x → Type 0
  SameFile path w w' = read_file path w'.files ≡ read_file path w.files

  pub SameFile-IsPreorder : (path : FilePath) → IsPreorder (SameFile path)
  SameFile-IsPreorder path = record { reflexive = λ u. refl; transitive = λ u v w p q. q ∙ p }

  unmatched-files :
      (path target : FilePath) (content : x.Content) (matched : Bool) (w : World x)
      → path_eq target path ≡ false
      → SameFile path w
          (if matched then w else record w { files = write_file target content w.files })
  unmatched-files path target content true w h = refl
  unmatched-files path target content false w h =
      read_file-write_file_ne target path content w.files h

  regenerate-files :
      (path : FilePath) (start : World x) (cs : List Canonical) (w : World x)
      → IsOwnPath cs path
      → SameFile path w (regenerate x start cs w).1
  unfolding regenerate
  regenerate-files path start [] w h = refl
  regenerate-files path start (c ∷ cs) w h =
      regenerate-files path start cs _ h.1 ∙ unmatched-files path (index_path x c) _ _ w h.0

  abbrev pub Raises : {A : Type 0} → Do x A → Type 0
  Raises m = FailsBy (λ e. e ≡ tool_error) m

  project_and_refresh-Raises : (items : List (ParsedPage x)) → Raises (project_and_refresh x items)
  unfolding project_and_refresh
  project_and_refresh-Raises [] = FailsBy-pure tt
  project_and_refresh-Raises (p ∷ items) =
      FailsBy-bind _ _ (record { at = λ w e. project-fail (p ∷ items) w })
        λ _. record { at = λ w e q. cc }

  regenerate-Raises : Raises (regenerate_index_pages x)
  unfolding regenerate_index_pages
  regenerate-Raises = record { at = λ w e q. cc }

  finish-Raises :
      (to_index : List (ParsedPage x)) (result : IndexResult) → Raises (finish x to_index result)
  unfolding finish
  finish-Raises to_index result = FailsBy-bind _ _ (project_and_refresh-Raises to_index) λ _.
      FailsBy-bind _ _ regenerate-Raises
        λ changed. FailsBy-bind _ _ (project_and_refresh-Raises changed) λ _. FailsBy-pure result

  -- A run ends with a result or by an exception.
  pub run_with-Raises :
      (mode : Mode x) (is_cancelled : ℕ → Bool) → Raises (run_with x mode is_cancelled)
  unfolding run_with
  run_with-Raises mode is_cancelled = record { at = λ w e q. (finish-Raises _ _).at _ e q }

  pub run_indexer-Raises : Raises (run_indexer x)
  unfolding run_indexer
  run_indexer-Raises =
      FailsBy-bind _ _ (run_with-Raises incremental (never x)) λ r. record { at = λ w e q. cc }

module _ (x : External) (path : FilePath) (own : IsOwnPath x canonical_index_pages path) where
  project-SameFile : (items : List (ParsedPage x)) → Respects (SameFile x path) (project x items)
  project-SameFile items = record { at = λ w. ap (read_file path) (project-files x items w) }

  refresh-SameFile : Respects (SameFile x path) (refresh_indexes x)
  refresh-SameFile = record { at = λ w. refl }

  project_and_refresh-SameFile :
      (items : List (ParsedPage x)) → Respects (SameFile x path) (project_and_refresh x items)
  unfolding project_and_refresh
  project_and_refresh-SameFile [] = Respects-pure (SameFile-IsPreorder x path) tt
  project_and_refresh-SameFile (p ∷ items) =
      Respects-bind (SameFile-IsPreorder x path) _ _ (project-SameFile (p ∷ items))
        λ _. refresh-SameFile

  regenerate-SameFile : Respects (SameFile x path) (regenerate_index_pages x)
  unfolding regenerate_index_pages
  regenerate-SameFile = record { at = λ w. regenerate-files x path w canonical_index_pages w own }

  finish-SameFile :
      (to_index : List (ParsedPage x)) (result : IndexResult)
      → Respects (SameFile x path) (finish x to_index result)
  unfolding finish
  finish-SameFile to_index result =
      let order = SameFile-IsPreorder x path in
      Respects-bind order _ _ (project_and_refresh-SameFile to_index) λ _.
        Respects-bind order _ _ regenerate-SameFile λ changed.
          Respects-bind order _ _ (project_and_refresh-SameFile changed)
            λ _. Respects-pure order result

  -- A run in any mode, cancelled or not, leaves the file at a path alone that is not the path of a
  -- generated index page.
  pub run_with-SameFile :
      (mode : Mode x) (is_cancelled : ℕ → Bool)
      → Respects (SameFile x path) (run_with x mode is_cancelled)
  unfolding run_with
  run_with-SameFile mode is_cancelled = record {
    at = λ w.
        let rows = mode_rows x mode w in
        let files = mode_files x mode w in
        let s = scan_files x is_cancelled rows w files 0 (start_scan x files) in
        (finish-SameFile _ _).at _ ∙ ap (read_file path) (sweep-files x rows s w);
  }

  pub run_indexer-SameFile : Respects (SameFile x path) (run_indexer x)
  unfolding run_indexer
  run_indexer-SameFile =
      Respects-bind (SameFile-IsPreorder x path) _ _ (run_with-SameFile incremental (never x))
        λ r. record { at = λ w. refl }
