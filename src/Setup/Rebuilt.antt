-- ===== src/Setup/Rebuilt.antt =====
-- `reindex_all` forgets the index that it found.
use smalt_mcp.Prelude.{
  ◌+◌, ◌≡◌, refl, ap, ◌∙◌, sym, subst, arith, Bool, true, false, none, some, List, [], ◌∷◌, any,
  Text, codes, text_eq, text_eq→eq, member, inl, inr, Bool-cases,
}
use smalt_mcp.Corpus.{External, World, IndexResult}
use smalt_mcp.Corpus.Actions.{Outcome, done, fail, continue, ◌>>=◌, pure}
use smalt_mcp.Indexer.Run.{run_with, full, never, record_indexer_run}
use smalt_mcp.Storage.Paths.{FilePath}
use smalt_mcp.Corpus.Files.{path_eq}
use smalt_mcp.Corpus.Pages.{ParsedPage, parse_page}
use smalt_mcp.Indexer.{iter_page_files}
use smalt_mcp.Indexer.Projected.{IsIndexed, IsNotGenerated}
use smalt_mcp.Indexer.Fresh.{IsAlone, run_full-IsIndexed}
use smalt_mcp.Setup.Missing.{is_there, add_missing-makes}
use smalt_mcp.Setup.Tables.{TableInfo, table_schemas, ensure_tables, clear_created}
use smalt_mcp.Setup.{Site, on_world}
use smalt_mcp.Setup.Reindex.{Rebuilt, all_tables, drop_tables, index_all, rebuild, do_reindex}

module _ (x : External) (drops : Text → Bool) where
  drop_tables-gone :
      (name : Text) (tables : List TableInfo)
      → drops name ≡ true
      → member name all_tables ≡ true
      → is_there (λ t. t.name) name (drop_tables x drops tables) ≡ false
  unfolding drop_tables
  drop_tables-gone name [] h k = refl
  drop_tables-gone name (t ∷ tables) h k = elim (Bool-cases (text_eq t.name name)) [
    | inl e ↦
        let same = text_eq→eq t.name name e in
        let listed : member t.name all_tables ≡ true = ap (λ n. member n all_tables) same ∙ k in
        let dropped : drops t.name ≡ true = ap drops same ∙ h in
        ground (arith, listed, dropped, drop_tables-gone name tables h k)
    | inr e ↦ ground (arith, e, drop_tables-gone name tables h k)
  ]

  -- The same with empty tables, in their directory.
  abbrev emptied : World x → World x
  emptied w = record w {
    pages = x.pages.empty;
    embeddings = x.embeddings.empty;
    links = x.links.empty;
    claims = x.claims.empty;
    lance_dir = true;
  }

  -- `drop_table` works on every table.
  abbrev pub DropsAll : Type 0
  DropsAll = (n : Text) → drops n ≡ true

  ensure_tables-emptied :
      (tables : List TableInfo) (w : World x)
      → DropsAll
      → (ensure_tables x (drop_tables x drops tables) w).2 ≡ emptied w
  unfolding ensure_tables clear_created
  ensure_tables-emptied tables w all =
      let made =
        λ (name : Text) (k : member name all_tables ≡ true)
            (l : is_there (λ t. t.name) name table_schemas ≡ true).
          add_missing-makes (λ t. t.name) name table_schemas (drop_tables x drops tables)
            (drop_tables-gone name tables (all name) k) l in
      rw
        (
          made (codes "pages") refl refl,
          made (codes "embeddings") refl refl,
          made (codes "links") refl refl,
          made (codes "claims") refl refl,
        )
        refl

  -- What `record_indexer_run` makes of a run's outcome.
  abbrev recorded : Outcome IndexResult → World x → World x
  recorded (done r) w = record w { last_indexer_result = some r }
  recorded (fail e) w = w

  -- A full run that is recorded.
  abbrev pub run_full : World x → World x
  run_full w = let (o, v) = run_with x full (never x) w in recorded o v

  index_all-recorded :
      (f : IndexResult → Rebuilt) (o : Outcome IndexResult) (s : Site x)
      → (continue {B = Rebuilt} o
          (λ r. on_world x (record_indexer_run x r) >>= λ u. pure (f r))
          s).1.world
        ≡ recorded o s.world
  unfolding ◌>>=◌
  index_all-recorded f (done r) s = refl
  index_all-recorded f (fail e) s = refl

  index_all-run_full :
      (wiped recreated : List Text) (s : Site x)
      → (index_all x drops wiped recreated s).1.world ≡ run_full s.world
  unfolding ◌>>=◌
  index_all-run_full wiped recreated s =
      let (o, v) = run_with x full (never x) s.world in
      index_all-recorded
        (λ r. record { wiped_tables = wiped; recreated_tables = recreated; index_result = r }) o
        (record s { world = v })

  rebuild-run_full :
      (s : Site x) → DropsAll → (rebuild x drops false false s).1.world ≡ run_full (emptied s.world)
  unfolding rebuild ◌>>=◌
  rebuild-run_full s all =
      let opened : World x = record s.world { lance_dir = true } in
      let made = ensure_tables x (drop_tables x drops s.tables) opened in
      index_all-run_full _ made.0 (record s { tables = made.1; world = made.2 })
      ∙ ap run_full (ensure_tables-emptied s.tables opened all)

  abbrev held : World x → World x
  held w = record w {
    mutex = record {
      holder = some (codes "reindex_all");
      locked = true;
      acquire_count = w.mutex.acquire_count + 1;
    };
  }

  abbrev freed : World x → World x
  freed w = record w {
    mutex = record { locked = false; holder = none; acquire_count = w.mutex.acquire_count };
  }

  do_reindex-run_full :
      (s : Site x)
      → DropsAll
      → (do_reindex x drops false false s).1.world ≡ freed (run_full (emptied (held s.world)))
  unfolding do_reindex
  do_reindex-run_full s all = ap freed (rebuild-run_full (record s { world = held s.world }) all)

  -- The same files and counters, with other tables.
  pub record SameButTables (s s' : Site x) : Type 0 where
    pub same_world : emptied s'.world ≡ emptied s.world

  -- Where every table can be dropped and the task is not cancelled, the corpus after `reindex_all` does
  -- not depend on the tables that it found, on their rows or on which of them were there.
  pub do_reindex-forgets :
      (s s' : Site x)
      → DropsAll
      → SameButTables s s'
      → (do_reindex x drops false false s').1.world ≡ (do_reindex x drops false false s).1.world
  do_reindex-forgets s s' all h =
      do_reindex-run_full s' all
      ∙ (ap (λ w. freed (run_full (held w))) h.same_world ∙ sym (do_reindex-run_full s all))

  index_all-done :
      (f : IndexResult → Rebuilt) (o : Outcome IndexResult) (s : Site x) (b : Rebuilt)
      → (continue {B = Rebuilt} o
          (λ r. on_world x (record_indexer_run x r) >>= λ u. pure (f r))
          s).0
        ≡ done b
      → (r : IndexResult) × (o ≡ done r)
  index_all-done f (done r) s b h = (r, refl)
  index_all-done f (fail e) s b h = cc

  do_reindex-done :
      (s : Site x) (b : Rebuilt)
      → DropsAll
      → (do_reindex x drops false false s).0 ≡ done b
      → (r : IndexResult) × ((run_with x full (never x) (emptied (held s.world))).0 ≡ done r)
  unfolding do_reindex rebuild ◌>>=◌
  do_reindex-done s b all h =
      let made = ensure_tables x (drop_tables x drops s.tables) (held s.world) in
      let (o, v) = run_with x full (never x) made.2 in
      let (r, ran) =
        index_all-done
          (λ q. record { wiped_tables = _; recreated_tables = made.0; index_result = q }) o
          (record s { tables = made.1; world = v }) b h in
      (
        r,
        subst (λ w. (run_with x full (never x) w).0 ≡ done r)
            (ensure_tables-emptied s.tables (held s.world) all) ran,
      )

  run_full-recorded :
      (w : World x) (p : ParsedPage x) (o : Outcome IndexResult)
      → IsIndexed x p w
      → IsIndexed x p (recorded o w)
  run_full-recorded w p (done r) h = h
  run_full-recorded w p (fail e) h = h

  -- Where every table can be dropped: after a `reindex_all` that succeeds, every page file that parses
  -- has a row with its id and the hash of its content, if it is no generated index page and no other
  -- page file has its id and other content.
  pub do_reindex-IsIndexed :
      (s : Site x) (path : FilePath) (p : ParsedPage x) (b : Rebuilt)
      → DropsAll
      → any (path_eq path) (iter_page_files x s.world) ≡ true
      → parse_page x s.world.files path ≡ some p
      → IsNotGenerated x p
      → IsAlone x p s.world
      → (do_reindex x drops false false s).0 ≡ done b
      → IsIndexed x p (do_reindex x drops false false s).1.world
  unfolding iter_page_files
  do_reindex-IsIndexed s path p b all file parsed own alone ok =
      let w = emptied (held s.world) in
      let (r, ran) = do_reindex-done s b all ok in
      let indexed = run_full-IsIndexed x w path p r file parsed own alone ran in
      subst (IsIndexed x p) (sym (do_reindex-run_full s all)) (run_full-recorded _ p _ indexed)
