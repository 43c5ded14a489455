-- ===== src/Setup/Again.antt =====
-- `bootstrap` makes what is missing, keeps what is there, and makes nothing the second time.
use mathlib.Core.Path.{ap₂}
use smalt_mcp.Prelude.{
  ◌≡◌, refl, ap, ◌∙◌, sym, subst, arith, Bool, true, false, List, [], ◌∷◌, ◌++◌, any-append, All,
  All-append, if◌then◌else◌, Text, codes, text_eq, member, inl, inr, Bool-cases,
}
use smalt_mcp.Corpus.{External, World, Do}
use smalt_mcp.Corpus.Actions.{done, ◌>>=◌}
use smalt_mcp.Corpus.Respects.{IsPreorder, Respects, Respects-bind, Respects-pure}
use smalt_mcp.Corpus.Yields.{Yields, Yields-then, Yields-pure}
use smalt_mcp.Setup.Missing.{
  is_there, add_missing, add_missing-extends, add_missing-All, add_missing-none, add_missing-skips,
}
use smalt_mcp.Setup.Tables.{
  TableInfo, table_schemas, with_aliases, migrate_pages_aliases_column, ensure_tables,
  clear_created,
}
use smalt_mcp.Setup.{
  dirs_of, Site, Prepared, Bootstrapped, all_dirs, placeholders, prepare, on_world, index_site,
  bootstrap,
}

abbrev name_of : TableInfo → Text
name_of t = t.name

-- The migration has nothing to do for the table.
abbrev IsMigrated : TableInfo → Type 0
IsMigrated t = (if text_eq t.name (codes "pages") then with_aliases t else t) ≡ t

migrate-none :
    (tables : List TableInfo) → All IsMigrated tables → migrate_pages_aliases_column tables ≡ tables
unfolding migrate_pages_aliases_column
migrate-none [] h = refl
migrate-none (t ∷ tables) h = ap₂ ◌∷◌ h.0 (migrate-none tables h.1)

with_aliases-again : (t : TableInfo) → with_aliases (with_aliases t) ≡ with_aliases t
with_aliases-again t = elim (Bool-cases (member (codes "aliases") t.columns)) [
  | inl e ↦ rw (e, e) refl
  | inr e ↦
      let here : member (codes "aliases") (t.columns ++ codes "aliases" ∷ []) ≡ true =
        any-append (text_eq (codes "aliases")) t.columns (codes "aliases" ∷ []) ∙ ground arith in
      rw (e, here) refl
]

with_aliases-name : (t : TableInfo) → (with_aliases t).name ≡ t.name
with_aliases-name t = ground arith

with_aliases-IsMigrated :
    (t : TableInfo) → IsMigrated (if text_eq t.name (codes "pages") then with_aliases t else t)
with_aliases-IsMigrated t = elim (Bool-cases (text_eq t.name (codes "pages"))) [
  | inl e ↦
      let named : text_eq (with_aliases t).name (codes "pages") ≡ true =
        ap (λ n. text_eq n (codes "pages")) (with_aliases-name t) ∙ e in
      rw (e, named) (with_aliases-again t)
  | inr e ↦ rw (e, e) refl
]

migrate-IsMigrated :
    (tables : List TableInfo) → All IsMigrated (migrate_pages_aliases_column tables)
unfolding migrate_pages_aliases_column
migrate-IsMigrated [] = tt
migrate-IsMigrated (t ∷ tables) = (with_aliases-IsMigrated t, migrate-IsMigrated tables)

migrate-names :
    (name : Text) (tables : List TableInfo)
    → is_there name_of name (migrate_pages_aliases_column tables) ≡ is_there name_of name tables
unfolding migrate_pages_aliases_column
migrate-names name [] = refl
migrate-names name (t ∷ tables) = ground (arith, migrate-names name tables)

-- Tables of which none is the pages table.
others-IsMigrated :
    (tables : List TableInfo)
    → is_there name_of (codes "pages") tables ≡ false
    → All IsMigrated tables
others-IsMigrated [] h = tt
others-IsMigrated (t ∷ tables) h =
    let other : text_eq t.name (codes "pages") ≡ false = ground (arith, h) in
    (rw other refl, others-IsMigrated tables (ground (arith, h)))

schemas-IsMigrated : All IsMigrated table_schemas
schemas-IsMigrated = (refl, (refl, (refl, (refl, (refl, tt)))))

-- The migration keeps the names.
migrated-there :
    (b : Bool) (tables items : List TableInfo)
    → All (λ t. is_there name_of t.name tables ≡ true) items
    → All
        (λ t.
          is_there name_of t.name (if b then tables else migrate_pages_aliases_column tables)
          ≡ true)
        items
migrated-there true tables items h = h
migrated-there false tables [] h = tt
migrated-there false tables (t ∷ items) h =
    (migrate-names t.name tables ∙ h.0, migrated-there false tables items h.1)

module _ (x : External) where
  -- Nothing is missing, and the pages table has its column of aliases.
  pub record IsReady (s : Site x) : Type 0 where
    pub all_dirs_there : All (λ d. is_there (λ e. e) d s.dirs ≡ true) all_dirs
    pub all_notes_there : All (λ f. is_there (λ g. g.0) f.0 s.notes ≡ true) placeholders
    pub all_tables_there : All (λ t. is_there name_of t.name s.tables ≡ true) table_schemas
    pub is_migrated : migrate_pages_aliases_column s.tables ≡ s.tables

  abbrev pub nothing_created : Prepared
  nothing_created = record { created_dirs = []; created_files = []; created_tables = [] }

  dirs_of-there :
      (s : Site x) (dirs : List Text)
      → All (λ d. is_there (λ e. e) d s.dirs ≡ true) dirs
      → All (λ d. is_there (λ e. e) d (dirs_of x s) ≡ true) dirs
  dirs_of-there s [] h = tt
  dirs_of-there s (d ∷ dirs) h = (ground (arith, h.0), dirs_of-there s dirs h.1)

  -- On a site that is ready nothing is made.
  prepare-IsReady : (s : Site x) → IsReady s → (prepare x s).0 ≡ nothing_created
  unfolding prepare ensure_tables clear_created
  prepare-IsReady s h =
      rw
        (
          add_missing-none (λ d. d) all_dirs (dirs_of x s)
              (dirs_of-there s all_dirs h.all_dirs_there),
          add_missing-none (λ f. f.0) placeholders s.notes h.all_notes_there,
          add_missing-none name_of table_schemas s.tables h.all_tables_there,
        )
        refl

  -- The tables after `ensure_tables`, whether the pages table was created or migrated.
  ensure_tables-IsMigrated :
      (tables : List TableInfo) (w : World x)
      → migrate_pages_aliases_column (ensure_tables x tables w).1 ≡ (ensure_tables x tables w).1
  unfolding ensure_tables
  ensure_tables-IsMigrated tables w = elim (Bool-cases (is_there name_of (codes "pages") tables)) [
    | inl e ↦
        rw (add_missing-skips name_of (codes "pages") table_schemas tables e)
          (migrate-none _ (migrate-IsMigrated _))
    | inr e ↦
        let (new, all, k) =
          add_missing-extends name_of IsMigrated table_schemas tables schemas-IsMigrated in
        elim (Bool-cases (member (codes "pages") (add_missing name_of table_schemas tables).0)) [
          | inl c ↦ rw c (
              migrate-none _ (
                subst (All IsMigrated) (sym all)
                  (All-append IsMigrated tables new (others-IsMigrated tables e) k)))
          | inr c ↦ rw c (migrate-none _ (migrate-IsMigrated _))
        ]
  ]

  ensure_tables-there :
      (tables : List TableInfo) (w : World x)
      → All (λ t. is_there name_of t.name (ensure_tables x tables w).1 ≡ true) table_schemas
  unfolding ensure_tables
  ensure_tables-there tables w =
      migrated-there (member (codes "pages") (add_missing name_of table_schemas tables).0) _
        table_schemas (add_missing-All name_of table_schemas tables)

  -- What `prepare` leaves is ready.
  pub prepared-IsReady : (s : Site x) → IsReady (prepare x s).1
  unfolding prepare
  prepared-IsReady s = record {
    all_dirs_there = add_missing-All (λ d. d) all_dirs (dirs_of x s);
    all_notes_there = add_missing-All (λ f. f.0) placeholders s.notes;
    all_tables_there = ensure_tables-there s.tables (record s.world { smalt_exists = true });
    is_migrated = ensure_tables-IsMigrated s.tables (record s.world { smalt_exists = true });
  }

  abbrev StaysReady : Site x → Site x → Type 0
  StaysReady s s' = IsReady s → IsReady s'

  StaysReady-IsPreorder : IsPreorder StaysReady
  StaysReady-IsPreorder = record { reflexive = λ s h. h; transitive = λ s t u p q h. q (p h) }

  on_world-StaysReady : {A : Type 0} (m : Do x A) → Respects StaysReady (on_world x m)
  on_world-StaysReady m = record {
    at = λ s h. record {
      all_dirs_there = h.all_dirs_there;
      all_notes_there = h.all_notes_there;
      all_tables_there = h.all_tables_there;
      is_migrated = h.is_migrated;
    };
  }

  index_site-StaysReady : (p : Prepared) → Respects StaysReady (index_site x p)
  index_site-StaysReady p =
      Respects-bind StaysReady-IsPreorder _ _ (on_world-StaysReady _)
        λ r. Respects-pure StaysReady-IsPreorder _

  index_site-prepared :
      (p : Prepared)
      → p ≡ nothing_created
      → Yields (λ b. b.prepared ≡ nothing_created) (index_site x p)
  index_site-prepared p h = Yields-then _ _ λ k. Yields-pure _ h

  -- After `bootstrap`, whether its run of the indexer succeeded or not, nothing is missing.
  pub bootstrapped-IsReady : (s : Site x) → IsReady (bootstrap x s).1
  unfolding bootstrap ◌>>=◌
  bootstrapped-IsReady s =
      (index_site-StaysReady (prepare x s).0).at (prepare x s).1 (prepared-IsReady s)

  bootstrap-nothing :
      (s : Site x) (r : Bootstrapped)
      → IsReady s
      → (bootstrap x s).0 ≡ done r
      → r.prepared ≡ nothing_created
  unfolding bootstrap ◌>>=◌
  bootstrap-nothing s r h q =
      (index_site-prepared (prepare x s).0 (prepare-IsReady s h)).at (prepare x s).1 r q

  -- A second `bootstrap` that succeeds reports that it made nothing, whatever the first one found or
  -- made, and whether its run of the indexer succeeded.
  pub bootstrap-again :
      (s : Site x) (r : Bootstrapped)
      → (bootstrap x (bootstrap x s).1).0 ≡ done r
      → r.prepared ≡ nothing_created
  bootstrap-again s r h = bootstrap-nothing (bootstrap x s).1 r (bootstrapped-IsReady s) h
