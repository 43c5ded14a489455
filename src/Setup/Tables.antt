-- ===== src/Setup/Tables.antt =====
-- `ensure_tables` of src/smalt_mcp/storage/lance.py: the tables by their names and columns.
use smalt_mcp.Prelude.{List, [], ◌∷◌, ◌++◌, map, if◌then◌else◌, Text, codes, text_eq, member, true}
use smalt_mcp.Corpus.{External, World}
use smalt_mcp.Setup.Missing.{add_missing}

-- A table of LanceDB: its name and the names of its columns.
pub record TableInfo : Type 0 where
  pub name : Text
  pub columns : List Text

abbrev pub pages_schema : List Text
pages_schema =
    codes "id"
    ∷ codes "path"
    ∷ codes "type"
    ∷ codes "title"
    ∷ codes "body"
    ∷ codes "frontmatter_json"
    ∷ codes "content_hash"
    ∷ codes "created_at"
    ∷ codes "updated_at"
    ∷ codes "aliases"
    ∷ []

abbrev pub embeddings_schema : List Text
embeddings_schema = codes "page_id" ∷ codes "vector" ∷ codes "model_version" ∷ []

abbrev pub links_schema : List Text
links_schema = codes "from_id" ∷ codes "to_id" ∷ codes "label" ∷ codes "source_page" ∷ []

abbrev pub claims_schema : List Text
claims_schema =
    codes "id"
    ∷ codes "page_id"
    ∷ codes "claim_text"
    ∷ codes "value_type"
    ∷ codes "value"
    ∷ codes "unit"
    ∷ codes "confidence"
    ∷ codes "confidence_label"
    ∷ codes "source_ref"
    ∷ []

abbrev pub sources_schema : List Text
sources_schema =
    codes "id"
    ∷ codes "location_uri"
    ∷ codes "location_kind"
    ∷ codes "source_content_hash"
    ∷ codes "fetched_at"
    ∷ codes "last_verified_at"
    ∷ codes "structure_ref"
    ∷ codes "ignored_json"
    ∷ codes "quality_score"
    ∷ codes "veracity_score"
    ∷ codes "evaluated_at"
    ∷ codes "evaluation_notes"
    ∷ []

-- `schemas`, in the order of `ALL_TABLES`
abbrev pub table_schemas : List TableInfo
table_schemas =
    record { name = codes "pages"; columns = pages_schema }
    ∷ record { name = codes "embeddings"; columns = embeddings_schema }
    ∷ record { name = codes "links"; columns = links_schema }
    ∷ record { name = codes "claims"; columns = claims_schema }
    ∷ record { name = codes "sources"; columns = sources_schema }
    ∷ []

abbrev pub with_aliases : TableInfo → TableInfo
with_aliases t =
    if member (codes "aliases") t.columns
    then t
    else record t { columns = t.columns ++ codes "aliases" ∷ [] }

-- `_migrate_pages_aliases_column`
unfoldable pub migrate_pages_aliases_column : List TableInfo → List TableInfo
migrate_pages_aliases_column tables =
    map (λ t. if text_eq t.name (codes "pages") then with_aliases t else t) tables

module _ (x : External) where
  -- A table that was created has no rows.
  unfoldable pub clear_created : List Text → World x → World x
  clear_created created w = record w {
    pages = if member (codes "pages") created then x.pages.empty else w.pages;
    embeddings = if member (codes "embeddings") created then x.embeddings.empty else w.embeddings;
    links = if member (codes "links") created then x.links.empty else w.links;
    claims = if member (codes "claims") created then x.claims.empty else w.claims;
  }

  -- `ensure_tables`: the names of the tables that it created, and the tables afterwards.
  unfoldable pub ensure_tables : List TableInfo → World x → List Text × List TableInfo × World x
  unfolding add_missing migrate_pages_aliases_column clear_created
  ensure_tables tables w =
      let (created, all) = add_missing (λ t. t.name) table_schemas tables in
      (
        created,
        (if member (codes "pages") created then all else migrate_pages_aliases_column all),
        record (clear_created created w) { lance_dir = true },
      )
