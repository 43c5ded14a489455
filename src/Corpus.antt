-- ===== src/Corpus.antt =====
-- The corpus: the markdown files and the LanceDB tables that index them, with all that the handlers
-- take from outside the repository.
pub mod Tables
pub mod Actions
pub mod Respects
pub mod Yields
pub mod Hoare
pub mod Files
pub mod Memory
pub mod Pages
pub mod Opened
use smalt_mcp.Prelude.{ℕ, suc, ◌+◌, ◌≡◌, Bool, Option, none, some, List, length, Text}
use smalt_mcp.Schema.{PageType, ConfidenceLevel, ValueType, Claim, Frontmatter}
use smalt_mcp.Storage.Paths.{FilePath}
use smalt_mcp.Corpus.Tables.{Table}
use smalt_mcp.Corpus.Actions.{Action, Outcome}

-- `pages_schema`; `frontmatter` is what `frontmatter_json` holds.
pub record PageRow (Rest : Type 0) : Type 0 where
  pub id : Text
  pub path : FilePath
  pub type : PageType
  pub title : Text
  pub body : Text
  pub frontmatter : Frontmatter Rest
  pub content_hash : Text
  pub created_at : ℕ
  pub updated_at : ℕ
  pub aliases : List Text

-- `embeddings_schema`
pub record EmbeddingRow (Vector : Type 0) : Type 0 where
  pub page_id : Text
  pub vector : Vector
  pub model_version : Text

-- `links_schema`
pub record LinkRow : Type 0 where
  pub from_id : Text
  pub to_id : Text
  pub label : Option Text
  pub source_page : Option Text

-- `claims_schema`
pub record ClaimRow : Type 0 where
  pub id : Text
  pub page_id : Text
  pub claim_text : Text
  pub value_type : Option ValueType
  pub value : Option Text
  pub unit : Option Text
  pub confidence : Option Text
  pub confidence_label : ConfidenceLevel
  pub source_ref : Option Text

-- What the program takes from other packages: YAML and pydantic, hashing, the embedder, random ids
-- and LanceDB.
pub record External : Type 1 where
  pub Rest : Type 0
  -- the bytes of a file
  pub Content : Type 0
  -- a JSON object that a caller sends
  pub Raw : Type 0
  pub RawClaim : Type 0
  pub Vector : Type 0
  pub content_eq : Content → Content → Bool
  -- pydantic on a caller's frontmatter, without the validator `_check_id`; `none` is its
  -- `ValidationError`
  pub view_page : Raw → Option (Frontmatter Rest)
  pub view_claim : RawClaim → Option Claim
  -- decoding, `frontmatter.loads` and pydantic on a file's bytes, without `_check_id`
  pub load_page : Content → Option (Frontmatter Rest × Text)
  -- `frontmatter.dumps` and encoding
  pub dump_page : Frontmatter Rest → Text → Content
  -- the `stored_query` and `auto_generated` of an index page over a flag
  pub index_rest : Text → Rest
  -- `str.strip`, by which `frontmatter.loads` cuts the body
  pub strip : Text → Text
  pub hash_bytes : Content → Text
  pub embed : List Text → List Vector
  pub model_version : Text
  -- the n-th suffix that `uuid4` and base64 yield
  pub suffix : ℕ → Text
  pub pages : Table (PageRow Rest)
  pub embeddings : Table (EmbeddingRow Vector)
  pub links : Table LinkRow
  pub claims : Table ClaimRow
  -- A written page reads back, its body stripped.
  pub load-dump :
      (fm : Frontmatter Rest) (body : Text) → load_page (dump_page fm body) ≡ some (fm, strip body)

-- `CorpusWriteMutex` as one thread sees it.
pub record Holder : Type 0 where
  pub locked : Bool
  pub holder : Option Text
  pub acquire_count : ℕ

-- `IndexResult`; timings and the status of the search indexes are left out.
pub record IndexResult : Type 0 where
  pub scanned : ℕ
  pub inserted : ℕ
  pub updated : ℕ
  pub skipped : ℕ
  pub deleted : ℕ
  pub failed : ℕ
  pub failures : List FilePath
  pub cancelled : Bool

-- The shared state of the handlers.
pub record World (x : External) : Type 0 where
  pub smalt_exists : Bool
  pub db_opens : Bool
  -- the directory `index/lance` is there
  pub lance_dir : Bool
  pub files : List (FilePath × x.Content)
  pub pages : x.pages.Store
  pub embeddings : x.embeddings.Store
  pub links : x.links.Store
  pub claims : x.claims.Store
  -- `datetime.now`
  pub clock : ℕ
  -- how many suffixes were drawn
  pub drawn : ℕ
  pub mutex : Holder
  -- how often the search indexes were rebuilt
  pub refreshes : ℕ
  pub last_indexer_result : Option IndexResult

module _ (x : External) where
  abbrev pub Page : Type 0
  Page = Frontmatter x.Rest

  abbrev pub Do : Type 0 → Type 0
  Do A = Action (World x) A
