-- ===== src/Schema.antt =====
-- The page model of src/smalt_mcp/schema.py. A value of `Frontmatter` stands for a frontmatter that
-- passed validation: the keys that the program reads are fields, all others are `rest`.
use smalt_mcp.Prelude.{Bool, Option, List, Text}

pub data PageType : Type 0 where
  entity concept source synthesis index : PageType

pub data ConfidenceLevel : Type 0 where
  high medium low unrated : ConfidenceLevel

-- `value_type` of a claim.
pub data ValueType : Type 0 where
  string number bool date : ValueType

-- `value` of a claim: `str | float | bool`; a float goes by its printed form.
pub data ClaimValue : Type 0 where
  text_value number_value : Text → ClaimValue
  bool_value : Bool → ClaimValue

pub record Link : Type 0 where
  pub target : Text
  pub label : Option Text
  pub via_source : Option Text

pub record Claim : Type 0 where
  pub id : Text
  pub text : Text
  pub value_type : Option ValueType
  pub value : Option ClaimValue
  pub unit : Option Text
  pub confidence : Option Text
  pub confidence_label : ConfidenceLevel
  pub source_ref : Option Text

pub record Evidence : Type 0 where
  pub source_id : Text
  pub snippet : Text

-- `is_domain` and `glossary` are `none` where the key is absent.
pub record Frontmatter (Rest : Type 0) : Type 0 where
  pub id : Text
  pub type : PageType
  pub title : Text
  pub aliases : List Text
  pub links_out : List Link
  pub claims : List Claim
  pub domains : List Text
  pub is_domain : Option Bool
  pub glossary : Option Bool
  pub fetched_at : Option Text
  pub rest : Rest
