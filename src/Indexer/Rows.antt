-- ===== src/Indexer/Rows.antt =====
-- The row builders of src/smalt_mcp/storage/indexer.py: `_page_row`, `_link_rows`, `_claim_rows`.
use smalt_mcp.Prelude.{
  ℕ, true, false, Option, none, some, List, map, Text, codes, leb, length, take, if◌then◌else◌,
}
use smalt_mcp.Schema.{Link, Claim, ClaimValue, text_value, number_value, bool_value}
use smalt_mcp.Corpus.{External, PageRow, LinkRow, ClaimRow, Page}
use smalt_mcp.Corpus.Pages.{ParsedPage}

abbrev embed_body_char_budget : ℕ
embed_body_char_budget = 2000

-- `_truncate_for_embedding`
unfoldable pub truncate_for_embedding : Text → Text
truncate_for_embedding body =
    if leb (length body) embed_body_char_budget then body else take embed_body_char_budget body

unfoldable pub link_row : Text → Link → LinkRow
link_row page_id link = record {
  from_id = page_id;
  to_id = link.target;
  label = link.label;
  source_page = link.via_source;
}

-- `str(c.value)`
abbrev pub str_value : ClaimValue → Text
str_value (text_value t) = t
str_value (number_value t) = t
str_value (bool_value true) = codes "True"
str_value (bool_value false) = codes "False"

abbrev map_value : Option ClaimValue → Option Text
map_value none = none
map_value (some v) = some (str_value v)

unfoldable pub claim_row : Text → Claim → ClaimRow
claim_row page_id c = record {
  id = c.id;
  page_id = page_id;
  claim_text = c.text;
  value_type = c.value_type;
  value = map_value c.value;
  unit = c.unit;
  confidence = c.confidence;
  confidence_label = c.confidence_label;
  source_ref = c.source_ref;
}

module _ (x : External) where
  -- `existing_created_at.get(fm.id, now)`
  abbrev or_now : ℕ → Option ℕ → ℕ
  or_now now none = now
  or_now now (some t) = t

  unfoldable pub page_row : ParsedPage x → ℕ → Option ℕ → PageRow x.Rest
  page_row p now created = record {
    id = p.frontmatter.id;
    path = p.rel_path;
    type = p.frontmatter.type;
    title = p.frontmatter.title;
    body = p.body;
    frontmatter = p.frontmatter;
    content_hash = p.content_hash;
    created_at = or_now now created;
    updated_at = now;
    aliases = p.frontmatter.aliases;
  }

  unfoldable pub link_rows : Page x → Text → List LinkRow
  unfolding link_row
  link_rows page page_id = map (link_row page_id) page.links_out

  -- An index page is taken to have no key `claims`; on one that has it the source raises.
  unfoldable pub claim_rows : Page x → Text → List ClaimRow
  unfolding claim_row
  claim_rows page page_id = map (claim_row page_id) page.claims
