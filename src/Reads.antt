-- ===== src/Reads.antt =====
-- The tools of src/smalt_mcp/tools.py that read pages: lists with property filters, lookups by alias,
-- and hybrid search. They work on the rows of the pages table; a row's `frontmatter_json` is the
-- frontmatter that it was made from.
pub mod Similar
pub mod Filters
pub mod Conjunction
pub mod Listing
pub mod Limits
pub mod Fuzzy
pub mod Aliases
pub mod Scores
pub mod Resolve
pub mod Rows
pub mod Fusion
pub mod Search
pub mod Hits
pub mod Handle
mod Tests
