-- ===== src/Tools.antt =====
-- The tool handlers of src/smalt_mcp/tools.py that change the corpus.
pub mod Dispatch
pub mod Links
pub mod Claims
pub mod Write
pub mod WriteBatch
pub mod Remove
pub mod Careful
pub mod Handle
pub mod Tests
pub mod Graph
pub mod Effects
pub mod Publish
pub mod Batch
pub mod Cascade
pub mod Edits
pub mod Replaced
pub mod Indexed
