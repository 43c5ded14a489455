-- ===== src/Storage.antt =====
-- The storage layer, src/smalt_mcp/storage.
pub mod Paths
pub mod Sql
pub mod Embedder
pub mod Indexes
