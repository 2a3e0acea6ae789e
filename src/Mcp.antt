-- ===== src/Mcp.antt =====
-- internal/adapter/mcp: validation at the boundary, and the handlers of the tools.
pub mod Validation
pub mod Request
pub mod Bundles
pub mod Concepts
pub mod Searches
pub mod Tools
pub mod Limits
pub mod Writes
