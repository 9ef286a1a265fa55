-- ===== src/Mcp.antt =====
-- mcp/: an MCP server and client whose every operation is traced, timed and contained, the transports
-- that are resolved by name, and the two that run on serve/.
pub mod Settings
pub mod Details
pub mod Server
pub mod Meta
pub mod Handlers
pub mod Client
pub mod Transports
pub mod Bounds
