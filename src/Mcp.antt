-- ===== src/Mcp.antt =====
-- internal/mcp/tasks.go: the tasks of the MCP server and their logs.
pub mod Tasks
pub mod Logs
mod Tests
