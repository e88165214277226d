-- ===== src/Mcp.antt =====
-- The sessions of the Model Context Protocol endpoint, python/oxbrook/_mcp.py: the feeds of the
-- topics that a session follows, the session itself, and the registry of all live sessions.
pub mod Feed
pub mod Pumping
pub mod Session
pub mod Registry
pub mod Calls
pub mod Bounded
pub mod InUse
pub mod Kept
mod Tests
