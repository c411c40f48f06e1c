-- ===== src/Http.antt =====
-- internal/rawhttp: an HTTP/1.1 server over raw connections.
pub mod Reader
pub mod Syntax
pub mod Body
pub mod Parser
pub mod Server
mod Tests
