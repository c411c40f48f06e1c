-- ===== src/Protocol.antt =====
-- protocol and tcp/protocol/server: requests and responses in JSON, in frames over TCP.
pub mod Message
pub mod Frame
pub mod Server
mod Tests
