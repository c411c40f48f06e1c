-- ===== src/Udp.antt =====
-- udp/protocol: requests and responses in JSON over UDP.
pub mod Message
pub mod Handler
pub mod Client
mod Tests
