-- ===== src/Dns.antt =====
-- internal/dns: the DNS client.
pub mod Message
pub mod Encode
pub mod Name
pub mod Decode
pub mod Validate
pub mod Extract
pub mod Tcp
pub mod Lookup
mod Tests
