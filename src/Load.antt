-- ===== src/Load.antt =====
-- load: the servers that limit what they take on, and the clients that measure them.
pub mod Admission
pub mod Clients
pub mod Latency
pub mod Queue
pub mod Work
mod Tests
mod ClientTests
