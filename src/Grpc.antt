-- ===== src/Grpc.antt =====
-- grpc/fundamentals: the inventory service.
pub mod Service
pub mod Server
pub mod Interceptors
pub mod Client
mod Tests
