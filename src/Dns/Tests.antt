-- ===== src/Dns/Tests.antt =====
-- Runs of internal/dns on concrete messages, and its theorems at concrete inputs.
mod Codec
mod Client
