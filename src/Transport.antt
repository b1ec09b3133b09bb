-- ===== src/Transport.antt =====
-- The shared-memory rollout transport: src/rollout/shared_memory_transport.cc, with the message
-- structs of include/cverl/rollout/transport.h.
pub mod Codec
pub mod Messages
pub mod Encoding
pub mod Decoding
pub mod Maps
pub mod RoundTrip
pub mod Exchange
pub mod Protocol
pub mod Stale
pub mod Loopback
pub mod Order
mod Tests
