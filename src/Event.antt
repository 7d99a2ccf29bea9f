-- ===== src/Event.antt =====
-- The journal (internal/event): event types, payloads and their encoding, and the log.
pub mod Kind
pub mod Json
pub mod Payload
pub mod Encode
pub mod Decode
pub mod RoundTrip
pub mod Log
