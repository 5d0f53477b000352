-- ===== src/Rpc.antt =====
-- internal/rpc: the envelope of a call, and the frames that carry it over a stream.
pub mod Envelope
pub mod Framing
