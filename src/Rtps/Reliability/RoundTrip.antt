-- ===== src/Rtps/Reliability/RoundTrip.antt =====
-- The encoders and decoders of HEARTBEAT, ACKNACK and GAP together.
pub mod Sets
pub mod Heartbeats
pub mod AckNacks
pub mod Gaps
