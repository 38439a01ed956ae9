-- ===== src/Rtps.antt =====
-- The RTPS layer, src/rtps and include/mini_dds/rtps.
pub mod Types
pub mod SubmessageKind
pub mod Message
pub mod Codec
pub mod Data
pub mod Checked
pub mod Reliability
pub mod Outcome
pub mod Reader
pub mod Stateless
pub mod Writer
pub mod Router
