-- ===== src/Rtps/Reliability.antt =====
-- rtps/Reliability.h and Reliability.cpp: the three submessages of the reliable protocol.
pub mod SequenceSet
pub mod ReadSet
pub mod Frame
pub mod Contents
pub mod Heartbeat
pub mod AckNack
pub mod Gap
pub mod RoundTrip
