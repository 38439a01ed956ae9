-- ===== src/Rtps/Reader.antt =====
-- ReliableReader of rtps/ReliableEndpoint.h and ReliableEndpoint.cpp.
pub mod Sets
pub mod State
pub mod Commit
pub mod Acks
pub mod Receive
