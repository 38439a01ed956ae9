-- ===== src/Tests.antt =====
-- The theorems at concrete inputs.
mod Values
mod Codecs
mod Readers
mod Receptions
mod Histories
mod Discoveries
mod Deliveries
mod Routes
mod Payloads
mod Identifiers
