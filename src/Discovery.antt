-- ===== src/Discovery.antt =====
-- The discovery layer, src/discovery and include/mini_dds/discovery.
pub mod PortMapping
pub mod ParameterList
