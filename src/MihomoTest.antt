-- ===== src/MihomoTest.antt =====
-- internal/mihomotest: the test of a configuration by the core, its cache and its attestation.
pub mod Data
pub mod Cache
pub mod Validate
pub mod Status
pub mod Attestation
pub mod Test
mod Tests
