-- ===== src/Crypto.antt =====
-- The backend traits of partymixrust/src/crypto and their mocks.
pub mod Pcd
pub mod Nisshac
pub mod Accumulators
pub mod Mock
