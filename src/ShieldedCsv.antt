-- ===== src/ShieldedCsv.antt =====
-- The Shielded CSV protocol layer: partymixrust/src/shielded_csv/primitives.rs and protocol.rs.
pub mod Data
pub mod Equality
pub mod Platform
pub mod Primitives
pub mod Accumulators
pub mod Payment
pub mod Debug
pub mod Compliance
