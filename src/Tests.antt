-- ===== src/Tests.antt =====
-- Concrete runs of the model.
pub mod Data
pub mod Payments
pub mod Debug
pub mod Blocks
pub mod Books
pub mod Deposits
pub mod Withdrawals
pub mod Service
pub mod Order
pub mod Chain
pub mod Sessions
pub mod Wire
pub mod Backends
pub mod Sound
pub mod Counted
