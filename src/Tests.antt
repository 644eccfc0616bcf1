-- ===== src/Tests.antt =====
-- Concrete runs of the modelled code, at which the theorems apply.
pub mod Stores
pub mod Disk
pub mod Reverts
pub mod Accounts
pub mod Nonce
pub mod Conflicts
pub mod Queues
pub mod Filters
