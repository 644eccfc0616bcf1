-- ===== src/Storage.antt =====
-- endorser/storage: the in-memory versioned stores of the endorser.
pub mod Data
pub mod Updates
pub mod LightKvs
pub mod Revertible
pub mod PebbleRecord
pub mod PebbleKeys
