-- ===== src/Execution.antt =====
-- endorser/execution: the state that the EVM runs against, and its journal.
pub mod Eth
pub mod Codec
pub mod AccessList
pub mod StateDb
