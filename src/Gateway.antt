-- ===== src/Gateway.antt =====
-- gateway: the queues between the accepted transactions and the workers, and the log filters.
pub mod Data
pub mod TxQueue
pub mod TxQueueV2
pub mod DepGraph
pub mod Filters
pub mod Nonce
