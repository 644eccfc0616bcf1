-- ===== src/Lib.antt =====
-- A verification library for the core of fabric-x-evm, which runs Ethereum transactions on a Fabric-X
-- ledger. An endorser executes a transaction on a versioned store and gives a read-write set; the gateway
-- queues transactions, has them endorsed, and submits them; committed blocks come back to the stores and
-- the queues.
--
-- Storage models the in-memory stores of the endorser.
-- - Storage/Data: the types of endorser/storage/lightkvs.go (`Snapshot`, `ValueVersion`, `LightKVS`,
--   `Reader`) and the parts of the SDK's blocks that the stores read.
-- - Storage/Updates: `applyUpdates`, `collectWrites` and `verifyReplay`; below it what versions a batch
--   gives (Versions) and when a replay passes (Verify).
-- - Storage/LightKvs: the methods of `LightKVS` and `Reader`; below it the redelivery of a block (Replay),
--   the ring buffer (Ring, Window), the history it serves (History), and the refusals (Refusal).
-- - Storage/Revertible: the methods of `RevertibleLightKVS` in
--   endorser/storage/revertible_lightkvs.go; below it the scan for a height (Nearest), the merge of a
--   revert (Merge), the order of the history (History), and a block and its revert (Roundtrip).
-- - Storage/PebbleRecord, Storage/PebbleKeys: the bytes of records and the keys of
--   endorser/storage/pebblekvs.go.
-- Execution models endorser/execution/statedb.go.
-- - Execution/Eth: what is taken from go-ethereum and uint256, as parameters with their laws.
-- - Execution/Codec: the encodings of balances and nonces. Execution/AccessList: `accessList`.
-- - Execution/StateDb: the state, `getState`, `putState` and the write index; below it the methods of
--   vm.StateDB (Accounts), `Snapshot`, `RevertToSnapshot` and `Result` (Revert), the index (Index), the
--   observable state (View), what extends a state (Extends, Entries, Operations, Preparing), reverts (Reverted), runs
--   of calls (Runs), a repeated `SelfDestruct` (Destruction), and reads after writes (Reads).
-- Gateway models the queues of gateway/core and the log filters of gateway/api.
-- - Gateway/Data: the fields of gateway/domain/models.go that the queues read.
-- - Gateway/TxQueue: gateway/core/txqueue.go; below it what is tracked (Tracking).
-- - Gateway/DepGraph: gateway/core/depgraph_queue.go; below it gateway/core/depgraph_adapter.go (Content),
--   `batchLoop` (Batches), the reuse of endorsements (Reuse), and what is tracked (Release).
-- - Gateway/TxQueueV2: gateway/core/txqueue_v2.go and txqueue_helpers.go; below it what the links do (Links),
--   an enqueue (Exclusion, Linking), a completion (Completion), sequences of calls (Runs), the counts of
--   links (Balance), and what a transaction waits for (Progress, with Enqueuing, Completing and Sequences).
-- - Gateway/Nonce: gateway/core/nonce_parking.go; below it the index of parked transactions (Filing, Adding),
--   `Admit` and `Observe` (Admission, Advancing, Effect), what a commit releases (Releasing), and `prune` (Pruning for
--   the senders, Expiry and Reaping for the parked transactions).
-- - Gateway/Filters: criteria.go and match.go of gateway/api/filters; below it what is kept (Match).
-- Prelude holds the shared names, tests, lists, maps and results; Tests the concrete runs.
--
-- How the code is read. Go strings, byte slices, addresses and hashes are lists of bytes; a Go map is an
-- association list with one entry for a key, whose order is no part of a statement. Unsigned 64-bit
-- versions and counts wrap where the code lets them (`% 2 ^ 64`). An error or a panic is a value of
-- `Outcome`. A method of StateDB is a function from a state to a result and a state, and the state is
-- there also where the method fails. A method under a mutex is one step, and a blocking receive answers
-- `waits`; `Handle` of `TxQueue`, which takes the mutex for each completion, is one step as well. `Admit` of the nonce gate gives its mutex up once, where what others do is a function of the
-- gate. A pointer to a queue entry is a number in a heap. The eviction of senders runs on the number of
-- senders as fuel, which is enough since each round drops one. An atomic pointer is a field. The digits
-- of a number are taken by recursion on fuel that is the number itself, which is enough since each
-- division makes it smaller. All other loops recurse on their list. Log lines and metrics are left out,
-- and so are debug panics.
--
-- The SDK, go-ethereum, the protocol buffers and the dependency manager are parameters. Not modelled:
-- the commits, pruning and snapshots of the disk store, the executor, the endorser's and the gateway's
-- services, the JSON-RPC handlers and the filters' subscriptions, the SQL storage, the trie, the
-- synchronizer, configuration, metrics, generated code and test doubles. The goroutines that move
-- transactions between the channels of the dependency queue are not modelled either, nor what they drop
-- at shutdown.
pub mod Prelude
pub mod Storage
pub mod Execution
pub mod Gateway
pub mod Tests
