-- ===== src/Gateway/TxQueue.antt =====
-- gateway/core/txqueue.go: the first-in-first-out queue of transactions. Each method runs under the mutex,
-- so it is one step on the state; a method that waits on the condition returns `waits`.
pub mod Tracking
use fabric_x_evm_lfx.Prelude.{
  [], ℕ, ◌+◌, Bool, true, false, ◌||◌, Option, none, some, List, ◌∷◌, ◌++◌, Map, has, lookup,
  insert, erase, Outcome, ok, err, length, if◌then◌else◌, nat_eq, Bytes, bytes_eq,
}
use fabric_x_evm_lfx.Gateway.Data.{
  Transaction, Block, QueueError, already_pending, Received, waits, closed, served, count_invalid,
}

-- `TxQueue`, over the type of go-ethereum's transactions.
pub record TxQueue (T : Type 0) : Type 0 where
  pub pending_queue : List T
  pub queued_map : Map Bytes T
  pub in_progress_map : Map Bytes T
  pub done : Bool
  pub total : ℕ
  pub invalid : ℕ

module _ {T : Type 0} where
  -- `NewTxQueue`
  unfoldable pub new_tx_queue : TxQueue T
  new_tx_queue = record {
    pending_queue = [];
    queued_map = [];
    in_progress_map = [];
    done = false;
    total = 0;
    invalid = 0;
  }

  -- `Close`
  unfoldable pub close : TxQueue T → TxQueue T
  close q = record q { done = true }

  -- `IsPending`; nil is `none`.
  unfoldable pub is_pending : Bytes → TxQueue T → Option T
  is_pending h q = elim (lookup h q.in_progress_map) [
    | some tx ↦ some tx
    | none ↦ lookup h q.queued_map
  ]

  -- `InFlight`
  unfoldable pub in_flight : TxQueue T → ℕ
  in_flight q = length q.pending_queue + length q.in_progress_map

  -- `Complete`
  unfoldable pub complete : Bytes → TxQueue T → TxQueue T
  complete h q = record q { in_progress_map = erase h q.in_progress_map }

  -- `Stats`
  unfoldable pub stats : TxQueue T → ℕ × ℕ × ℕ × ℕ
  stats q = (q.total, q.invalid, 0, 0)

-- `hash` is `types.Transaction.Hash`.
module _ {T : Type 0} (hash : T → Bytes) where
  -- `Enqueue`
  unfoldable pub enqueue : T → TxQueue T → Outcome QueueError (TxQueue T)
  enqueue tx q =
      if has (hash tx) q.queued_map || has (hash tx) q.in_progress_map
      then err already_pending
      else ok (record q {
        pending_queue = q.pending_queue ++ tx ∷ [];
        queued_map = insert (hash tx) tx q.queued_map;
      })

  -- `Dequeue`
  unfoldable pub dequeue : TxQueue T → Received (T × TxQueue T)
  dequeue q = elim q.pending_queue [
    | [] ↦ if q.done then closed else waits
    | tx ∷ rest ↦ served (
      tx,
      record q {
        pending_queue = rest;
        queued_map = erase (hash tx) q.queued_map;
        in_progress_map = insert (hash tx) tx q.in_progress_map;
      },
    )
  ]

-- `bytes_to_hash` is `common.BytesToHash`.
module _ {T : Type 0} (bytes_to_hash : Bytes → Bytes) where
  -- The loop of `Handle`.
  unfoldable pub handle_transactions : List Transaction → TxQueue T → TxQueue T
  unfolding complete
  handle_transactions [] q = q
  handle_transactions (tx ∷ txs) q = handle_transactions txs (
      complete (bytes_to_hash tx.tx_hash)
        (record q { total = q.total + 1; invalid = count_invalid q.invalid tx }))

  -- `Handle`. The mutex is taken for each completion and not for the counts, so this is its effect where no
  -- other call comes between.
  unfoldable pub handle : Block → TxQueue T → TxQueue T
  unfolding handle_transactions
  handle b q = handle_transactions b.transactions q
