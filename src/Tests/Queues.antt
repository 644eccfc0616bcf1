-- ===== src/Tests/Queues.antt =====
-- gateway/core: the queues, over transactions that are their own hashes.
use fabric_x_evm_lfx.Prelude.{
  ℕ, ◌≡◌, refl, Bool, true, false, none, some, [], ◌∷◌, arith, lookup, insert, erase, set,
  replicate, ◌==◌, if◌then◌else◌, nat_eq, Bytes, bytes_beq, bytes_eq,
}
use fabric_x_evm_lfx.Gateway.Data.{Block}
use fabric_x_evm_lfx.Gateway.TxQueue.{TxQueue, new_tx_queue, enqueue, dequeue, is_pending, handle}
use fabric_x_evm_lfx.Gateway.TxQueue.Tracking.{
  Op, IsConsistent, exec_all, exec_all-IsConsistent, is_pending-dequeue, is_pending-handle,
}
use fabric_x_evm_lfx.Gateway.DepGraph as DepGraph
use fabric_x_evm_lfx.Gateway.DepGraph.{DepGraphQueue, TrackedTx}
use fabric_x_evm_lfx.Gateway.DepGraph.Reuse.{Remembers, reusable_endorsement-fresh}
use fabric_x_evm_lfx.Gateway.DepGraph.Release.{complete_idempotent, is_pending-handle_block}
use fabric_x_evm_lfx.Gateway.DepGraph.Batches.{
  endorsed, tick, cancels, returns, batch_loop, IsBatching, batch_loop-in_order,
}

abbrev id : Bytes → Bytes
id h = h

abbrev tx₁ : Bytes
tx₁ = 1 ∷ []

abbrev tx₂ : Bytes
tx₂ = 2 ∷ []

abbrev queued : TxQueue Bytes
queued = record {
  pending_queue = tx₁ ∷ tx₂ ∷ [];
  queued_map = (tx₂, tx₂) ∷ (tx₁, tx₁) ∷ [];
  in_progress_map = [];
  done = false;
  total = 0;
  invalid = 0;
}

abbrev one_left : TxQueue Bytes
one_left = record queued {
  pending_queue = tx₂ ∷ [];
  queued_map = (tx₂, tx₂) ∷ [];
  in_progress_map = (tx₁, tx₁) ∷ [];
}

abbrev committed : Block
committed = record {
  block_number = 1;
  transactions =
      record { tx_hash = tx₁; raw_tx = []; from_address = []; status = 0; fabric_tx_status = 1 }
      ∷ [];
}

exec_all-IsConsistent_example :
    IsConsistent id (exec_all id id (Op.enqueues tx₁ ∷ Op.enqueues tx₂ ∷ []) new_tx_queue)
exec_all-IsConsistent_example = exec_all-IsConsistent id id (Op.enqueues tx₁ ∷ Op.enqueues tx₂ ∷ [])

queued-IsConsistent : IsConsistent id queued
unfolding new_tx_queue enqueue insert erase lookup
queued-IsConsistent = exec_all-IsConsistent id id (Op.enqueues tx₁ ∷ Op.enqueues tx₂ ∷ [])

is_pending-dequeue_example :
    (queued.pending_queue ≡ tx₁ ∷ one_left.pending_queue)
    × ((h : Bytes) → is_pending h one_left ≡ is_pending h queued)
unfolding dequeue insert erase
is_pending-dequeue_example = is_pending-dequeue id queued one_left tx₁ queued-IsConsistent refl

is_pending-handle_example :
    (is_pending tx₁ (handle id committed one_left) ≡ none)
    × ((handle id committed one_left).total ≡ 1)
    × ((handle id committed one_left).invalid ≡ 1)
unfolding lookup is_pending
is_pending-handle_example = is_pending-handle id committed one_left tx₁

-- Transaction 1 has read the key "r" at count 1; block 1 wrote that key, block 2 the key "z".
abbrev entry : TrackedTx Bytes Bytes ℕ
entry = record {
  tx = tx₁;
  node = some tx₁;
  end = some 5;
  read_seq = 1;
  reads = (b'r' ∷ []) ∷ [];
  writes = (b'w' ∷ []) ∷ [];
}

abbrev graph : DepGraphQueue Bytes Bytes ℕ
graph = record {
  chan_size = 8;
  admitted = [];
  validated = [];
  ready = tx₁ ∷ [];
  tracked = (tx₁, entry) ∷ [];
  done = false;
  commit_seq = 2;
  last_write = (b'z' ∷ [], 2) ∷ (b'r' ∷ [], 1) ∷ [];
  recent = set (set (replicate 64 []) 1 ((b'r' ∷ []) ∷ [])) 2 ((b'z' ∷ []) ∷ []);
  total = 2;
  invalid = 0;
}

abbrev served_once : DepGraphQueue Bytes Bytes ℕ
served_once = record graph { tracked = (tx₁, record entry { end = none }) ∷ [] }

abbrev written : ℕ → Bytes → Bool
written seq k =
    if seq == 1
    then bytes_beq (b'r' ∷ []) k
    else if seq == 2
    then bytes_beq (b'z' ∷ []) k
    else false

graph-Remembers : Remembers written graph
unfolding lookup
graph-Remembers = record { bounded = λ k. ground arith; recalls = λ seq k le near w. ground arith }

reusable_endorsement-fresh_example : written 2 (b'r' ∷ []) ≡ false
unfolding DepGraph.reusable_endorsement lookup insert erase
reusable_endorsement-fresh_example =
    reusable_endorsement-fresh written tx₁ graph served_once entry 5 graph-Remembers (omega arith)
      refl (omega arith) refl 2 (b'r' ∷ []) (omega arith) (omega arith) refl

complete_idempotent_example :
    DepGraph.complete tx₁ (DepGraph.complete tx₁ graph) ≡ DepGraph.complete tx₁ graph
complete_idempotent_example = complete_idempotent tx₁ graph

is_pending-handle_block_example :
    DepGraph.is_pending tx₁ (DepGraph.handle id (λ n. n == 1) committed graph) ≡ none
is_pending-handle_block_example = is_pending-handle_block id (λ n. n == 1) committed graph tx₁

batch_loop-in_order_example : IsBatching (tx₁ ∷ tx₂ ∷ []) (
    batch_loop
      (endorsed tx₁ false
        ∷ tick false
        ∷ cancels
        ∷ endorsed tx₂ true
        ∷ tick true
        ∷ returns
        ∷ tick false
        ∷ [])
      (record { batch_threshold = 2; batch_id = 0; pending = []; incoming = []; done = false }))
batch_loop-in_order_example =
    batch_loop-in_order 2
      (endorsed tx₁ false
        ∷ tick false
        ∷ cancels
        ∷ endorsed tx₂ true
        ∷ tick true
        ∷ returns
        ∷ tick false
        ∷ [])
      (omega arith)
