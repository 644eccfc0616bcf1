-- ===== src/Tests/Conflicts.antt =====
-- gateway/core/txqueue_v2.go: the queue over transactions that are their own hashes and begin with their sender.
use fabric_x_evm_lfx.Prelude.{
  ℕ, ◌≡◌, refl, ◌⊎◌, true, false, ◌&&◌, none, some, List, [], ◌∷◌, arith, has, lookup, insert,
  erase, elem, nat_eq, Bytes, bytes_eq,
}
use fabric_x_evm_lfx.Gateway.TxQueueV2.{
  TxView, new_tx_queue_v2, waits_at, participants_at, enqueue, dequeue,
}
use fabric_x_evm_lfx.Gateway.TxQueueV2.Progress.Sequences.{exec_all-progress}
use fabric_x_evm_lfx.Gateway.TxQueueV2.Runs.{Op, enqueues, dequeues, exec_all, exec_all-exclusive}

abbrev sender_of : Bytes → Bytes
sender_of [] = []
sender_of (n ∷ tx) = n ∷ []

abbrev sample_view : TxView Bytes
sample_view = record {
  hash = λ tx. tx;
  protected = λ tx. true;
  tx_type = λ tx. 2;
  sender = λ tx. some (sender_of tx);
  to = λ tx. none;
  data_of = λ tx. [];
  bytes_to_address = λ b. b;
  bytes_to_hash = λ b. b;
}

abbrev alice₁ : Bytes
alice₁ = 1 ∷ 1 ∷ []

abbrev alice₂ : Bytes
alice₂ = 1 ∷ 2 ∷ []

abbrev bob₁ : Bytes
bob₁ = 2 ∷ 1 ∷ []

abbrev three : List (Op Bytes)
three = enqueues alice₁ ∷ enqueues bob₁ ∷ enqueues alice₂ ∷ dequeues ∷ []

exec_all-exclusive_example :
    (elem (1 ∷ []) (participants_at 0 (exec_all sample_view three new_tx_queue_v2).heap)
      && elem (1 ∷ []) (participants_at 1 (exec_all sample_view three new_tx_queue_v2).heap))
    ≡ false
unfolding exec_all new_tx_queue_v2 enqueue dequeue lookup insert erase waits_at
exec_all-exclusive_example =
    exec_all-exclusive sample_view three alice₁ bob₁ 0 1 (1 ∷ []) refl refl
      (λ e. absurd (ground (arith, e))) refl refl

-- Alice's second transaction waits for her first, which a worker has.
exec_all-progress_example :
    (k : Bytes) × (j : ℕ) × (lookup k (exec_all sample_view three new_tx_queue_v2).hash_map
      ≡ some j)
    × ((elem j (exec_all sample_view three new_tx_queue_v2).ready_list ≡ true)
        ⊎ (has k (exec_all sample_view three new_tx_queue_v2).pending_map ≡ true))
unfolding exec_all new_tx_queue_v2 enqueue dequeue lookup insert erase
exec_all-progress_example = exec_all-progress sample_view three alice₂ 2 refl
