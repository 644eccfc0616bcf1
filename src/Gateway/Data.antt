-- ===== src/Gateway/Data.antt =====
-- gateway/domain/models.go: what the queues read of a committed block.
use fabric_x_evm_lfx.Prelude.{ℕ, ◌+◌, List, ◌==◌, if◌then◌else◌, nat_eq, Bytes, bytes_eq}

-- `domain.Transaction`; the Fabric status is the number of the SDK's `blocks.Status`.
pub record Transaction : Type 0 where
  pub tx_hash : Bytes
  pub raw_tx : Bytes
  pub from_address : Bytes
  pub status : ℕ
  pub fabric_tx_status : ℕ

-- `domain.Block`
pub record Block : Type 0 where
  pub block_number : ℕ
  pub transactions : List Transaction

-- The errors of the two queues.
pub data QueueError : Type 0 where
  already_pending : QueueError
  queue_closed : QueueError
  queue_full : QueueError

-- How a blocking receive ends: with a value, closed, or not yet.
pub data Received {ℓ} (A : Type ℓ) : Type ℓ where
  waits : Received A
  closed : Received A
  served : A → Received A

-- The next count of a Go `int` statistic; 64 bits are never exhausted by the counts of one process.
abbrev pub count_invalid : ℕ → Transaction → ℕ
count_invalid n tx = if tx.status == 0 then n + 1 else n
