-- ===== src/Storage/Data.antt =====
-- endorser/storage/lightkvs.go: the types of the store, and the parts of the SDK's `blocks` package
-- that it reads.
use fabric_x_evm_lfx.Prelude.{ℕ, Bool, Bytes, List, Map, Option, ◌++◌, ◌∷◌}

-- `blocks.WriteRecord` of the SDK: what a read returns. A nil value is `none`.
pub record WriteRecord : Type 0 where
  pub namespace : Bytes
  pub key : Bytes
  pub block_num : ℕ
  pub tx_num : ℕ
  pub version : ℕ
  pub value : Option Bytes
  pub is_delete : Bool
  pub tx_id : Bytes

pub record ValueVersion : Type 0 where
  pub value : Option Bytes
  pub block_num : ℕ
  pub tx_num : ℕ
  pub version : ℕ
  pub tx_id : Bytes
  pub is_delete : Bool

pub record KeyValueVersion : Type 0 where
  pub key : Bytes
  pub value : Option Bytes
  pub block_num : ℕ
  pub tx_num : ℕ
  pub tx_id : Bytes
  pub is_delete : Bool

pub record Snapshot : Type 0 where
  pub block_number : ℕ
  pub contents : Map Bytes ValueVersion
  pub placeholder : Bool

-- `History` is a slice of pointers, nil until a snapshot is stored there.
pub record LightKvs : Type 0 where
  pub current : Snapshot
  pub history : List (Option Snapshot)
  pub next_index : ℕ

-- A reader that is closed holds no snapshot.
pub record Reader : Type 0 where
  pub snapshot : Option Snapshot

-- The parts of a block of the SDK that the stores read.
pub record KvWrite : Type 0 where
  pub key : Bytes
  pub value : Option Bytes
  pub is_delete : Bool

pub record NsReadWriteSet : Type 0 where
  pub namespace : Bytes
  pub writes : List KvWrite

-- `valid` is the answer of the transaction's method `Valid`.
pub record Transaction : Type 0 where
  pub id : Bytes
  pub number : ℕ
  pub ns_rws : List NsReadWriteSet
  pub valid : Bool

pub record Block : Type 0 where
  pub number : ℕ
  pub transactions : List Transaction

pub data Error : Type 0 where
  snapshot_not_found : ℕ → Error
  reader_closed : Error
  conflicting_write : Bytes → Error
  cannot_revert : ℕ → Error
  index_out_of_range : Error

-- `namespace + ":" + key`
unfoldable pub full_key : Bytes → Bytes → Bytes
full_key namespace key = namespace ++ (b':' ∷ key)
