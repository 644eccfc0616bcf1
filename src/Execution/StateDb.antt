-- ===== src/Execution/StateDb.antt =====
-- endorser/execution/statedb.go: the state of `StateDB`, its journal, and the helpers that read and write
-- keys through the journal.
pub mod Accounts
pub mod Revert
pub mod Index
pub mod View
pub mod Extends
pub mod Entries
pub mod Operations
pub mod Preparing
pub mod Reverted
pub mod Runs
pub mod Destruction
pub mod Reads
use fabric_x_evm_lfx.Prelude.{
  [], ℕ, zero, suc, Bool, true, false, Option, none, some, List, ◌∷◌, ◌++◌, Map, lookup, insert,
  Outcome, ok, err, length, if◌then◌else◌, nat_eq, Bytes, bytes_eq,
}
use fabric_x_evm_lfx.Storage.Data.{WriteRecord, KvWrite, Error as StoreError}
use fabric_x_evm_lfx.Execution.AccessList.{AccessList, BytesSet, new_access_list}

pub record Log : Type 0 where
  pub address : Bytes
  pub topics : List Bytes
  pub payload : Bytes

-- `blocks.Version` and `blocks.KVRead` of the SDK; a nil version is `none`.
pub record Version : Type 0 where
  pub block_num : ℕ
  pub tx_num : ℕ

pub record KvRead : Type 0 where
  pub key : Bytes
  pub version : Option Version

pub record Revision : Type 0 where
  pub id : ℕ
  pub journal_index : ℕ
  pub log_index : ℕ

-- The journal's entries: a constructor for each entry type.
pub data Entry : Type 0 where
  read : KvRead → Entry
  write : KvWrite → Entry
  refund_change : ℕ → Entry
  self_destruct : Bytes → Entry
  new_contract : Bytes → Entry
  transient_change : Bytes → Bytes → Bytes → Entry
  access_list_address : Bytes → Entry
  access_list_slot : Bytes → Bytes → Entry

-- The interface `ReadStore`, without its `Close`.
abbrev pub ReadStore : Type 0
ReadStore = Bytes → Bytes → Outcome StoreError (Option WriteRecord)

pub record StateDb : Type 0 where
  pub write_idx : Option (Map Bytes ℕ)
  pub namespace : Bytes
  pub store : ReadStore
  pub logs : List Log
  pub monotonic_versions : Bool
  pub refund : ℕ
  pub self_destructed : BytesSet
  pub new_contracts : BytesSet
  pub access_list : AccessList
  pub transient_storage : Map Bytes (Map Bytes Bytes)
  pub journal : List Entry
  pub valid_revisions : List Revision
  pub next_revision_id : ℕ

-- What a method can fail with: an error of the store, or a panic.
pub data Error : Type 0 where
  store_failed : StoreError → Error
  refund_below_zero : ℕ → ℕ → Error
  short_buffer : Error
  bad_journal_index : ℕ → Error

-- A method changes the state also where it fails.
abbrev pub M : Type 0 → Type 0
M A = StateDb → Outcome Error A × StateDb

infixl 5 ◌>>=◌
unfoldable pub ◌>>=◌ : {A B : Type 0} → M A → (A → M B) → M B
◌>>=◌ m f s = elim (m s).0 [ ok a ↦ f a (m s).1 | err e ↦ (err e, (m s).1) ]

unfoldable pub pure : {A : Type 0} → A → M A
pure a s = (ok a, s)

-- `NewStateDB`
unfoldable pub new_state_db : ReadStore → Bytes → Bool → StateDb
new_state_db store namespace monotonic_versions = record {
  write_idx = none;
  namespace = namespace;
  store = store;
  logs = [];
  monotonic_versions = monotonic_versions;
  refund = 0;
  self_destructed = [];
  new_contracts = [];
  access_list = new_access_list;
  transient_storage = [];
  journal = [];
  valid_revisions = [];
  next_revision_id = 0;
}

-- The journal index of the latest write of each key, counted from `i`.
unfoldable pub index_writes : ℕ → List Entry → Map Bytes ℕ → Map Bytes ℕ
index_writes i [] idx = idx
index_writes i (write w ∷ journal) idx = index_writes (suc i) journal (insert w.key i idx)
index_writes i (_ ∷ journal) idx = index_writes (suc i) journal idx

-- The index, rebuilt if a revert has dropped it.
unfoldable pub current_index : StateDb → Map Bytes ℕ
unfolding index_writes
current_index s = elim s.write_idx [ some idx ↦ idx | none ↦ index_writes 0 s.journal [] ]

-- The value that a write leaves: nil for a deletion.
abbrev pub written_value : KvWrite → Option Bytes
written_value w = if w.is_delete then none else w.value

-- The journal entry at an index, taken for a write; anything else is a panic.
unfoldable pub write_at : List Entry → ℕ → Outcome Error (Option Bytes)
write_at [] i = err (bad_journal_index i)
write_at (write w ∷ journal) zero = ok (written_value w)
write_at (_ ∷ journal) zero = err (bad_journal_index 0)
write_at (_ ∷ journal) (suc i) = write_at journal i

-- `getStateFromJournal`: `none` where the key has no write in the journal.
unfoldable pub get_state_from_journal : Bytes → M (Option (Option Bytes))
unfolding current_index write_at
get_state_from_journal key s =
    let s' = record s { write_idx = some (current_index s) } in
    elim (lookup key (current_index s)) [
      | none ↦ (ok none, s')
      | some i ↦ elim (write_at s.journal i) [ ok v ↦ (ok (some v), s') | err e ↦ (err e, s') ]
    ]

-- The read that a record of the store counts as: no version for a missing or deleted key.
unfoldable pub read_of : Bool → Bytes → Option WriteRecord → KvRead
read_of monotonic key none = record { key = key; version = none }
read_of monotonic key (some r) = record {
  key = key;
  version =
      if r.is_delete
      then none
      else if monotonic
      then some (record { block_num = r.version; tx_num = 0 })
      else some (record { block_num = r.block_num; tx_num = r.tx_num });
}

abbrev pub record_value : Option WriteRecord → Option Bytes
record_value none = none
record_value (some r) = r.value

-- `getStateFromStore`
unfoldable pub get_state_from_store : Bytes → M (Option Bytes)
unfolding read_of
get_state_from_store key s = elim (s.store s.namespace key) [
  | err e ↦ (err (store_failed e), s)
  | ok r ↦ (
    ok (record_value r),
    record s { journal = s.journal ++ read (read_of s.monotonic_versions key r) ∷ [] },
  )
]

-- `getState`
unfoldable pub or_store : Bytes → Option (Option Bytes) → M (Option Bytes)
unfolding get_state_from_store pure
or_store key (some v) = pure v
or_store key none = get_state_from_store key

unfoldable pub get_state : Bytes → M (Option Bytes)
unfolding get_state_from_journal or_store ◌>>=◌
get_state key = get_state_from_journal key >>= or_store key

-- The write that a value stands for: an empty value deletes.
unfoldable pub write_of : Bytes → Bytes → KvWrite
write_of key [] = record { key = key; value = none; is_delete = true }
write_of key (b ∷ bs) = record { key = key; value = some (b ∷ bs); is_delete = false }

-- `putState`
unfoldable pub put_state : Bytes → Bytes → StateDb → StateDb
unfolding write_of
put_state key value s = record s {
  write_idx = elim s.write_idx [
    | none ↦ none
    | some idx ↦ some (insert key (length s.journal) idx)
  ];
  journal = s.journal ++ write (write_of key value) ∷ [];
}
