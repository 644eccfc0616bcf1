-- ===== src/Storage/Updates.antt =====
-- endorser/storage/lightkvs.go: what a block writes, and how the writes are versioned and checked.
pub mod Versions
pub mod Verify
use fabric_x_evm_lfx.Prelude.{
  ℕ, ◌+◌, ◌^◌, ◌%◌, Bool, true, false, not, ◌&&◌, Bytes, bytes_beq, bytes_eq, List, [], ◌∷◌, ◌++◌,
  Map, lookup, insert, Option, none, some, Outcome, ok, err, if◌then◌else◌,
}
use fabric_x_evm_lfx.Storage.Data.{
  ValueVersion, KeyValueVersion, Snapshot, NsReadWriteSet, KvWrite, Transaction, Error,
  conflicting_write, full_key,
}

-- `uint64` arithmetic wraps.
unfoldable pub next64 : ℕ → ℕ
next64 n = (n + 1) % 2 ^ 64

-- The version that the next write of the key takes: counted on within the batch, or one above the
-- stored one.
unfoldable pub version_for : Map Bytes ValueVersion → Map Bytes ℕ → Bytes → ℕ
version_for old next_version key = elim (lookup key next_version) [
  | some version ↦ version
  | none ↦ elim (lookup key old) [ none ↦ 0 | some existing ↦ next64 existing.version ]
]

unfoldable pub stored : KeyValueVersion → ℕ → ValueVersion
stored update version = record {
  value = update.value;
  block_num = update.block_num;
  tx_num = update.tx_num;
  version = version;
  tx_id = update.tx_id;
  is_delete = update.is_delete;
}

-- The loop of `applyUpdates` over its two maps.
unfoldable pub apply_loop :
    Map Bytes ValueVersion
    → Map Bytes ℕ
    → Map Bytes ValueVersion
    → List KeyValueVersion
    → Map Bytes ValueVersion
apply_loop old next_version new [] = new
apply_loop old next_version new (update ∷ updates) =
    let version = version_for old next_version update.key in
    apply_loop old (insert update.key (next64 version) next_version)
      (insert update.key (stored update version) new) updates

unfoldable pub apply_updates :
    Map Bytes ValueVersion → List KeyValueVersion → Map Bytes ValueVersion
unfolding apply_loop
apply_updates old updates = apply_loop old [] old updates

unfoldable pub collect_set : ℕ → ℕ → Bytes → Bytes → List KvWrite → List KeyValueVersion
unfolding full_key
collect_set block_num tx_num tx_id namespace [] = []
collect_set block_num tx_num tx_id namespace (w ∷ writes) =
    record {
      key = full_key namespace w.key;
      value = w.value;
      block_num = block_num;
      tx_num = tx_num;
      tx_id = tx_id;
      is_delete = w.is_delete;
    }
    ∷ collect_set block_num tx_num tx_id namespace writes

unfoldable pub collect_sets : ℕ → ℕ → Bytes → List NsReadWriteSet → List KeyValueVersion
unfolding collect_set
collect_sets block_num tx_num tx_id [] = []
collect_sets block_num tx_num tx_id (set ∷ sets) =
    collect_set block_num tx_num tx_id set.namespace set.writes
    ++ collect_sets block_num tx_num tx_id sets

-- `collectWrites`: an invalid transaction adds nothing.
unfoldable pub collect_writes :
    List KeyValueVersion → List NsReadWriteSet → ℕ → ℕ → Bytes → Bool → List KeyValueVersion
unfolding collect_sets
collect_writes updates sets block_num tx_num tx_id valid =
    if not valid then updates else updates ++ collect_sets block_num tx_num tx_id sets

-- The loop of `Handle` over the transactions of a block.
unfoldable pub collect_all : ℕ → List KeyValueVersion → List Transaction → List KeyValueVersion
unfolding collect_writes
collect_all number updates [] = updates
collect_all number updates (tx ∷ txs) =
    collect_all number (collect_writes updates tx.ns_rws number tx.number tx.id tx.valid) txs

-- `bytes.Equal` takes nil for the empty slice.
unfoldable pub bytes_equal : Option Bytes → Option Bytes → Bool
bytes_equal none none = true
bytes_equal none (some b) = bytes_beq [] b
bytes_equal (some a) none = bytes_beq a []
bytes_equal (some a) (some b) = bytes_beq a b

unfoldable pub bool_equal : Bool → Bool → Bool
bool_equal true b = b
bool_equal false b = not b

-- `verifyReplay`: the last write of each key, and the check of each against the store.
unfoldable pub final_writes :
    Map Bytes KeyValueVersion → List KeyValueVersion → Map Bytes KeyValueVersion
final_writes final [] = final
final_writes final (u ∷ us) = final_writes (insert u.key u final) us

unfoldable pub agrees : Snapshot → Bytes → KeyValueVersion → Bool
unfolding bool_equal bytes_equal
agrees current key u = elim (lookup key current.contents) [
  | none ↦ false
  | some existing ↦
      bool_equal existing.is_delete u.is_delete
      && bytes_beq existing.tx_id u.tx_id
      && (if u.is_delete then true else bytes_equal existing.value u.value)
]

-- The comparisons of `verifyReplay`; the messages of its six cases are one error that names the key.
unfoldable pub verify_all : Snapshot → Map Bytes KeyValueVersion → Outcome Error (Unit {0})
unfolding agrees
verify_all current [] = ok tt
verify_all current ((key, u) ∷ final) =
    if agrees current key u then verify_all current final else err (conflicting_write key)

unfoldable pub verify_replay : Snapshot → List KeyValueVersion → Outcome Error (Unit {0})
unfolding final_writes verify_all
verify_replay current updates = verify_all current (final_writes [] updates)
