-- ===== src/Tests/Stores.antt =====
-- endorser/storage/lightkvs.go on three blocks that write one key.
use fabric_x_evm_lfx.Prelude.{
  ℕ, ◌≡◌, refl, ◌↔◌, true, false, Option, none, some, List, [], ◌∷◌, ◌++◌, arith, lookup, insert,
  ok, ◌>>=◌, nat_eq, Bytes, bytes_eq,
}
use fabric_x_evm_lfx.Storage.Data.{
  ValueVersion, KeyValueVersion, Snapshot, LightKvs, Block, conflicting_write,
}
use fabric_x_evm_lfx.Storage.Updates.{
  stored, version_for, next64, apply_updates, collect_all, verify_replay, agrees,
}
use fabric_x_evm_lfx.Storage.Updates.Versions.{lookup-apply_updates, last_write}
use fabric_x_evm_lfx.Storage.Updates.Verify.{verify_replay_iff}
use fabric_x_evm_lfx.Storage.LightKvs.{
  new_light_kvs, handle, apply_block, new_snapshot, reader, reader_get,
}
use fabric_x_evm_lfx.Storage.LightKvs.Replay.{handle_idempotent}
use fabric_x_evm_lfx.Storage.LightKvs.Ring.{apply_block-window, IsRing, window}
use fabric_x_evm_lfx.Storage.LightKvs.Window.{deliver_all}
use fabric_x_evm_lfx.Storage.LightKvs.Refusal.{handle-err, new_snapshot-genesis}
use fabric_x_evm_lfx.Storage.LightKvs.History.{new_snapshot-history}

-- A block with one transaction that writes one value to the key "k".
abbrev pub block : ℕ → ℕ → Block
block n v = record {
  number = n;
  transactions =
      record {
        id = n ∷ [];
        number = 0;
        ns_rws =
            record {
              namespace = b'n' ∷ [];
              writes = record { key = b'k' ∷ []; value = some (v ∷ []); is_delete = false } ∷ [];
            }
            ∷ [];
        valid = true;
      }
      ∷ [];
}

abbrev pub key : Bytes
key = b'n' ∷ b':' ∷ b'k' ∷ []

abbrev pub updates : ℕ → ℕ → List KeyValueVersion
updates n v =
    record {
      key = key;
      value = some (v ∷ []);
      block_num = n;
      tx_num = 0;
      tx_id = n ∷ [];
      is_delete = false;
    }
    ∷ []

abbrev value_of : ℕ → ℕ → ℕ → ValueVersion
value_of n v version = record {
  value = some (v ∷ []);
  block_num = n;
  tx_num = 0;
  version = version;
  tx_id = n ∷ [];
  is_delete = false;
}

abbrev start : Snapshot
start = record { block_number = 0; contents = []; placeholder = true }

abbrev pub snapshot_of : ℕ → ℕ → ℕ → Snapshot
snapshot_of n v version = record {
  block_number = n;
  contents = (key, value_of n v version) ∷ [];
  placeholder = false;
}

abbrev store₁ : LightKvs
store₁ = record { current = snapshot_of 1 7 0; history = some start ∷ none ∷ []; next_index = 1 }

abbrev store₂ : LightKvs
store₂ = record {
  current = snapshot_of 2 8 1;
  history = some start ∷ some (snapshot_of 1 7 0) ∷ [];
  next_index = 0;
}

handle_idempotent_example : handle store₁ (block 1 7) ≡ ok store₁
unfolding handle new_light_kvs insert lookup stored version_for next64
handle_idempotent_example = handle_idempotent (new_light_kvs 2) store₁ (block 1 7) refl

new_snapshot-history_example : new_snapshot store₂ (some 1) ≡ ok (reader (snapshot_of 1 7 0))
unfolding handle new_light_kvs deliver_all insert lookup stored version_for next64
new_snapshot-history_example =
    new_snapshot-history 2 (block 1 7 ∷ block 2 8 ∷ []) (start ∷ snapshot_of 1 7 0 ∷ [])
      (start ∷ []) [] (snapshot_of 1 7 0) store₂ (omega arith) refl refl
      ((omega arith, (omega arith, tt)), ((omega arith, tt), (tt, tt)))

lookup-apply_updates_example :
    lookup key (apply_updates ((key, value_of 1 7 0) ∷ []) (updates 2 8 ++ updates 2 9))
    ≡ some (value_of 2 9 2)
unfolding lookup insert stored version_for next64
lookup-apply_updates_example =
    lookup-apply_updates ((key, value_of 1 7 0) ∷ []) (updates 2 8 ++ updates 2 9) key

verify_replay_iff_example : (verify_replay (snapshot_of 2 8 1) (updates 2 8) ≡ ok tt) ↔ (
    (k : Bytes) (u : KeyValueVersion)
    → last_write k (updates 2 8) ≡ some u
    → agrees (snapshot_of 2 8 1) k u ≡ true)
verify_replay_iff_example = verify_replay_iff (snapshot_of 2 8 1) (updates 2 8)

apply_block-window_example :
    IsRing store₂
    × ((oldest : Option Snapshot) × (rest : List (Option Snapshot)) × (window store₁
          ≡ oldest ∷ rest)
        × (window store₂ ≡ rest ++ some store₁.current ∷ []))
unfolding apply_block insert lookup stored version_for next64
apply_block-window_example = apply_block-window store₁ store₂ 2 (updates 2 8) (omega arith) refl

handle-err_example :
    (store₂.current.placeholder ≡ false)
    × ((block 2 9).number ≡ store₂.current.block_number)
    × ((k : Bytes) × (u : KeyValueVersion) × (last_write k
            (collect_all 2 [] (block 2 9).transactions)
          ≡ some u)
        × (agrees store₂.current k u ≡ false)
        × (conflicting_write key ≡ conflicting_write k))
unfolding handle insert lookup stored version_for next64
handle-err_example = handle-err store₂ (block 2 9) (conflicting_write key) (omega arith) refl

abbrev genesis₁ : LightKvs
genesis₁ = record { current = snapshot_of 0 7 0; history = some start ∷ none ∷ []; next_index = 1 }

abbrev genesis₂ : LightKvs
genesis₂ = record {
  current = snapshot_of 1 8 1;
  history = some start ∷ some (snapshot_of 0 7 0) ∷ [];
  next_index = 0;
}

new_snapshot-genesis_example :
    (new_snapshot genesis₂ (some 0) ≡ ok (reader start))
    × ((namespace key : Bytes)
        → (do r ← new_snapshot genesis₂ (some 0); reader_get r namespace key) ≡ ok none)
unfolding handle new_light_kvs insert lookup stored version_for next64
new_snapshot-genesis_example =
    new_snapshot-genesis 2 (block 0 7) (block 1 8) genesis₁ genesis₂ (omega arith) refl
      (omega arith) refl refl
