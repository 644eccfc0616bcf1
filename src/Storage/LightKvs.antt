-- ===== src/Storage/LightKvs.antt =====
-- endorser/storage/lightkvs.go: the methods of `LightKVS` and `Reader`.
pub mod Replay
pub mod Ring
pub mod Window
pub mod Refusal
pub mod History
use fabric_x_evm_lfx.Prelude.{
  ℕ, zero, suc, ◌+◌, ◌%◌, Bool, true, false, not, ◌&&◌, ◌==◌, leb, ltb, Bytes, bytes_eq, List, [],
  ◌∷◌, lookup, Option, none, some, Outcome, ok, err, if◌then◌else◌, ◌>>=◌, ◌>>◌, length, set,
  replicate,
}
use fabric_x_evm_lfx.Storage.Data.{
  WriteRecord, KeyValueVersion, Snapshot, LightKvs, Reader, Block, Error, snapshot_not_found,
  reader_closed, index_out_of_range, full_key,
}
use fabric_x_evm_lfx.Storage.Updates.{apply_updates, collect_all, verify_replay}

unfoldable pub new_light_kvs : ℕ → LightKvs
new_light_kvs history_size = record {
  current = record { block_number = 0; contents = []; placeholder = true };
  history = replicate history_size none;
  next_index = 0;
}

abbrev pub reader : Snapshot → Reader
reader snapshot = record { snapshot = some snapshot }

-- The scan of the history for a height.
unfoldable pub find_exact : ℕ → List (Option Snapshot) → Option Snapshot
find_exact bn [] = none
find_exact bn (none ∷ history) = find_exact bn history
find_exact bn (some snapshot ∷ history) =
    if snapshot.block_number == bn then some snapshot else find_exact bn history

-- `NewSnapshot`; a nil block number is `none`.
unfoldable pub new_snapshot : LightKvs → Option ℕ → Outcome Error Reader
unfolding find_exact
new_snapshot kvs none = ok (reader kvs.current)
new_snapshot kvs (some bn) =
    if leb kvs.current.block_number bn
    then ok (reader kvs.current)
    else elim (find_exact bn kvs.history) [
      | none ↦ err (snapshot_not_found bn)
      | some snapshot ↦ ok (reader snapshot)
    ]

-- `Reader.Get`; a missing key is a nil record.
unfoldable pub reader_get : Reader → Bytes → Bytes → Outcome Error (Option WriteRecord)
unfolding full_key
reader_get r namespace key = elim r.snapshot [
  | none ↦ err reader_closed
  | some snapshot ↦ elim (lookup (full_key namespace key) snapshot.contents) [
    | none ↦ ok none
    | some vv ↦ ok (
        some (record {
          namespace = namespace;
          key = key;
          block_num = vv.block_num;
          tx_num = vv.tx_num;
          version = vv.version;
          value = vv.value;
          is_delete = vv.is_delete;
          tx_id = vv.tx_id;
        }))
  ]
]

-- `Reader.Close`
unfoldable pub reader_close : Reader → Reader
reader_close r = record { snapshot = none }

-- `LightKVS.Get`
unfoldable pub get : LightKvs → Bytes → Bytes → Outcome Error (Option WriteRecord)
unfolding new_snapshot reader_get
get kvs namespace key = do r ← new_snapshot kvs none; reader_get r namespace key

-- `applyBlock`; the write to the history panics at an index past its end, as on an empty history.
unfoldable pub apply_block : LightKvs → ℕ → List KeyValueVersion → Outcome Error LightKvs
unfolding apply_updates
apply_block kvs block_num updates =
    if ltb kvs.next_index (length kvs.history)
    then ok (record {
      current = record {
        block_number = block_num;
        contents = apply_updates kvs.current.contents updates;
        placeholder = false;
      };
      history = set kvs.history kvs.next_index (some kvs.current);
      next_index = (kvs.next_index + 1) % length kvs.history;
    })
    else err index_out_of_range

-- `Handle`: an older block is skipped, the tip again is checked, any other block is applied.
unfoldable pub handle : LightKvs → Block → Outcome Error LightKvs
unfolding collect_all verify_replay apply_block
handle kvs b =
    if not kvs.current.placeholder && ltb b.number kvs.current.block_number
    then ok kvs
    else let updates = collect_all b.number [] b.transactions in
      if not kvs.current.placeholder && (b.number == kvs.current.block_number)
      then verify_replay kvs.current updates >> ok kvs
      else apply_block kvs b.number updates

-- `BlockNumber`
unfoldable pub block_number : LightKvs → ℕ
block_number kvs = kvs.current.block_number
