-- ===== src/Storage/Revertible.antt =====
-- endorser/storage/revertible_lightkvs.go: the methods of `RevertibleLightKVS`, over the `LightKvs` that
-- it embeds. Its history is a list that grows to the right, and `next_index` is its length.
pub mod Nearest
pub mod Merge
pub mod History
pub mod Roundtrip
use fabric_x_evm_lfx.Prelude.{
  ◌>>=◌, [], ℕ, zero, suc, ◌+◌, ◌-◌, Bool, true, false, not, ◌&&◌, Option, none, some, List, ◌∷◌,
  Map, lookup, Outcome, ok, err, ◌>>◌, length, set, ltb, leb, ◌==◌, if◌then◌else◌, nat_eq, Bytes,
  bytes_eq,
}
use fabric_x_evm_lfx.Storage.Data.{
  WriteRecord, ValueVersion, KeyValueVersion, Snapshot, LightKvs, Reader, Block, Error,
  snapshot_not_found, cannot_revert, index_out_of_range,
}
use fabric_x_evm_lfx.Storage.Updates.{apply_updates, collect_all, verify_replay}
use fabric_x_evm_lfx.Storage.LightKvs.{reader, reader_get}

-- `NewRevertibleLightKVS`
unfoldable pub new_revertible : LightKvs → LightKvs
new_revertible kvs = record kvs { next_index = 0 }

-- What a scan of the history has found so far: the last snapshot at the height, and the nearest below
-- it, each with its index.
pub record Found : Type 0 where
  pub exact : Option (ℕ × Snapshot)
  pub best : Option (ℕ × Snapshot)

abbrev pub better : Snapshot → Option (ℕ × Snapshot) → Bool
better s none = true
better s (some (i, b)) = ltb b.block_number s.block_number

-- One round of the scans in `NewSnapshot` and `RevertToBlock`.
unfoldable pub note_slot : ℕ → ℕ → Option Snapshot → Found → Found
note_slot bn i none found = found
note_slot bn i (some s) found =
    if s.block_number == bn
    then record found { exact = some (i, s) }
    else if ltb s.block_number bn && better s found.best
    then record found { best = some (i, s) }
    else found

unfoldable pub scan : ℕ → ℕ → List (Option Snapshot) → Found → Found
unfolding note_slot
scan bn i [] found = found
scan bn i (slot ∷ slots) found = scan bn (suc i) slots (note_slot bn i slot found)

abbrev pub nothing_found : Found
nothing_found = record { exact = none; best = none }

-- `NewSnapshot`
unfoldable pub new_snapshot : LightKvs → Option ℕ → Outcome Error Reader
unfolding scan
new_snapshot kvs none = ok (reader kvs.current)
new_snapshot kvs (some bn) =
    if leb kvs.current.block_number bn
    then ok (reader kvs.current)
    else let found = scan bn 0 kvs.history nothing_found in
      elim found.exact [
        | some (i, s) ↦ ok (reader s)
        | none ↦ elim found.best [
          | some (i, s) ↦ ok (reader s)
          | none ↦ err (snapshot_not_found bn)
        ]
      ]

-- `Get`
unfoldable pub get : LightKvs → Bytes → Bytes → Outcome Error (Option WriteRecord)
unfolding new_snapshot reader_get
get kvs namespace key = do r ← new_snapshot kvs none; reader_get r namespace key

-- The loop that moves each slot of a full history one to the left; the last slot keeps its value.
unfoldable pub shift : List (Option Snapshot) → List (Option Snapshot)
shift [] = []
shift (x ∷ []) = x ∷ []
shift (x ∷ y ∷ slots) = y ∷ shift (y ∷ slots)

-- The history and its length after a snapshot is appended; a write past the end panics.
unfoldable pub append_history :
    List (Option Snapshot) → ℕ → Snapshot → Outcome Error (List (Option Snapshot) × ℕ)
unfolding shift
append_history history count old =
    if ltb 0 (length history)
    then if count == length history
      then ok (set (shift history) (count - 1) (some old), count - 1 + 1)
      else if ltb count (length history)
      then ok (set history count (some old), count + 1)
      else err index_out_of_range
    else ok (history, count)

-- `applyBlockSequential`
unfoldable pub apply_block_sequential : LightKvs → ℕ → List KeyValueVersion → Outcome Error LightKvs
unfolding append_history
apply_block_sequential kvs block_num updates = do
  (history, count) ← append_history kvs.history kvs.next_index kvs.current
  ok (record {
    current = record {
      block_number = block_num;
      contents = apply_updates kvs.current.contents updates;
      placeholder = false;
    };
    history = history;
    next_index = count;
  })

-- `Handle`
unfoldable pub handle : LightKvs → Block → Outcome Error LightKvs
unfolding collect_all verify_replay apply_block_sequential
handle kvs b =
    if not kvs.current.placeholder && ltb b.number kvs.current.block_number
    then ok kvs
    else let updates = collect_all b.number [] b.transactions in
      if not kvs.current.placeholder && (b.number == kvs.current.block_number)
      then verify_replay kvs.current updates >> ok kvs
      else apply_block_sequential kvs b.number updates

-- A record of the merged snapshot: the target's value with the current version.
unfoldable pub merge_value : Map Bytes ValueVersion → Bytes → ValueVersion → ValueVersion
merge_value target key current_value = elim (lookup key target) [
  | some target_value ↦ record current_value {
    value = target_value.value;
    is_delete = target_value.is_delete;
  }
  | none ↦ record current_value { value = none; is_delete = true }
]

unfoldable pub merge : Map Bytes ValueVersion → Map Bytes ValueVersion → Map Bytes ValueVersion
unfolding merge_value
merge target [] = []
merge target ((key, current_value) ∷ current) =
    (key, merge_value target key current_value) ∷ merge target current

-- The loop that drops the snapshots from the target on.
unfoldable pub clear_from : ℕ → ℕ → List (Option Snapshot) → List (Option Snapshot)
clear_from from count [] = []
clear_from from zero slots = slots
clear_from zero (suc count) (slot ∷ slots) = none ∷ clear_from zero count slots
clear_from (suc from) (suc count) (slot ∷ slots) = slot ∷ clear_from from count slots

-- The target of a revert: the last snapshot at the height, or for a height in the past the nearest one
-- below it.
unfoldable pub revert_target : LightKvs → ℕ → Option (ℕ × Snapshot)
unfolding scan
revert_target kvs block_number =
    let found = scan block_number 0 kvs.history nothing_found in
    elim found.exact [
      | some t ↦ some t
      | none ↦ if ltb block_number kvs.current.block_number then found.best else none
    ]

-- `RevertToBlock`
unfoldable pub revert_to_block : LightKvs → ℕ → Outcome Error LightKvs
unfolding revert_target merge clear_from
revert_to_block kvs block_number =
    if kvs.current.block_number == block_number
    then ok kvs
    else elim (revert_target kvs block_number) [
      | none ↦ err (cannot_revert block_number)
      | some (target_index, target) ↦
          if leb kvs.next_index (length kvs.history)
          then ok (record {
            current = record {
              block_number = block_number;
              contents = merge target.contents kvs.current.contents;
              placeholder = false;
            };
            history = clear_from target_index kvs.next_index kvs.history;
            next_index = target_index;
          })
          else err index_out_of_range
    ]
