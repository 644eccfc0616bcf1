-- ===== src/Tests/Reverts.antt =====
-- endorser/storage/revertible_lightkvs.go on the same blocks.
use fabric_x_evm_lfx.Prelude.{
  ℕ, ◌+◌, ◌≡◌, refl, true, none, some, List, [], ◌∷◌, arith, lookup, insert, ok, err, length,
  nat_eq, bytes_eq,
}
use fabric_x_evm_lfx.Storage.Data.{Snapshot, LightKvs}
use fabric_x_evm_lfx.Storage.Updates.{apply_updates, stored, version_for, next64}
use fabric_x_evm_lfx.Storage.Revertible.{handle, revert_to_block, new_snapshot}
use fabric_x_evm_lfx.Storage.Revertible.Nearest.{Serves, new_snapshot-Serves}
use fabric_x_evm_lfx.Storage.Revertible.Merge.{IsHistory}
use fabric_x_evm_lfx.Storage.Revertible.History.{handle-IsHistory, revert_to_block-IsHistory}
use fabric_x_evm_lfx.Tests.Stores.{block, snapshot_of}

abbrev empty_snapshot : Snapshot
empty_snapshot = record { block_number = 0; contents = []; placeholder = true }

abbrev start : LightKvs
start = record { current = empty_snapshot; history = none ∷ none ∷ none ∷ []; next_index = 0 }

abbrev first : LightKvs
first = record {
  current = snapshot_of 1 7 0;
  history = some empty_snapshot ∷ none ∷ none ∷ [];
  next_index = 1;
}

abbrev second : LightKvs
second = record {
  current = snapshot_of 2 8 1;
  history = some empty_snapshot ∷ some (snapshot_of 1 7 0) ∷ none ∷ [];
  next_index = 2;
}

-- The value of block 1 under the version that block 2 left.
abbrev reverted : LightKvs
unfolding revert_to_block
reverted = elim (revert_to_block second 1) [ ok kvs ↦ kvs | err e ↦ start ]

first-IsHistory : IsHistory first (empty_snapshot ∷ []) 2
unfolding lookup
first-IsHistory = record { slots = refl; count = refl; covered = (λ k e. refl, tt) }

second-IsHistory : IsHistory second (empty_snapshot ∷ snapshot_of 1 7 0 ∷ []) 1
unfolding lookup
second-IsHistory = record {
  slots = refl;
  count = refl;
  covered = ((λ k e. refl), ((λ k e. ground arith), tt));
}

handle-IsHistory_example :
    IsHistory second (empty_snapshot ∷ snapshot_of 1 7 0 ∷ []) 1
    × (length (empty_snapshot ∷ snapshot_of 1 7 0 ∷ []) + 1 ≡ 3)
unfolding handle insert lookup stored version_for next64 apply_updates
handle-IsHistory_example =
    handle-IsHistory first second (block 2 8) (empty_snapshot ∷ []) 2 first-IsHistory refl

revert_to_block-IsHistory_example :
    (past : List Snapshot) × (free : ℕ) × IsHistory reverted past free × (length past + free ≡ 3)
unfolding revert_to_block reverted insert lookup stored version_for next64 apply_updates
revert_to_block-IsHistory_example =
    revert_to_block-IsHistory second reverted 1 (empty_snapshot ∷ snapshot_of 1 7 0 ∷ []) 1
      second-IsHistory refl

new_snapshot-Serves_example : Serves second.history 1 (new_snapshot second (some 1))
new_snapshot-Serves_example = new_snapshot-Serves second 1 (omega arith)
