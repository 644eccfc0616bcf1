-- ===== src/Storage/Revertible/Merge.antt =====
-- endorser/storage/revertible_lightkvs.go: what `RevertToBlock` leaves in the store, and the history that
-- `RevertibleLightKVS` keeps.
use fabric_x_evm_lfx.Prelude.{
  ℕ, ◌≡◌, refl, inl, inr, Option, none, some, List, [], ◌∷◌, ◌++◌, map, arith, Map, lookup, length,
  replicate, if◌then◌else◌, Bool-cases, Option-cases, nat_eq, Bytes, bytes_beq, bytes_beq_iff,
  bytes_eq,
}
use fabric_x_evm_lfx.Storage.Data.{ValueVersion, Snapshot, LightKvs}
use fabric_x_evm_lfx.Storage.Revertible.{scan, nothing_found, merge_value, merge, revert_target}
use fabric_x_evm_lfx.Storage.Revertible.Nearest.{
  AllSlots, IsNearest, exact-IsNearest, best-IsNearest,
}

-- What a reader of the value sees under a key: nothing where the key is absent or deleted.
abbrev pub visible : Bytes → Map Bytes ValueVersion → Option (Option Bytes)
visible k m = elim (lookup k m) [
  | none ↦ none
  | some v ↦ if v.is_delete then none else some v.value
]

-- The version that the committer compares.
abbrev pub version_at : Bytes → Map Bytes ValueVersion → Option ℕ
version_at k m = elim (lookup k m) [ none ↦ none | some v ↦ some v.version ]

-- Every key of the first store is a key of the second.
abbrev pub Covers : Map Bytes ValueVersion → Map Bytes ValueVersion → Type 0
Covers old new = (k : Bytes) → lookup k new ≡ none → lookup k old ≡ none

pub lookup-merge :
    (target current : Map Bytes ValueVersion) (k : Bytes)
    → lookup k (merge target current)
      ≡ elim (lookup k current) [ none ↦ none | some v ↦ some (merge_value target k v) ]
unfolding lookup merge
lookup-merge target [] k = refl
lookup-merge target ((j, v) ∷ current) k = elim (Bool-cases (bytes_beq j k)) [
  | inl hit ↦ rw (hit, (bytes_beq_iff j k).0 hit) refl
  | inr miss ↦ rw miss (lookup-merge target current k)
]

pub merge-visible :
    (target current : Map Bytes ValueVersion) (k : Bytes)
    → Covers target current
    → visible k (merge target current) ≡ visible k target
unfolding merge_value
merge-visible target current k c = ground (arith, lookup-merge target current k, c k)

pub merge-version_at :
    (target current : Map Bytes ValueVersion) (k : Bytes)
    → version_at k (merge target current) ≡ version_at k current
unfolding merge_value
merge-version_at target current k = ground (arith, lookup-merge target current k)

-- The history is a list of snapshots, oldest first, followed by free slots, and the current snapshot
-- has every key that one of them has.
pub record IsHistory (kvs : LightKvs) (past : List Snapshot) (free : ℕ) : Type 0 where
  pub slots : kvs.history ≡ map some past ++ replicate free none
  pub count : kvs.next_index ≡ length past
  pub covered : AllSlots (λ s. Covers s.contents kvs.current.contents) kvs.history

pub target-IsNearest :
    (kvs : LightKvs) (bn i : ℕ) (s : Snapshot)
    → revert_target kvs bn ≡ some (i, s)
    → IsNearest kvs.history bn i s
unfolding revert_target
target-IsNearest kvs bn i s e = elim (Option-cases (scan bn 0 kvs.history nothing_found).exact) [
  | inr ((j, t), x) ↦ exact-IsNearest kvs.history bn i s (ground arith)
  | inl x ↦ best-IsNearest kvs.history bn i s x (ground arith)
]
