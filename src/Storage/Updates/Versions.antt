-- ===== src/Storage/Updates/Versions.antt =====
-- endorser/storage/lightkvs.go, `applyUpdates`: what a key holds after a batch, and at what version.
use fabric_x_evm_lfx.Prelude.{
  ℕ, ◌+◌, ◌-◌, ◌^◌, ◌%◌, ◌<◌, ◌≡◌, refl, ap, ◌∙◌, Option-cases, inl, inr, Bytes, bytes_beq,
  bytes_beq_iff, bytes_eq, Bool-cases, List, [], ◌∷◌, Map, lookup, insert, lookup-insert, Option,
  none, some, arith, if◌then◌else◌,
}
use fabric_x_evm_lfx.Storage.Data.{ValueVersion, KeyValueVersion}
use fabric_x_evm_lfx.Storage.Updates.{next64, version_for, stored, apply_loop, apply_updates}

-- The last write of a key in a batch, and the number of its writes.
abbrev pub last_write : Bytes → List KeyValueVersion → Option KeyValueVersion
last_write k [] = none
last_write k (u ∷ us) = elim (last_write k us) [
  | some w ↦ some w
  | none ↦ if bytes_beq u.key k then some u else none
]

abbrev pub count_writes : Bytes → List KeyValueVersion → ℕ
count_writes k [] = 0
count_writes k (u ∷ us) = (if bytes_beq u.key k then 1 else 0) + count_writes k us

-- The version of the first write of a key over a store.
abbrev pub first_version : Map Bytes ValueVersion → Bytes → ℕ
first_version old k = elim (lookup k old) [ none ↦ 0 | some existing ↦ next64 existing.version ]

-- What a key holds once its writes are in: the last one, at the version that counts them all.
abbrev pub after_writes :
    Bytes → ℕ → Option ValueVersion → List KeyValueVersion → Option ValueVersion
after_writes k first before us = elim (last_write k us) [
  | none ↦ before
  | some u ↦ some (stored u ((first + (count_writes k us - 1)) % 2 ^ 64))
]

last_write-count :
    (k : Bytes) (us : List KeyValueVersion) → last_write k us ≡ none → count_writes k us ≡ 0
last_write-count k [] h = refl
last_write-count k (u ∷ us) h = ground (arith, last_write-count k us)

count-last_write :
    (k : Bytes) (us : List KeyValueVersion) (w : KeyValueVersion)
    → last_write k us ≡ some w
    → 0 < count_writes k us
count-last_write k [] w h = cc
count-last_write k (u ∷ us) w h = ground (arith, count-last_write k us w)

version_for-insert :
    (old : Map Bytes ValueVersion) (next_version : Map Bytes ℕ) (k j : Bytes) (v : ℕ)
    → version_for old (insert k v next_version) j
      ≡ (if bytes_beq k j then v else version_for old next_version j)
unfolding version_for
version_for-insert old next_version k j v = ground (arith, lookup-insert k j v next_version)

next64-lt : (n : ℕ) → next64 n < 2 ^ 64
unfolding next64
next64-lt n = omega arith

after_writes-cons :
    (k : Bytes) (first : ℕ) (before : Option ValueVersion) (u : KeyValueVersion)
    (us : List KeyValueVersion)
    → first < 2 ^ 64
    → (if bytes_beq u.key k
        then after_writes k (next64 first) (some (stored u first)) us
        else after_writes k first before us)
      ≡ after_writes k first before (u ∷ us)
unfolding next64
after_writes-cons k first before u us h = elim (Option-cases (last_write k us)) [
  | inl e ↦ ground (arith, last_write-count k us e)
  | inr (w, e) ↦ ground (arith, count-last_write k us w e)
]

apply_loop-after_writes :
    (old : Map Bytes ValueVersion) (next_version : Map Bytes ℕ) (new : Map Bytes ValueVersion)
    (us : List KeyValueVersion) (k : Bytes)
    → version_for old next_version k < 2 ^ 64
    → lookup k (apply_loop old next_version new us)
      ≡ after_writes k (version_for old next_version k) (lookup k new) us
unfolding apply_loop
apply_loop-after_writes old next_version new [] k h = refl
apply_loop-after_writes old next_version new (u ∷ us) k h =
    let v = version_for old next_version u.key in
    apply_loop-after_writes old (insert u.key (next64 v) next_version)
      (insert u.key (stored u v) new) us k (rw version_for-insert (grind (arith, next64-lt)))
    ∙ rw (version_for-insert, lookup-insert)
        (elim (Bool-cases (bytes_beq u.key k)) [
          | inl hit ↦
              let same : v ≡ version_for old next_version k =
                ap (version_for old next_version) ((bytes_beq_iff u.key k).0 hit) in
              rw (hit, same)
                (rw hit at
                  (after_writes-cons k (version_for old next_version k) (lookup k new) u us h))
          | inr miss ↦ rw miss (
              rw miss at
                (after_writes-cons k (version_for old next_version k) (lookup k new) u us h))
        ])

first_version-lt : (old : Map Bytes ValueVersion) (k : Bytes) → version_for old [] k < 2 ^ 64
unfolding version_for lookup
first_version-lt old k = grind (arith, next64-lt)

-- After a batch a key that the batch does not write is unchanged, and any other key holds its last
-- write, at the version that follows the stored one (0 for a new key) counted once for each write of
-- the key in the batch, modulo 2^64.
pub lookup-apply_updates :
    (old : Map Bytes ValueVersion) (us : List KeyValueVersion) (k : Bytes)
    → lookup k (apply_updates old us) ≡ after_writes k (first_version old k) (lookup k old) us
unfolding apply_updates version_for lookup
lookup-apply_updates old us k = apply_loop-after_writes old [] old us k (first_version-lt old k)
