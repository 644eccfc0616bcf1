-- ===== src/Storage/LightKvs/Refusal.antt =====
-- endorser/storage/lightkvs.go: when a delivery is refused, and what a read at height 0 gives.
use fabric_x_evm_lfx.Prelude.{
  ℕ, zero, suc, ◌≤◌, ◌<◌, ◌≡◌, inl, inr, false, none, some, List, [], ◌∷◌, arith, Map, All, lookup,
  ok, err, ◌>>=◌, length, replicate, Bool-cases, nat_eq, Bytes, bytes_eq,
}
use fabric_x_evm_lfx.Storage.Data.{
  KeyValueVersion, Snapshot, LightKvs, Block, Error, conflicting_write,
}
use fabric_x_evm_lfx.Storage.Updates.{agrees, final_writes, verify_all, verify_replay, collect_all}
use fabric_x_evm_lfx.Storage.Updates.Versions.{last_write}
use fabric_x_evm_lfx.Storage.Updates.Verify.{final_writes-All}
use fabric_x_evm_lfx.Storage.LightKvs.{
  new_light_kvs, reader, find_exact, new_snapshot, reader_get, apply_block, handle,
}
use fabric_x_evm_lfx.Storage.LightKvs.Ring.{IsRing}
use fabric_x_evm_lfx.Storage.LightKvs.Window.{no_snapshot}
use native.Mathlib.Nat.{mod-eq_of_lt}

verify_all-err :
    (s : Snapshot) (us : List KeyValueVersion) (m : Map Bytes KeyValueVersion) (e : Error)
    → All (λ k u. last_write k us ≡ some u) m
    → verify_all s m ≡ err e
    → (k : Bytes) × (u : KeyValueVersion) × (last_write k us ≡ some u)
      × (agrees s k u ≡ false)
      × (e ≡ conflicting_write k)
unfolding verify_all
verify_all-err s us [] e a h = absurd (ground arith)
verify_all-err s us ((k, u) ∷ m) e a h = elim (Bool-cases (agrees s k u)) [
  | inl fits ↦ verify_all-err s us m e a.1 (rw fits at h)
  | inr clash ↦ (k, u, a.0, clash, ground arith)
]

-- A store with a proper ring refuses a block only if the block is its tip again and the last write of
-- some key in it disagrees with the stored record; the error names such a key.
pub handle-err :
    (kvs : LightKvs) (b : Block) (e : Error)
    → IsRing kvs
    → handle kvs b ≡ err e
    → (kvs.current.placeholder ≡ false)
      × (b.number ≡ kvs.current.block_number)
      × ((k : Bytes) × (u : KeyValueVersion) × (last_write k
              (collect_all b.number [] b.transactions)
            ≡ some u)
          × (agrees kvs.current k u ≡ false)
          × (e ≡ conflicting_write k))
unfolding handle apply_block verify_replay
handle-err kvs b e ring h =
    let us = collect_all b.number [] b.transactions in
    let refused : verify_all kvs.current (final_writes [] us) ≡ err e = ground arith in
    (
      ground arith,
      ground arith,
      verify_all-err kvs.current us (final_writes [] us) e
          (final_writes-All _ [] us (λ k u l. l) tt) refused,
    )

-- After block 0 and then a later one, a store with at least two history slots answers a read at
-- height 0 with the empty placeholder of its construction, whatever block 0 wrote.
pub new_snapshot-genesis :
    (size : ℕ) (b₀ b₁ : Block) (k₁ k₂ : LightKvs)
    → 2 ≤ size
    → b₀.number ≡ 0
    → 0 < b₁.number
    → handle (new_light_kvs size) b₀ ≡ ok k₁
    → handle k₁ b₁ ≡ ok k₂
    → (new_snapshot k₂ (some 0) ≡ ok (reader (new_light_kvs size).current))
      × ((namespace key : Bytes)
          → (do r ← new_snapshot k₂ (some 0); reader_get r namespace key) ≡ ok none)
unfolding handle apply_block new_light_kvs new_snapshot find_exact reader_get lookup
new_snapshot-genesis zero b₀ b₁ k₁ k₂ two zeroth later first second = absurd (omega arith)
new_snapshot-genesis (suc zero) b₀ b₁ k₁ k₂ two zeroth later first second = absurd (omega arith)
new_snapshot-genesis (suc (suc n)) b₀ b₁ k₁ k₂ two zeroth later first second =
    let blank = (new_light_kvs (suc (suc n))).current in
    let slots = replicate n no_snapshot in
    let history₁ : k₁.history ≡ some blank ∷ none ∷ slots = ground arith in
    let next₁ : k₁.next_index ≡ 1 =
      ground (arith, mod-eq_of_lt {n = 1} {m = suc (suc (length slots))} (omega arith)) in
    let tip₁ : k₁.current.block_number ≡ 0 = ground arith in
    let real₁ : k₁.current.placeholder ≡ false = ground arith in
    let history₂ : k₂.history ≡ some blank ∷ some k₁.current ∷ slots = ground arith in
    let tip₂ : k₂.current.block_number ≡ b₁.number = ground arith in
    (ground arith, λ namespace key. ground arith)
