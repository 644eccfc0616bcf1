-- ===== src/Storage/LightKvs/Replay.antt =====
-- endorser/storage/lightkvs.go, `Handle`: redelivery of a block, and the cases of a delivery.
use fabric_x_evm_lfx.Prelude.{
  ℕ, ◌+◌, ◌-◌, ◌%◌, ◌^◌, ◌≡◌, refl, ap, Bool, true, false, Option, none, some, List, [], arith, Map,
  lookup, ok, nat_eq, Bytes, bytes_beq_iff, bytes_eq,
}
use fabric_x_evm_lfx.Storage.Data.{ValueVersion, KeyValueVersion, Snapshot, LightKvs, Block}
use fabric_x_evm_lfx.Storage.Updates.{
  stored, bool_equal, bytes_equal, agrees, apply_updates, collect_all, verify_replay,
}
use fabric_x_evm_lfx.Storage.Updates.Versions.{first_version, count_writes, lookup-apply_updates}
use fabric_x_evm_lfx.Storage.Updates.Verify.{verify_replay_iff}
use fabric_x_evm_lfx.Storage.LightKvs.{apply_block, handle}

bytes_equal_refl : (v : Option Bytes) → bytes_equal v v ≡ true
unfolding bytes_equal
bytes_equal_refl none = refl
bytes_equal_refl (some b) = (bytes_beq_iff b b).1 refl

bool_equal_refl : (b : Bool) → bool_equal b b ≡ true
unfolding bool_equal
bool_equal_refl true = refl
bool_equal_refl false = refl

agrees-stored :
    (s : Snapshot) (k : Bytes) (u : KeyValueVersion) (version : ℕ)
    → lookup k s.contents ≡ some (stored u version)
    → agrees s k u ≡ true
unfolding agrees stored
agrees-stored s k u version h = ground (
  arith,
  bool_equal_refl u.is_delete,
  (bytes_beq_iff u.tx_id u.tx_id).1 refl,
  bytes_equal_refl u.value,
)

-- A batch that has just been applied passes as its own replay.
pub verify_replay-apply_updates :
    (s : Snapshot) (old : Map Bytes ValueVersion) (us : List KeyValueVersion)
    → s.contents ≡ apply_updates old us
    → verify_replay s us ≡ ok tt
verify_replay-apply_updates s old us e = (verify_replay_iff s us).1 λ k u l.
    agrees-stored s k u ((first_version old k + (count_writes k us - 1)) % 2 ^ 64)
      (ground (arith, ap (lookup k) e, lookup-apply_updates old us k))

-- Once a block has been accepted, delivering it again is accepted and changes nothing, whether the
-- first delivery skipped it, verified it or applied it.
pub handle_idempotent :
    (kvs kvs' : LightKvs) (b : Block) → handle kvs b ≡ ok kvs' → handle kvs' b ≡ ok kvs'
unfolding handle apply_block
handle_idempotent kvs kvs' b h =
    let us = collect_all b.number [] b.transactions in
    ground (
      arith,
      verify_replay-apply_updates
          (record {
            block_number = b.number;
            contents = apply_updates kvs.current.contents us;
            placeholder = false;
          })
          kvs.current.contents us refl,
    )
