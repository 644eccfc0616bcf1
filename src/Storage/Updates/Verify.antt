-- ===== src/Storage/Updates/Verify.antt =====
-- endorser/storage/lightkvs.go, `verifyReplay`: which batches agree with a snapshot.
use fabric_x_evm_lfx.Prelude.{
  ◌↔◌, ◌≡◌, refl, true, Bytes, bytes_beq_iff, bytes_eq, List, [], ◌∷◌, Map, All, All-map,
  All-lookup, All-erase, lookup, insert, erase, lookup-insert, none, some, ok, arith,
}
use fabric_x_evm_lfx.Storage.Data.{KeyValueVersion, Snapshot}
use fabric_x_evm_lfx.Storage.Updates.{final_writes, agrees, verify_all, verify_replay}
use fabric_x_evm_lfx.Storage.Updates.Versions.{last_write}

lookup-final_writes :
    (f : Map Bytes KeyValueVersion) (us : List KeyValueVersion) (k : Bytes)
    → lookup k (final_writes f us) ≡ elim (last_write k us) [ none ↦ lookup k f | some u ↦ some u ]
unfolding final_writes
lookup-final_writes f [] k = refl
lookup-final_writes f (u ∷ us) k =
    ground (arith, lookup-final_writes (insert u.key u f) us k, lookup-insert u.key k u f)

verify_all-ok :
    (s : Snapshot) (m : Map Bytes KeyValueVersion)
    → All (λ k u. agrees s k u ≡ true) m
    → verify_all s m ≡ ok tt
unfolding verify_all
verify_all-ok s [] h = refl
verify_all-ok s ((k, u) ∷ m) h = ground (arith, verify_all-ok s m)

verify_all-agrees :
    (s : Snapshot) (m : Map Bytes KeyValueVersion)
    → verify_all s m ≡ ok tt
    → All (λ k u. agrees s k u ≡ true) m
unfolding verify_all
verify_all-agrees s [] h = tt
verify_all-agrees s ((k, u) ∷ m) h = ground (arith, verify_all-agrees s m)

pub final_writes-All {ℓ} :
    (P : Bytes → KeyValueVersion → Type ℓ) (f : Map Bytes KeyValueVersion)
    (us : List KeyValueVersion)
    → ((k : Bytes) (u : KeyValueVersion) → last_write k us ≡ some u → P k u)
    → All (λ k u. last_write k us ≡ none → P k u) f
    → All P (final_writes f us)
unfolding final_writes
final_writes-All P f [] h a = All-map _ P f (λ k u q. q refl) a
final_writes-All P f (u ∷ us) h a =
    final_writes-All P (insert u.key u f) us (λ k w e. h k w (ground arith))
      (unfold insert in
        (
          (λ e. h u.key u (ground (arith, bytes_beq_iff u.key u.key))),
          All-map _ _ (erase u.key f) (λ k w q e. q.0 (ground arith)) (All-erase _ u.key f a),
        ))

-- A batch is accepted as a replay exactly when, for each key that it writes, the last write agrees
-- with the record that the snapshot holds for the key.
pub verify_replay_iff :
    (s : Snapshot) (us : List KeyValueVersion)
    → (verify_replay s us ≡ ok tt)
      ↔ ((k : Bytes) (u : KeyValueVersion) → last_write k us ≡ some u → agrees s k u ≡ true)
unfolding verify_replay
verify_replay_iff s us = (
  λ e k u l.
      All-lookup (λ k u. agrees s k u ≡ true) (final_writes [] us) k u (verify_all-agrees s _ e)
        (ground (arith, lookup-final_writes [] us k)),
  λ h. verify_all-ok s _ (final_writes-All _ [] us h tt),
)
