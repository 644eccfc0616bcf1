-- ===== src/Tests/Nonce.antt =====
-- gateway/core/nonce_parking.go: the gate over transactions that are their own hashes and begin with their nonce.
use fabric_x_evm_lfx.Prelude.{
  ℕ, ◌-◌, ◌^◌, ltb, if◌then◌else◌, ◌≤◌, ◌≡◌, refl, ◌⊎◌, true, none, some, List, [], ◌∷◌, arith, Map,
  All, lookup, insert, erase, Outcome, ok, length, nat_eq, Bytes, bytes_eq,
}
use fabric_x_evm_lfx.Gateway.Data.{QueueError}
use fabric_x_evm_lfx.Gateway.Nonce.{
  ParkedTx, SenderState, NonceGate, TxOps, new_nonce_gate, entry_of, value, is_held, prune, raise,
  admit, advance, observe,
}
use fabric_x_evm_lfx.Gateway.Nonce.Filing.{parked_of}
use fabric_x_evm_lfx.Gateway.Nonce.Admission.{IsConsistent}
use fabric_x_evm_lfx.Gateway.Nonce.Effect.{IsAdmission, admit_lem}
use fabric_x_evm_lfx.Gateway.Nonce.Advancing.{
  admit-IsConsistent, observe-IsConsistent, new_nonce_gate-IsConsistent,
}
use fabric_x_evm_lfx.Gateway.Nonce.Reaping.{prune-IsConsistent}
use fabric_x_evm_lfx.Gateway.Nonce.Pruning.{prune-bounded, prune-keeps}
use fabric_x_evm_lfx.Gateway.Nonce.Releasing.{advance-parked, advance-queue}

abbrev first : Bytes → ℕ
first [] = 0
first (n ∷ tx) = n

abbrev alice : Bytes
alice = 7 ∷ []

abbrev sample_ops : TxOps Bytes
sample_ops = record {
  hash = λ tx. tx;
  nonce = first;
  sender = λ tx. some alice;
  unmarshal = λ tx. some tx;
}

abbrev push : Bytes → List Bytes → Outcome QueueError (List Bytes)
push tx queue = ok (tx ∷ queue)

abbrev tx₃ : Bytes
tx₃ = 3 ∷ 1 ∷ []

abbrev tx₅ : Bytes
tx₅ = 5 ∷ 1 ∷ []

abbrev waiting_alice : SenderState Bytes
waiting_alice = record {
  next = record { nonce = 2; known = true };
  parked = (5, record { tx = tx₅; parked_at = 1 }) ∷ (3, record { tx = tx₃; parked_at = 0 }) ∷ [];
  last_seen = 1;
  refs = 1;
}

abbrev idle_bob : SenderState Bytes
idle_bob = record {
  next = record { nonce = 4; known = true };
  parked = [];
  last_seen = 9;
  refs = 0;
}

abbrev two_parked : NonceGate Bytes (List Bytes)
two_parked = record {
  senders = (alice, waiting_alice) ∷ (8 ∷ [], idle_bob) ∷ [];
  by_hash = (tx₅, tx₅) ∷ (tx₃, tx₃) ∷ [];
  max_per_sender = 64;
  max_senders = 1;
  ttl = 100;
  queue = [];
}

abbrev empty_gate : NonceGate Bytes (List Bytes)
empty_gate = new_nonce_gate []

-- Alice's first transaction is committed while the gate reads her nonce.
abbrev meanwhile : NonceGate Bytes (List Bytes) → NonceGate Bytes (List Bytes)
meanwhile g =
    observe sample_ops push (λ b. b) (λ s. true)
      (record {
        tx_hash = tx₃;
        raw_tx = tx₃;
        from_address = alice;
        status = 1;
        fabric_tx_status = 0;
      }
        ∷ [])
      2 g

admit_lem_example :
    IsAdmission sample_ops push alice 2 tx₃ 5 two_parked
      (admit sample_ops push meanwhile none tx₃ 5 two_parked)
unfolding entry_of lookup value
admit_lem_example = admit_lem sample_ops push meanwhile none tx₃ 5 two_parked alice 2 refl refl

admit-IsConsistent_example :
    IsConsistent sample_ops (admit sample_ops push meanwhile (some 2) tx₅ 1 empty_gate).1
admit-IsConsistent_example =
    admit-IsConsistent sample_ops push (λ t t' e. e) meanwhile (some 2) tx₅ 1 empty_gate
      (observe-IsConsistent sample_ops push (λ b. b) (λ s. true)
        (record {
          tx_hash = tx₃;
          raw_tx = tx₃;
          from_address = alice;
          status = 1;
          fabric_tx_status = 0;
        }
          ∷ [])
        2)
      (new_nonce_gate-IsConsistent sample_ops [])

prune-bounded_example :
    (length (prune sample_ops 50 two_parked).senders ≤ 1)
    ⊎ All (λ a ss. is_held ss ≡ true) (prune sample_ops 50 two_parked).senders
prune-bounded_example = prune-bounded sample_ops 50 two_parked

prune-keeps_example :
    (parked : Map ℕ (ParkedTx Bytes)) × (lookup alice (prune sample_ops 50 two_parked).senders
      ≡ some (record waiting_alice { parked = parked }))
unfolding lookup
prune-keeps_example =
    prune-keeps sample_ops 50 two_parked alice waiting_alice (refl, (refl, tt)) refl (omega arith)

advance-parked_example :
    lookup 3 (parked_of (advance sample_ops push alice 2 8 two_parked).senders alice) ≡ none
unfolding raise entry_of lookup
advance-parked_example = advance-parked sample_ops push alice alice 2 3 8 two_parked

advance-queue_example : (advance sample_ops push alice 2 8 two_parked).queue ≡ tx₃ ∷ []
unfolding raise entry_of lookup
advance-queue_example = advance-queue sample_ops push alice 2 8 two_parked

-- Alice's first transaction is parked at the time 1.
abbrev one_parked : NonceGate Bytes (List Bytes)
one_parked = (admit sample_ops push (λ g. g) (some 2) tx₅ 1 empty_gate).1

one_parked-IsConsistent : IsConsistent sample_ops one_parked
one_parked-IsConsistent =
    admit-IsConsistent sample_ops push (λ t t' e. e) (λ g. g) (some 2) tx₅ 1 empty_gate (λ h w. w)
      (new_nonce_gate-IsConsistent sample_ops [])

prune-IsConsistent_example :
    IsConsistent sample_ops (prune sample_ops (10 ^ 12) one_parked)
    × ((a : Bytes) (n : ℕ)
        → lookup n (parked_of (prune sample_ops (10 ^ 12) one_parked).senders a)
          ≡ elim (lookup n (parked_of one_parked.senders a)) [
            | none ↦ none
            | some p ↦ if ltb one_parked.ttl (10 ^ 12 - p.parked_at) then none else some p
          ])
unfolding admit new_nonce_gate insert erase lookup
prune-IsConsistent_example =
    prune-IsConsistent sample_ops (10 ^ 12) one_parked (refl, tt) one_parked-IsConsistent
