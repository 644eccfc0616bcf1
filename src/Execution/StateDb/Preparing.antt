-- ===== src/Execution/StateDb/Preparing.antt =====
-- endorser/execution/statedb.go, `Prepare`: it makes a well-formed access list and touches nothing else.
use fabric_x_evm_lfx.Prelude.{
  refl, sym, Bool, true, false, Option, none, some, List, [], ◌∷◌, append-nil, arith, lookup, Bytes,
  bytes_eq, nat_eq, if◌then◌else◌,
}
use fabric_x_evm_lfx.Execution.AccessList.{AccessList, new_access_list, add_address, add_slot}
use fabric_x_evm_lfx.Execution.AccessList.Laws.{
  IsSeparate, add_address-IsSeparate, add_slot-IsSeparate,
}
use fabric_x_evm_lfx.Execution.StateDb.{StateDb}
use fabric_x_evm_lfx.Execution.StateDb.Accounts.{add_addresses, add_slots, add_accesses, prepare}
use fabric_x_evm_lfx.Execution.StateDb.View.{view, undo_views}
use fabric_x_evm_lfx.Execution.StateDb.Extends.{IsSound, Recovers}

pub new_access_list-IsSeparate : IsSeparate new_access_list
unfolding lookup
new_access_list-IsSeparate = record {
  inside = λ a i e. absurd (ground arith);
  apart = λ a b i e f. absurd (ground arith);
}

add_addresses-IsSeparate :
    (al : AccessList) (rest : List Bytes) → IsSeparate al → IsSeparate (add_addresses al rest)
unfolding add_addresses
add_addresses-IsSeparate al [] w = w
add_addresses-IsSeparate al (a ∷ rest) w =
    add_addresses-IsSeparate (add_address al a) rest (add_address-IsSeparate al a w)

add_slots-IsSeparate :
    (al : AccessList) (a : Bytes) (ks : List Bytes) → IsSeparate al → IsSeparate (add_slots al a ks)
unfolding add_slots
add_slots-IsSeparate al a [] w = w
add_slots-IsSeparate al a (k ∷ ks) w =
    add_slots-IsSeparate (add_slot al a k) a ks (add_slot-IsSeparate al a k w)

add_accesses-IsSeparate :
    (al : AccessList) (els : List (Bytes × List Bytes))
    → IsSeparate al
    → IsSeparate (add_accesses al els)
unfolding add_accesses
add_accesses-IsSeparate al [] w = w
add_accesses-IsSeparate al ((a, ks) ∷ els) w =
    add_accesses-IsSeparate (add_slots (add_address al a) a ks) els
      (add_slots-IsSeparate (add_address al a) a ks (add_address-IsSeparate al a w))

destination-IsSeparate :
    (al : AccessList) (dest : Option Bytes)
    → IsSeparate al
    → IsSeparate (elim dest [ none ↦ al | some d ↦ add_address al d ])
destination-IsSeparate al none w = w
destination-IsSeparate al (some d) w = add_address-IsSeparate al d w

prepare-IsSeparate :
    (shanghai : Bool) (sender coinbase : Bytes) (dest : Option Bytes) (precompiles : List Bytes)
    (accesses : List (Bytes × List Bytes)) (s : StateDb)
    → IsSeparate (prepare shanghai sender coinbase dest precompiles accesses s).access_list
unfolding prepare
prepare-IsSeparate shanghai sender coinbase dest precompiles accesses s =
    let al₀ = add_address new_access_list sender in
    let al₁ : AccessList = elim dest [ none ↦ al₀ | some d ↦ add_address al₀ d ] in
    let al = add_accesses (add_addresses al₁ precompiles) accesses in
    let w : IsSeparate al = add_accesses-IsSeparate _ accesses (
      add_addresses-IsSeparate _ precompiles (
        destination-IsSeparate _ dest
          (add_address-IsSeparate new_access_list sender new_access_list-IsSeparate))) in
    elim shanghai as (λ k. IsSeparate (if k then add_address al coinbase else al)) [
      | true ↦ add_address-IsSeparate _ coinbase w
      | false ↦ w
    ]

pub prepare-Recovers :
    (shanghai : Bool) (sender coinbase : Bytes) (dest : Option Bytes) (precompiles : List Bytes)
    (accesses : List (Bytes × List Bytes)) (s : StateDb)
    → IsSound s
    → Recovers true s (prepare shanghai sender coinbase dest precompiles accesses s)
unfolding prepare view undo_views
prepare-Recovers shanghai sender coinbase dest precompiles accesses s h = record {
  entries = [];
  more_logs = [];
  journal = sym (append-nil s.journal);
  undone = refl;
  logs = sym (append-nil s.logs);
  more_revisions = [];
  revisions = sym (append-nil s.valid_revisions);
  later = tt;
  next_id = omega arith;
  sound = record {
    indexed = h.indexed;
    separate = prepare-IsSeparate shanghai sender coinbase dest precompiles accesses s;
    ids = h.ids;
  };
}
