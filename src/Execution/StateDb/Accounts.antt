-- ===== src/Execution/StateDb/Accounts.antt =====
-- endorser/execution/statedb.go: the methods of `vm.StateDB` on accounts, storage, refunds and logs.
use fabric_x_evm_lfx.Prelude.{
  ℕ, ◌+◌, ◌-◌, ◌%◌, ◌^◌, Bool, true, false, ◌&&◌, Option, none, some, List, [], ◌∷◌, ◌++◌, Map, has,
  lookup, insert, ok, err, length, ltb, ◌==◌, if◌then◌else◌, nat_eq, Bytes, bytes_beq, bytes_eq,
}
use fabric_x_evm_lfx.Storage.Data.{WriteRecord}
use fabric_x_evm_lfx.Execution.Eth.{Eth, zero_hash}
use fabric_x_evm_lfx.Execution.Codec.{
  uint256_to_bytes, bytes_to_uint256, uint64_to_bytes, bytes_to_uint64,
}
use fabric_x_evm_lfx.Execution.AccessList.{
  AccessList, new_access_list, contains_address, contains, add_address, add_slot,
}
use fabric_x_evm_lfx.Execution.StateDb.{
  Log, refund_change, self_destruct, new_contract, transient_change, access_list_address,
  access_list_slot, StateDb, Error, store_failed, refund_below_zero, short_buffer, M, ◌>>=◌, pure,
  get_state_from_journal, get_state_from_store, get_state, put_state,
}

infixl 5 ◌>>◌
unfoldable pub ◌>>◌ : {B : Type 0} → M (Unit {0}) → M B → M B
m >> k = m >>= λ _. k

unfoldable pub fail : {A : Type 0} → Error → M A
fail e s = (err e, s)

unfoldable pub modify : (StateDb → StateDb) → M (Unit {0})
modify f s = (ok tt, f s)

-- `if val, err := ...; err == nil`: the value of a call that may fail.
unfoldable pub attempt : {A : Type 0} → M A → M (Option A)
attempt m s = elim (m s).0 [ ok a ↦ (ok (some a), (m s).1) | err e ↦ (ok none, (m s).1) ]

-- The suffixes of account keys.
abbrev pub bal : Bytes
bal = b'b' ∷ b'a' ∷ b'l' ∷ []

abbrev pub nonce : Bytes
nonce = b'n' ∷ b'o' ∷ b'n' ∷ b'c' ∷ b'e' ∷ []

abbrev pub code : Bytes
code = b'c' ∷ b'o' ∷ b'd' ∷ b'e' ∷ []

-- `markNewContract`
unfoldable pub mark_new_contract : Bytes → StateDb → StateDb
mark_new_contract addr s = if has addr s.new_contracts then s else record s {
  journal = s.journal ++ new_contract addr ∷ [];
  new_contracts = insert addr tt s.new_contracts;
}

-- `HasSelfDestructed`, `IsNewContract`
abbrev pub has_self_destructed : Bytes → StateDb → Bool
has_self_destructed addr s = has addr s.self_destructed

abbrev pub is_new_contract : Bytes → StateDb → Bool
is_new_contract addr s = has addr s.new_contracts

-- The end of `SelfDestruct`: only an account made in this transaction is destroyed.
unfoldable pub mark_self_destructed : Bytes → StateDb → StateDb
mark_self_destructed addr s =
    if has addr s.new_contracts
    then record s {
      journal = s.journal ++ self_destruct addr ∷ [];
      self_destructed = insert addr tt s.self_destructed;
    }
    else s

-- `AddRefund`; the counter is a `uint64`.
unfoldable pub add_refund : ℕ → StateDb → StateDb
add_refund gas s = record s {
  journal = s.journal ++ refund_change s.refund ∷ [];
  refund = (s.refund + gas) % 2 ^ 64;
}

-- `SubRefund` panics below zero.
unfoldable pub sub_refund : ℕ → M (Unit {0})
sub_refund gas s = if ltb s.refund gas then (err (refund_below_zero gas s.refund), s) else (
  ok tt,
  record s { journal = s.journal ++ refund_change s.refund ∷ []; refund = s.refund - gas },
)

-- `AddLog`
unfoldable pub add_log : Log → StateDb → StateDb
add_log log s = record s { logs = s.logs ++ log ∷ [] }

-- `GetTransientState`; a missing entry is the zero hash.
unfoldable pub transient_at : Bytes → Bytes → Map Bytes (Map Bytes Bytes) → Bytes
transient_at addr key m = elim (lookup addr m) [
  | none ↦ zero_hash
  | some storage ↦ elim (lookup key storage) [ none ↦ zero_hash | some v ↦ v ]
]

abbrev pub get_transient_state : Bytes → Bytes → StateDb → Bytes
get_transient_state addr key s = transient_at addr key s.transient_storage

-- The write of one transient slot, with the account's map made where it is missing.
unfoldable pub put_transient :
    Bytes → Bytes → Bytes → Map Bytes (Map Bytes Bytes) → Map Bytes (Map Bytes Bytes)
put_transient addr key value m =
    insert addr (insert key value (elim (lookup addr m) [ none ↦ [] | some storage ↦ storage ])) m

-- `SetTransientState`
unfoldable pub set_transient_state : Bytes → Bytes → Bytes → StateDb → StateDb
set_transient_state addr key value s = record s {
  journal = s.journal ++ transient_change addr key (get_transient_state addr key s) ∷ [];
  transient_storage = put_transient addr key value s.transient_storage;
}

-- `AddAddressToAccessList`
unfoldable pub add_address_to_access_list : Bytes → StateDb → StateDb
add_address_to_access_list addr s = if contains_address s.access_list addr then s else record s {
  journal = s.journal ++ access_list_address addr ∷ [];
  access_list = add_address s.access_list addr;
}

-- `AddSlotToAccessList`
unfoldable pub add_slot_to_access_list : Bytes → Bytes → StateDb → StateDb
add_slot_to_access_list addr slot s =
    let (addr_ok, slot_ok) = contains s.access_list addr slot in
    if addr_ok && slot_ok then s else record s {
      journal =
          (if addr_ok then s.journal else s.journal ++ access_list_address addr ∷ [])
          ++ access_list_slot addr slot ∷ [];
      access_list = add_slot s.access_list addr slot;
    }

-- The loops of `Prepare`.
unfoldable pub add_addresses : AccessList → List Bytes → AccessList
add_addresses al [] = al
add_addresses al (a ∷ as_) = add_addresses (add_address al a) as_

unfoldable pub add_slots : AccessList → Bytes → List Bytes → AccessList
add_slots al a [] = al
add_slots al a (k ∷ ks) = add_slots (add_slot al a k) a ks

unfoldable pub add_accesses : AccessList → List (Bytes × List Bytes) → AccessList
unfolding add_slots
add_accesses al [] = al
add_accesses al ((a, ks) ∷ els) = add_accesses (add_slots (add_address al a) a ks) els

-- `Prepare`; only the Shanghai flag of the rules is read.
unfoldable pub prepare :
    Bool → Bytes → Bytes → Option Bytes → List Bytes → List (Bytes × List Bytes) → StateDb → StateDb
unfolding add_addresses add_accesses
prepare is_shanghai sender coinbase dest precompiles tx_accesses s =
    let al₀ = add_address new_access_list sender in
    let al₁ : AccessList = elim dest [ none ↦ al₀ | some d ↦ add_address al₀ d ] in
    let al₂ = add_accesses (add_addresses al₁ precompiles) tx_accesses in
    record s { access_list = if is_shanghai then add_address al₂ coinbase else al₂ }

module _ (eth : Eth) where
  -- `accKey` and `storeKey`
  unfoldable pub acc_key : Bytes → Bytes → Bytes
  acc_key addr typ = (b'a' ∷ b'c' ∷ b'c' ∷ b':' ∷ []) ++ (eth.addr_hex addr ++ (b':' ∷ typ))

  unfoldable pub store_key : Bytes → Bytes → Bytes
  store_key addr slot =
      (b's' ∷ b't' ∷ b'r' ∷ b':' ∷ []) ++ (eth.addr_hex addr ++ (b':' ∷ eth.hash_hex slot))

  -- `CreateAccount`
  unfoldable pub create_account : Bytes → StateDb → StateDb
  unfolding acc_key mark_new_contract put_state
  create_account addr s = mark_new_contract addr (
      put_state (acc_key addr nonce) (uint64_to_bytes 0)
        (put_state (acc_key addr bal) (uint256_to_bytes 0) s))

  -- `CreateContract`
  unfoldable pub create_contract : Bytes → StateDb → StateDb
  unfolding acc_key mark_new_contract put_state
  create_contract addr s = mark_new_contract addr (put_state (acc_key addr code) [] s)

  unfoldable pub get_balance : Bytes → M ℕ
  get_balance addr = do v ← get_state (acc_key addr bal); pure (bytes_to_uint256 eth v)

  unfoldable pub set_balance : Bytes → ℕ → StateDb → StateDb
  set_balance addr amount = put_state (acc_key addr bal) (uint256_to_bytes amount)

  -- `AddBalance` and `SubBalance`: the previous balance, or 0 without a read for a zero amount.
  unfoldable pub add_balance : Bytes → ℕ → M ℕ
  add_balance addr amount = if amount == 0 then pure 0 else do
    prev ← get_balance addr
    modify (set_balance addr (eth.u256_add prev amount))
    pure prev

  unfoldable pub sub_balance : Bytes → ℕ → M ℕ
  sub_balance addr amount = if amount == 0 then pure 0 else do
    prev ← get_balance addr
    modify (set_balance addr (eth.u256_sub prev amount))
    pure prev

  unfoldable pub get_nonce : Bytes → M ℕ
  get_nonce addr = do
    v ← get_state (acc_key addr nonce)
    elim (bytes_to_uint64 v) [ some n ↦ pure n | none ↦ fail short_buffer ]

  unfoldable pub set_nonce : Bytes → ℕ → StateDb → StateDb
  set_nonce addr n = put_state (acc_key addr nonce) (uint64_to_bytes n)

  unfoldable pub get_code : Bytes → M (Option Bytes)
  get_code addr = get_state (acc_key addr code)

  unfoldable pub get_code_size : Bytes → M ℕ
  get_code_size addr = do c ← get_code addr; pure (elim c [ none ↦ 0 | some b ↦ length b ])

  -- `SetCode`: the previous code.
  unfoldable pub set_code : Bytes → Bytes → M (Option Bytes)
  set_code addr c = do prev ← get_code addr; modify (put_state (acc_key addr code) c); pure prev

  -- `Exist`: whether one of the three fields is there; an error of the store counts as absence.
  unfoldable pub exist : Bytes → M Bool
  exist addr = do
    b ← attempt (get_state (acc_key addr bal))
    elim b [
      | some (some v) ↦ pure true
      | _ ↦ do
        n ← attempt (get_state (acc_key addr nonce))
        elim n [
          | some (some v) ↦ pure true
          | _ ↦ do
            c ← attempt (get_state (acc_key addr code))
            elim c [ some (some v) ↦ pure true | _ ↦ pure false ]
        ]
    ]

  unfoldable pub get_code_hash : Bytes → M Bytes
  get_code_hash addr = do
    e ← exist addr
    if e
        then (do c ← get_code addr; pure (eth.keccak256 (elim c [ none ↦ [] | some b ↦ b ])))
        else pure zero_hash

  -- `Empty`
  unfoldable pub empty : Bytes → M Bool
  empty addr = do
    b ← get_balance addr
    if b == 0
        then (do
          n ← get_nonce addr
          if n == 0 then (do size ← get_code_size addr; pure (size == 0)) else pure false)
        else pure false

  -- A stored value as a hash: the zero hash where there is none.
  abbrev pub hash_of : Option Bytes → Bytes
  hash_of none = zero_hash
  hash_of (some []) = zero_hash
  hash_of (some (b ∷ bs)) = eth.bytes_to_hash (b ∷ bs)

  -- `GetState`
  unfoldable pub get_storage : Bytes → Bytes → M Bytes
  get_storage addr slot = do v ← get_state (store_key addr slot); pure (hash_of v)

  -- `GetStateAndCommittedState`
  unfoldable pub get_state_and_committed_state : Bytes → Bytes → M (Bytes × Bytes)
  get_state_and_committed_state addr slot = do
    found ← get_state_from_journal (store_key addr slot)
    committed_val ← get_state_from_store (store_key addr slot)
    pure (elim found [
      | some current_val ↦ (hash_of current_val, hash_of committed_val)
      | none ↦ (hash_of committed_val, hash_of committed_val)
    ])

  -- The previous value that `SetState` reads from the store, without a read dependency.
  unfoldable pub stored_hash : Option WriteRecord → Bytes
  stored_hash none = zero_hash
  stored_hash (some r) = if r.is_delete then zero_hash else hash_of r.value

  unfoldable pub peek_store : Bytes → M Bytes
  unfolding stored_hash
  peek_store key s = elim (s.store s.namespace key) [
    | err e ↦ (err (store_failed e), s)
    | ok r ↦ (ok (stored_hash r), s)
  ]

  unfoldable pub previous_storage : Bytes → M Bytes
  unfolding peek_store
  previous_storage key = do
    found ← get_state_from_journal key
    elim found [ some v ↦ pure (hash_of v) | none ↦ peek_store key ]

  -- `SetState`: the zero hash is written as a deletion.
  unfoldable pub set_storage : Bytes → Bytes → Bytes → M Bytes
  unfolding previous_storage
  set_storage addr slot value = do
    prev ← previous_storage (store_key addr slot)
    modify (put_state (store_key addr slot) (if bytes_beq value zero_hash then [] else value))
    pure prev

  -- `SelfDestruct`
  unfoldable pub self_destruct_account : Bytes → M (Unit {0})
  unfolding mark_self_destructed
  self_destruct_account addr = do
    prev_balance ← get_balance addr
    if prev_balance == 0 then pure tt else modify (set_balance addr 0)
    modify (mark_self_destructed addr)
