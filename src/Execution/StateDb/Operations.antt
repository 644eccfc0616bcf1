-- ===== src/Execution/StateDb/Operations.antt =====
-- endorser/execution/statedb.go: the operations that call one another extend the state.
use fabric_x_evm_lfx.Prelude.{
  ℕ, Bool, true, false, Option, none, some, [], Outcome, ok, err, ◌==◌, if◌then◌else◌, nat_eq,
  Bytes, bytes_eq,
}
use fabric_x_evm_lfx.Execution.Eth.{Eth}
use fabric_x_evm_lfx.Execution.Codec.{
  uint256_to_bytes, uint64_to_bytes, bytes_to_uint256, bytes_to_uint64,
}
use fabric_x_evm_lfx.Execution.StateDb.{
  StateDb, Error, short_buffer, M, ◌>>=◌, pure, get_state, put_state, store_failed,
}
use fabric_x_evm_lfx.Execution.StateDb.Accounts.{
  modify, attempt, fail, ◌>>◌, acc_key, store_key, bal, nonce, code, mark_new_contract,
  create_account, create_contract, get_balance, set_balance, add_balance, sub_balance, get_nonce,
  get_code, get_code_size, set_code, exist, get_code_hash, empty, get_storage,
  get_state_and_committed_state, stored_hash, peek_store, previous_storage, hash_of, set_storage,
}
use fabric_x_evm_lfx.Execution.StateDb.Extends.{
  IsSound, Extends, get_state_from_journal-IsExtending, get_state_from_store-IsExtending,
  Extends-refl, Extends-trans, IsExtending, bind-IsExtending, pure-IsExtending, put_state-Extends,
  get_state-IsExtending,
}
use fabric_x_evm_lfx.Execution.StateDb.Entries.{mark_new_contract-Extends}

then-IsExtending :
    {B : Type 0} {m : M (Unit {0})} {k : M B} → IsExtending m → IsExtending k → IsExtending (m >> k)
then-IsExtending x y = unfold ◌>>◌ in bind-IsExtending x (λ u. y)

if-IsExtending :
    {A : Type 0} {m n : M A} (b : Bool)
    → IsExtending m
    → IsExtending n
    → IsExtending (if b then m else n)
if-IsExtending true x y = x
if-IsExtending false x y = y

modify-IsExtending :
    (f : StateDb → StateDb) → ((s : StateDb) → IsSound s → Extends s (f s)) → IsExtending (modify f)
modify-IsExtending f h = record { run = unfold modify in h }

attempt-IsExtending : {A : Type 0} {m : M A} → IsExtending m → IsExtending (attempt m)
attempt-IsExtending {A = A} {m = m} x = record {
  run = λ s h.
      unfold attempt in
      elim (m s).0
        as (λ r.
          (let out : Outcome Error (Option A) × StateDb = elim r [
            | ok a ↦ (ok (some a), (m s).1)
            | err e ↦ (ok none, (m s).1)
          ] in
            Extends s out.1)) [ ok a ↦ x.run s h | err e ↦ x.run s h ];
}

fail-IsExtending : (A : Type 0) (e : Error) → IsExtending (fail {A = A} e)
fail-IsExtending A e = record { run = λ s h. unfold fail in Extends-refl s h }

module _ (eth : Eth) where
  pub create_account-Extends :
      (a : Bytes) (s : StateDb) → IsSound s → Extends s (create_account eth a s)
  unfolding create_account
  create_account-Extends a s h =
      let s₁ = put_state (acc_key eth a bal) (uint256_to_bytes 0) s in
      let s₂ = put_state (acc_key eth a nonce) (uint64_to_bytes 0) s₁ in
      let x₁ = put_state-Extends (acc_key eth a bal) (uint256_to_bytes 0) s h in
      let x₂ = put_state-Extends (acc_key eth a nonce) (uint64_to_bytes 0) s₁ x₁.sound in
      Extends-trans s s₁ (mark_new_contract a s₂) x₁
        (Extends-trans s₁ s₂ (mark_new_contract a s₂) x₂ (mark_new_contract-Extends s₂ x₂.sound a))

  pub create_contract-Extends :
      (a : Bytes) (s : StateDb) → IsSound s → Extends s (create_contract eth a s)
  unfolding create_contract
  create_contract-Extends a s h =
      let s₁ = put_state (acc_key eth a code) [] s in
      let x₁ = put_state-Extends (acc_key eth a code) [] s h in
      Extends-trans s s₁ (mark_new_contract a s₁) x₁ (mark_new_contract-Extends s₁ x₁.sound a)

  pub get_balance-IsExtending : (a : Bytes) → IsExtending (get_balance eth a)
  unfolding get_balance
  get_balance-IsExtending a =
      bind-IsExtending (get_state-IsExtending (acc_key eth a bal))
        (λ v. pure-IsExtending (bytes_to_uint256 eth v))

  pub put-IsExtending : (key value : Bytes) → IsExtending (modify (put_state key value))
  put-IsExtending key value = modify-IsExtending (put_state key value) (put_state-Extends key value)

  pub set_balance-IsExtending : (a : Bytes) (n : ℕ) → IsExtending (modify (set_balance eth a n))
  set_balance-IsExtending a n =
      unfold set_balance in put-IsExtending (acc_key eth a bal) (uint256_to_bytes n)

  -- A new balance computed from the old one.
  pub add_balance-IsExtending : (a : Bytes) (n : ℕ) → IsExtending (add_balance eth a n)
  add_balance-IsExtending a n =
      unfold add_balance in
      if-IsExtending (n == 0) (pure-IsExtending 0) (
        bind-IsExtending (get_balance-IsExtending a) (λ prev.
          then-IsExtending (set_balance-IsExtending a (eth.u256_add prev n))
            (pure-IsExtending prev)))

  pub sub_balance-IsExtending : (a : Bytes) (n : ℕ) → IsExtending (sub_balance eth a n)
  sub_balance-IsExtending a n =
      unfold sub_balance in
      if-IsExtending (n == 0) (pure-IsExtending 0) (
        bind-IsExtending (get_balance-IsExtending a) (λ prev.
          then-IsExtending (set_balance-IsExtending a (eth.u256_sub prev n))
            (pure-IsExtending prev)))

  pub get_nonce-IsExtending : (a : Bytes) → IsExtending (get_nonce eth a)
  get_nonce-IsExtending a =
      unfold get_nonce in
      bind-IsExtending (get_state-IsExtending (acc_key eth a nonce)) (λ v.
        elim (bytes_to_uint64 v)
          as (λ n. IsExtending (elim n [ some k ↦ pure k | none ↦ fail short_buffer ])) [
            | some k ↦ pure-IsExtending k
            | none ↦ fail-IsExtending ℕ short_buffer
          ])

  pub get_code-IsExtending : (a : Bytes) → IsExtending (get_code eth a)
  get_code-IsExtending a = unfold get_code in get_state-IsExtending (acc_key eth a code)

  pub get_code_size-IsExtending : (a : Bytes) → IsExtending (get_code_size eth a)
  get_code_size-IsExtending a =
      unfold get_code_size in bind-IsExtending (get_code-IsExtending a) (λ c. pure-IsExtending _)

  pub set_code-IsExtending : (a c : Bytes) → IsExtending (set_code eth a c)
  set_code-IsExtending a c =
      unfold set_code in
      bind-IsExtending (get_code-IsExtending a)
        (λ prev. then-IsExtending (put-IsExtending (acc_key eth a code) c) (pure-IsExtending prev))

  -- One field that `Exist` looks at, and what it does if the field is not there.
  field-IsExtending :
      (key : Bytes) (k : M Bool)
      → IsExtending k
      → IsExtending (attempt (get_state key) >>= λ b. elim b [ some (some v) ↦ pure true | _ ↦ k ])
  field-IsExtending key k x =
      bind-IsExtending (attempt-IsExtending (get_state-IsExtending key))
        (elim [ none ↦ x | some none ↦ x | some (some v) ↦ pure-IsExtending true ])

  pub exist-IsExtending : (a : Bytes) → IsExtending (exist eth a)
  exist-IsExtending a =
      unfold exist in
      field-IsExtending (acc_key eth a bal) _ (
        field-IsExtending (acc_key eth a nonce) _
          (field-IsExtending (acc_key eth a code) _ (pure-IsExtending false)))

  pub get_code_hash-IsExtending : (a : Bytes) → IsExtending (get_code_hash eth a)
  get_code_hash-IsExtending a =
      unfold get_code_hash in
      bind-IsExtending (exist-IsExtending a) (λ e.
        if-IsExtending e (bind-IsExtending (get_code-IsExtending a) (λ c. pure-IsExtending _))
          (pure-IsExtending _))

  pub empty-IsExtending : (a : Bytes) → IsExtending (empty eth a)
  empty-IsExtending a =
      unfold empty in
      bind-IsExtending (get_balance-IsExtending a) (λ b.
        if-IsExtending (b == 0)
          (bind-IsExtending (get_nonce-IsExtending a) (λ n.
            if-IsExtending (n == 0)
              (bind-IsExtending (get_code_size-IsExtending a)
                (λ size. pure-IsExtending (size == 0)))
              (pure-IsExtending false)))
          (pure-IsExtending false))

  pub get_storage-IsExtending : (a k : Bytes) → IsExtending (get_storage eth a k)
  get_storage-IsExtending a k =
      unfold get_storage in
      bind-IsExtending (get_state-IsExtending (store_key eth a k)) (λ v. pure-IsExtending _)

  pub get_state_and_committed_state-IsExtending :
      (a k : Bytes) → IsExtending (get_state_and_committed_state eth a k)
  get_state_and_committed_state-IsExtending a k =
      unfold get_state_and_committed_state in
      bind-IsExtending (get_state_from_journal-IsExtending (store_key eth a k)) (λ found.
        bind-IsExtending (get_state_from_store-IsExtending (store_key eth a k))
          (λ v. pure-IsExtending _))

  peek_store-IsExtending : (key : Bytes) → IsExtending (peek_store eth key)
  unfolding peek_store
  peek_store-IsExtending key = record {
    run = λ s h.
        elim (s.store s.namespace key)
          as (λ r.
            (let out : Outcome Error Bytes × StateDb = elim r [
              | err e ↦ (err (store_failed e), s)
              | ok w ↦ (ok (stored_hash eth w), s)
            ] in
              Extends s out.1)) [ err e ↦ Extends-refl s h | ok w ↦ Extends-refl s h ];
  }

  previous_storage-IsExtending : (key : Bytes) → IsExtending (previous_storage eth key)
  previous_storage-IsExtending key =
      unfold previous_storage in
      bind-IsExtending (get_state_from_journal-IsExtending key)
        (elim [ none ↦ peek_store-IsExtending key | some v ↦ pure-IsExtending (hash_of eth v) ])

  pub set_storage-IsExtending : (a k v : Bytes) → IsExtending (set_storage eth a k v)
  set_storage-IsExtending a k v =
      unfold set_storage in
      bind-IsExtending (previous_storage-IsExtending (store_key eth a k))
        (λ prev. then-IsExtending (put-IsExtending (store_key eth a k) _) (pure-IsExtending prev))

  -- The part of `SelfDestruct` that clears the balance.
  abbrev pub clear_balance : Bytes → ℕ → M (Unit {0})
  clear_balance a prev = if prev == 0 then pure tt else modify (set_balance eth a 0)

  pub clear_balance-IsExtending : (a : Bytes) (prev : ℕ) → IsExtending (clear_balance a prev)
  clear_balance-IsExtending a prev =
      if-IsExtending (prev == 0) (pure-IsExtending tt) (set_balance-IsExtending a 0)
