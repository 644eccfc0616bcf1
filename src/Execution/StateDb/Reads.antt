-- ===== src/Execution/StateDb/Reads.antt =====
-- endorser/execution/statedb.go: what is read back after a write.
use fabric_x_evm_lfx.Prelude.{
  ℕ, ◌+◌, ◌%◌, ◌^◌, ◌<◌, ◌≡◌, refl, sym, ap, ap₂, ◌∙◌, ◌≢◌, inl, inr, ◌&&◌, Option, none, some, [],
  ◌∷◌, ◌++◌, arith, Outcome, ok, err, length, drop, if◌then◌else◌, Bool-cases, nat_eq, Bytes,
  bytes_beq, bytes_beq_iff, bytes_eq,
}
use fabric_x_evm_lfx.Execution.Eth.{Eth, EthLaws, zero_hash}
use fabric_x_evm_lfx.Execution.Codec.{
  uint256_to_bytes, big_bytes, set_bytes, bytes_to_uint256, uint64_to_bytes, bytes_to_uint64,
  uint64_roundtrip, set_bytes-big_bytes,
}
use fabric_x_evm_lfx.Execution.StateDb.{
  StateDb, Error, store_failed, ◌>>=◌, pure, or_store, record_value, written_value, get_state,
  get_state_from_store, write_of, put_state, current_index,
}
use fabric_x_evm_lfx.Execution.StateDb.Accounts.{
  acc_key, store_key, bal, nonce, get_balance, set_balance, add_balance, get_nonce, set_nonce,
  get_storage, set_storage, previous_storage, peek_store, hash_of, modify, ◌>>◌,
}
use fabric_x_evm_lfx.Execution.StateDb.Extends.{IsSound}
use fabric_x_evm_lfx.Execution.StateDb.Operations.{get_balance-IsExtending}
use fabric_x_evm_lfx.Execution.StateDb.Index.{
  latest, latest-snoc_write, IsIndexed, get_state_from_journal-latest, put_state-IsIndexed,
}

-- The value of a key: that of its latest write in the journal, or that of the store.
abbrev pub value_at : Bytes → StateDb → Outcome Error (Option Bytes)
value_at k s = elim (latest k s.journal) [
  | some v ↦ ok v
  | none ↦ elim (s.store s.namespace k) [
    | ok r ↦ ok (record_value r)
    | err e ↦ err (store_failed e)
  ]
]

-- What a written value reads back as: nil if it was empty.
abbrev kept : Bytes → Option Bytes
kept [] = none
kept (b ∷ bs) = some (b ∷ bs)

pub get_state-value_at : (k : Bytes) (s : StateDb) → IsIndexed s → (get_state k s).0 ≡ value_at k s
unfolding get_state ◌>>=◌ or_store pure get_state_from_store
get_state-value_at k s h = ground (arith, (get_state_from_journal-latest s k h).0)

written_value-write_of : (key value : Bytes) → written_value (write_of key value) ≡ kept value
unfolding write_of
written_value-write_of key [] = refl
written_value-write_of key (b ∷ bs) = refl

write_of-key : (key value : Bytes) → (write_of key value).key ≡ key
unfolding write_of
write_of-key key [] = refl
write_of-key key (b ∷ bs) = refl

pub value_at-put_state :
    (key value k : Bytes) (s : StateDb)
    → value_at k (put_state key value s)
      ≡ (if bytes_beq key k then ok (kept value) else value_at k s)
unfolding put_state
value_at-put_state key value k s = ground (
  arith,
  latest-snoc_write k s.journal (write_of key value),
  write_of-key key value,
  written_value-write_of key value,
)

get_state-put_state :
    (key value k : Bytes) (s : StateDb)
    → IsIndexed s
    → (get_state k (put_state key value s)).0
      ≡ (if bytes_beq key k then ok (kept value) else value_at k s)
get_state-put_state key value k s h =
    get_state-value_at k (put_state key value s) (put_state-IsIndexed key value s h)
    ∙ value_at-put_state key value k s

bytes_to_uint64-kept : (n : ℕ) → n < 2 ^ 64 → bytes_to_uint64 (kept (uint64_to_bytes n)) ≡ some n
bytes_to_uint64-kept n h = unfold uint64_to_bytes in uint64_roundtrip n h

bytes_to_uint256-kept :
    (eth : Eth) (n : ℕ)
    → EthLaws eth
    → n < 2 ^ 256
    → bytes_to_uint256 eth (kept (uint256_to_bytes n)) ≡ n
unfolding uint256_to_bytes bytes_to_uint256 set_bytes
bytes_to_uint256-kept eth n laws h = digits (big_bytes n) (set_bytes-big_bytes n)
  where
    digits : (b : Bytes) → set_bytes 0 b ≡ n → bytes_to_uint256 eth (kept b) ≡ n
    digits [] e = e
    digits (x ∷ xs) e = ap eth.from_big e ∙ laws.from_big_lem n h

append-injective :
    (xs xs' ys ys' : Bytes)
    → length xs ≡ length xs'
    → xs ++ ys ≡ xs' ++ ys'
    → (xs ≡ xs') × (ys ≡ ys')
append-injective [] [] ys ys' l e = (refl, e)
append-injective [] (x ∷ xs') ys ys' l e = absurd (omega arith)
append-injective (x ∷ xs) [] ys ys' l e = absurd (omega arith)
append-injective (x ∷ xs) (x' ∷ xs') ys ys' l e =
    let head : x ≡ x' = ground arith in
    let tail : xs ++ ys ≡ xs' ++ ys' = ground arith in
    let (p, q) = append-injective xs xs' ys ys' (omega arith) tail in (ap₂ ◌∷◌ head p, q)

store_key-eq : (eth : Eth) (a b k j : Bytes) → a ≡ b → k ≡ j → store_key eth a k ≡ store_key eth b j
store_key-eq eth a b k j p q = ap₂ (store_key eth) p q

module _ (eth : Eth) (laws : EthLaws eth) where
  -- The value that a hash is stored as reads back as the hash.
  hash_of-kept :
      (v : Bytes) → length v ≡ 32 → hash_of eth (kept (if bytes_beq v zero_hash then [] else v)) ≡ v
  hash_of-kept v len = elim (Bool-cases (bytes_beq v zero_hash)) [
    | inl is_zero ↦ rw is_zero (sym ((bytes_beq_iff v zero_hash).0 is_zero))
    | inr other ↦ rw other (non_empty v len)
  ]
    where
      non_empty : (w : Bytes) → length w ≡ 32 → hash_of eth (kept w) ≡ w
      non_empty [] l = absurd (omega arith)
      non_empty (x ∷ xs) l = laws.bytes_to_hash_lem (x ∷ xs) l

  -- Storage keys tell account and slot apart.
  pub store_key-beq :
      (a b k j : Bytes)
      → length a ≡ 20
      → length b ≡ 20
      → length k ≡ 32
      → length j ≡ 32
      → bytes_beq (store_key eth a k) (store_key eth b j) ≡ (bytes_beq a b && bytes_beq k j)
  unfolding store_key
  store_key-beq a b k j la lb lk lj =
      let same =
        append-injective (eth.addr_hex a) (eth.addr_hex b) (b':' ∷ eth.hash_hex k)
          (b':' ∷ eth.hash_hex j) (laws.length-addr_hex a la ∙ sym (laws.length-addr_hex b lb)) in
      elim (Bool-cases (bytes_beq (store_key eth a k) (store_key eth b j))) [
        | inl hit ↦
            let whole = (bytes_beq_iff (store_key eth a k) (store_key eth b j)).0 hit in
            let rest = same (ap (drop 4) whole) in
            let p = laws.addr_hex-injective a b la lb rest.0 in
            let q = laws.hash_hex-injective k j lk lj (ap (drop 1) rest.1) in
            hit ∙ ground (arith, (bytes_beq_iff a b).1 p, (bytes_beq_iff k j).1 q)
        | inr miss ↦
            miss
            ∙ ground (
              arith,
              bytes_beq_iff a b,
              bytes_beq_iff k j,
              bytes_beq_iff (store_key eth a k) (store_key eth b j),
              store_key-eq eth a b k j,
            )
      ]

  -- From a state whose index is that of its journal, a nonce that fits 64 bits reads back.
  pub get_nonce-set_nonce :
      (a : Bytes) (n : ℕ) (s : StateDb)
      → IsIndexed s
      → n < 2 ^ 64
      → (get_nonce eth a (set_nonce eth a n s)).0 ≡ ok n
  unfolding get_nonce set_nonce ◌>>=◌ pure
  get_nonce-set_nonce a n s h lt =
      let key = acc_key eth a nonce in
      ground (
        arith,
        get_state-put_state key (uint64_to_bytes n) key s h,
        (bytes_beq_iff key key).1 refl,
        bytes_to_uint64-kept n lt,
      )

  get_balance-set_balance :
      (a : Bytes) (n : ℕ) (s : StateDb)
      → IsIndexed s
      → n < 2 ^ 256
      → (get_balance eth a (set_balance eth a n s)).0 ≡ ok n
  unfolding get_balance set_balance ◌>>=◌ pure
  get_balance-set_balance a n s h lt =
      let key = acc_key eth a bal in
      ground (
        arith,
        get_state-put_state key (uint256_to_bytes n) key s h,
        (bytes_beq_iff key key).1 refl,
        bytes_to_uint256-kept eth n laws lt,
      )

  -- From a sound state, an addition of a non-zero amount that returns gives back the balance before it, and the balance
  -- after it is the sum modulo 2^256.
  pub get_balance-add_balance :
      (a : Bytes) (n prev : ℕ) (s : StateDb)
      → IsSound s
      → n ≢ 0
      → (add_balance eth a n s).0 ≡ ok prev
      → ((get_balance eth a s).0 ≡ ok prev)
        × ((get_balance eth a (add_balance eth a n s).1).0 ≡ ok ((prev + n) % 2 ^ 256))
  unfolding add_balance ◌>>=◌ ◌>>◌ pure modify
  get_balance-add_balance a n prev s h ne e =
      let s₁ = (get_balance eth a s).1 in
      let balance : (get_balance eth a s).0 ≡ ok prev = ground arith in
      let sum : eth.u256_add prev n ≡ (prev + n) % 2 ^ 256 = laws.u256_add_lem prev n in
      let after =
        get_balance-set_balance a ((prev + n) % 2 ^ 256) s₁
          ((get_balance-IsExtending eth a).run s h).sound.indexed (omega arith) in
      (balance, ground (arith, after, sum))

  previous_storage-same :
      (k : Bytes) (s : StateDb)
      → IsIndexed s
      → (previous_storage eth k s).1 ≡ record s { write_idx = some (current_index s) }
  unfolding previous_storage peek_store ◌>>=◌ pure
  previous_storage-same k s h = ground (arith, (get_state_from_journal-latest s k h).0)

  -- From a state whose index is that of its journal, after a storage write that returns, the slot of the
  -- account that was written reads as the value, and every other slot as before. Addresses have 20 bytes,
  -- slots and the value 32. The value may be the zero hash, which is stored as a deletion.
  pub get_storage-set_storage :
      (a k v b j prev : Bytes) (s : StateDb)
      → IsIndexed s
      → length a ≡ 20
      → length b ≡ 20
      → length k ≡ 32
      → length j ≡ 32
      → length v ≡ 32
      → (set_storage eth a k v s).0 ≡ ok prev
      → (get_storage eth b j (set_storage eth a k v s).1).0
        ≡ (if bytes_beq a b && bytes_beq k j then ok v else (get_storage eth b j s).0)
  unfolding get_storage set_storage ◌>>=◌ ◌>>◌ pure modify
  get_storage-set_storage a k v b j prev s h la lb lk lj len e =
      let key = store_key eth a k in
      let other = store_key eth b j in
      let stored = if bytes_beq v zero_hash then [] else v in
      let s₁ = record s { write_idx = some (current_index s) } in
      let ready : IsIndexed s₁ = (get_state_from_journal-latest s key h).1 in
      ground (
        arith,
        previous_storage-same key s h,
        get_state-put_state key stored other s₁ ready,
        get_state-value_at other s h,
        store_key-beq a b k j la lb lk lj,
        hash_of-kept v len,
      )
