-- ===== src/Storage/PebbleKeys.antt =====
-- endorser/storage/pebblekvs.go: the keys of the disk store.
use fabric_x_evm_lfx.Prelude.{
  ℕ, ◌+◌, ◌-◌, ◌*◌, ◌/◌, ◌%◌, ◌^◌, ◌<◌, ◌≡◌, sym, ap, ap₂, ◌∙◌, false, Option, none, some, [], ◌∷◌,
  ◌++◌, append_assoc, arith, length, take, drop, take-append, drop-append, leb, if◌then◌else◌,
  nat_eq, Bytes, bytes_eq,
}
use fabric_x_evm_lfx.Execution.Codec.{uint64_to_bytes, big_endian_uint64}

-- `binary.BigEndian.AppendUint32`, of a number that is cut to 32 bits.
unfoldable pub append_uint32 : Bytes → ℕ → Bytes
append_uint32 b n =
    b ++ (n / 2 ^ 24 % 256) ∷ (n / 2 ^ 16 % 256) ∷ (n / 2 ^ 8 % 256) ∷ (n % 256) ∷ []

-- `keyForState`
unfoldable pub key_for_state : ℕ → Bytes → Bytes
unfolding append_uint32
key_for_state prefix full_key = append_uint32 (prefix ∷ []) (length full_key) ++ full_key

-- `dataKey`, under the letter d.
unfoldable pub data_key : Bytes → Bytes
unfolding key_for_state
data_key full_key = key_for_state 100 full_key

-- `historyPrefix`, under the letter h.
unfoldable pub history_prefix : Bytes → Bytes
unfolding key_for_state
history_prefix full_key = key_for_state 104 full_key

-- `^x` of a 64-bit number.
abbrev pub complement : ℕ → ℕ
complement n = 2 ^ 64 - 1 - n

-- `historyKey`
unfoldable pub history_key : Bytes → ℕ → ℕ → Bytes
unfolding history_prefix uint64_to_bytes
history_key full_key block tx =
    (history_prefix full_key ++ uint64_to_bytes (complement block))
    ++ uint64_to_bytes (complement tx)

-- `indexKey`, under the letter i.
unfoldable pub index_key : ℕ → Bytes → Bytes
unfolding uint64_to_bytes
index_key block hist_key = ((105 ∷ []) ++ uint64_to_bytes block) ++ hist_key

-- `parseIndexKey`: nothing for a key that is too short.
unfoldable pub parse_index_key : Bytes → Option (ℕ × Bytes)
unfolding big_endian_uint64
parse_index_key k =
    if leb (length k) (1 + 8) then none else elim (big_endian_uint64 (take 8 (drop 1 k))) [
      | none ↦ none
      | some block ↦ some (block, drop 9 k)
    ]

-- A state key is read off the front of a key and its suffix.
split_state : Bytes → Bytes × Bytes
split_state (p ∷ a ∷ b ∷ c ∷ d ∷ rest) =
    let n = a * 2 ^ 24 + b * 2 ^ 16 + c * 2 ^ 8 + d in (take n rest, drop n rest)
split_state bs = ([], [])

split_state-key_for_state :
    (prefix : ℕ) (full_key suffix : Bytes)
    → length full_key < 2 ^ 32
    → split_state (key_for_state prefix full_key ++ suffix) ≡ (full_key, suffix)
unfolding split_state key_for_state
split_state-key_for_state prefix full_key suffix h =
    let n = length full_key in
    let whole : n / 2 ^ 24 % 256 * 2 ^ 24
          + n / 2 ^ 16 % 256 * 2 ^ 16
          + n / 2 ^ 8 % 256 * 2 ^ 8
          + n % 256
        ≡ n =
      omega (arith, h) in
    rw whole (ap₂ (λ a b. (a, b)) (take-append full_key suffix) (drop-append full_key suffix))

big_endian_uint64-uint64_to_bytes :
    (n : ℕ) (rest : Bytes) → n < 2 ^ 64 → big_endian_uint64 (uint64_to_bytes n ++ rest) ≡ some n
unfolding big_endian_uint64 uint64_to_bytes
big_endian_uint64-uint64_to_bytes n rest h = ap some (omega arith)

-- The index key of a history key that is not empty gives back the block and the history key.
pub parse_index_key-index_key :
    (block : ℕ) (hist_key : Bytes)
    → block < 2 ^ 64
    → 0 < length hist_key
    → parse_index_key (index_key block hist_key) ≡ some (block, hist_key)
unfolding parse_index_key index_key uint64_to_bytes
parse_index_key-index_key block hist_key h nonempty =
    let short : leb (length (index_key block hist_key)) (1 + 8) ≡ false =
      ground (arith, nonempty) in
    rw (parse_index_key, short) (ap (λ b. some (b, hist_key)) (omega (arith, h)))

-- A number is told from its complement.
complement-injective : (n m : ℕ) → n < 2 ^ 64 → m < 2 ^ 64 → complement n ≡ complement m → n ≡ m
complement-injective n m h h' e = omega (arith, h, h', e)

history_key-parts :
    (full_key : Bytes) (block tx : ℕ)
    → history_key full_key block tx
      ≡ key_for_state 104 full_key
        ++ (uint64_to_bytes (complement block) ++ uint64_to_bytes (complement tx))
unfolding history_key history_prefix
history_key-parts full_key block tx =
    append_assoc (key_for_state 104 full_key) (uint64_to_bytes (complement block))
      (uint64_to_bytes (complement tx))

suffix_numbers :
    (block tx block' tx' : ℕ)
    → block < 2 ^ 64
    → tx < 2 ^ 64
    → block' < 2 ^ 64
    → tx' < 2 ^ 64
    → uint64_to_bytes (complement block) ++ uint64_to_bytes (complement tx)
      ≡ uint64_to_bytes (complement block') ++ uint64_to_bytes (complement tx')
    → (block ≡ block') × (tx ≡ tx')
unfolding uint64_to_bytes
suffix_numbers block tx block' tx' hb ht hb' ht' e =
    let read = big_endian_uint64-uint64_to_bytes in
    let b = complement block in
    let b' = complement block' in
    let t = complement tx in
    let t' = complement tx' in
    let first : some b ≡ some b' =
      sym (read b (uint64_to_bytes t) (omega arith))
      ∙ ap big_endian_uint64 e
      ∙ read b' (uint64_to_bytes t') (omega arith) in
    let second : some t ≡ some t' =
      sym (read t [] (omega arith))
      ∙ ap (λ bs. big_endian_uint64 (drop 8 bs)) e
      ∙ read t' [] (omega arith) in
    (
      complement-injective block block' hb hb' (ground (arith, first)),
      complement-injective tx tx' ht ht' (ground (arith, second)),
    )

-- Two history keys are equal only if they are for the same state key, block and transaction, where keys are
-- shorter than 2^32 bytes and numbers fit in 64 bits.
pub history_key-injective :
    (k k' : Bytes) (block block' tx tx' : ℕ)
    → length k < 2 ^ 32
    → length k' < 2 ^ 32
    → block < 2 ^ 64
    → block' < 2 ^ 64
    → tx < 2 ^ 64
    → tx' < 2 ^ 64
    → history_key k block tx ≡ history_key k' block' tx'
    → (k ≡ k') × (block ≡ block') × (tx ≡ tx')
history_key-injective k k' block block' tx tx' hk hk' hb hb' ht ht' e =
    let suffix = uint64_to_bytes (complement block) ++ uint64_to_bytes (complement tx) in
    let suffix' = uint64_to_bytes (complement block') ++ uint64_to_bytes (complement tx') in
    let both : (k, suffix) ≡ (k', suffix') =
      sym (split_state-key_for_state 104 k suffix hk)
      ∙ ap split_state (sym (history_key-parts k block tx) ∙ e ∙ history_key-parts k' block' tx')
      ∙ split_state-key_for_state 104 k' suffix' hk' in
    let (same_block, same_tx) =
      suffix_numbers block tx block' tx' hb ht hb' ht' (ap (λ (x : Bytes × Bytes). x.1) both) in
    (ap (λ (x : Bytes × Bytes). x.0) both, same_block, same_tx)
