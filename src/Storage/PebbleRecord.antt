-- ===== src/Storage/PebbleRecord.antt =====
-- endorser/storage/pebblekvs.go: the bytes of a record and the keys of the disk store, with the parts of
-- `encoding/binary` that they call.
use fabric_x_evm_lfx.Prelude.{
  ℕ, zero, suc, ◌+◌, ◌-◌, ◌*◌, ◌/◌, ◌%◌, ◌^◌, ◌≤◌, ◌<◌, ◌≡◌, refl, sym, ap, ◌∙◌, inl, inr, Bool,
  true, false, not, ◌&&◌, Option, none, some, [], ◌∷◌, ◌++◌, append-nil, append_assoc, arith,
  Outcome, ok, err, ◌>>=◌, length, take, drop, length-append, take-append, drop-append, ltb, leb,
  ◌==◌, if◌then◌else◌, Bool-cases, nat_eq, Bytes, bytes_eq,
}

-- `binary.AppendUvarint`: seven bits a byte, the lowest first. A number has at most as many digits as it
-- counts, so the number is fuel enough.
unfoldable pub uvarint_loop : ℕ → ℕ → Bytes
uvarint_loop zero n = n ∷ []
uvarint_loop (suc fuel) n =
    let rest = uvarint_loop fuel (n / 128) in if ltb n 128 then n ∷ [] else (n % 128 + 128) ∷ rest

unfoldable pub append_uvarint : Bytes → ℕ → Bytes
unfolding uvarint_loop
append_uvarint buf n = buf ++ uvarint_loop n n

-- `binary.Uvarint` with at most as many bytes as the count: the number and what follows it, or nothing
-- where the bytes end or the number has more than 64 bits.
unfoldable pub read_uvarint : ℕ → Bytes → Option (ℕ × Bytes)
read_uvarint zero bs = none
read_uvarint (suc k) [] = none
read_uvarint (suc k) (b ∷ bs) =
    let rest = read_uvarint k bs in
    if ltb b 128
    then (if (k == 0) && ltb 1 b then none else some (b, bs))
    else elim rest [ none ↦ none | some (v, left) ↦ some (b - 128 + 128 * v, left) ]

-- `binary.Uvarint`, at most ten bytes.
unfoldable pub uvarint : Bytes → Option (ℕ × Bytes)
unfolding read_uvarint
uvarint bs = read_uvarint 10 bs

-- `record`; a value is nil or bytes.
pub record Record : Type 0 where
  pub block_num : ℕ
  pub tx_num : ℕ
  pub version : ℕ
  pub tx_id : Bytes
  pub is_delete : Bool
  pub value : Option Bytes

pub data DecodeError : Type 0 where
  empty_value : DecodeError
  bad_block_num : DecodeError
  bad_tx_num : DecodeError
  bad_version : DecodeError
  bad_tx_id_length : DecodeError
  tx_id_overruns : DecodeError
  bad_value_length : DecodeError
  value_overruns : DecodeError
  -- A slice whose end lies before its start.
  panics : DecodeError

unfoldable pub flags_of : Record → ℕ
flags_of r = (if r.is_delete then 1 else 0) + elim r.value [ none ↦ 0 | some v ↦ 2 ]

-- `encodeRecord`
unfoldable pub encode_record : Record → Bytes
unfolding append_uvarint flags_of
encode_record r =
    let buf =
      append_uvarint (append_uvarint (append_uvarint (flags_of r ∷ []) r.block_num) r.tx_num)
        r.version in
    let buf' = append_uvarint buf (length r.tx_id) ++ r.tx_id in
    elim r.value [ none ↦ buf' | some v ↦ append_uvarint buf' (length v) ++ v ]

-- A slice of `n` bytes at the position that `left` begins at, in `size` bytes; `n` is converted to an `int`,
-- and the sum with the position may wrap below the position.
unfoldable pub slice_at : DecodeError → ℕ → ℕ → Bytes → Outcome DecodeError (Bytes × Bytes)
slice_at overruns size n left =
    if leb n (length left)
    then ok (take n left, drop n left)
    else if ltb (size - length left + n) (2 ^ 63)
    then err overruns
    else err panics

unfoldable pub read_number : DecodeError → Bytes → Outcome DecodeError (ℕ × Bytes)
unfolding uvarint
read_number bad bs = elim (uvarint bs) [ none ↦ err bad | some r ↦ ok r ]

-- The value of a record, if the flags say that it has one.
unfoldable pub read_value : ℕ → ℕ → Bytes → Outcome DecodeError (Option Bytes)
unfolding read_number slice_at
read_value size flags left = if flags / 2 % 2 == 0 then ok none else do
  (n, left') ← read_number bad_value_length left
  (value, rest) ← slice_at value_overruns size n left'
  ok (some value)

-- `decodeRecord`
unfoldable pub decode_record : Bytes → Outcome DecodeError Record
unfolding read_number slice_at read_value
decode_record [] = err empty_value
decode_record (flags ∷ left₀) =
    let size = length left₀ + 1 in
    do
      (block_num, left₁) ← read_number bad_block_num left₀
      (tx_num, left₂) ← read_number bad_tx_num left₁
      (version, left₃) ← read_number bad_version left₂
      (n, left₄) ← read_number bad_tx_id_length left₃
      (tx_id, left₅) ← slice_at tx_id_overruns size n left₄
      value ← read_value size flags left₅
      ok (record {
        block_num = block_num;
        tx_num = tx_num;
        version = version;
        tx_id = tx_id;
        is_delete = not (flags % 2 == 0);
        value = value;
      })

-- The numbers that fit in the bytes that may still be read.
abbrev cap : ℕ → ℕ
cap zero = 2
cap (suc k) = 128 * cap k

read_uvarint-uvarint_loop :
    (k fuel n : ℕ) (rest : Bytes)
    → n ≤ fuel
    → n < cap k
    → read_uvarint (suc k) (uvarint_loop fuel n ++ rest) ≡ some (n, rest)
unfolding read_uvarint uvarint_loop
read_uvarint-uvarint_loop k zero n rest h c = ground (arith, h, c)
read_uvarint-uvarint_loop zero (suc fuel) n rest h c = ground (arith, h, c)
read_uvarint-uvarint_loop (suc k) (suc fuel) n rest h c = elim (Bool-cases (ltb n 128)) [
  | inl small ↦ ground (arith, small)
  | inr large ↦
      let ih =
        read_uvarint-uvarint_loop k fuel (n / 128) rest (ground (arith, h)) (omega (arith, c)) in
      ground (arith, large, ih)
]

pub uvarint-uvarint_loop :
    (n : ℕ) (rest : Bytes) → n < 2 ^ 64 → uvarint (uvarint_loop n n ++ rest) ≡ some (n, rest)
unfolding uvarint
uvarint-uvarint_loop n rest h =
    read_uvarint-uvarint_loop 9 n n rest (omega arith) (omega (arith, h))

read_number-uvarint_loop :
    (bad : DecodeError) (n : ℕ) (rest : Bytes)
    → n < 2 ^ 64
    → read_number bad (uvarint_loop n n ++ rest) ≡ ok (n, rest)
unfolding read_number
read_number-uvarint_loop bad n rest h = ground (arith, uvarint-uvarint_loop n rest h)

slice_at-append :
    (overruns : DecodeError) (size : ℕ) (xs rest : Bytes)
    → slice_at overruns size (length xs) (xs ++ rest) ≡ ok (xs, rest)
unfolding slice_at
slice_at-append overruns size xs rest =
    ground (arith, length-append xs rest, take-append xs rest, drop-append xs rest)

-- What follows the transaction's id.
abbrev tail_of : Option Bytes → Bytes
tail_of value = elim value [ none ↦ [] | some v ↦ uvarint_loop (length v) (length v) ++ v ]

encode_record-parts :
    (r : Record)
    → encode_record r
      ≡ flags_of r
        ∷ (uvarint_loop r.block_num r.block_num
            ++ (uvarint_loop r.tx_num r.tx_num
                ++ (uvarint_loop r.version r.version
                    ++ (uvarint_loop (length r.tx_id) (length r.tx_id)
                        ++ (r.tx_id ++ tail_of r.value)))))
unfolding encode_record append_uvarint
encode_record-parts r = by_value r.value
  where
    a : Bytes
    a = uvarint_loop r.block_num r.block_num

    b : Bytes
    b = uvarint_loop r.tx_num r.tx_num

    c : Bytes
    c = uvarint_loop r.version r.version

    d : Bytes
    d = uvarint_loop (length r.tx_id) (length r.tx_id)

    by_value :
        (value : Option Bytes)
        → (elim value [
          | none ↦ ((((flags_of r ∷ a) ++ b) ++ c) ++ d) ++ r.tx_id
          | some v ↦
              ((((((flags_of r ∷ a) ++ b) ++ c) ++ d) ++ r.tx_id)
                ++ uvarint_loop (length v) (length v))
              ++ v
        ])
          ≡ flags_of r ∷ (a ++ (b ++ (c ++ (d ++ (r.tx_id ++ tail_of value)))))
    by_value none = simp (append_assoc, append-nil)
    by_value (some v) = simp append_assoc

slice_at-whole :
    (overruns : DecodeError) (size : ℕ) (xs : Bytes)
    → slice_at overruns size (length xs) xs ≡ ok (xs, [])
slice_at-whole overruns size xs =
    ap (slice_at overruns size (length xs)) (sym (append-nil xs))
    ∙ slice_at-append overruns size xs []

-- A value is shorter than what 64 bits count.
abbrev pub IsShort : Option Bytes → Type 0
IsShort value = elim value [ none ↦ Unit {0} | some v ↦ length v < 2 ^ 64 ]

read_value-tail_of :
    (r : Record) (size : ℕ)
    → IsShort r.value
    → read_value size (flags_of r) (tail_of r.value) ≡ ok r.value
unfolding read_value flags_of
read_value-tail_of r size h = by_value r.is_delete r.value h
  where
    by_value :
        (is_delete : Bool) (value : Option Bytes)
        → IsShort value
        → read_value size
            ((if is_delete then 1 else 0) + elim value [ none ↦ 0 | some v ↦ 2 ])
            (tail_of value)
          ≡ ok value
    by_value true none h = refl
    by_value false none h = refl
    by_value true (some v) h =
        rw
          (
            read_number-uvarint_loop bad_value_length (length v) v h,
            slice_at-whole value_overruns size v,
          )
          refl
    by_value false (some v) h =
        rw
          (
            read_number-uvarint_loop bad_value_length (length v) v h,
            slice_at-whole value_overruns size v,
          )
          refl

is_delete_flag : (r : Record) → not (flags_of r % 2 == 0) ≡ r.is_delete
unfolding flags_of
is_delete_flag r = by_value r.is_delete r.value
  where
    by_value :
        (is_delete : Bool) (value : Option Bytes)
        → not (((if is_delete then 1 else 0) + elim value [ none ↦ 0 | some v ↦ 2 ]) % 2 == 0)
          ≡ is_delete
    by_value true none = refl
    by_value false none = refl
    by_value true (some v) = refl
    by_value false (some v) = refl

-- A record whose numbers and lengths fit in 64 bits is read back from its bytes as it was written, with a nil
-- value apart from an empty one.
pub decode_record-encode_record :
    (r : Record)
    → r.block_num < 2 ^ 64
    → r.tx_num < 2 ^ 64
    → r.version < 2 ^ 64
    → length r.tx_id < 2 ^ 64
    → IsShort r.value
    → decode_record (encode_record r) ≡ ok r
unfolding decode_record
decode_record-encode_record r hb ht hv hi hs =
    let rest₅ = r.tx_id ++ tail_of r.value in
    let rest₄ = uvarint_loop (length r.tx_id) (length r.tx_id) ++ rest₅ in
    let rest₃ = uvarint_loop r.version r.version ++ rest₄ in
    let rest₂ = uvarint_loop r.tx_num r.tx_num ++ rest₃ in
    let rest₁ = uvarint_loop r.block_num r.block_num ++ rest₂ in
    let size = length rest₁ + 1 in
    ap decode_record (encode_record-parts r)
    ∙ rw
        (
          decode_record,
          read_number-uvarint_loop bad_block_num r.block_num rest₂ hb,
          read_number-uvarint_loop bad_tx_num r.tx_num rest₃ ht,
          read_number-uvarint_loop bad_version r.version rest₄ hv,
          read_number-uvarint_loop bad_tx_id_length (length r.tx_id) rest₅ hi,
          slice_at-append tx_id_overruns size r.tx_id (tail_of r.value),
          read_value-tail_of r size hs,
          is_delete_flag r,
        )
        refl
