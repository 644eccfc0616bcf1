-- ===== src/Execution/Codec.antt =====
-- endorser/execution/statedb.go, the helpers at its end: numbers as bytes, with the parts of the Go
-- library that they call.
use fabric_x_evm_lfx.Prelude.{
  ℕ, zero, suc, ◌+◌, ◌*◌, ◌/◌, ◌%◌, ◌^◌, ◌≤◌, ◌<◌, ◌≡◌, ap, ◌∙◌, inl, inr, Option, none, some, [],
  ◌∷◌, arith, ◌==◌, if◌then◌else◌, Bool-cases, nat_eq, Bytes, bytes_eq,
}
use fabric_x_evm_lfx.Execution.Eth.{Eth}

-- `big.Int.Bytes`: the big-endian digits, none for zero. A number has at most as many digits as it
-- counts, so the fuel is enough.
unfoldable pub digits_loop : ℕ → ℕ → Bytes → Bytes
digits_loop zero n acc = acc
digits_loop (suc fuel) n acc =
    let rest = digits_loop fuel (n / 256) ((n % 256) ∷ acc) in if n == 0 then acc else rest

unfoldable pub big_bytes : ℕ → Bytes
unfolding digits_loop
big_bytes n = digits_loop n n []

-- `big.Int.SetBytes`
unfoldable pub set_bytes : ℕ → Bytes → ℕ
set_bytes acc [] = acc
set_bytes acc (b ∷ bs) = set_bytes (acc * 256 + b) bs

unfoldable pub uint256_to_bytes : ℕ → Bytes
unfolding big_bytes
uint256_to_bytes u = big_bytes u

-- `val` is nil or empty when the account has no balance.
unfoldable pub bytes_to_uint256 : Eth → Option Bytes → ℕ
unfolding set_bytes
bytes_to_uint256 eth none = 0
bytes_to_uint256 eth (some []) = 0
bytes_to_uint256 eth (some (b ∷ bs)) = eth.from_big (set_bytes 0 (b ∷ bs))

-- `binary.BigEndian.PutUint64`
unfoldable pub uint64_to_bytes : ℕ → Bytes
uint64_to_bytes n =
    (n / 2 ^ 56 % 256)
    ∷ (n / 2 ^ 48 % 256)
    ∷ (n / 2 ^ 40 % 256)
    ∷ (n / 2 ^ 32 % 256)
    ∷ (n / 2 ^ 24 % 256)
    ∷ (n / 2 ^ 16 % 256)
    ∷ (n / 2 ^ 8 % 256)
    ∷ (n % 256)
    ∷ []

-- `binary.BigEndian.Uint64` reads the first eight bytes and panics if there are fewer.
unfoldable pub big_endian_uint64 : Bytes → Option ℕ
big_endian_uint64 (a ∷ b ∷ c ∷ d ∷ e ∷ f ∷ g ∷ h ∷ rest) =
    some
      (a * 2 ^ 56 + b * 2 ^ 48 + c * 2 ^ 40 + d * 2 ^ 32 + e * 2 ^ 24 + f * 2 ^ 16 + g * 2 ^ 8 + h)
big_endian_uint64 rest = none

unfoldable pub bytes_to_uint64 : Option Bytes → Option ℕ
unfolding big_endian_uint64
bytes_to_uint64 none = some 0
bytes_to_uint64 (some []) = some 0
bytes_to_uint64 (some (b ∷ bs)) = big_endian_uint64 (b ∷ bs)

pub uint64_roundtrip : (n : ℕ) → n < 2 ^ 64 → bytes_to_uint64 (some (uint64_to_bytes n)) ≡ some n
unfolding bytes_to_uint64 uint64_to_bytes
uint64_roundtrip n h = ap some (omega arith)

set_bytes-digits_loop :
    (fuel n : ℕ) (acc : Bytes) → n ≤ fuel → set_bytes 0 (digits_loop fuel n acc) ≡ set_bytes n acc
unfolding digits_loop
set_bytes-digits_loop zero n acc h = let e : n ≡ 0 = omega arith in rw e
set_bytes-digits_loop (suc fuel) n acc h = elim (Bool-cases (n == 0)) [
  | inl done ↦ let e : n ≡ 0 = ground arith in rw e
  | inr more ↦
      let whole : n / 256 * 256 + n % 256 ≡ n = omega arith in
      rw more (
        set_bytes-digits_loop fuel (n / 256) ((n % 256) ∷ acc) (ground arith)
        ∙ unfold set_bytes in ap (λ m. set_bytes m acc) whole)
]

pub set_bytes-big_bytes : (n : ℕ) → set_bytes 0 (big_bytes n) ≡ n
unfolding big_bytes set_bytes
set_bytes-big_bytes n = set_bytes-digits_loop n n [] (omega arith)
