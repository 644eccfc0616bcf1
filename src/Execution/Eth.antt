-- ===== src/Execution/Eth.antt =====
-- What endorser/execution/statedb.go takes from go-ethereum and from uint256, as parameters with their
-- documented behaviour. Addresses and hashes are the bytes of their arrays.
use fabric_x_evm_lfx.Prelude.{
  ℕ, ◌+◌, ◌-◌, ◌%◌, ◌^◌, ◌≤◌, ◌<◌, ◌≡◌, length, replicate, nat_eq, Bytes, bytes_eq,
}

pub record Eth : Type 0 where
  -- `Address.Hex`, `Hash.Hex`
  pub addr_hex : Bytes → Bytes
  pub hash_hex : Bytes → Bytes
  -- `common.BytesToHash`, `crypto.Keccak256Hash`
  pub bytes_to_hash : Bytes → Bytes
  pub keccak256 : Bytes → Bytes
  -- `uint256.Int.Add`, `Sub`, and `FromBig` without its overflow flag
  pub u256_add : ℕ → ℕ → ℕ
  pub u256_sub : ℕ → ℕ → ℕ
  pub from_big : ℕ → ℕ

-- The zero value of `common.Hash`.
abbrev pub zero_hash : Bytes
zero_hash = replicate 32 0

-- A hash reads back from its bytes; the hexadecimal forms of 20-byte addresses and 32-byte hashes tell them
-- apart, and that of an address has 42 characters; additions and subtractions wrap.
pub record EthLaws (eth : Eth) : Type 0 where
  pub bytes_to_hash_lem : (h : Bytes) → length h ≡ 32 → eth.bytes_to_hash h ≡ h
  pub addr_hex-injective :
      (a b : Bytes) → length a ≡ 20 → length b ≡ 20 → eth.addr_hex a ≡ eth.addr_hex b → a ≡ b
  pub length-addr_hex : (a : Bytes) → length a ≡ 20 → length (eth.addr_hex a) ≡ 42
  pub hash_hex-injective :
      (a b : Bytes) → length a ≡ 32 → length b ≡ 32 → eth.hash_hex a ≡ eth.hash_hex b → a ≡ b
  pub u256_add_lem : (a b : ℕ) → eth.u256_add a b ≡ (a + b) % 2 ^ 256
  pub u256_sub_lem : (a b : ℕ) → b ≤ a → eth.u256_sub a b ≡ a - b
  pub from_big_lem : (n : ℕ) → n < 2 ^ 256 → eth.from_big n ≡ n
