-- ===== src/Tests/Disk.antt =====
-- endorser/storage/pebblekvs.go: a record and keys as bytes.
use fabric_x_evm_lfx.Prelude.{
  ℕ, ◌-◌, ◌^◌, ◌≡◌, refl, false, some, [], ◌∷◌, arith, ok, nat_eq, Bytes, bytes_eq,
}
use fabric_x_evm_lfx.Storage.PebbleRecord.{
  Record, encode_record, decode_record, decode_record-encode_record,
}
use fabric_x_evm_lfx.Storage.PebbleKeys.{history_key-injective}

abbrev sample_record : Record
sample_record = record {
  block_num = 300;
  tx_num = 1;
  version = 2 ^ 64 - 1;
  tx_id = 97 ∷ 98 ∷ [];
  is_delete = false;
  value = some [];
}

decode_record-encode_record_example : decode_record (encode_record sample_record) ≡ ok sample_record
decode_record-encode_record_example =
    decode_record-encode_record sample_record (omega arith) (omega arith) (omega arith)
      (omega arith) (omega arith)

abbrev key : Bytes
key = 1 ∷ []

abbrev block : ℕ
block = 5

abbrev tx : ℕ
tx = 2

history_key-injective_example : (key ≡ key) × (block ≡ block) × (tx ≡ tx)
history_key-injective_example =
    history_key-injective key key block block tx tx (omega arith) (omega arith) (omega arith)
      (omega arith) (omega arith) (omega arith) refl
