-- ===== src/Storage/Revertible/Roundtrip.antt =====
-- endorser/storage/revertible_lightkvs.go: a revert to the height before a block undoes the block.
use fabric_x_evm_lfx.Prelude.{nat_eq, bytes_eq}
