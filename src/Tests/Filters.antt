-- ===== src/Tests/Filters.antt =====
-- gateway/api/filters on two logs.
use fabric_x_evm_lfx.Prelude.{◌↔◌, [], ◌∷◌, none, some}
use fabric_x_evm_lfx.Gateway.Filters.{pos, FilterCriteria, ChainLog, match_logs}
use fabric_x_evm_lfx.Gateway.Filters.Match.{IsIn, Matches, match_logs_iff}

abbrev early : ChainLog
early = record { address = 7 ∷ []; topics = (1 ∷ []) ∷ []; block_number = 3 }

abbrev late : ChainLog
late = record { address = 8 ∷ []; topics = (1 ∷ []) ∷ (2 ∷ []) ∷ []; block_number = 9 }

-- From block 5, of the account 8, with any first topic and the second topic 2.
abbrev criteria : FilterCriteria
criteria = record {
  block_hash = none;
  from_block = some (pos 5);
  to_block = none;
  addresses = (8 ∷ []) ∷ [];
  topics = [] ∷ ((2 ∷ []) ∷ []) ∷ [];
}

match_logs_iff_example :
    IsIn late (match_logs (early ∷ late ∷ []) criteria)
    ↔ (IsIn late (early ∷ late ∷ []) × Matches criteria late)
match_logs_iff_example = match_logs_iff (early ∷ late ∷ []) criteria late
