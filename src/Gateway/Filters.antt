-- ===== src/Gateway/Filters.antt =====
-- gateway/api/filters: the criteria of a log filter (criteria.go) and the match of logs (match.go).
pub mod Match
use fabric_x_evm_lfx.Prelude.{
  ℕ, ◌%◌, ◌^◌, Bool, true, false, not, ◌&&◌, ◌||◌, ◌==◌, ltb, leb, if◌then◌else◌, Option, none,
  some, List, [], ◌∷◌, length, Bytes, bytes_beq,
}

-- `big.Int`, over the native numbers.
pub data ℤ : Type 0 where
  pos : ℕ → ℤ
  negsuc : ℕ → ℤ

abbrev pub same_int : ℤ → ℤ → Bool
same_int (pos m) (pos n) = m == n
same_int (negsuc m) (negsuc n) = m == n
same_int _ _ = false

-- `gethfilters.FilterCriteria`; a nil pointer is `none`.
pub record FilterCriteria : Type 0 where
  pub block_hash : Option Bytes
  pub from_block : Option ℤ
  pub to_block : Option ℤ
  pub addresses : List Bytes
  pub topics : List (List Bytes)

-- `domain.LogFilter`
pub record LogFilter : Type 0 where
  pub block_hash : Option Bytes
  pub from_block : Option ℕ
  pub to_block : Option ℕ
  pub addresses : List Bytes
  pub topics : List (List Bytes)

-- What the match reads of a `types.Log`.
pub record ChainLog : Type 0 where
  pub address : Bytes
  pub topics : List Bytes
  pub block_number : ℕ

-- `earliest` is `rpc.EarliestBlockNumber`.
module _ (earliest : ℤ) where
  -- `resolveFromBlock`
  unfoldable pub resolve_from_block : Option ℤ → ℕ → Option ℕ
  resolve_from_block none head = some head
  resolve_from_block (some (pos n)) head = some (n % 2 ^ 64)
  resolve_from_block (some (negsuc n)) head =
      if same_int (negsuc n) earliest then some 0 else some head

  -- `resolveToBlock`
  unfoldable pub resolve_to_block : Option ℤ → Option ℕ
  resolve_to_block none = none
  resolve_to_block (some (pos n)) = if same_int (pos n) earliest then some 0 else some (n % 2 ^ 64)
  resolve_to_block (some (negsuc n)) = if same_int (negsuc n) earliest then some 0 else none

  -- `CriteriaToLogFilter`
  unfoldable pub criteria_to_log_filter : FilterCriteria → ℕ → LogFilter
  unfolding resolve_from_block resolve_to_block
  criteria_to_log_filter crit head = elim crit.block_hash [
    | some hash ↦ record {
      block_hash = some hash;
      from_block = none;
      to_block = none;
      addresses = crit.addresses;
      topics = crit.topics;
    }
    | none ↦ record {
      block_hash = none;
      from_block = resolve_from_block crit.from_block head;
      to_block = resolve_to_block crit.to_block;
      addresses = crit.addresses;
      topics = crit.topics;
    }
  ]

-- `slices.Contains`
unfoldable pub contains_bytes : List Bytes → Bytes → Bool
contains_bytes [] x = false
contains_bytes (y ∷ ys) x = bytes_beq y x || contains_bytes ys x

-- The loop over the topics; the test of the lengths keeps the index in range.
unfoldable pub check_topics : List (List Bytes) → List Bytes → Bool
unfolding contains_bytes
check_topics [] ts = true
check_topics (sub ∷ topics) [] = false
check_topics ([] ∷ topics) (t ∷ ts) = check_topics topics ts
check_topics ((s ∷ sub) ∷ topics) (t ∷ ts) = contains_bytes (s ∷ sub) t && check_topics topics ts

-- The tests of the two ends; a negative bound is no bound.
unfoldable pub check_from : Option ℤ → ℕ → Bool
check_from (some (pos n)) block_number = not (ltb block_number (n % 2 ^ 64))
check_from _ block_number = true

unfoldable pub check_to : Option ℤ → ℕ → Bool
check_to (some (pos n)) block_number = not (ltb (n % 2 ^ 64) block_number)
check_to _ block_number = true

unfoldable pub check_address : List Bytes → Bytes → Bool
unfolding contains_bytes
check_address [] address = true
check_address (a ∷ addresses) address = contains_bytes (a ∷ addresses) address

-- `check` of `filterLogs`
unfoldable pub check_log : Option ℤ → Option ℤ → List Bytes → List (List Bytes) → ChainLog → Bool
unfolding check_from check_to check_address check_topics
check_log from_block to_block addresses topics log =
    check_from from_block log.block_number
    && check_to to_block log.block_number
    && check_address addresses log.address
    && leb (length topics) (length log.topics)
    && check_topics topics log.topics

-- `filterLogs`
unfoldable pub filter_logs :
    List ChainLog → Option ℤ → Option ℤ → List Bytes → List (List Bytes) → List ChainLog
unfolding check_log
filter_logs [] from_block to_block addresses topics = []
filter_logs (log ∷ logs) from_block to_block addresses topics =
    let rest = filter_logs logs from_block to_block addresses topics in
    if check_log from_block to_block addresses topics log then log ∷ rest else rest

-- `matchLogs`
unfoldable pub match_logs : List ChainLog → FilterCriteria → List ChainLog
unfolding filter_logs
match_logs logs crit = filter_logs logs crit.from_block crit.to_block crit.addresses crit.topics
