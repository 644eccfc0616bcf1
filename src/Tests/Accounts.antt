-- ===== src/Tests/Accounts.antt =====
-- endorser/execution/statedb.go on an empty store and one account.
use fabric_x_evm_lfx.Prelude.{
  ◌+◌, ◌-◌, ◌%◌, ◌^◌, ◌≡◌, refl, ap, true, false, ◌&&◌, ◌||◌, none, some, List, [], ◌∷◌, ◌++◌,
  arith, lookup, ok, drop, replicate, length-append, if◌then◌else◌, nat_eq, Bytes, bytes_beq,
  bytes_eq,
}
use fabric_x_evm_lfx.Execution.Eth.{Eth, EthLaws, zero_hash}
use fabric_x_evm_lfx.Execution.Codec.{
  uint64_to_bytes, bytes_to_uint64, bytes_to_uint256, uint64_roundtrip,
}
use fabric_x_evm_lfx.Execution.AccessList.{
  AccessList, new_access_list, add_slot, delete_slot, contains,
}
use fabric_x_evm_lfx.Execution.AccessList.Laws.{
  contains-add_slot, contains-delete_slot, add_slot-IsSeparate,
}
use fabric_x_evm_lfx.Execution.StateDb.{
  ◌>>=◌, pure, get_state, StateDb, get_state_from_journal, current_index, put_state,
}
use fabric_x_evm_lfx.Execution.StateDb.Index.{IsIndexed, latest, get_state_from_journal-latest}
use fabric_x_evm_lfx.Execution.StateDb.Extends.{IsSound}
use fabric_x_evm_lfx.Execution.StateDb.View.{view}
use fabric_x_evm_lfx.Execution.StateDb.Preparing.{new_access_list-IsSeparate}
use fabric_x_evm_lfx.Execution.StateDb.Revert.{snapshot, revert_to_snapshot}
use fabric_x_evm_lfx.Execution.StateDb.Runs.{Op, exec_all, revert_to_snapshot-exec_all}
use fabric_x_evm_lfx.Execution.StateDb.Accounts.{
  ◌>>◌, modify, get_balance, add_balance, get_nonce, set_nonce, get_storage, set_storage,
  self_destruct_account, has_self_destructed,
}
use fabric_x_evm_lfx.Execution.StateDb.Destruction.{revert_to_snapshot-destroyed_twice}
use fabric_x_evm_lfx.Execution.StateDb.Reads.{
  get_nonce-set_nonce, get_balance-add_balance, get_storage-set_storage,
}

-- Hashes stand for themselves, addresses after 22 fill bytes.
abbrev eth : Eth
eth = record {
  addr_hex = λ a. replicate 22 0 ++ a;
  hash_hex = λ h. h;
  bytes_to_hash = λ h. h;
  keccak256 = λ b. zero_hash;
  u256_add = λ a b. (a + b) % 2 ^ 256;
  u256_sub = λ a b. a - b;
  from_big = λ n. n;
}

eth-EthLaws : EthLaws eth
eth-EthLaws = record {
  bytes_to_hash_lem = λ h l. refl;
  addr_hex-injective = λ a b la lb e. ap (drop 22) e;
  length-addr_hex = λ a l. omega (arith, length-append (replicate 22 0) a);
  hash_hex-injective = λ a b la lb e. e;
  u256_add_lem = λ a b. refl;
  u256_sub_lem = λ a b l. refl;
  from_big_lem = λ n l. refl;
}

abbrev account : Bytes
account = replicate 20 7

abbrev slot : Bytes
slot = replicate 32 1

abbrev word : Bytes
word = replicate 32 2

abbrev fresh : StateDb
fresh = record {
  write_idx = none;
  namespace = b'n' ∷ [];
  store = λ namespace key. ok none;
  logs = [];
  monotonic_versions = true;
  refund = 0;
  self_destructed = [];
  new_contracts = [];
  access_list = new_access_list;
  transient_storage = [];
  journal = [];
  valid_revisions = [];
  next_revision_id = 0;
}

fresh-IsSound : IsSound fresh
fresh-IsSound = record { indexed = tt; separate = new_access_list-IsSeparate; ids = tt }

get_nonce-set_nonce_example : (get_nonce eth account (set_nonce eth account 300 fresh)).0 ≡ ok 300
get_nonce-set_nonce_example = get_nonce-set_nonce eth eth-EthLaws account 300 fresh tt (omega arith)

get_balance-add_balance_example :
    ((get_balance eth account fresh).0 ≡ ok 0)
    × ((get_balance eth account (add_balance eth account 5 fresh).1).0 ≡ ok ((0 + 5) % 2 ^ 256))
unfolding add_balance ◌>>=◌ get_balance get_state lookup ◌>>◌ modify bytes_to_uint256
get_balance-add_balance_example =
    get_balance-add_balance eth eth-EthLaws account 5 0 fresh fresh-IsSound (λ e. omega arith) refl

get_storage-set_storage_example :
    (get_storage eth account slot (set_storage eth account slot word fresh).1).0 ≡ ok word
unfolding set_storage ◌>>=◌ get_state_from_journal lookup ◌>>◌ modify pure
get_storage-set_storage_example =
    get_storage-set_storage eth eth-EthLaws account slot word account slot zero_hash fresh tt refl
      refl refl refl refl refl

-- A write of the code, after one of the balance.
abbrev written : StateDb
unfolding put_state
written = put_state (b'c' ∷ []) (9 ∷ []) (put_state (b'b' ∷ []) (8 ∷ []) fresh)

get_state_from_journal-latest_example :
    (get_state_from_journal (b'b' ∷ []) written ≡ (
      ok (latest (b'b' ∷ []) written.journal),
      record written { write_idx = some (current_index written) },
    ))
    × IsIndexed (record written { write_idx = some (current_index written) })
unfolding written put_state
get_state_from_journal-latest_example = get_state_from_journal-latest written (b'b' ∷ []) tt

abbrev calls : List Op
calls = Op.self_destruct account ∷ Op.add_refund 3 ∷ Op.take_snapshot ∷ Op.revert_to 1 ∷ []

revert_to_snapshot-exec_all_example :
    let t = revert_to_snapshot (snapshot fresh).0 (exec_all eth calls (snapshot fresh).1) in
    (view t ≡ view fresh) × (t.journal ≡ []) × (t.logs ≡ []) × (t.valid_revisions ≡ []) × IsSound t
unfolding snapshot lookup
revert_to_snapshot-exec_all_example =
    revert_to_snapshot-exec_all eth fresh calls fresh-IsSound (refl, (tt, (tt, (omega arith, tt))))

abbrev one_slot : AccessList
one_slot = add_slot new_access_list account slot

contains-add_slot_example : contains (add_slot one_slot account word) account slot ≡ (
    if bytes_beq account account
    then (true, bytes_beq word slot || (contains one_slot account slot).1)
    else contains one_slot account slot)
contains-add_slot_example =
    contains-add_slot one_slot account word account slot
      (add_slot-IsSeparate new_access_list account slot new_access_list-IsSeparate)

contains-delete_slot_example : contains (delete_slot one_slot account slot) account slot ≡ (
    if bytes_beq account account && bytes_beq slot slot
    then ((contains one_slot account slot).0, false)
    else contains one_slot account slot)
contains-delete_slot_example =
    contains-delete_slot one_slot account slot account slot
      (add_slot-IsSeparate new_access_list account slot new_access_list-IsSeparate)

uint64_roundtrip_example : bytes_to_uint64 (some (uint64_to_bytes 300)) ≡ some 300
uint64_roundtrip_example = uint64_roundtrip 300 (omega arith)

-- The account was made by this transaction and destroyed.
abbrev destroyed : StateDb
destroyed = record fresh {
  self_destructed = (account, tt) ∷ [];
  new_contracts = (account, tt) ∷ [];
}

destroyed-IsSound : IsSound destroyed
destroyed-IsSound = record { indexed = tt; separate = new_access_list-IsSeparate; ids = tt }

revert_to_snapshot-destroyed_twice_example :
    has_self_destructed account (
      revert_to_snapshot
        (snapshot destroyed).0
        (self_destruct_account eth account (snapshot destroyed).1).1)
    ≡ false
unfolding lookup snapshot get_balance ◌>>=◌ get_state bytes_to_uint256
revert_to_snapshot-destroyed_twice_example =
    revert_to_snapshot-destroyed_twice eth account 0 destroyed destroyed-IsSound refl refl refl
