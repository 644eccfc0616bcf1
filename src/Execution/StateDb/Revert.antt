-- ===== src/Execution/StateDb/Revert.antt =====
-- endorser/execution/statedb.go: `Snapshot`, `RevertToSnapshot`, and the read-write set of `Result`.
use fabric_x_evm_lfx.Prelude.{
  ℕ, ◌+◌, Option, none, some, List, [], ◌∷◌, ◌++◌, Map, insert, erase, length, take, drop, ◌==◌,
  if◌then◌else◌, nat_eq, Bytes, bytes_eq,
}
use fabric_x_evm_lfx.Storage.Data.{KvWrite}
use fabric_x_evm_lfx.Execution.AccessList.{delete_address, delete_slot}
use fabric_x_evm_lfx.Execution.StateDb.{
  KvRead, Revision, Entry, read, write, refund_change, self_destruct, new_contract,
  transient_change, access_list_address, access_list_slot, StateDb,
}
use fabric_x_evm_lfx.Execution.StateDb.Accounts.{put_transient}

-- `Snapshot`
unfoldable pub snapshot : StateDb → ℕ × StateDb
snapshot s = (
  s.next_revision_id,
  record s {
    next_revision_id = s.next_revision_id + 1;
    valid_revisions =
        s.valid_revisions
        ++ record {
          id = s.next_revision_id;
          journal_index = length s.journal;
          log_index = length s.logs;
        }
          ∷ [];
  },
)

-- What a revert does for one journal entry.
unfoldable pub undo : Entry → StateDb → StateDb
undo (refund_change prev) s = record s { refund = prev }
undo (self_destruct addr) s = record s { self_destructed = erase addr s.self_destructed }
undo (new_contract addr) s = record s { new_contracts = erase addr s.new_contracts }
undo (transient_change account key prev) s = record s {
  transient_storage = put_transient account key prev s.transient_storage;
}
undo (access_list_address addr) s = record s { access_list = delete_address s.access_list addr }
undo (access_list_slot addr slot) s = record s { access_list = delete_slot s.access_list addr slot }
undo (read r) s = s
undo (write w) s = s

-- The loop of `RevertToSnapshot`, from the last entry down.
unfoldable pub undo_all : List Entry → StateDb → StateDb
unfolding undo
undo_all [] s = s
undo_all (e ∷ es) s = undo e (undo_all es s)

-- The first revision with an id, and the revisions before it.
unfoldable pub find_revision : ℕ → List Revision → Option (Revision × List Revision)
find_revision revid [] = none
find_revision revid (r ∷ revisions) =
    let rest = find_revision revid revisions in
    if r.id == revid
    then some (r, [])
    else elim rest [ none ↦ none | some found ↦ some (found.0, r ∷ found.1) ]

-- `RevertToSnapshot`: an unknown id changes nothing.
unfoldable pub revert_to_snapshot : ℕ → StateDb → StateDb
unfolding undo_all find_revision
revert_to_snapshot revid s = elim (find_revision revid s.valid_revisions) [
  | none ↦ s
  | some (rev, before) ↦ record (undo_all (drop rev.journal_index s.journal) s) {
    journal = take rev.journal_index s.journal;
    write_idx = none;
    logs = take rev.log_index s.logs;
    valid_revisions = before;
  }
]

-- The loop of `Result`: the last read and the last write of each key.
unfoldable pub collect_entries :
    List Entry → Map Bytes KvRead → Map Bytes KvWrite → Map Bytes KvRead × Map Bytes KvWrite
collect_entries [] reads writes = (reads, writes)
collect_entries (read r ∷ journal) reads writes =
    collect_entries journal (insert r.key r reads) writes
collect_entries (write w ∷ journal) reads writes =
    collect_entries journal reads (insert w.key w writes)
collect_entries (_ ∷ journal) reads writes = collect_entries journal reads writes

-- `Result`; the order of the two lists is left open by Go's maps.
unfoldable pub result : StateDb → Map Bytes KvRead × Map Bytes KvWrite
unfolding collect_entries
result s = collect_entries s.journal [] []
