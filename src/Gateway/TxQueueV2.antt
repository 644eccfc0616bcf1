-- ===== src/Gateway/TxQueueV2.antt =====
-- gateway/core/txqueue_v2.go, txqueue_helpers.go: the queue that runs the transactions of a participant one
-- after the other. An entry stands for its pointer, the number under which the heap holds it. Each method
-- is one step under the mutex; a call of `Dequeue` that waits leaves the queue as it is. Which worker a
-- condition variable wakes is not modelled.
pub mod Links
pub mod Exclusion
pub mod Linking
pub mod Completion
pub mod Runs
pub mod Balance
pub mod Progress
use fabric_x_evm_lfx.Prelude.{
  ℕ, ◌+◌, Bool, true, false, not, ◌&&◌, Option, none, some, List, [], ◌∷◌, ◌++◌, Map, has, lookup,
  insert, erase, Outcome, ok, err, length, take, drop, elem, swap_remove, ltb, ◌==◌, if◌then◌else◌,
  nat_eq, Bytes, bytes_eq,
}
use fabric_x_evm_lfx.Gateway.Data.{
  Transaction, Block, QueueError, already_pending, Received, waits, closed, served, count_invalid,
}

-- What go-ethereum gives for a transaction; `sender` is `types.Sender` with the latest signer for its chain.
pub record TxView (T : Type 0) : Type 0 where
  pub hash : T → Bytes
  pub protected : T → Bool
  pub tx_type : T → ℕ
  pub sender : T → Option Bytes
  pub to : T → Option Bytes
  pub data_of : T → Bytes
  pub bytes_to_address : Bytes → Bytes
  pub bytes_to_hash : Bytes → Bytes

module _ {T : Type 0} (view : TxView T) where
  -- `senderForTx`; the type of a legacy transaction is 0.
  unfoldable pub sender_for_tx : T → Option Bytes
  sender_for_tx tx =
      if not (view.protected tx) && (view.tx_type tx == 0) then none else view.sender tx

  -- `recipientForTx`
  unfoldable pub recipient_for_tx : T → Option Bytes
  recipient_for_tx tx = elim (view.to tx) [
    | none ↦ none
    | some a ↦
        if ltb (length (view.data_of tx)) (4 + 32 + 32)
        then none
        else some (view.bytes_to_address (take 20 (drop (4 + 12) (view.data_of tx))))
  ]

  -- `participantsForTx`
  unfoldable pub participants_for_tx : T → List Bytes
  unfolding sender_for_tx recipient_for_tx
  participants_for_tx tx =
      let sender : List Bytes = elim (sender_for_tx tx) [ none ↦ [] | some a ↦ a ∷ [] ] in
      elim (recipient_for_tx tx) [
        | none ↦ sender
        | some a ↦ if elem a sender then sender else sender ++ a ∷ []
      ]

-- `state` of an entry.
pub data EntryState : Type 0 where
  ready : EntryState
  waiting : EntryState
  pending : EntryState

abbrev pub is_waiting : EntryState → Bool
is_waiting ready = false
is_waiting waiting = true
is_waiting pending = false

-- `txEntry`; the list element of an entry is found by its number.
pub record TxEntry (T : Type 0) : Type 0 where
  pub tx : T
  pub tx_hash : Bytes
  pub participants : List Bytes
  pub state : EntryState
  pub blocks : List ℕ
  pub is_blocked_by : List ℕ

abbrev pub Heap : Type 0 → Type 0
Heap T = Map ℕ (TxEntry T)

pub record TxQueueV2 (T : Type 0) : Type 0 where
  pub heap : Heap T
  pub next_id : ℕ
  pub ready_list : List ℕ
  pub waiting_list : List ℕ
  pub participant_map : Map Bytes (List ℕ)
  pub hash_map : Map Bytes ℕ
  pub pending_map : Map Bytes T
  pub done : Bool
  pub total : ℕ
  pub invalid : ℕ
  pub total_enq : ℕ
  pub conflict_enq : ℕ

-- `NewTxQueueV2`
unfoldable pub new_tx_queue_v2 : {T : Type 0} → TxQueueV2 T
new_tx_queue_v2 = record {
  heap = [];
  next_id = 0;
  ready_list = [];
  waiting_list = [];
  participant_map = [];
  hash_map = [];
  pending_map = [];
  done = false;
  total = 0;
  invalid = 0;
  total_enq = 0;
  conflict_enq = 0;
}

-- `list.Remove` of the element of an entry, if it is in the list.
unfoldable pub without : ℕ → List ℕ → List ℕ
without i [] = []
without i (j ∷ js) = let rest = without i js in if j == i then js else j ∷ rest

-- The entries that a participant is in.
unfoldable pub at_participant : Bytes → Map Bytes (List ℕ) → List ℕ
at_participant p m = elim (lookup p m) [ none ↦ [] | some is ↦ is ]

-- The entries that share a participant, one participant after the other.
unfoldable pub sharing : Map Bytes (List ℕ) → List Bytes → List ℕ
unfolding at_participant
sharing m [] = []
sharing m (p ∷ ps) = at_participant p m ++ sharing m ps

-- The last loop of `Enqueue`.
unfoldable pub file : ℕ → List Bytes → Map Bytes (List ℕ) → Map Bytes (List ℕ)
unfolding at_participant
file i [] m = m
file i (p ∷ ps) m = file i ps (insert p (at_participant p m ++ i ∷ []) m)

-- The last loop of `completeUnlocked`, with `removeFromSlice`.
unfoldable pub unfile : ℕ → List Bytes → Map Bytes (List ℕ) → Map Bytes (List ℕ)
unfile i [] m = m
unfile i (p ∷ ps) m = elim (lookup p m) [
  | none ↦ unfile i ps m
  | some is ↦
      let rest = swap_remove is i in
      unfile i ps (if length rest == 0 then erase p m else insert p rest m)
]

module _ {T : Type 0} where
  -- A write through a pointer.
  unfoldable pub update : ℕ → (TxEntry T → TxEntry T) → Heap T → Heap T
  update i f heap = elim (lookup i heap) [ none ↦ heap | some x ↦ insert i (f x) heap ]

  unfoldable pub waits_at : ℕ → Heap T → Bool
  waits_at i heap = elim (lookup i heap) [ none ↦ false | some x ↦ is_waiting x.state ]

  unfoldable pub hash_at : ℕ → Heap T → Option Bytes
  hash_at i heap = elim (lookup i heap) [ none ↦ none | some x ↦ some x.tx_hash ]

  unfoldable pub blockers : ℕ → Heap T → List ℕ
  blockers i heap = elim (lookup i heap) [ none ↦ [] | some x ↦ x.is_blocked_by ]

  unfoldable pub blocked : ℕ → Heap T → List ℕ
  blocked i heap = elim (lookup i heap) [ none ↦ [] | some x ↦ x.blocks ]

  unfoldable pub participants_at : ℕ → Heap T → List Bytes
  participants_at i heap = elim (lookup i heap) [ none ↦ [] | some x ↦ x.participants ]

  -- `conflictingTxs`: a set.
  unfoldable pub conflicting : Heap T → List ℕ → List ℕ
  unfolding waits_at
  conflicting heap [] = []
  conflicting heap (i ∷ is) =
      let rest = conflicting heap is in
      if not (waits_at i heap) && not (elem i rest) then i ∷ rest else rest

  -- `waitingTxsToBlock`
  unfoldable pub waiting_to_block : Heap T → List ℕ → List ℕ
  unfolding waits_at
  waiting_to_block heap [] = []
  waiting_to_block heap (i ∷ is) =
      let rest = waiting_to_block heap is in if waits_at i heap then i ∷ rest else rest

  -- The two links of a dependency: `waiter` waits for `blocker`.
  unfoldable pub link : ℕ → ℕ → Heap T → Heap T
  unfolding update
  link waiter blocker heap =
      update blocker (λ x. record x { blocks = x.blocks ++ waiter ∷ [] })
        (update waiter (λ x. record x { is_blocked_by = x.is_blocked_by ++ blocker ∷ [] }) heap)

  -- The links to the transactions in flight.
  unfoldable pub wait_for : ℕ → List ℕ → Heap T → Heap T
  unfolding link
  wait_for i [] heap = heap
  wait_for i (c ∷ cs) heap = wait_for i cs (link i c heap)

  -- The links from the waiting transactions.
  unfoldable pub make_wait : ℕ → List ℕ → Heap T → Heap T
  unfolding link
  make_wait i [] heap = heap
  make_wait i (w ∷ ws) heap = make_wait i ws (link w i heap)

  -- One round of the loop of `completeUnlocked` over what an entry blocks; every pointer has an entry.
  unfoldable pub unblock : ℕ → ℕ → TxQueueV2 T → TxQueueV2 T
  unfolding without
  unblock i b q = elim (lookup b q.heap) [
    | none ↦ q
    | some x ↦
        let rest = swap_remove x.is_blocked_by i in
        if length rest == 0
        then record q {
          heap = insert b (record x { is_blocked_by = rest; state = ready }) q.heap;
          waiting_list = without b q.waiting_list;
          ready_list = q.ready_list ++ b ∷ [];
        }
        else record q { heap = insert b (record x { is_blocked_by = rest }) q.heap }
  ]

  -- That loop.
  unfoldable pub release_blocked : ℕ → List ℕ → TxQueueV2 T → TxQueueV2 T
  unfolding unblock
  release_blocked i [] q = q
  release_blocked i (b ∷ bs) q = release_blocked i bs (unblock i b q)

  -- `completeUnlocked`
  unfoldable pub complete : Bytes → TxQueueV2 T → TxQueueV2 T
  unfolding release_blocked blocked participants_at unfile
  complete h q₀ =
      let q = record q₀ { pending_map = erase h q₀.pending_map } in
      elim (lookup h q.hash_map) [
        | none ↦ q
        | some i ↦
            let q' = release_blocked i (blocked i q.heap) q in
            record q' {
              hash_map = erase h q'.hash_map;
              participant_map = unfile i (participants_at i q'.heap) q'.participant_map;
            }
      ]

  -- `Dequeue`
  unfoldable pub dequeue : TxQueueV2 T → Received T × TxQueueV2 T
  unfolding update
  dequeue q = elim q.ready_list [
    | [] ↦ (if q.done then closed else waits, q)
    | i ∷ rest ↦ elim (lookup i q.heap) [
      | none ↦ (waits, q)
      | some x ↦ (
        served x.tx,
        record q {
          ready_list = rest;
          heap = update i (λ x. record x { state = pending }) q.heap;
          pending_map = insert x.tx_hash x.tx q.pending_map;
        },
      )
    ]
  ]

  -- `InFlight`
  unfoldable pub in_flight : TxQueueV2 T → ℕ
  in_flight q = length q.hash_map

  -- `IsPending`
  unfoldable pub is_pending : Bytes → TxQueueV2 T → Option T
  is_pending h q = elim (lookup h q.pending_map) [
    | some tx ↦ some tx
    | none ↦ elim (lookup h q.hash_map) [
      | none ↦ none
      | some i ↦ elim (lookup i q.heap) [ none ↦ none | some x ↦ some x.tx ]
    ]
  ]

  -- `Close`
  unfoldable pub close : TxQueueV2 T → TxQueueV2 T
  close q = record q { done = true }

  -- `Stats`
  unfoldable pub stats : TxQueueV2 T → ℕ × ℕ × ℕ × ℕ
  stats q = (q.total, q.invalid, q.total_enq, q.conflict_enq)

module _ {T : Type 0} (view : TxView T) where
  -- The entry that `Enqueue` makes for a transaction.
  unfoldable pub new_entry : T → Bool → TxEntry T
  unfolding participants_for_tx
  new_entry tx conflict = record {
    tx = tx;
    tx_hash = view.hash tx;
    participants = participants_for_tx view tx;
    state = if conflict then waiting else ready;
    blocks = [];
    is_blocked_by = [];
  }

  -- `Enqueue` of a transaction that is not tracked yet.
  unfoldable pub admitted : T → TxQueueV2 T → TxQueueV2 T
  unfolding participants_for_tx sharing conflicting waiting_to_block wait_for make_wait file
      new_entry
  admitted tx q =
      let participants = participants_for_tx view tx in
      let i = q.next_id in
      let shared = sharing q.participant_map participants in
      let conflicts = conflicting q.heap shared in
      let conflict = ltb 0 (length conflicts) in
      let heap = insert i (new_entry tx conflict) q.heap in
      record q {
        heap = make_wait i (waiting_to_block q.heap shared) (wait_for i conflicts heap);
        next_id = i + 1;
        ready_list = if conflict then q.ready_list else q.ready_list ++ i ∷ [];
        waiting_list = if conflict then q.waiting_list ++ i ∷ [] else q.waiting_list;
        participant_map = file i participants q.participant_map;
        hash_map = insert (view.hash tx) i q.hash_map;
        total_enq = q.total_enq + 1;
        conflict_enq = if conflict then q.conflict_enq + 1 else q.conflict_enq;
      }

  -- `Enqueue`
  unfoldable pub enqueue : T → TxQueueV2 T → Outcome QueueError (TxQueueV2 T)
  unfolding admitted
  enqueue tx q = if has (view.hash tx) q.hash_map then err already_pending else ok (admitted tx q)

  -- The loop of `Handle` over a block.
  unfoldable pub handle_transactions : List Transaction → TxQueueV2 T → TxQueueV2 T
  unfolding complete
  handle_transactions [] q = q
  handle_transactions (t ∷ txs) q = handle_transactions txs (
      complete (view.bytes_to_hash t.tx_hash)
        (record q { total = q.total + 1; invalid = count_invalid q.invalid t }))

  -- `Handle`
  unfoldable pub handle : Block → TxQueueV2 T → TxQueueV2 T
  unfolding handle_transactions
  handle b q = handle_transactions b.transactions q
