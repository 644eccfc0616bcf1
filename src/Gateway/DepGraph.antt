-- ===== src/Gateway/DepGraph.antt =====
-- gateway/core/depgraph_queue.go: the queue that schedules on the committer's dependency manager. Each
-- method runs under the mutex, so it is one step on the state. The two waits of the source on the context
-- end the goroutines of a closed queue and are not steps of the state.
pub mod Content
pub mod Batches
pub mod Reuse
pub mod Release
use fabric_x_evm_lfx.Prelude.{
  [], ℕ, ◌+◌, ◌-◌, ◌*◌, ◌%◌, ◌^◌, Bool, true, false, ◌&&◌, ◌||◌, Option, none, some, List, ◌∷◌,
  ◌++◌, map, Map, has, lookup, insert, erase, Outcome, ok, err, length, get_elem?, set, take, drop,
  replicate, ltb, leb, ◌==◌, if◌then◌else◌, nat_eq, Bytes, bytes_beq, bytes_eq,
}
use fabric_x_evm_lfx.Gateway.Data.{
  Transaction, Block, QueueError, already_pending, queue_closed, queue_full, Received, waits,
  closed, served, count_invalid,
}
use fabric_x_evm_lfx.Gateway.DepGraph.Content.{Tx, read_write_keys}

-- `reuseWindow`
abbrev pub reuse_window : ℕ
reuse_window = 64

-- `positiveOrDefault`; a negative override behaves as zero does, but for its log line.
unfoldable pub positive_or_default : ℕ → ℕ → ℕ
positive_or_default override def = if override == 0 then def else override

-- `hashFromTxRefID`, over `hex.DecodeString` and `common.BytesToHash`.
unfoldable pub hash_from_tx_ref_id : (Bytes → Option Bytes) → (Bytes → Bytes) → Bytes → Option Bytes
hash_from_tx_ref_id decode bytes_to_hash id =
    if (length id == 2 + 2 * 32) && bytes_beq (take 2 id) (48 ∷ 120 ∷ [])
    then elim (decode (drop 2 id)) [ none ↦ none | some raw ↦ some (bytes_to_hash raw) ]
    else none

-- `trackedTx`, over the transactions, the manager's nodes and the SDK's endorsements: the node is nil
-- before the release, and the endorsement is there while `endorsed` holds.
pub record TrackedTx (T N E : Type 0) : Type 0 where
  pub tx : T
  pub node : Option N
  pub end : Option E
  pub read_seq : ℕ
  pub reads : List Bytes
  pub writes : List Bytes

-- `DepGraphQueue`; `admitted` and `validated` are the contents of the channels.
pub record DepGraphQueue (T N E : Type 0) : Type 0 where
  pub chan_size : ℕ
  pub admitted : List T
  pub validated : List (List N)
  pub ready : List T
  pub tracked : Map Bytes (TrackedTx T N E)
  pub done : Bool
  pub commit_seq : ℕ
  pub last_write : Map Bytes ℕ
  pub recent : List (List Bytes)
  pub total : ℕ
  pub invalid : ℕ

-- `q.lastWrite[k]`, zero for a key that is not there.
abbrev pub last_write_of : Bytes → Map Bytes ℕ → ℕ
last_write_of k m = elim (lookup k m) [ none ↦ 0 | some seq ↦ seq ]

-- `q.lastWrite[k] > t.readSeq` for one of the keys.
unfoldable pub any_newer : Map Bytes ℕ → ℕ → List Bytes → Bool
any_newer m read_seq [] = false
any_newer m read_seq (k ∷ reads) = ltb read_seq (last_write_of k m) || any_newer m read_seq reads

-- The entries of a block that leaves the window are deleted.
unfoldable pub forget_writes : ℕ → List Bytes → Map Bytes ℕ → Map Bytes ℕ
forget_writes old [] m = m
forget_writes old (k ∷ slot) m =
    forget_writes old slot (if last_write_of k m == old then erase k m else m)

-- The keys that one transaction wrote get the block's count.
unfoldable pub note_writes : ℕ → List Bytes → Map Bytes ℕ → Map Bytes ℕ
note_writes seq [] m = m
note_writes seq (k ∷ writes) m = note_writes seq writes (insert k seq m)

-- `q.recent[i]`; the array has `reuse_window` slots.
abbrev pub slot_at : ℕ → List (List Bytes) → List Bytes
slot_at i recent = elim (get_elem? recent i) [ none ↦ [] | some keys ↦ keys ]

module _ {T N E : Type 0} where
  -- The state that `NewDepGraphQueue` starts from, for the configured size of a channel.
  unfoldable pub new_dep_graph_queue : ℕ → DepGraphQueue T N E
  unfolding positive_or_default
  new_dep_graph_queue chan_size = record {
    chan_size = positive_or_default chan_size 1024;
    admitted = [];
    validated = [];
    ready = [];
    tracked = [];
    done = false;
    commit_seq = 0;
    last_write = [];
    recent = replicate reuse_window [];
    total = 0;
    invalid = 0;
  }

  -- `release`
  unfoldable pub release : List N → DepGraphQueue T N E → DepGraphQueue T N E
  release [] q = q
  release (n ∷ nodes) q = record q { validated = q.validated ++ (n ∷ nodes) ∷ [] }

  -- `drop`
  unfoldable pub drop_tx : Bytes → DepGraphQueue T N E → DepGraphQueue T N E
  drop_tx h q = record q { tracked = erase h q.tracked }

  -- `IsPending`
  unfoldable pub is_pending : Bytes → DepGraphQueue T N E → Option T
  is_pending h q = elim (lookup h q.tracked) [ none ↦ none | some t ↦ some t.tx ]

  -- `InFlight`
  unfoldable pub in_flight : DepGraphQueue T N E → ℕ
  in_flight q = length q.tracked

  -- `takeNodes`: the nodes to feed back, and the queue that has forgotten the hashes.
  unfoldable pub take_nodes : List Bytes → DepGraphQueue T N E → List N × DepGraphQueue T N E
  take_nodes [] q = ([], q)
  take_nodes (h ∷ hashes) q = elim (lookup h q.tracked) [
    | none ↦ take_nodes hashes q
    | some t ↦
        let (nodes, q') = take_nodes hashes (record q { tracked = erase h q.tracked }) in
        elim t.node [ none ↦ (nodes, q') | some n ↦ (n ∷ nodes, q') ]
  ]

  -- `Complete`
  unfoldable pub complete : Bytes → DepGraphQueue T N E → DepGraphQueue T N E
  unfolding take_nodes release
  complete h q = let (nodes, q') = take_nodes (h ∷ []) q in release nodes q'

  -- `keepEndorsement`
  unfoldable pub keep_endorsement : Bytes → ℕ → E → Tx → DepGraphQueue T N E → DepGraphQueue T N E
  unfolding read_write_keys
  keep_endorsement h seq end content q = elim (lookup h q.tracked) [
    | none ↦ q
    | some t ↦
        let (reads, writes) = read_write_keys content in
        let kept = record t { end = some end; read_seq = seq; reads = reads; writes = writes } in
        record q { tracked = insert h kept q.tracked }
  ]

  -- `ReusableEndorsement`; `none` reports false.
  unfoldable pub reusable_endorsement : Bytes → DepGraphQueue T N E → Option E × DepGraphQueue T N E
  unfolding any_newer
  reusable_endorsement h q = elim (lookup h q.tracked) [
    | none ↦ (none, q)
    | some t ↦ elim t.end [
      | none ↦ (none, q)
      | some e ↦
          let q' = record q { tracked = insert h (record t { end = none }) q.tracked } in
          if leb reuse_window ((q.commit_seq + 2 ^ 64 - t.read_seq) % 2 ^ 64)
            || any_newer q.last_write t.read_seq t.reads
          then (none, q')
          else (some e, q')
    ]
  ]

module _ {T N E : Type 0} where
  -- The counting loop of `Handle`.
  unfoldable pub count_block : List Transaction → DepGraphQueue T N E → DepGraphQueue T N E
  count_block [] q = q
  count_block (tx ∷ txs) q =
      count_block txs (record q { total = q.total + 1; invalid = count_invalid q.invalid tx })

-- `bytes_to_hash` is `common.BytesToHash`, `valid` the SDK's `Status.Valid`.
module _ {T N E : Type 0} (bytes_to_hash : Bytes → Bytes) (valid : ℕ → Bool) where
  -- The writes of the block's valid transactions that are tracked, in order.
  unfoldable pub committed_writes : Map Bytes (TrackedTx T N E) → List Transaction → List Bytes
  committed_writes tracked [] = []
  committed_writes tracked (tx ∷ txs) =
      let rest = committed_writes tracked txs in
      if valid tx.fabric_tx_status
      then elim (lookup (bytes_to_hash tx.tx_hash) tracked) [
        | none ↦ rest
        | some t ↦ t.writes ++ rest
      ]
      else rest

  -- `recordCommitted`
  unfoldable pub record_committed : List Transaction → DepGraphQueue T N E → DepGraphQueue T N E
  unfolding committed_writes note_writes forget_writes
  record_committed txs q =
      let seq = (q.commit_seq + 1) % 2 ^ 64 in
      let slot = slot_at (seq % reuse_window) q.recent in
      let keys = committed_writes q.tracked txs in
      record q {
        commit_seq = seq;
        last_write =
            note_writes seq keys
              (forget_writes ((seq + 2 ^ 64 - reuse_window) % 2 ^ 64) slot q.last_write);
        recent = set q.recent (seq % reuse_window) keys;
      }

  -- `Handle`
  unfoldable pub handle : Block → DepGraphQueue T N E → DepGraphQueue T N E
  unfolding record_committed take_nodes release count_block
  handle b q = elim b.transactions [
    | [] ↦ q
    | tx ∷ txs ↦
        let (nodes, q') =
          take_nodes (map (λ t. bytes_to_hash t.tx_hash) b.transactions)
            (record_committed b.transactions (count_block b.transactions q)) in
        release nodes q'
  ]

-- `hash` is `types.Transaction.Hash`.
module _ {T N E : Type 0} (hash : T → Bytes) where
  -- `Enqueue`; the send to the channel takes its default case when the channel is full.
  unfoldable pub enqueue : T → DepGraphQueue T N E → Outcome QueueError (DepGraphQueue T N E)
  enqueue tx q =
      if q.done
      then err queue_closed
      else if has (hash tx) q.tracked
      then err already_pending
      else if leb q.chan_size (length q.admitted)
      then err queue_full
      else ok (record q {
        admitted = q.admitted ++ tx ∷ [];
        tracked =
            insert (hash tx)
              (record { tx = tx; node = none; end = none; read_seq = 0; reads = []; writes = [] })
              q.tracked;
      })

-- `ref_hash` is `hashFromTxRefID` of the node's `VerifierTx.Ref.TxId`.
module _ {T N E : Type 0} (ref_hash : N → Option Bytes) where
  -- The loop of `markReady`: the orphans, and the queue with the other nodes attached.
  unfoldable pub attach_nodes : List N → DepGraphQueue T N E → List N × DepGraphQueue T N E
  attach_nodes [] q = ([], q)
  attach_nodes (n ∷ nodes) q = elim (ref_hash n) [
    | none ↦ let (orphans, q') = attach_nodes nodes q in (n ∷ orphans, q')
    | some h ↦ elim (lookup h q.tracked) [
      | none ↦ let (orphans, q') = attach_nodes nodes q in (n ∷ orphans, q')
      | some t ↦ attach_nodes nodes (record q {
        tracked = insert h (record t { node = some n }) q.tracked;
        ready = q.ready ++ t.tx ∷ [];
      })
    ]
  ]

  -- `markReady`
  unfoldable pub mark_ready : List N → DepGraphQueue T N E → DepGraphQueue T N E
  unfolding attach_nodes release
  mark_ready nodes q = let (orphans, q') = attach_nodes nodes q in release orphans q'

module _ {T N E : Type 0} where
  -- `Dequeue`
  unfoldable pub dequeue : DepGraphQueue T N E → Received (T × DepGraphQueue T N E)
  dequeue q = elim q.ready [
    | [] ↦ if q.done then closed else waits
    | tx ∷ rest ↦ served (tx, record q { ready = rest })
  ]

  -- `shutdown`, up to the wait for the goroutines.
  unfoldable pub shutdown : DepGraphQueue T N E → DepGraphQueue T N E
  shutdown q = record q { done = true }

  -- `Stats`
  unfoldable pub stats : DepGraphQueue T N E → ℕ × ℕ × ℕ × ℕ
  stats q = (q.total, q.invalid, 0, 0)
