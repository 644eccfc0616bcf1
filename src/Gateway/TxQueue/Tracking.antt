-- ===== src/Gateway/TxQueue/Tracking.antt =====
-- gateway/core/txqueue.go: what the queue tracks after each of its operations.
use fabric_x_evm_lfx.Prelude.{
  ℕ, ◌+◌, ◌≡◌, refl, sym, ap, subst, ◌∙◌, ◌⊎◌, inl, inr, Bool, false, ◌||◌, Option, none, some,
  List, [], ◌∷◌, ◌++◌, arith, lookup, insert, erase, lookup-insert, lookup-erase, Outcome, ok, err,
  length, if◌then◌else◌, Bool-cases, Option-cases, nat_eq, Bytes, bytes_beq, bytes_beq_iff,
  bytes_eq,
}
use fabric_x_evm_lfx.Gateway.Data.{
  Transaction, Block, QueueError, Received, waits, closed, served, count_invalid,
}
use fabric_x_evm_lfx.Gateway.TxQueue.{
  TxQueue, new_tx_queue, enqueue, dequeue, complete, close, is_pending, handle, handle_transactions,
}

-- The hashes of a block are among the given ones.
abbrev pub contains_hash : (Bytes → Bytes) → Bytes → List Transaction → Bool
contains_hash bytes_to_hash h [] = false
contains_hash bytes_to_hash h (tx ∷ txs) =
    bytes_beq (bytes_to_hash tx.tx_hash) h || contains_hash bytes_to_hash h txs

abbrev pub count_failed : ℕ → List Transaction → ℕ
count_failed n [] = n
count_failed n (tx ∷ txs) = count_failed (count_invalid n tx) txs

module _ {T : Type 0} where
  lookup-handle_transactions :
      (bytes_to_hash : Bytes → Bytes) (txs : List Transaction) (q : TxQueue T) (h : Bytes)
      → (lookup h (handle_transactions bytes_to_hash txs q).in_progress_map
          ≡ (if contains_hash bytes_to_hash h txs then none else lookup h q.in_progress_map))
        × ((handle_transactions bytes_to_hash txs q).queued_map ≡ q.queued_map)
        × ((handle_transactions bytes_to_hash txs q).total ≡ q.total + length txs)
        × ((handle_transactions bytes_to_hash txs q).invalid ≡ count_failed q.invalid txs)
  unfolding handle_transactions complete
  lookup-handle_transactions bytes_to_hash [] q h = (refl, refl, omega arith, refl)
  lookup-handle_transactions bytes_to_hash (tx ∷ txs) q h =
      let k = bytes_to_hash tx.tx_hash in
      let next = record q {
        total = q.total + 1;
        invalid = count_invalid q.invalid tx;
        in_progress_map = erase k q.in_progress_map;
      } in
      let (a, b, c, d) = lookup-handle_transactions bytes_to_hash txs next h in
      (a ∙ ground (arith, lookup-erase k h q.in_progress_map), b, c ∙ omega arith, d)

  -- After a block, a hash of the block is tracked only while it is still queued, every other hash as
  -- before, and the statistics have counted the block's transactions and the failed ones among them.
  pub is_pending-handle :
      (bytes_to_hash : Bytes → Bytes) (b : Block) (q : TxQueue T) (h : Bytes)
      → (is_pending h (handle bytes_to_hash b q) ≡ (
          if contains_hash bytes_to_hash h b.transactions
          then lookup h q.queued_map
          else is_pending h q))
        × ((handle bytes_to_hash b q).total ≡ q.total + length b.transactions)
        × ((handle bytes_to_hash b q).invalid ≡ count_failed q.invalid b.transactions)
  unfolding is_pending handle
  is_pending-handle bytes_to_hash b q h =
      let (a, m, c, d) = lookup-handle_transactions bytes_to_hash b.transactions q h in
      (ground (arith, a, ap (lookup h) m), c, d)

-- The queue's own scan for a hash, which the map replaces.
unfoldable pub find_pending : {T : Type 0} → (T → Bytes) → Bytes → List T → Option T
find_pending hash h [] = none
find_pending hash h (tx ∷ txs) = if bytes_beq (hash tx) h then some tx else find_pending hash h txs

-- No hash is queued twice.
abbrev pub AreDistinct : {T : Type 0} → (T → Bytes) → List T → Type 0
unfolding find_pending
AreDistinct hash [] = Unit
AreDistinct hash (tx ∷ txs) = (find_pending hash (hash tx) txs ≡ none) × AreDistinct hash txs

-- The map mirrors the queue, and a hash is queued once and not while it is in progress.
pub record IsConsistent {T : Type 0} (hash : T → Bytes) (q : TxQueue T) : Type 0 where
  pub mirrors : (h : Bytes) → lookup h q.queued_map ≡ find_pending hash h q.pending_queue
  pub distinct : AreDistinct hash q.pending_queue
  pub disjoint : (h : Bytes) → (lookup h q.queued_map ≡ none) ⊎ (lookup h q.in_progress_map ≡ none)

-- What clients do to the queue.
pub data Op (T : Type 0) : Type 0 where
  enqueues : T → Op T
  dequeues : Op T
  completes : Bytes → Op T
  handles : Block → Op T
  closes : Op T

module _ {T : Type 0} (hash : T → Bytes) where
  find_pending-append :
      (h : Bytes) (txs : List T) (tx : T)
      → find_pending hash h (txs ++ tx ∷ []) ≡ elim (find_pending hash h txs) [
        | some t ↦ some t
        | none ↦ if bytes_beq (hash tx) h then some tx else none
      ]
  unfolding find_pending
  find_pending-append h [] tx = refl
  find_pending-append h (t ∷ txs) tx = ground (arith, find_pending-append h txs tx)

  AreDistinct-append :
      (txs : List T) (tx : T)
      → find_pending hash (hash tx) txs ≡ none
      → AreDistinct hash txs
      → AreDistinct hash (txs ++ tx ∷ [])
  unfolding find_pending
  AreDistinct-append [] tx n d = (refl, tt)
  AreDistinct-append (t ∷ txs) tx n d = (
    ground (
      arith,
      find_pending-append (hash t) txs tx,
      d.0,
      bytes_beq_iff (hash tx) (hash t),
      bytes_beq_iff (hash t) (hash tx),
    ),
    AreDistinct-append txs tx (ground (arith, n)) d.1,
  )

  abbrev enqueued : T → TxQueue T → TxQueue T
  enqueued tx q = record q {
    pending_queue = q.pending_queue ++ tx ∷ [];
    queued_map = insert (hash tx) tx q.queued_map;
  }

  enqueued-IsConsistent :
      (tx : T) (q : TxQueue T)
      → IsConsistent hash q
      → lookup (hash tx) q.queued_map ≡ none
      → lookup (hash tx) q.in_progress_map ≡ none
      → IsConsistent hash (enqueued tx q)
  enqueued-IsConsistent tx q c a b = record {
    mirrors = λ h.
        lookup-insert (hash tx) h tx q.queued_map
        ∙ ground (
          arith,
          c.mirrors h,
          find_pending-append h q.pending_queue tx,
          bytes_beq_iff (hash tx) h,
          ap (λ k. lookup k q.queued_map),
          a,
        );
    distinct = AreDistinct-append q.pending_queue tx (sym (c.mirrors (hash tx)) ∙ a) c.distinct;
    disjoint = λ h. elim (Bool-cases (bytes_beq (hash tx) h)) [
      | inl same ↦
          inr
            (subst (λ k. lookup k q.in_progress_map ≡ none) ((bytes_beq_iff (hash tx) h).0 same) b)
      | inr other ↦ elim (c.disjoint h) [
        | inl p ↦ inl (lookup-insert (hash tx) h tx q.queued_map ∙ rw other p)
        | inr p ↦ inr p
      ]
    ];
  }

  enqueue-IsConsistent :
      (tx : T) (q q' : TxQueue T)
      → IsConsistent hash q
      → enqueue hash tx q ≡ ok q'
      → IsConsistent hash q'
  unfolding enqueue
  enqueue-IsConsistent tx q q' c e = elim (Option-cases (lookup (hash tx) q.queued_map)) [
    | inr (t, found) ↦ absurd (ground arith)
    | inl a ↦ elim (Option-cases (lookup (hash tx) q.in_progress_map)) [
      | inr (t, found) ↦ absurd (ground arith)
      | inl b ↦
          let same : enqueued tx q ≡ q' = ground arith in
          subst (IsConsistent hash) same (enqueued-IsConsistent tx q c a b)
    ]
  ]

  -- The state after the first transaction is handed to a worker.
  abbrev dequeued : T → List T → TxQueue T → TxQueue T
  dequeued tx rest q = record q {
    pending_queue = rest;
    queued_map = erase (hash tx) q.queued_map;
    in_progress_map = insert (hash tx) tx q.in_progress_map;
  }

  dequeued-IsConsistent :
      (tx : T) (rest : List T) (q : TxQueue T)
      → q.pending_queue ≡ tx ∷ rest
      → IsConsistent hash q
      → IsConsistent hash (dequeued tx rest q)
  unfolding find_pending
  dequeued-IsConsistent tx rest q e c =
      let d : AreDistinct hash (tx ∷ rest) = subst (AreDistinct hash) e c.distinct in
      let m : (h : Bytes) → lookup h q.queued_map ≡ find_pending hash h (tx ∷ rest) =
        λ h. c.mirrors h ∙ ap (find_pending hash h) e in
      record {
        mirrors = λ h.
            lookup-erase (hash tx) h q.queued_map ∙ elim (Bool-cases (bytes_beq (hash tx) h)) [
              | inl same ↦ rw same (
                  sym (
                    subst (λ k. find_pending hash k rest ≡ none)
                      ((bytes_beq_iff (hash tx) h).0 same) d.0))
              | inr other ↦ ground (arith, m h)
            ];
        distinct = d.1;
        disjoint = λ h. elim (Bool-cases (bytes_beq (hash tx) h)) [
          | inl same ↦ inl (ground (arith, lookup-erase (hash tx) h q.queued_map))
          | inr other ↦ ground (
            arith,
            lookup-erase (hash tx) h q.queued_map,
            lookup-insert (hash tx) h tx q.in_progress_map,
            c.disjoint h,
          )
        ];
      }

  queued_first :
      (tx : T) (rest : List T) (q : TxQueue T)
      → q.pending_queue ≡ tx ∷ rest
      → IsConsistent hash q
      → lookup (hash tx) q.queued_map ≡ some tx
  unfolding find_pending
  queued_first tx rest q e c =
      c.mirrors (hash tx)
      ∙ ap (find_pending hash (hash tx)) e
      ∙ ground (arith, (bytes_beq_iff (hash tx) (hash tx)).1 refl)

  is_pending-dequeued :
      (tx : T) (rest : List T) (q : TxQueue T) (h : Bytes)
      → q.pending_queue ≡ tx ∷ rest
      → IsConsistent hash q
      → is_pending h (dequeued tx rest q) ≡ is_pending h q
  unfolding is_pending
  is_pending-dequeued tx rest q h e c = elim (Bool-cases (bytes_beq (hash tx) h)) [
    | inl same ↦
        let first =
          subst (λ k. lookup k q.queued_map ≡ some tx) ((bytes_beq_iff (hash tx) h).0 same)
            (queued_first tx rest q e c) in
        ground (arith, c.disjoint h, lookup-insert (hash tx) h tx q.in_progress_map)
    | inr other ↦ ground (
      arith,
      lookup-insert (hash tx) h tx q.in_progress_map,
      lookup-erase (hash tx) h q.queued_map,
    )
  ]

  dequeue-served :
      (q q' : TxQueue T) (tx : T)
      → dequeue hash q ≡ served (tx, q')
      → (rest : List T) × (q.pending_queue ≡ tx ∷ rest) × (dequeued tx rest q ≡ q')
  unfolding dequeue
  dequeue-served q q' tx e = go q.pending_queue refl
    where
      go :
          (p : List T)
          → q.pending_queue ≡ p
          → (rest : List T) × (q.pending_queue ≡ tx ∷ rest) × (dequeued tx rest q ≡ q')
      go [] p = absurd (ground arith)
      go (t ∷ rest) p =
          let same : t ≡ tx = ground arith in (rest, p ∙ ap (λ x. x ∷ rest) same, ground arith)

  -- A transaction that a consistent queue hands out is the first of the queue, and every hash is pending with the same
  -- transaction as before.
  pub is_pending-dequeue :
      (q q' : TxQueue T) (tx : T)
      → IsConsistent hash q
      → dequeue hash q ≡ served (tx, q')
      → (q.pending_queue ≡ tx ∷ q'.pending_queue) × ((h : Bytes) → is_pending h q' ≡ is_pending h q)
  is_pending-dequeue q q' tx c e =
      let (rest, p, same) = dequeue-served q q' tx e in
      (
        p ∙ ap (λ (r : TxQueue T). tx ∷ r.pending_queue) same,
        λ h. ap (is_pending h) (sym same) ∙ is_pending-dequeued tx rest q h p c,
      )

  complete-IsConsistent :
      (h : Bytes) (q : TxQueue T) → IsConsistent hash q → IsConsistent hash (complete h q)
  unfolding complete
  complete-IsConsistent h q c = record {
    mirrors = c.mirrors;
    distinct = c.distinct;
    disjoint = λ k. ground (arith, c.disjoint k, lookup-erase h k q.in_progress_map);
  }

  -- An operation of a client; one that fails or waits leaves the queue as it is.
  abbrev pub exec : (Bytes → Bytes) → Op T → TxQueue T → TxQueue T
  exec bytes_to_hash (enqueues tx) q = elim (enqueue hash tx q) [ ok q' ↦ q' | err e ↦ q ]
  exec bytes_to_hash dequeues q = elim (dequeue hash q) [ served r ↦ r.1 | closed ↦ q | waits ↦ q ]
  exec bytes_to_hash (completes h) q = complete h q
  exec bytes_to_hash (handles b) q = handle bytes_to_hash b q
  exec bytes_to_hash closes q = close q

  abbrev pub exec_all : (Bytes → Bytes) → List (Op T) → TxQueue T → TxQueue T
  exec_all bytes_to_hash [] q = q
  exec_all bytes_to_hash (op ∷ ops) q = exec_all bytes_to_hash ops (exec bytes_to_hash op q)

  handle_transactions-IsConsistent :
      (bytes_to_hash : Bytes → Bytes) (txs : List Transaction) (q : TxQueue T)
      → IsConsistent hash q
      → IsConsistent hash (handle_transactions bytes_to_hash txs q)
  unfolding handle_transactions
  handle_transactions-IsConsistent bytes_to_hash [] q c = c
  handle_transactions-IsConsistent bytes_to_hash (tx ∷ txs) q c =
      handle_transactions-IsConsistent bytes_to_hash txs
        (complete (bytes_to_hash tx.tx_hash)
          (record q { total = q.total + 1; invalid = count_invalid q.invalid tx }))
        (complete-IsConsistent (bytes_to_hash tx.tx_hash)
          (record q { total = q.total + 1; invalid = count_invalid q.invalid tx })
          (record { mirrors = c.mirrors; distinct = c.distinct; disjoint = c.disjoint }))

  exec-IsConsistent :
      (bytes_to_hash : Bytes → Bytes) (op : Op T) (q : TxQueue T)
      → IsConsistent hash q
      → IsConsistent hash (exec bytes_to_hash op q)
  unfolding handle close
  exec-IsConsistent bytes_to_hash (enqueues tx) q c = go (enqueue hash tx q) refl
    where
      go :
          (r : Outcome QueueError (TxQueue T))
          → enqueue hash tx q ≡ r
          → IsConsistent hash (elim r [ ok q' ↦ q' | err e ↦ q ])
      go (ok q') e = enqueue-IsConsistent tx q q' c e
      go (err x) e = c
  exec-IsConsistent bytes_to_hash dequeues q c = go (dequeue hash q) refl
    where
      go :
          (r : Received (T × TxQueue T))
          → dequeue hash q ≡ r
          → IsConsistent hash (elim r [ served p ↦ p.1 | closed ↦ q | waits ↦ q ])
      go waits e = c
      go closed e = c
      go (served (tx, q')) e =
          let (rest, p, same) = dequeue-served q q' tx e in
          subst (IsConsistent hash) same (dequeued-IsConsistent tx rest q p c)
  exec-IsConsistent bytes_to_hash (completes h) q c = complete-IsConsistent h q c
  exec-IsConsistent bytes_to_hash (handles b) q c =
      handle_transactions-IsConsistent bytes_to_hash b.transactions q c
  exec-IsConsistent bytes_to_hash closes q c = record {
    mirrors = c.mirrors;
    distinct = c.distinct;
    disjoint = c.disjoint;
  }

  new_tx_queue-IsConsistent : IsConsistent hash new_tx_queue
  unfolding new_tx_queue find_pending lookup
  new_tx_queue-IsConsistent = record {
    mirrors = λ h. refl;
    distinct = tt;
    disjoint = λ h. inl refl;
  }

  -- Whatever clients do to a new queue, its map mirrors the queue, and no hash is queued twice or both
  -- queued and in progress.
  pub exec_all-IsConsistent :
      (bytes_to_hash : Bytes → Bytes) (ops : List (Op T))
      → IsConsistent hash (exec_all bytes_to_hash ops new_tx_queue)
  exec_all-IsConsistent bytes_to_hash ops = run ops new_tx_queue new_tx_queue-IsConsistent
    where
      run :
          (ops : List (Op T)) (q : TxQueue T)
          → IsConsistent hash q
          → IsConsistent hash (exec_all bytes_to_hash ops q)
      run [] q c = c
      run (op ∷ ops) q c =
          run ops (exec bytes_to_hash op q) (exec-IsConsistent bytes_to_hash op q c)
