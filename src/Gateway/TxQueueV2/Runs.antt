-- ===== src/Gateway/TxQueueV2/Runs.antt =====
-- gateway/core/txqueue_v2.go: runs of the queue.
use fabric_x_evm_lfx.Prelude.{
  ℕ, ◌+◌, ◌≡◌, refl, sym, ap, subst, ◌∙◌, ◌≢◌, ◌⊎◌, inl, inr, true, false, ◌&&◌, none, some, List,
  [], ◌∷◌, arith, has, lookup, insert, ok, err, elem, ◌==◌, Bool-cases, Option-cases, nat_eq, Bytes,
  bytes_eq,
}
use fabric_x_evm_lfx.Gateway.Data.{Transaction, Block, served, count_invalid}
use fabric_x_evm_lfx.Gateway.TxQueueV2.{
  TxView, TxEntry, pending, Heap, TxQueueV2, new_tx_queue_v2, update, waits_at, hash_at, blockers,
  participants_at, enqueue, dequeue, complete, close, handle, handle_transactions,
}
use fabric_x_evm_lfx.Gateway.TxQueueV2.Exclusion.{IsExclusive}
use fabric_x_evm_lfx.Gateway.TxQueueV2.Linking.{admitted-IsExclusive}
use fabric_x_evm_lfx.Gateway.TxQueueV2.Completion.{complete-IsExclusive, lookup-dequeued}

pub list_cases : (xs : List ℕ) → (xs ≡ []) ⊎ (i : ℕ) × (rest : List ℕ) × (xs ≡ i ∷ rest)
list_cases [] = inl refl
list_cases (x ∷ xs) = inr (x, xs, refl)

module _ {T : Type 0} where
  -- The queue after a call that serves the entry `i`.
  abbrev pub after_serving : ℕ → List ℕ → TxEntry T → TxQueueV2 T → TxQueueV2 T
  after_serving i rest x q = record q {
    ready_list = rest;
    heap = update i (λ x. record x { state = pending }) q.heap;
    pending_map = insert x.tx_hash x.tx q.pending_map;
  }

  pub dequeue-served :
      (i : ℕ) (rest : List ℕ) (x : TxEntry T) (q : TxQueueV2 T)
      → q.ready_list ≡ i ∷ rest
      → lookup i q.heap ≡ some x
      → dequeue q ≡ (served x.tx, after_serving i rest x q)
  unfolding dequeue
  dequeue-served i rest x q e f = rw (e, f, dequeue) refl

  pub dequeue-lost :
      (i : ℕ) (rest : List ℕ) (q : TxQueueV2 T)
      → q.ready_list ≡ i ∷ rest
      → lookup i q.heap ≡ none
      → (dequeue q).1 ≡ q
  unfolding dequeue
  dequeue-lost i rest q e f = simp (e, f, dequeue)

  pub dequeue-empty : (q : TxQueueV2 T) → q.ready_list ≡ [] → (dequeue q).1 ≡ q
  unfolding dequeue
  dequeue-empty q e = simp (e, dequeue)

  serving-IsExclusive :
      (i : ℕ) (rest : List ℕ) (x : TxEntry T) (q : TxQueueV2 T)
      → q.ready_list ≡ i ∷ rest
      → IsExclusive q
      → IsExclusive (after_serving i rest x q)
  unfolding hash_at waits_at blockers participants_at
  serving-IsExclusive i rest x q e w = record {
    stored = λ h j f. ground (arith, lookup-dequeued i j q, w.stored h j f);
    unused = λ j above. ground (arith, lookup-dequeued i j q, w.unused j above);
    free = λ h j f flies. waits_for j ∙ w.free h j f (flew j flies);
    listed = λ j f. (
      ground (arith, lookup-dequeued i j q, (in_list j f).0),
      ground (arith, lookup-dequeued i j q, (in_list j f).1),
    );
    filed = λ h j p f g. w.filed h j p f (sym (ap (elem p) (parties j)) ∙ g);
    linked = λ h k j l p f f' apart g g'.
        elim (w.linked h k j l p f f' apart (sym (ap (elem p) (parties j)) ∙ g)
          (sym (ap (elem p) (parties l)) ∙ g')) [
            | inl a ↦ inl (ap (elem l) (waits_for j) ∙ a)
            | inr b ↦ inr (ap (elem j) (waits_for l) ∙ b)
          ];
  }
    where
      heap' : Heap T
      heap' = update i (λ x. record x { state = pending }) q.heap

      in_list : (j : ℕ) → elem j rest ≡ true → (has j q.heap ≡ true) × (waits_at j q.heap ≡ false)
      in_list j f = w.listed j (ap (elem j) e ∙ ground arith)

      front : (j : ℕ) → (i == j) ≡ true → waits_at j q.heap ≡ false
      front j same = (w.listed j (ap (elem j) e ∙ ground arith)).1

      flew : (j : ℕ) → waits_at j heap' ≡ false → waits_at j q.heap ≡ false
      flew j flies = ground (arith, lookup-dequeued i j q, front j)

      parties : (j : ℕ) → participants_at j heap' ≡ participants_at j q.heap
      parties j = ground (arith, lookup-dequeued i j q)

      waits_for : (j : ℕ) → blockers j heap' ≡ blockers j q.heap
      waits_for j = ground (arith, lookup-dequeued i j q)

  pub dequeue-IsExclusive : (q : TxQueueV2 T) → IsExclusive q → IsExclusive (dequeue q).1
  dequeue-IsExclusive q w = elim (list_cases q.ready_list) [
    | inl nothing ↦ subst IsExclusive (sym (dequeue-empty q nothing)) w
    | inr (i, rest, e) ↦ elim (Option-cases (lookup i q.heap)) [
      | inl lost ↦ subst IsExclusive (sym (dequeue-lost i rest q e lost)) w
      | inr (x, found) ↦
          subst (λ r. IsExclusive r.1) (sym (dequeue-served i rest x q e found))
            (serving-IsExclusive i rest x q e w)
    ]
  ]

  pub counted-IsExclusive :
      (total invalid : ℕ) (q : TxQueueV2 T)
      → IsExclusive q
      → IsExclusive (record q { total = total; invalid = invalid })
  counted-IsExclusive total invalid q w = record {
    stored = w.stored;
    unused = w.unused;
    free = w.free;
    listed = w.listed;
    filed = w.filed;
    linked = w.linked;
  }

  close-IsExclusive : (q : TxQueueV2 T) → IsExclusive q → IsExclusive (close q)
  unfolding close
  close-IsExclusive q w = record {
    stored = w.stored;
    unused = w.unused;
    free = w.free;
    listed = w.listed;
    filed = w.filed;
    linked = w.linked;
  }

  pub new-IsExclusive : IsExclusive (new_tx_queue_v2 {T = T})
  unfolding new_tx_queue_v2 lookup
  new-IsExclusive = record {
    stored = λ h i e. absurd (ground arith);
    unused = λ i above. refl;
    free = λ h i e. absurd (ground arith);
    listed = λ i e. absurd (ground arith);
    filed = λ h i p e. absurd (ground arith);
    linked = λ h k i j p e. absurd (ground arith);
  }

-- The calls that change the queue.
pub data Op (T : Type 0) : Type 0 where
  enqueues : T → Op T
  dequeues : Op T
  completes : Bytes → Op T
  handles : Block → Op T
  closes : Op T

module _ {T : Type 0} (view : TxView T) where
  unfoldable pub exec : Op T → TxQueueV2 T → TxQueueV2 T
  unfolding enqueue dequeue complete handle close
  exec (enqueues tx) q = elim (enqueue view tx q) [ ok q' ↦ q' | err e ↦ q ]
  exec dequeues q = (dequeue q).1
  exec (completes h) q = complete h q
  exec (handles b) q = handle view b q
  exec closes q = close q

  unfoldable pub exec_all : List (Op T) → TxQueueV2 T → TxQueueV2 T
  unfolding exec
  exec_all [] q = q
  exec_all (o ∷ os) q = exec_all os (exec o q)

  enqueue-IsExclusive :
      (tx : T) (q : TxQueueV2 T) → IsExclusive q → IsExclusive (exec (enqueues tx) q)
  unfolding exec enqueue
  enqueue-IsExclusive tx q w = elim (Bool-cases (has (view.hash tx) q.hash_map)) [
    | inl known ↦ rw (known, exec, enqueue) w
    | inr unknown ↦ rw (unknown, exec, enqueue) (admitted-IsExclusive view tx q w)
  ]

  handle_transactions-IsExclusive :
      (ts : List Transaction) (q : TxQueueV2 T)
      → IsExclusive q
      → IsExclusive (handle_transactions view ts q)
  unfolding handle_transactions
  handle_transactions-IsExclusive [] q w = w
  handle_transactions-IsExclusive (t ∷ ts) q w =
      let q' = record q { total = q.total + 1; invalid = count_invalid q.invalid t } in
      handle_transactions-IsExclusive ts (complete (view.bytes_to_hash t.tx_hash) q') (
        complete-IsExclusive (view.bytes_to_hash t.tx_hash) q'
          (counted-IsExclusive (q.total + 1) (count_invalid q.invalid t) q w))

  pub exec-IsExclusive : (o : Op T) (q : TxQueueV2 T) → IsExclusive q → IsExclusive (exec o q)
  unfolding exec handle
  exec-IsExclusive (enqueues tx) q w = enqueue-IsExclusive tx q w
  exec-IsExclusive dequeues q w = dequeue-IsExclusive q w
  exec-IsExclusive (completes h) q w = complete-IsExclusive h q w
  exec-IsExclusive (handles b) q w = handle_transactions-IsExclusive b.transactions q w
  exec-IsExclusive closes q w = close-IsExclusive q w

  pub exec_all-IsExclusive :
      (os : List (Op T)) (q : TxQueueV2 T) → IsExclusive q → IsExclusive (exec_all os q)
  unfolding exec_all
  exec_all-IsExclusive [] q w = w
  exec_all-IsExclusive (o ∷ os) q w = exec_all-IsExclusive os (exec o q) (exec-IsExclusive o q w)

  -- In whatever order a new queue is used, no participant is in two tracked transactions of which none is
  -- waiting. Tracked are those in the hash map: nothing is said of a transaction that the ready list
  -- still holds after its hash was completed.
  pub exec_all-exclusive :
      (os : List (Op T)) (h k : Bytes) (i j : ℕ) (p : Bytes)
      → lookup h (exec_all os new_tx_queue_v2).hash_map ≡ some i
      → lookup k (exec_all os new_tx_queue_v2).hash_map ≡ some j
      → h ≢ k
      → waits_at i (exec_all os new_tx_queue_v2).heap ≡ false
      → waits_at j (exec_all os new_tx_queue_v2).heap ≡ false
      → (elem p (participants_at i (exec_all os new_tx_queue_v2).heap)
          && elem p (participants_at j (exec_all os new_tx_queue_v2).heap))
        ≡ false
  exec_all-exclusive os h k i j p e f ne free free' =
      let q = exec_all os new_tx_queue_v2 in
      let w : IsExclusive q = exec_all-IsExclusive os new_tx_queue_v2 new-IsExclusive in
      let apart : (i == j) ≡ false =
        ground (arith, w.stored h i e, w.stored k j f, ap (λ l. hash_at l q.heap), ne) in
      elim (Bool-cases (elem p (participants_at i q.heap) && elem p (participants_at j q.heap))) [
        | inr distinct ↦ distinct
        | inl both ↦
            absurd
              (ground (arith, w.linked h k i j p e f apart, w.free h i e free, w.free k j f free'))
      ]
