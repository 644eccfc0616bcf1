-- ===== src/Gateway/TxQueueV2/Progress/Sequences.antt =====
-- gateway/core/txqueue_v2.go: sequences of calls never leave all tracked transactions waiting.
use fabric_x_evm_lfx.Prelude.{
  ℕ, ◌+◌, ◌≡◌, sym, ap, subst, ◌∙◌, ◌⊎◌, inl, inr, true, false, some, List, [], ◌∷◌, arith, has,
  lookup, insert, lookup-insert, length, elem, count, ◌==◌, Bool-cases, Option-cases, nat_eq, Bytes,
  bytes_beq_iff, bytes_eq,
}
use fabric_x_evm_lfx.Gateway.Data.{Transaction, count_invalid}
use fabric_x_evm_lfx.Gateway.TxQueueV2.{
  TxView, TxEntry, pending, Heap, TxQueueV2, new_tx_queue_v2, update, waits_at, hash_at, blockers,
  blocked, participants_at, at_participant, enqueue, dequeue, complete, close, handle,
  handle_transactions,
}
use fabric_x_evm_lfx.Gateway.TxQueueV2.Exclusion.{IsExclusive}
use fabric_x_evm_lfx.Gateway.TxQueueV2.Completion.{complete-IsExclusive, lookup-dequeued}
use fabric_x_evm_lfx.Gateway.TxQueueV2.Runs.{
  after_serving, dequeue-served, dequeue-lost, dequeue-empty, list_cases, Op, enqueues, dequeues,
  completes, handles, closes, exec, exec_all, counted-IsExclusive, exec-IsExclusive,
  new-IsExclusive,
}
use fabric_x_evm_lfx.Gateway.TxQueueV2.Progress.{IsLive, live_lem}
use fabric_x_evm_lfx.Gateway.TxQueueV2.Progress.Enqueuing.{admitted-IsLive}
use fabric_x_evm_lfx.Gateway.TxQueueV2.Progress.Completing.{complete-IsLive}

module _ {T : Type 0} where
  serving-IsLive :
      (i : ℕ) (rest : List ℕ) (x : TxEntry T) (q : TxQueueV2 T)
      → q.ready_list ≡ i ∷ rest
      → lookup i q.heap ≡ some x
      → IsExclusive q
      → IsLive q
      → IsLive (after_serving i rest x q)
  unfolding hash_at waits_at blockers blocked participants_at
  serving-IsLive i rest x q e found w l = record {
    balanced =
        λ y b t. ap (count y) (waits_for b) ∙ l.balanced y b t ∙ sym (ap (count b) (blocks y));
    young = λ b y f. l.young b y (sym (ap (elem y) (waits_for b)) ∙ f);
    known = l.known;
    numbered = λ j p t. l.numbered j p t ∙ sym (ap (count p) (parties j));
    backed = λ b y t f.
        let (ty, next) = l.backed b y t (sym (ap (elem y) (waits_for b)) ∙ f) in
        (ty, elim next [ inl flies ↦ inl (flying y flies) | inr newer ↦ inr newer ]);
    bound = λ b t f. ap (λ bs. length bs == 0) (waits_for b) ∙ l.bound b t (waited b f);
    reachable = reachable_after;
  }
    where
      heap' : Heap T
      heap' = update i (λ x. record x { state = pending }) q.heap

      parties : (j : ℕ) → participants_at j heap' ≡ participants_at j q.heap
      parties j = ground (arith, lookup-dequeued i j q)

      waits_for : (j : ℕ) → blockers j heap' ≡ blockers j q.heap
      waits_for j = ground (arith, lookup-dequeued i j q)

      blocks : (j : ℕ) → blocked j heap' ≡ blocked j q.heap
      blocks j = ground (arith, lookup-dequeued i j q)

      flying : (j : ℕ) → waits_at j q.heap ≡ false → waits_at j heap' ≡ false
      flying j f = ground (arith, lookup-dequeued i j q, f)

      waited : (j : ℕ) → waits_at j heap' ≡ true → waits_at j q.heap ≡ true
      waited j f = ground (arith, lookup-dequeued i j q, f)

      flew : (j : ℕ) → (i == j) ≡ false → waits_at j heap' ≡ false → waits_at j q.heap ≡ false
      flew j apart f = ground (arith, lookup-dequeued i j q, f)

      hash_of_front :
          (h : Bytes) (j : ℕ) → (i == j) ≡ true → lookup h q.hash_map ≡ some j → x.tx_hash ≡ h
      hash_of_front h j same f = ground (arith, found, w.stored h j f, ap (λ k. lookup k q.heap))

      reachable_after :
          (h : Bytes) (j : ℕ)
          → lookup h q.hash_map ≡ some j
          → waits_at j heap' ≡ false
          → (elem j rest ≡ true) ⊎ (has h (insert x.tx_hash x.tx q.pending_map) ≡ true)
      reachable_after h j f flies = elim (Bool-cases (i == j)) [
        | inl same ↦ inr (
            ground (
              arith,
              lookup-insert x.tx_hash h x.tx q.pending_map,
              (bytes_beq_iff x.tx_hash h).1 (hash_of_front h j same f),
            ))
        | inr apart ↦ elim (l.reachable h j f (flew j apart flies)) [
          | inl listed ↦ inl (ground (arith, sym (ap (elem j) e) ∙ listed))
          | inr runs ↦ inr (ground (arith, runs, lookup-insert x.tx_hash h x.tx q.pending_map))
        ]
      ]

  dequeue-IsLive : (q : TxQueueV2 T) → IsExclusive q → IsLive q → IsLive (dequeue q).1
  dequeue-IsLive q w l = elim (list_cases q.ready_list) [
    | inl nothing ↦ subst IsLive (sym (dequeue-empty q nothing)) l
    | inr (i, rest, e) ↦ elim (Option-cases (lookup i q.heap)) [
      | inl lost ↦ subst IsLive (sym (dequeue-lost i rest q e lost)) l
      | inr (x, found) ↦
          subst (λ r. IsLive r.1) (sym (dequeue-served i rest x q e found))
            (serving-IsLive i rest x q e found w l)
    ]
  ]

  counted-IsLive :
      (total invalid : ℕ) (q : TxQueueV2 T)
      → IsLive q
      → IsLive (record q { total = total; invalid = invalid })
  counted-IsLive total invalid q l = record {
    balanced = l.balanced;
    young = l.young;
    known = l.known;
    numbered = l.numbered;
    backed = l.backed;
    bound = l.bound;
    reachable = l.reachable;
  }

  close-IsLive : (q : TxQueueV2 T) → IsLive q → IsLive (close q)
  unfolding close
  close-IsLive q l = record {
    balanced = l.balanced;
    young = l.young;
    known = l.known;
    numbered = l.numbered;
    backed = l.backed;
    bound = l.bound;
    reachable = l.reachable;
  }

  new-IsLive : IsLive (new_tx_queue_v2 {T = T})
  unfolding new_tx_queue_v2 lookup blockers at_participant
  new-IsLive = record {
    balanced = λ x b t. absurd (ground (arith, t.1));
    young = λ b x e. absurd (ground arith);
    known = λ p i e. absurd (ground arith);
    numbered = λ i p t. absurd (ground (arith, t.1));
    backed = λ b x t e. absurd (ground arith);
    bound = λ b t e. absurd (ground (arith, t.1));
    reachable = λ h i e. absurd (ground arith);
  }

module _ {T : Type 0} (view : TxView T) where
  enqueue-IsLive :
      (tx : T) (q : TxQueueV2 T) → IsExclusive q → IsLive q → IsLive (exec view (enqueues tx) q)
  unfolding exec enqueue
  enqueue-IsLive tx q w l = elim (Option-cases (lookup (view.hash tx) q.hash_map)) [
    | inl unknown ↦ rw (unknown, exec, enqueue) (admitted-IsLive view tx q w l unknown)
    | inr (i, known) ↦ rw (known, exec, enqueue) l
  ]

  handle_transactions-IsLive :
      (ts : List Transaction) (q : TxQueueV2 T)
      → IsExclusive q
      → IsLive q
      → IsLive (handle_transactions view ts q)
  unfolding handle_transactions
  handle_transactions-IsLive [] q w l = l
  handle_transactions-IsLive (t ∷ ts) q w l =
      let invalid = count_invalid q.invalid t in
      let q' = record q { total = q.total + 1; invalid = invalid } in
      let h = view.bytes_to_hash t.tx_hash in
      let w' : IsExclusive q' = counted-IsExclusive (q.total + 1) invalid q w in
      let l' : IsLive q' = counted-IsLive (q.total + 1) invalid q l in
      handle_transactions-IsLive ts (complete h q') (complete-IsExclusive h q' w')
        (complete-IsLive h q' w' l')

  exec-IsLive : (o : Op T) (q : TxQueueV2 T) → IsExclusive q → IsLive q → IsLive (exec view o q)
  unfolding exec handle
  exec-IsLive (enqueues tx) q w l = enqueue-IsLive tx q w l
  exec-IsLive dequeues q w l = dequeue-IsLive q w l
  exec-IsLive (completes h) q w l = complete-IsLive h q w l
  exec-IsLive (handles b) q w l = handle_transactions-IsLive b.transactions q w l
  exec-IsLive closes q w l = close-IsLive q l

  exec_all-IsLive :
      (os : List (Op T)) (q : TxQueueV2 T)
      → IsExclusive q
      → IsLive q
      → IsExclusive (exec_all view os q) × IsLive (exec_all view os q)
  unfolding exec_all
  exec_all-IsLive [] q w l = (w, l)
  exec_all-IsLive (o ∷ os) q w l =
      exec_all-IsLive os (exec view o q) (exec-IsExclusive view o q w) (exec-IsLive o q w l)

  -- In whatever order a new queue is used, while a transaction is tracked, some tracked transaction is in
  -- the ready list or in progress: the tracked transactions never all wait for one another.
  pub exec_all-progress :
      (os : List (Op T)) (h : Bytes) (i : ℕ)
      → lookup h (exec_all view os new_tx_queue_v2).hash_map ≡ some i
      → (k : Bytes) × (j : ℕ) × (lookup k (exec_all view os new_tx_queue_v2).hash_map ≡ some j)
        × ((elem j (exec_all view os new_tx_queue_v2).ready_list ≡ true)
            ⊎ (has k (exec_all view os new_tx_queue_v2).pending_map ≡ true))
  exec_all-progress os h i e =
      let (w, l) = exec_all-IsLive os new_tx_queue_v2 new-IsExclusive new-IsLive in
      live_lem (exec_all view os new_tx_queue_v2) w l h i e
