-- ===== src/Gateway/DepGraph/Release.antt =====
-- gateway/core/depgraph_queue.go: what `Complete` and `Handle` stop tracking.
use fabric_x_evm_lfx.Prelude.{
  ℕ, ◌+◌, ◌≡◌, refl, ap, ◌∙◌, Bool, none, List, [], ◌∷◌, map, arith, lookup, erase, lookup-erase,
  if◌then◌else◌, nat_eq, Bytes, bytes_beq, bytes_beq_iff, bytes_eq,
}
use fabric_x_evm_lfx.Gateway.Data.{Transaction, Block, count_invalid}
use fabric_x_evm_lfx.Gateway.DepGraph.{
  DepGraphQueue, release, take_nodes, complete, is_pending, count_block, record_committed, handle,
}
use fabric_x_evm_lfx.Gateway.DepGraph.Reuse.{mem}

module _ {T N E : Type 0} where
  lookup-take_nodes :
      (hashes : List Bytes) (q : DepGraphQueue T N E) (k : Bytes)
      → lookup k (take_nodes hashes q).1.tracked
        ≡ (if mem k hashes then none else lookup k q.tracked)
  unfolding take_nodes
  lookup-take_nodes [] q k = refl
  lookup-take_nodes (h ∷ hashes) q k =
      let known = lookup-take_nodes hashes q k in
      let forgotten = lookup-take_nodes hashes (record q { tracked = erase h q.tracked }) k in
      ground (
        arith,
        known,
        forgotten,
        lookup-erase h k q.tracked,
        ap (λ j. lookup j q.tracked),
        bytes_beq_iff h k,
      )

  release-tracked :
      (nodes : List N) (q : DepGraphQueue T N E) → (release nodes q).tracked ≡ q.tracked
  unfolding release
  release-tracked [] q = refl
  release-tracked (n ∷ nodes) q = refl

  lookup-complete :
      (h : Bytes) (q : DepGraphQueue T N E) (k : Bytes)
      → lookup k (complete h q).tracked ≡ (if bytes_beq h k then none else lookup k q.tracked)
  unfolding complete
  lookup-complete h q k =
      ap (lookup k) (release-tracked (take_nodes (h ∷ []) q).0 (take_nodes (h ∷ []) q).1)
      ∙ ground (arith, lookup-take_nodes (h ∷ []) q k)

  take_nodes-untracked :
      (h : Bytes) (q : DepGraphQueue T N E)
      → lookup h q.tracked ≡ none
      → take_nodes (h ∷ []) q ≡ ([], q)
  unfolding take_nodes
  take_nodes-untracked h q e = ground (arith, e)

  complete-untracked :
      (h : Bytes) (q : DepGraphQueue T N E) → lookup h q.tracked ≡ none → complete h q ≡ q
  unfolding complete take_nodes release
  complete-untracked h q e =
      ap (λ (r : List N × DepGraphQueue T N E). release r.0 r.1) (take_nodes-untracked h q e)

  -- A second completion of a hash changes nothing and hands no node to the manager.
  pub complete_idempotent :
      (h : Bytes) (q : DepGraphQueue T N E) → complete h (complete h q) ≡ complete h q
  complete_idempotent h q =
      complete-untracked h (complete h q)
        (lookup-complete h q h ∙ rw ((bytes_beq_iff h h).1 refl) refl)

  count_block-tracked :
      (txs : List Transaction) (q : DepGraphQueue T N E) → (count_block txs q).tracked ≡ q.tracked
  unfolding count_block
  count_block-tracked [] q = refl
  count_block-tracked (tx ∷ txs) q =
      count_block-tracked txs
        (record q { total = q.total + 1; invalid = count_invalid q.invalid tx })

  -- After a block, none of its hashes is pending, whatever their status, and every other one as before.
  pub is_pending-handle_block :
      (bytes_to_hash : Bytes → Bytes) (valid : ℕ → Bool) (b : Block) (q : DepGraphQueue T N E)
      (k : Bytes)
      → is_pending k (handle bytes_to_hash valid b q) ≡ (
          if mem k (map (λ t. bytes_to_hash t.tx_hash) b.transactions)
          then none
          else is_pending k q)
  unfolding is_pending handle record_committed
  is_pending-handle_block bytes_to_hash valid b q k = go b.transactions
    where
      go :
          (txs : List Transaction)
          → is_pending k (handle bytes_to_hash valid (record b { transactions = txs }) q)
            ≡ (if mem k (map (λ t. bytes_to_hash t.tx_hash) txs) then none else is_pending k q)
      go [] = refl
      go (tx ∷ txs) =
          let hashes = map (λ (t : Transaction). bytes_to_hash t.tx_hash) (tx ∷ txs) in
          let q₁ = record_committed bytes_to_hash valid (tx ∷ txs) (count_block (tx ∷ txs) q) in
          let taken = take_nodes hashes q₁ in
          let known =
            ap (lookup k) (release-tracked taken.0 taken.1) ∙ lookup-take_nodes hashes q₁ k in
          ground (arith, known, ap (lookup k) (count_block-tracked (tx ∷ txs) q))
