-- ===== src/Gateway/TxQueueV2/Progress.antt =====
-- gateway/core/txqueue_v2.go: what a tracked transaction waits for.
pub mod Enqueuing
pub mod Completing
pub mod Sequences
use fabric_x_evm_lfx.Prelude.{
  ℕ, zero, suc, ◌+◌, ◌-◌, ◌≤◌, ◌<◌, ◌≡◌, ◌⊎◌, inl, inr, true, false, some, List, [], ◌∷◌, arith,
  has, lookup, length, elem, count, ◌==◌, Bool-cases, nat_eq, Bytes, bytes_eq,
}
use fabric_x_evm_lfx.Gateway.TxQueueV2.{
  TxQueueV2, waits_at, hash_at, blockers, participants_at, at_participant,
}
use fabric_x_evm_lfx.Gateway.TxQueueV2.Exclusion.{IsExclusive}
use fabric_x_evm_lfx.Gateway.TxQueueV2.Balance.{IsBalanced}

pub some_element : (xs : List ℕ) → (length xs == 0) ≡ false → (x : ℕ) × (elem x xs ≡ true)
some_element [] e = absurd (ground arith)
some_element (x ∷ xs) e = (x, ground arith)

-- What is tracked under some hash.
abbrev pub IsTracked : {T : Type 0} → TxQueueV2 T → ℕ → Type 0
IsTracked q i = (h : Bytes) × (lookup h q.hash_map ≡ some i)

-- A tracked transaction that waits has blockers, which are tracked and either do not wait or are newer; one
-- that does not wait is in the ready list or in progress.
pub record IsLive {T : Type 0} (q : TxQueueV2 T) : Type 0 where
  pub balanced : (x b : ℕ) → IsTracked q x → IsBalanced x b q.heap
  pub young : (b x : ℕ) → elem x (blockers b q.heap) ≡ true → x < q.next_id
  pub known :
      (p : Bytes) (i : ℕ) → elem i (at_participant p q.participant_map) ≡ true → IsTracked q i
  pub numbered :
      (i : ℕ) (p : Bytes)
      → IsTracked q i
      → count i (at_participant p q.participant_map) ≡ count p (participants_at i q.heap)
  pub backed :
      (b x : ℕ)
      → IsTracked q b
      → elem x (blockers b q.heap) ≡ true
      → IsTracked q x × ((waits_at x q.heap ≡ false) ⊎ (b < x))
  pub bound :
      (b : ℕ) → IsTracked q b → waits_at b q.heap ≡ true → (length (blockers b q.heap) == 0) ≡ false
  pub reachable :
      (h : Bytes) (i : ℕ)
      → lookup h q.hash_map ≡ some i
      → waits_at i q.heap ≡ false
      → (elem i q.ready_list ≡ true) ⊎ (has h q.pending_map ≡ true)

module _ {T : Type 0} (q : TxQueueV2 T) (w : IsExclusive q) (l : IsLive q) where
  -- A tracked transaction has an entry, which is older than the next.
  pub tracked-has : (x : ℕ) → IsTracked q x → has x q.heap ≡ true
  unfolding hash_at
  tracked-has x (h, e) = ground (arith, w.stored h x e)

  pub has-older : (x : ℕ) → has x q.heap ≡ true → x < q.next_id
  has-older x e = ground (arith, w.unused x)

  -- While a transaction is tracked, one is tracked that does not wait.
  find_free :
      (n b : ℕ)
      → IsTracked q b
      → q.next_id ≤ b + n
      → (h : Bytes) × (i : ℕ) × (lookup h q.hash_map ≡ some i) × (waits_at i q.heap ≡ false)
  find_free zero b t far = absurd (omega (arith, has-older b (tracked-has b t)))
  find_free (suc n) b t far = elim (Bool-cases (waits_at b q.heap)) [
    | inr flies ↦ (t.0, b, t.1, flies)
    | inl waits_ ↦
        let (x, found) = some_element (blockers b q.heap) (l.bound b t waits_) in
        let (tx, next) = l.backed b x t found in
        elim next [
          | inl flies ↦ (tx.0, x, tx.1, flies)
          | inr newer ↦ find_free n x tx (omega arith)
        ]
  ]

  pub live_lem :
      (h : Bytes) (i : ℕ)
      → lookup h q.hash_map ≡ some i
      → (k : Bytes) × (j : ℕ) × (lookup k q.hash_map ≡ some j)
        × ((elem j q.ready_list ≡ true) ⊎ (has k q.pending_map ≡ true))
  live_lem h i e =
      let (k, j, f, flies) = find_free q.next_id i (h, e) (omega arith) in
      (k, j, f, l.reachable k j f flies)
