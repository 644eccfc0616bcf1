-- ===== src/Gateway/TxQueueV2/Exclusion.antt =====
-- gateway/core/txqueue_v2.go: the tracked transactions and their links, when one is enqueued.
use fabric_x_evm_lfx.Prelude.{
  ℕ, ◌≤◌, ◌≡◌, refl, ◌∙◌, ◌⊎◌, true, false, none, some, List, [], arith, has, lookup, insert,
  lookup-insert, length, elem, ltb, ◌==◌, nat_eq, Bytes, bytes_eq,
}
use fabric_x_evm_lfx.Gateway.TxQueueV2.{
  TxView, participants_for_tx, Heap, TxQueueV2, waits_at, hash_at, blockers, participants_at,
  conflicting, waiting_to_block, wait_for, make_wait, at_participant, sharing, new_entry,
}
use fabric_x_evm_lfx.Gateway.TxQueueV2.Links.{
  face, participants_at-face, waits_at-face, hash_at-face, has-face, face-wait_for, face-make_wait,
  elem-blockers-wait_for, elem-blockers-make_wait,
}

-- Of two tracked transactions that share a participant one waits for the other, and what is ready or in
-- progress waits for nothing.
pub record IsExclusive {T : Type 0} (q : TxQueueV2 T) : Type 0 where
  pub stored : (h : Bytes) (i : ℕ) → lookup h q.hash_map ≡ some i → hash_at i q.heap ≡ some h
  pub unused : (i : ℕ) → q.next_id ≤ i → lookup i q.heap ≡ none
  pub free :
      (h : Bytes) (i : ℕ)
      → lookup h q.hash_map ≡ some i
      → waits_at i q.heap ≡ false
      → blockers i q.heap ≡ []
  pub listed :
      (i : ℕ) → elem i q.ready_list ≡ true → (has i q.heap ≡ true) × (waits_at i q.heap ≡ false)
  pub filed :
      (h : Bytes) (i : ℕ) (p : Bytes)
      → lookup h q.hash_map ≡ some i
      → elem p (participants_at i q.heap) ≡ true
      → elem i (at_participant p q.participant_map) ≡ true
  pub linked :
      (h k : Bytes) (i j : ℕ) (p : Bytes)
      → lookup h q.hash_map ≡ some i
      → lookup k q.hash_map ≡ some j
      → (i == j) ≡ false
      → elem p (participants_at i q.heap) ≡ true
      → elem p (participants_at j q.heap) ≡ true
      → (elem j (blockers i q.heap) ≡ true) ⊎ (elem i (blockers j q.heap) ≡ true)

module _ {T : Type 0} (view : TxView T) (tx : T) (q : TxQueueV2 T) (w : IsExclusive q) where
  abbrev pub conflicts : List ℕ
  conflicts = conflicting q.heap (sharing q.participant_map (participants_for_tx view tx))

  abbrev pub blocked_waiting : List ℕ
  blocked_waiting =
      waiting_to_block q.heap (sharing q.participant_map (participants_for_tx view tx))

  abbrev pub heap₀ : Heap T
  heap₀ = insert q.next_id (new_entry view tx (ltb 0 (length conflicts))) q.heap

  abbrev pub heap₁ : Heap T
  heap₁ = wait_for q.next_id conflicts heap₀

  abbrev pub heap₂ : Heap T
  heap₂ = make_wait q.next_id blocked_waiting heap₁

  pub face_kept : (j : ℕ) → face j heap₂ ≡ face j heap₀
  face_kept j =
      face-make_wait q.next_id blocked_waiting j heap₁ ∙ face-wait_for q.next_id conflicts j heap₀

  pub old : (j : ℕ) → (q.next_id == j) ≡ false → lookup j heap₀ ≡ lookup j q.heap
  old j apart =
      lookup-insert q.next_id j (new_entry view tx (ltb 0 (length conflicts))) q.heap
      ∙ rw apart refl

  pub new : lookup q.next_id heap₀ ≡ some (new_entry view tx (ltb 0 (length conflicts)))
  new =
      lookup-insert q.next_id q.next_id (new_entry view tx (ltb 0 (length conflicts))) q.heap
      ∙ ground arith

  pub face_old : (j : ℕ) → (q.next_id == j) ≡ false → face j heap₂ ≡ face j q.heap
  face_old j apart = face_kept j ∙ ground (arith, old j apart)

  pub apart_from_new : (h : Bytes) (j : ℕ) → lookup h q.hash_map ≡ some j → (q.next_id == j) ≡ false
  unfolding hash_at
  apart_from_new h j e = ground (arith, w.stored h j e, w.unused j, w.unused q.next_id)

  pub waits_at_new : waits_at q.next_id heap₂ ≡ ltb 0 (length conflicts)
  unfolding waits_at new_entry
  waits_at_new = waits_at-face q.next_id heap₂ heap₀ (face_kept q.next_id) ∙ ground (arith, new)

  pub participants_at_new : participants_at q.next_id heap₂ ≡ participants_for_tx view tx
  unfolding participants_at new_entry
  participants_at_new =
      participants_at-face q.next_id heap₂ heap₀ (face_kept q.next_id) ∙ ground (arith, new)

  pub hash_at_new : hash_at q.next_id heap₂ ≡ some (view.hash tx)
  unfolding hash_at new_entry
  hash_at_new = hash_at-face q.next_id heap₂ heap₀ (face_kept q.next_id) ∙ ground (arith, new)

  pub blockers_old :
      (j x : ℕ)
      → (q.next_id == j) ≡ false
      → elem x (blockers j q.heap) ≡ true
      → elem x (blockers j heap₂) ≡ true
  unfolding blockers
  blockers_old j x apart e =
      elem-blockers-make_wait q.next_id blocked_waiting j x heap₁
      ∙ ground (arith, elem-blockers-wait_for q.next_id conflicts j x heap₀, old j apart)

  pub present : (k : Bytes) (j : ℕ) → lookup k q.hash_map ≡ some j → has j heap₁ ≡ true
  unfolding hash_at
  present k j e =
      has-face j heap₁ heap₀ (face-wait_for q.next_id conflicts j heap₀)
      ∙ ground (arith, old j (apart_from_new k j e), w.stored k j e)
