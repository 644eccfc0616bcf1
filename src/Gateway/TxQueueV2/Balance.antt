-- ===== src/Gateway/TxQueueV2/Balance.antt =====
-- gateway/core/txqueue_v2.go: the two lists of a dependency, `blocks` and `isBlockedBy`, counted against each other.
use fabric_x_evm_lfx.Prelude.{
  ℕ, ◌+◌, ◌-◌, ◌≡◌, refl, sym, ap, ◌∙◌, inl, inr, true, ◌&&◌, List, [], ◌∷◌, ◌++◌, arith, Map, has,
  lookup, insert, erase, lookup-insert, lookup-erase, length, elem, elem-append, swap_remove, count,
  count-append, count-swap_remove, ◌==◌, if◌then◌else◌, Bool-cases, Option-cases, nat_eq, Bytes,
  bytes_beq_iff, bytes_eq,
}
use fabric_x_evm_lfx.Gateway.TxQueueV2.{
  TxEntry, Heap, update, blockers, blocked, link, wait_for, make_wait, at_participant, sharing,
  file, unfile,
}
use fabric_x_evm_lfx.Gateway.TxQueueV2.Links.{lookup-update, has-face, face-link, blockers-link}

module _ {T : Type 0} where
  blocked-link :
      (w c j : ℕ) (heap : Heap T)
      → blocked j (link w c heap)
        ≡ (if c == j && has c heap then blocked j heap ++ w ∷ [] else blocked j heap)
  unfolding link blocked
  blocked-link w c j heap =
      let waiting_side =
        λ (x : TxEntry T). record x { is_blocked_by = x.is_blocked_by ++ c ∷ [] } in
      let blocking_side = λ (x : TxEntry T). record x { blocks = x.blocks ++ w ∷ [] } in
      ground (
        arith,
        lookup-update c j blocking_side (update w waiting_side heap),
        lookup-update w j waiting_side heap,
        ap (λ k. lookup k heap),
      )

  count-blockers-link :
      (w c j x : ℕ) (heap : Heap T)
      → count x (blockers j (link w c heap))
        ≡ count x (blockers j heap) + (if w == j && has w heap && (c == x) then 1 else 0)
  count-blockers-link w c j x heap =
      ap (count x) (blockers-link w c j heap)
      ∙ ground (arith, count-append x (blockers j heap) (c ∷ []))

  count-blocked-link :
      (w c j x : ℕ) (heap : Heap T)
      → count j (blocked x (link w c heap))
        ≡ count j (blocked x heap) + (if c == x && has c heap && (w == j) then 1 else 0)
  count-blocked-link w c j x heap =
      ap (count j) (blocked-link w c x heap)
      ∙ ground (arith, count-append j (blocked x heap) (w ∷ []))

  -- An entry waits as often for another as that one blocks it.
  abbrev pub IsBalanced : ℕ → ℕ → Heap T → Type 0
  IsBalanced x b heap = count x (blockers b heap) ≡ count b (blocked x heap)

  link-IsBalanced :
      (w c x b : ℕ) (heap : Heap T)
      → has w heap ≡ true
      → has c heap ≡ true
      → IsBalanced x b heap
      → IsBalanced x b (link w c heap)
  link-IsBalanced w c x b heap hw hc e =
      count-blockers-link w c b x heap
      ∙ ground (arith, hw, hc)
      ∙ sym (count-blocked-link w c b x heap)

  has-link : (w c j : ℕ) (heap : Heap T) → has j (link w c heap) ≡ has j heap
  has-link w c j heap = has-face j (link w c heap) heap (face-link w c j heap)

  pub wait_for-IsBalanced :
      (i : ℕ) (cs : List ℕ) (x b : ℕ) (heap : Heap T)
      → has i heap ≡ true
      → ((c : ℕ) → elem c cs ≡ true → has c heap ≡ true)
      → IsBalanced x b heap
      → IsBalanced x b (wait_for i cs heap)
  unfolding wait_for
  wait_for-IsBalanced i [] x b heap hi all e = e
  wait_for-IsBalanced i (c ∷ cs) x b heap hi all e =
      wait_for-IsBalanced i cs x b (link i c heap) (has-link i c i heap ∙ hi)
        (λ d f. has-link i c d heap ∙ all d (ground (arith, f)))
        (link-IsBalanced i c x b heap hi (all c (ground arith)) e)

  pub make_wait-IsBalanced :
      (i : ℕ) (ws : List ℕ) (x b : ℕ) (heap : Heap T)
      → has i heap ≡ true
      → ((c : ℕ) → elem c ws ≡ true → has c heap ≡ true)
      → IsBalanced x b heap
      → IsBalanced x b (make_wait i ws heap)
  unfolding make_wait
  make_wait-IsBalanced i [] x b heap hi all e = e
  make_wait-IsBalanced i (c ∷ cs) x b heap hi all e =
      make_wait-IsBalanced i cs x b (link c i heap) (has-link c i i heap ∙ hi)
        (λ d f. has-link c i d heap ∙ all d (ground (arith, f)))
        (link-IsBalanced c i x b heap (all c (ground arith)) hi e)

pub count-file :
    (i : ℕ) (ps : List Bytes) (m : Map Bytes (List ℕ)) (p : Bytes) (j : ℕ)
    → count j (at_participant p (file i ps m))
      ≡ count j (at_participant p m) + (if i == j then count p ps else 0)
unfolding file at_participant
count-file i [] m p j = ground arith
count-file i (q ∷ ps) m p j =
    count-file i ps (insert q (at_participant q m ++ i ∷ []) m) p j
    ∙ ground (
      arith,
      lookup-insert q p (at_participant q m ++ i ∷ []) m,
      count-append j (at_participant q m) (i ∷ []),
      bytes_beq_iff q p,
      ap (λ r. count j (at_participant r m)),
    )

count-empty : (j : ℕ) (is : List ℕ) → (length is == 0) ≡ true → count j is ≡ 0
count-empty j [] e = refl
count-empty j (i ∷ is) e = absurd (ground arith)

-- An entry is taken out once for each time that it is filed.
pub count-unfile :
    (i : ℕ) (ps : List Bytes) (m : Map Bytes (List ℕ)) (p : Bytes) (j : ℕ)
    → count j (at_participant p (unfile i ps m))
      ≡ (if i == j then count j (at_participant p m) - count p ps else count j (at_participant p m))
unfolding unfile at_participant
count-unfile i [] m p j = ground arith
count-unfile i (q ∷ ps) m p j = elim (Option-cases (lookup q m)) [
  | inl nothing ↦
      rw (nothing, unfile)
        (count-unfile i ps m p j ∙ ground (arith, nothing, bytes_beq_iff q p, ap (λ r. lookup r m)))
  | inr (is, found) ↦
      let rest = swap_remove is i in
      let m' = if length rest == 0 then erase q m else insert q rest m in
      rw (found, unfile)
        (count-unfile i ps m' p j
          ∙ ground (
            arith,
            found,
            lookup-erase q p m,
            lookup-insert q p rest m,
            count-swap_remove i j is,
            count-empty j rest,
            bytes_beq_iff q p,
            ap (λ r. lookup r m),
          ))
]

pub elem-sharing_some :
    (m : Map Bytes (List ℕ)) (ps : List Bytes) (i : ℕ)
    → elem i (sharing m ps) ≡ true
    → (p : Bytes) × (elem i (at_participant p m) ≡ true)
unfolding sharing
elem-sharing_some m [] i e = absurd (ground arith)
elem-sharing_some m (q ∷ ps) i e = elim (Bool-cases (elem i (at_participant q m))) [
  | inl here ↦ (q, here)
  | inr later ↦
      elem-sharing_some m ps i (ground (arith, elem-append i (at_participant q m) (sharing m ps)))
]
