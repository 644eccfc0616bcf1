-- ===== src/Gateway/TxQueueV2/Links.antt =====
-- gateway/core/txqueue_v2.go: what the links of `Enqueue` and `completeUnlocked` do to the entries.
use fabric_x_evm_lfx.Prelude.{
  ℕ, ◌≡◌, refl, ap, ◌∙◌, inl, inr, Bool, true, false, not, ◌&&◌, ◌||◌, Option, none, some, List, [],
  ◌∷◌, ◌++◌, arith, Map, has, lookup, insert, erase, lookup-insert, lookup-erase, length, elem,
  elem-append, swap_remove, elem-swap_remove, ◌==◌, if◌then◌else◌, Option-cases, nat_eq, Bytes,
  bytes_beq_iff, bytes_eq,
}
use fabric_x_evm_lfx.Gateway.TxQueueV2.{
  TxEntry, is_waiting, Heap, update, waits_at, hash_at, blockers, participants_at, conflicting,
  waiting_to_block, link, wait_for, make_wait, at_participant, sharing, file, unfile,
}

module _ {T : Type 0} where
  pub lookup-update :
      (i j : ℕ) (f : TxEntry T → TxEntry T) (heap : Heap T)
      → lookup j (update i f heap) ≡ (
          if i == j
          then elim (lookup j heap) [ none ↦ none | some x ↦ some (f x) ]
          else lookup j heap)
  unfolding update
  lookup-update i j f heap = elim (Option-cases (lookup i heap)) [
    | inl nothing ↦ ground (arith, nothing, ap (λ k. lookup k heap))
    | inr (x, found) ↦ ground (arith, found, lookup-insert i j (f x) heap, ap (λ k. lookup k heap))
  ]

  -- An entry without its links.
  abbrev pub face : ℕ → Heap T → Option (TxEntry T)
  face i heap = elim (lookup i heap) [
    | none ↦ none
    | some x ↦ some (record x { blocks = []; is_blocked_by = [] })
  ]

  pub participants_at-face :
      (i : ℕ) (h h' : Heap T) → face i h ≡ face i h' → participants_at i h ≡ participants_at i h'
  unfolding participants_at
  participants_at-face i h h' e =
      let parts : Option (TxEntry T) → List Bytes =
        λ o. elim o [ none ↦ [] | some x ↦ x.participants ] in
      ground (arith, ap parts e)

  pub waits_at-face : (i : ℕ) (h h' : Heap T) → face i h ≡ face i h' → waits_at i h ≡ waits_at i h'
  unfolding waits_at
  waits_at-face i h h' e =
      let state : Option (TxEntry T) → Bool =
        λ o. elim o [ none ↦ false | some x ↦ is_waiting x.state ] in
      ground (arith, ap state e)

  pub hash_at-face : (i : ℕ) (h h' : Heap T) → face i h ≡ face i h' → hash_at i h ≡ hash_at i h'
  unfolding hash_at
  hash_at-face i h h' e =
      let hash : Option (TxEntry T) → Option Bytes =
        λ o. elim o [ none ↦ none | some x ↦ some x.tx_hash ] in
      ground (arith, ap hash e)

  pub has-face : (i : ℕ) (h h' : Heap T) → face i h ≡ face i h' → has i h ≡ has i h'
  has-face i h h' e = ground (arith, e)

  pub face-link : (w c j : ℕ) (heap : Heap T) → face j (link w c heap) ≡ face j heap
  unfolding link
  face-link w c j heap =
      let waiting_side =
        λ (x : TxEntry T). record x { is_blocked_by = x.is_blocked_by ++ c ∷ [] } in
      let blocking_side = λ (x : TxEntry T). record x { blocks = x.blocks ++ w ∷ [] } in
      ground (
        arith,
        lookup-update c j blocking_side (update w waiting_side heap),
        lookup-update w j waiting_side heap,
      )

  pub blockers-link :
      (w c j : ℕ) (heap : Heap T)
      → blockers j (link w c heap)
        ≡ (if w == j && has w heap then blockers j heap ++ c ∷ [] else blockers j heap)
  unfolding link blockers
  blockers-link w c j heap =
      let waiting_side =
        λ (x : TxEntry T). record x { is_blocked_by = x.is_blocked_by ++ c ∷ [] } in
      let blocking_side = λ (x : TxEntry T). record x { blocks = x.blocks ++ w ∷ [] } in
      ground (
        arith,
        lookup-update c j blocking_side (update w waiting_side heap),
        lookup-update w j waiting_side heap,
        ap (λ k. lookup k heap),
      )

  pub face-wait_for :
      (i : ℕ) (cs : List ℕ) (j : ℕ) (heap : Heap T) → face j (wait_for i cs heap) ≡ face j heap
  unfolding wait_for
  face-wait_for i [] j heap = refl
  face-wait_for i (c ∷ cs) j heap = face-wait_for i cs j (link i c heap) ∙ face-link i c j heap

  pub face-make_wait :
      (i : ℕ) (ws : List ℕ) (j : ℕ) (heap : Heap T) → face j (make_wait i ws heap) ≡ face j heap
  unfolding make_wait
  face-make_wait i [] j heap = refl
  face-make_wait i (w ∷ ws) j heap = face-make_wait i ws j (link w i heap) ∙ face-link w i j heap

  pub blockers-wait_for_other :
      (i : ℕ) (cs : List ℕ) (j : ℕ) (heap : Heap T)
      → (i == j) ≡ false
      → blockers j (wait_for i cs heap) ≡ blockers j heap
  unfolding wait_for
  blockers-wait_for_other i [] j heap e = refl
  blockers-wait_for_other i (c ∷ cs) j heap e =
      blockers-wait_for_other i cs j (link i c heap) e ∙ blockers-link i c j heap ∙ ground arith

  pub blockers-make_wait_other :
      (i : ℕ) (ws : List ℕ) (j : ℕ) (heap : Heap T)
      → elem j ws ≡ false
      → blockers j (make_wait i ws heap) ≡ blockers j heap
  unfolding make_wait
  blockers-make_wait_other i [] j heap e = refl
  blockers-make_wait_other i (w ∷ ws) j heap e =
      blockers-make_wait_other i ws j (link w i heap) (ground arith)
      ∙ blockers-link w i j heap
      ∙ ground arith

  elem-blockers-link :
      (w c j x : ℕ) (heap : Heap T)
      → elem x (blockers j (link w c heap))
        ≡ (elem x (blockers j heap) || (w == j && has w heap && (c == x)))
  elem-blockers-link w c j x heap =
      ap (elem x) (blockers-link w c j heap)
      ∙ ground (arith, elem-append x (blockers j heap) (c ∷ []))

  pub elem-blockers-wait_for :
      (i : ℕ) (cs : List ℕ) (j x : ℕ) (heap : Heap T)
      → elem x (blockers j (wait_for i cs heap))
        ≡ (elem x (blockers j heap) || (i == j && has i heap && elem x cs))
  unfolding wait_for
  elem-blockers-wait_for i [] j x heap = ground arith
  elem-blockers-wait_for i (c ∷ cs) j x heap =
      elem-blockers-wait_for i cs j x (link i c heap)
      ∙ ground (
        arith,
        elem-blockers-link i c j x heap,
        has-face i (link i c heap) heap (face-link i c i heap),
      )

  pub elem-blockers-make_wait :
      (i : ℕ) (ws : List ℕ) (j x : ℕ) (heap : Heap T)
      → elem x (blockers j (make_wait i ws heap))
        ≡ (elem x (blockers j heap) || (i == x && elem j ws && has j heap))
  unfolding make_wait
  elem-blockers-make_wait i [] j x heap = ground arith
  elem-blockers-make_wait i (w ∷ ws) j x heap =
      elem-blockers-make_wait i ws j x (link w i heap)
      ∙ ground (
        arith,
        elem-blockers-link w i j x heap,
        has-face j (link w i heap) heap (face-link w i j heap),
        ap (λ k. has k heap),
      )

  pub elem-conflicting :
      (heap : Heap T) (is : List ℕ) (x : ℕ)
      → elem x (conflicting heap is) ≡ (elem x is && not (waits_at x heap))
  unfolding conflicting
  elem-conflicting heap [] x = refl
  elem-conflicting heap (i ∷ is) x = ground (
    arith,
    elem-conflicting heap is x,
    elem-conflicting heap is i,
    ap (λ k. waits_at k heap),
    ap (λ k. elem k is),
  )

  pub elem-waiting_to_block :
      (heap : Heap T) (is : List ℕ) (x : ℕ)
      → elem x (waiting_to_block heap is) ≡ (elem x is && waits_at x heap)
  unfolding waiting_to_block
  elem-waiting_to_block heap [] x = refl
  elem-waiting_to_block heap (i ∷ is) x =
      ground (arith, elem-waiting_to_block heap is x, ap (λ k. waits_at k heap))

pub elem-sharing :
    (m : Map Bytes (List ℕ)) (ps : List Bytes) (p : Bytes) (i : ℕ)
    → elem p ps ≡ true
    → elem i (at_participant p m) ≡ true
    → elem i (sharing m ps) ≡ true
unfolding sharing
elem-sharing m [] p i e f = absurd (ground arith)
elem-sharing m (q ∷ ps) p i e f =
    elem-append i (at_participant q m) (sharing m ps)
    ∙ ground
        (arith, elem-sharing m ps p i, bytes_beq_iff q p, ap (λ r. elem i (at_participant r m)))

pub elem-file :
    (i : ℕ) (ps : List Bytes) (m : Map Bytes (List ℕ)) (p : Bytes) (j : ℕ)
    → elem j (at_participant p (file i ps m))
      ≡ (elem j (at_participant p m) || (i == j && elem p ps))
unfolding file at_participant
elem-file i [] m p j = ground arith
elem-file i (q ∷ ps) m p j =
    elem-file i ps (insert q (at_participant q m ++ i ∷ []) m) p j
    ∙ ground (
      arith,
      lookup-insert q p (at_participant q m ++ i ∷ []) m,
      elem-append j (at_participant q m) (i ∷ []),
      bytes_beq_iff q p,
      ap (λ r. elem j (at_participant r m)),
    )

elem-empty : (j : ℕ) (is : List ℕ) → (length is == 0) ≡ true → elem j is ≡ false
elem-empty j [] e = refl
elem-empty j (i ∷ is) e = absurd (ground arith)

pub elem-unfile :
    (i : ℕ) (ps : List Bytes) (m : Map Bytes (List ℕ)) (p : Bytes) (j : ℕ)
    → (i == j) ≡ false
    → elem j (at_participant p (unfile i ps m)) ≡ elem j (at_participant p m)
unfolding unfile at_participant
elem-unfile i [] m p j e = refl
elem-unfile i (q ∷ ps) m p j e = elim (Option-cases (lookup q m)) [
  | inl nothing ↦ rw (nothing, unfile) (elem-unfile i ps m p j e)
  | inr (is, found) ↦
      let rest = swap_remove is i in
      let m' = if length rest == 0 then erase q m else insert q rest m in
      rw (found, unfile)
        (elem-unfile i ps m' p j e
          ∙ ground (
            arith,
            found,
            lookup-erase q p m,
            lookup-insert q p rest m,
            elem-swap_remove i j is e,
            elem-empty j rest,
            bytes_beq_iff q p,
            ap (λ r. lookup r m),
          ))
]
