-- ===== src/Gateway/Nonce/Releasing.antt =====
-- gateway/core/nonce_parking.go: what `Observe` releases and drops for a sender.
use fabric_x_evm_lfx.Prelude.{
  ℕ, ◌+◌, ◌%◌, ◌^◌, ◌≡◌, refl, ap, ap₂, ◌∙◌, inl, inr, ◌&&◌, Option, none, some, [], ◌∷◌, arith,
  Map, has, lookup, insert, lookup-insert, Outcome, ok, err, ltb, leb, ◌==◌, if◌then◌else◌,
  Option-cases, Outcome-cases, nat_eq, Bytes, bytes_beq, bytes_beq_iff, bytes_eq,
}
use fabric_x_evm_lfx.Gateway.Data.{QueueError}
use fabric_x_evm_lfx.Gateway.Nonce.{
  ExpectedNonce, ParkedTx, SenderState, NonceGate, TxOps, entry_of, acquire, unpark,
  parked_at_nonce, raise_next, raise, see, set_senders, drop_spent, promote, advance,
}
use fabric_x_evm_lfx.Gateway.Nonce.Filing.{
  parked_of, parked_of-update, parked_of-release, lookup-without,
}
use fabric_x_evm_lfx.Gateway.Nonce.Admission.{unpark-found, unpark-nothing}

-- The queue once a transaction was offered to it.
abbrev pub offered : {T Q : Type 0} → (T → Q → Outcome QueueError Q) → Option (ParkedTx T) → Q → Q
offered enqueue p queue = elim p [
  | none ↦ queue
  | some p ↦ elim (enqueue p.tx queue) [ ok q ↦ q | err e ↦ queue ]
]

module _ {T Q : Type 0} (ops : TxOps T) where
  lookup-unpark :
      (a b : Bytes) (n m : ℕ) (g : NonceGate T Q)
      → lookup m (parked_of (unpark ops a n g).senders b)
        ≡ (if bytes_beq a b && (n == m) then none else lookup m (parked_of g.senders b))
  lookup-unpark a b n m g = elim (Option-cases (lookup n (parked_of g.senders a))) [
    | inl nothing ↦
        ap (λ (g' : NonceGate T Q). lookup m (parked_of g'.senders b))
          (unpark-nothing ops a n g nothing)
        ∙ ground (
          arith,
          nothing,
          bytes_beq_iff a b,
          ap (λ c. lookup m (parked_of g.senders c)),
          ap (λ j. lookup j (parked_of g.senders a)),
        )
    | inr (p, found) ↦
        ap (λ (g' : NonceGate T Q). lookup m (parked_of g'.senders b))
          (unpark-found ops a n p g found)
        ∙ lookup-without ops g.max_per_sender g.senders g.by_hash a b n m
  ]

  module _ (enqueue : T → Q → Outcome QueueError Q) where
    lookup-drop_spent :
        (a b : Bytes) (next m : ℕ) (nonces : Map ℕ (ParkedTx T)) (g : NonceGate T Q)
        → lookup m (parked_of (drop_spent ops enqueue a next nonces g).senders b) ≡ (
            if bytes_beq a b && ltb m next && has m nonces
            then none
            else lookup m (parked_of g.senders b))
    unfolding drop_spent lookup
    lookup-drop_spent a b next m [] g = ground arith
    lookup-drop_spent a b next m ((n, p) ∷ nonces) g =
        lookup-drop_spent a b next m nonces (if ltb n next then unpark ops a n g else g)
        ∙ ground (arith, lookup-unpark a b n m g)

    unpark-queue : (a : Bytes) (n : ℕ) (g : NonceGate T Q) → (unpark ops a n g).queue ≡ g.queue
    unfolding unpark
    unpark-queue a n g = ground arith

    drop_spent-queue :
        (a : Bytes) (next : ℕ) (nonces : Map ℕ (ParkedTx T)) (g : NonceGate T Q)
        → (drop_spent ops enqueue a next nonces g).queue ≡ g.queue
    unfolding drop_spent
    drop_spent-queue a next [] g = refl
    drop_spent-queue a next ((n, p) ∷ nonces) g =
        drop_spent-queue a next nonces (if ltb n next then unpark ops a n g else g)
        ∙ ground (arith, unpark-queue a n g)

    promote-senders :
        (a : Bytes) (next : ℕ) (g : NonceGate T Q)
        → (promote ops enqueue a next g).senders ≡ (unpark ops a next g).senders
    unfolding promote
    promote-senders a next g = elim (Option-cases (parked_at_nonce ops a next g)) [
      | inl nothing ↦ rw (nothing, promote) refl
      | inr (tx, found) ↦ elim (Outcome-cases (enqueue tx (unpark ops a next g).queue)) [
        | inl (q, e) ↦ rw (found, e, promote) refl
        | inr (x, e) ↦ rw (found, e, promote) refl
      ]
    ]

    at_nonce-nothing :
        (a : Bytes) (n : ℕ) (g : NonceGate T Q)
        → lookup n (parked_of g.senders a) ≡ none
        → parked_at_nonce ops a n g ≡ none
    unfolding parked_at_nonce
    at_nonce-nothing a n g e = ground (arith, e)

    at_nonce-found :
        (a : Bytes) (n : ℕ) (p : ParkedTx T) (g : NonceGate T Q)
        → lookup n (parked_of g.senders a) ≡ some p
        → parked_at_nonce ops a n g ≡ some p.tx
    unfolding parked_at_nonce
    at_nonce-found a n p g e = ground (arith, e)

    promote-queue :
        (a : Bytes) (next : ℕ) (g : NonceGate T Q)
        → (promote ops enqueue a next g).queue
          ≡ offered enqueue (lookup next (parked_of g.senders a)) g.queue
    unfolding promote
    promote-queue a next g = elim (Option-cases (lookup next (parked_of g.senders a))) [
      | inl nothing ↦
          rw nothing (rw (at_nonce-nothing a next g nothing, promote) (unpark-queue a next g))
      | inr (p, found) ↦
          let q' = unpark-queue a next g in
          elim (Outcome-cases (enqueue p.tx g.queue)) [
            | inl (q, e) ↦
                rw (found, offered, e)
                  (rw (at_nonce-found a next p g found, promote, ap (enqueue p.tx) q' ∙ e) refl)
            | inr (x, e) ↦
                rw (found, offered, e)
                  (rw (at_nonce-found a next p g found, promote, ap (enqueue p.tx) q' ∙ e) q')
          ]
    ]

    -- The gate before the transactions of one sender are gone through.
    abbrev advanced : Bytes → ℕ → ℕ → NonceGate T Q → NonceGate T Q
    advanced a n now g =
        see a now (raise_next a ((n + 1) % 2 ^ 64) (set_senders (acquire a g.senders) g))

    pub entry_of-insert :
        (a : Bytes) (ss : SenderState T) (senders : Map Bytes (SenderState T))
        → entry_of a (insert a ss senders) ≡ ss
    unfolding entry_of
    entry_of-insert a ss senders =
        ground (arith, lookup-insert a a ss senders, (bytes_beq_iff a a).1 refl)

    advanced-parked :
        (a b : Bytes) (n now : ℕ) (g : NonceGate T Q)
        → parked_of (advanced a n now g).senders b ≡ parked_of g.senders b
    unfolding see raise_next acquire
    advanced-parked a b n now g =
        let next = (n + 1) % 2 ^ 64 in
        let s₁ = acquire a g.senders in
        let s₂ = (raise_next a next (set_senders s₁ g)).senders in
        parked_of-update a b (record (entry_of a s₂) { last_seen = now }) s₂ refl
        ∙ parked_of-update a b (record (entry_of a s₁) { next = raise next (entry_of a s₁).next })
            s₁ refl
        ∙ parked_of-update a b
            (record (entry_of a g.senders) { refs = (entry_of a g.senders).refs + 1 }) g.senders
            refl

    advanced-next :
        (a : Bytes) (n now : ℕ) (g : NonceGate T Q)
        → (entry_of a (advanced a n now g).senders).next
          ≡ raise ((n + 1) % 2 ^ 64) (entry_of a g.senders).next
    unfolding see raise_next acquire
    advanced-next a n now g =
        let next = (n + 1) % 2 ^ 64 in
        let ss = record (entry_of a g.senders) { refs = (entry_of a g.senders).refs + 1 } in
        let s₁ = insert a ss g.senders in
        let ss₂ = record (entry_of a s₁) { next = raise next (entry_of a s₁).next } in
        let s₂ = insert a ss₂ s₁ in
        let ss₃ = record (entry_of a s₂) { last_seen = now } in
        ap (λ (s : SenderState T). s.next) (entry_of-insert a ss₃ s₂)
        ∙ ap (λ (s : SenderState T). s.next) (entry_of-insert a ss₂ s₁)
        ∙ ap (λ (s : SenderState T). raise next s.next) (entry_of-insert a ss g.senders)

    -- A sender's entry is gone through from a gate `g`.
    released_at :
        (a b : Bytes) (next m : ℕ) (g : NonceGate T Q)
        → lookup m (
            parked_of
              (promote ops enqueue a next
                (drop_spent ops enqueue a next (parked_of g.senders a) g)).senders
              b)
          ≡ (if bytes_beq a b && leb m next then none else lookup m (parked_of g.senders b))
    released_at a b next m g =
        let g₂ = drop_spent ops enqueue a next (parked_of g.senders a) g in
        ap (λ s. lookup m (parked_of s b)) (promote-senders a next g₂)
        ∙ lookup-unpark a b next m g₂
        ∙ ground (
          arith,
          lookup-drop_spent a b next m (parked_of g.senders a) g,
          bytes_beq_iff a b,
          ap (λ c. lookup m (parked_of g.senders c)),
        )

    queue_at :
        (a : Bytes) (next : ℕ) (g : NonceGate T Q)
        → (promote ops enqueue a next
            (drop_spent ops enqueue a next (parked_of g.senders a) g)).queue
          ≡ offered enqueue (lookup next (parked_of g.senders a)) g.queue
    queue_at a next g =
        let g₂ = drop_spent ops enqueue a next (parked_of g.senders a) g in
        promote-queue a next g₂
        ∙ ap₂ (offered enqueue)
            (lookup-drop_spent a a next next (parked_of g.senders a) g ∙ ground arith)
            (drop_spent-queue a next (parked_of g.senders a) g)

    -- The next nonce of a sender after a commit of the nonce `n`.
    abbrev pub next_after : Bytes → ℕ → NonceGate T Q → ℕ
    next_after a n g = (raise ((n + 1) % 2 ^ 64) (entry_of a g.senders).next).nonce

    -- After a commit of the nonce `n` of a sender, nothing that the sender has parked up to its next nonce is
    -- parked any more, and all that is parked above it, or for other senders, is parked as before.
    pub advance-parked :
        (a b : Bytes) (n m now : ℕ) (g : NonceGate T Q)
        → lookup m (parked_of (advance ops enqueue a n now g).senders b) ≡ (
            if bytes_beq a b && leb m (next_after a n g)
            then none
            else lookup m (parked_of g.senders b))
    unfolding advance
    advance-parked a b n m now g =
        let g₁ = advanced a n now g in
        let next = (entry_of a g₁.senders).next.nonce in
        let g₃ =
          promote ops enqueue a next (drop_spent ops enqueue a next (parked_of g₁.senders a) g₁) in
        ap (lookup m) (parked_of-release a b g₃.senders)
        ∙ released_at a b next m g₁
        ∙ ap₂ (λ (e : ExpectedNonce) q. if bytes_beq a b && leb m e.nonce then none else lookup m q)
            (advanced-next a n now g) (advanced-parked a b n now g)

    -- A commit of the nonce `n` of a sender offers to the queue the transaction that the sender has parked at
    -- its next nonce, if there is one, and no other.
    pub advance-queue :
        (a : Bytes) (n now : ℕ) (g : NonceGate T Q)
        → (advance ops enqueue a n now g).queue
          ≡ offered enqueue (lookup (next_after a n g) (parked_of g.senders a)) g.queue
    unfolding advance see raise_next
    advance-queue a n now g =
        let g₁ = advanced a n now g in
        queue_at a (entry_of a g₁.senders).next.nonce g₁
        ∙ ap₂ (λ (e : ExpectedNonce) q. offered enqueue (lookup e.nonce q) g.queue)
            (advanced-next a n now g) (advanced-parked a a n now g)
