-- ===== src/Gateway/Nonce/Advancing.antt =====
-- gateway/core/nonce_parking.go: runs of `Admit` and `Observe`, with what others do while `Admit` reads the store.
use fabric_x_evm_lfx.Prelude.{
  ℕ, ◌+◌, ◌%◌, ◌^◌, ◌≡◌, refl, sym, subst, inl, inr, Bool, Option, none, some, List, [], ◌∷◌, arith,
  Map, lookup, Outcome, err, ltb, Bool-cases, Option-cases, Outcome-cases, nat_eq, Bytes, bytes_eq,
}
use fabric_x_evm_lfx.Gateway.Data.{Transaction, QueueError}
use fabric_x_evm_lfx.Gateway.Nonce.{
  value, ParkedTx, NonceGate, TxOps, unknown_sender, nonce_unavailable, new_nonce_gate, entry_of,
  acquire, release, unpark, parked_at_nonce, raise_next, see, set_senders, place, released, admit,
  drop_spent, promote, advance, advance_all, highest_nonces, observe,
}
use fabric_x_evm_lfx.Gateway.Nonce.Filing.{IsFiling-acquire, IsFiling-release}
use fabric_x_evm_lfx.Gateway.Nonce.Admission.{
  IsConsistent, unpark-IsConsistent, raise_next-IsConsistent, see-IsConsistent, place-IsConsistent,
}

module _ {T Q : Type 0} (ops : TxOps T) where
  acquire-IsConsistent :
      (a : Bytes) (g : NonceGate T Q)
      → IsConsistent ops g
      → IsConsistent ops (set_senders (acquire a g.senders) g)
  acquire-IsConsistent a g = IsFiling-acquire ops g.max_per_sender g.senders g.by_hash a

  release-IsConsistent :
      (a : Bytes) (g : NonceGate T Q)
      → IsConsistent ops g
      → IsConsistent ops (set_senders (release a g.senders) g)
  release-IsConsistent a g = IsFiling-release ops g.max_per_sender g.senders g.by_hash a

  -- The queue is no part of it.
  requeued-IsConsistent :
      (q : Q) (g : NonceGate T Q) → IsConsistent ops g → IsConsistent ops (record g { queue = q })
  requeued-IsConsistent q g w = record {
    filed = w.filed;
    indexed = w.indexed;
    bounded = w.bounded;
    single = w.single;
  }

  module _ (enqueue : T → Q → Outcome QueueError Q) where
    admit-unknown :
        (away : NonceGate T Q → NonceGate T Q) (seed : Option ℕ) (tx : T) (now : ℕ)
        (g : NonceGate T Q)
        → ops.sender tx ≡ none
        → admit ops enqueue away seed tx now g ≡ (err unknown_sender, g)
    unfolding admit
    admit-unknown away seed tx now g e = ground (arith, e)

    pub admit-known :
        (away : NonceGate T Q → NonceGate T Q) (seed : Option ℕ) (tx : T) (now : ℕ)
        (g : NonceGate T Q) (a : Bytes) (n : ℕ)
        → ops.sender tx ≡ some a
        → value (entry_of a (acquire a g.senders)).next ≡ some n
        → admit ops enqueue away seed tx now g
          ≡ released a (place ops enqueue a tx now (set_senders (acquire a g.senders) g))
    unfolding admit
    admit-known away seed tx now g a n e k = rw (e, k, admit) refl

    admit-unread :
        (away : NonceGate T Q → NonceGate T Q) (tx : T) (now : ℕ) (g : NonceGate T Q) (a : Bytes)
        → ops.sender tx ≡ some a
        → value (entry_of a (acquire a g.senders)).next ≡ none
        → admit ops enqueue away none tx now g
          ≡ released a (err nonce_unavailable, away (set_senders (acquire a g.senders) g))
    unfolding admit
    admit-unread away tx now g a e k = rw (e, k, admit) refl

    admit-read :
        (away : NonceGate T Q → NonceGate T Q) (n : ℕ) (tx : T) (now : ℕ) (g : NonceGate T Q)
        (a : Bytes)
        → ops.sender tx ≡ some a
        → value (entry_of a (acquire a g.senders)).next ≡ none
        → admit ops enqueue away (some n) tx now g
          ≡ released a (
              place ops enqueue a tx now
                (raise_next a n (away (set_senders (acquire a g.senders) g))))
    unfolding admit
    admit-read away n tx now g a e k = rw (e, k, admit) refl

    module _ (hash-injective : (t t' : T) → ops.hash t ≡ ops.hash t' → t ≡ t') where
      -- Where hashes do not collide, and what others do during the read of the store keeps the parked
      -- transactions and their index in step, so does `Admit`, whatever its outcome: each parked transaction
      -- is filed under its sender and nonce and is in the index, the index holds no other, and no sender has more
      -- parked than the limit.
      pub admit-IsConsistent :
          (away : NonceGate T Q → NonceGate T Q) (seed : Option ℕ) (tx : T) (now : ℕ)
          (g : NonceGate T Q)
          → ((h : NonceGate T Q) → IsConsistent ops h → IsConsistent ops (away h))
          → IsConsistent ops g
          → IsConsistent ops (admit ops enqueue away seed tx now g).1
      admit-IsConsistent away seed tx now g keeps w = elim (Option-cases (ops.sender tx)) [
        | inl unknown ↦
            subst (λ r. IsConsistent ops r.1) (sym (admit-unknown away seed tx now g unknown)) w
        | inr (a, s) ↦
            let g₁ = set_senders (acquire a g.senders) g in
            let held : IsConsistent ops g₁ = acquire-IsConsistent a g w in
            elim (Option-cases (value (entry_of a g₁.senders).next)) [
              | inr (n, known) ↦
                  subst (λ r. IsConsistent ops r.1)
                    (sym (admit-known away seed tx now g a n s known))
                    (release-IsConsistent a (place ops enqueue a tx now g₁).1
                      (place-IsConsistent ops hash-injective enqueue a tx now g₁ s held))
              | inl unread ↦ elim (Option-cases seed) [
                | inl failed ↦ rw failed (
                    subst (λ r. IsConsistent ops r.1) (sym (admit-unread away tx now g a s unread))
                      (release-IsConsistent a (away g₁) (keeps g₁ held)))
                | inr (n, read) ↦
                    let g₂ = raise_next a n (away g₁) in
                    rw read (
                      subst (λ r. IsConsistent ops r.1)
                        (sym (admit-read away n tx now g a s unread))
                        (release-IsConsistent a (place ops enqueue a tx now g₂).1 (
                          place-IsConsistent ops hash-injective enqueue a tx now g₂ s
                            (raise_next-IsConsistent ops a n (away g₁) (keeps g₁ held)))))
              ]
            ]
      ]

    drop_spent-IsConsistent :
        (a : Bytes) (next : ℕ) (nonces : Map ℕ (ParkedTx T)) (g : NonceGate T Q)
        → IsConsistent ops g
        → IsConsistent ops (drop_spent ops enqueue a next nonces g)
    unfolding drop_spent
    drop_spent-IsConsistent a next [] g w = w
    drop_spent-IsConsistent a next ((n, p) ∷ nonces) g w = elim (Bool-cases (ltb n next)) [
      | inl below ↦
          rw (below, drop_spent)
            (drop_spent-IsConsistent a next nonces (unpark ops a n g)
              (unpark-IsConsistent ops a n g w))
      | inr above ↦ rw (above, drop_spent) (drop_spent-IsConsistent a next nonces g w)
    ]

    promote-IsConsistent :
        (a : Bytes) (next : ℕ) (g : NonceGate T Q)
        → IsConsistent ops g
        → IsConsistent ops (promote ops enqueue a next g)
    unfolding promote
    promote-IsConsistent a next g w =
        let left = unpark-IsConsistent ops a next g w in
        let g' = unpark ops a next g in
        elim (Option-cases (parked_at_nonce ops a next g)) [
          | inl nothing ↦ rw (nothing, promote) left
          | inr (tx, found) ↦ elim (Outcome-cases (enqueue tx g'.queue)) [
            | inl (q, e) ↦ rw (found, e, promote) (requeued-IsConsistent q g' left)
            | inr (x, e) ↦ rw (found, e, promote) left
          ]
        ]

    advance-IsConsistent :
        (a : Bytes) (n now : ℕ) (g : NonceGate T Q)
        → IsConsistent ops g
        → IsConsistent ops (advance ops enqueue a n now g)
    unfolding advance
    advance-IsConsistent a n now g w =
        let next = (n + 1) % 2 ^ 64 in
        let g₀ = set_senders (acquire a g.senders) g in
        let g₁ = see a now (raise_next a next g₀) in
        let ss = entry_of a g₁.senders in
        let g₂ = drop_spent ops enqueue a ss.next.nonce ss.parked g₁ in
        let g₃ = promote ops enqueue a ss.next.nonce g₂ in
        let w₁ : IsConsistent ops g₁ =
          see-IsConsistent ops a now (raise_next a next g₀)
            (raise_next-IsConsistent ops a next g₀ (acquire-IsConsistent a g w)) in
        release-IsConsistent a g₃ (
          promote-IsConsistent a ss.next.nonce g₂
            (drop_spent-IsConsistent a ss.next.nonce ss.parked g₁ w₁))

    advance_all-IsConsistent :
        (highest : Map Bytes ℕ) (now : ℕ) (g : NonceGate T Q)
        → IsConsistent ops g
        → IsConsistent ops (advance_all ops enqueue highest now g)
    unfolding advance_all
    advance_all-IsConsistent [] now g w = w
    advance_all-IsConsistent ((a, n) ∷ highest) now g w =
        advance_all-IsConsistent highest now (advance ops enqueue a n now g)
          (advance-IsConsistent a n now g w)

    pub observe-IsConsistent :
        (bytes_to_address : Bytes → Bytes) (valid : ℕ → Bool) (committed : List Transaction)
        (now : ℕ) (g : NonceGate T Q)
        → IsConsistent ops g
        → IsConsistent ops (observe ops enqueue bytes_to_address valid committed now g)
    unfolding observe
    observe-IsConsistent bytes_to_address valid committed now g =
        advance_all-IsConsistent (highest_nonces ops enqueue bytes_to_address valid committed [])
          now g

module _ {T Q : Type 0} (ops : TxOps T) where
  pub new_nonce_gate-IsConsistent : (queue : Q) → IsConsistent ops (new_nonce_gate queue)
  unfolding new_nonce_gate entry_of lookup
  new_nonce_gate-IsConsistent queue = record {
    filed = λ a n p e. absurd (ground arith);
    indexed = λ h tx e. absurd (ground arith);
    bounded = λ a. omega arith;
    single = λ a. tt;
  }
