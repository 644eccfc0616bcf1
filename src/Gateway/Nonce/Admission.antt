-- ===== src/Gateway/Nonce/Admission.antt =====
-- gateway/core/nonce_parking.go: `Admit` and `Observe` keep the parked transactions and their index in step.
use fabric_x_evm_lfx.Prelude.{
  ℕ, ◌≤◌, ◌<◌, ◌≡◌, refl, sym, ap, subst, ◌∙◌, ◌⊎◌, inl, inr, true, not, ◌&&◌, none, some, arith,
  Map, has, lookup, insert, erase, lookup-erase, length-erase_stored, insert-erase, Outcome, ok,
  err, length, ltb, leb, ◌==◌, Bool-cases, Option-cases, Outcome-cases, nat_eq, Bytes, bytes_beq,
  bytes_beq_iff, bytes_eq,
}
use fabric_x_evm_lfx.Gateway.Data.{QueueError}
use fabric_x_evm_lfx.Gateway.Nonce.{
  ParkedTx, SenderState, NonceGate, TxOps, AdmitError, nonce_too_low, too_many_parked, not_queued,
  entry_of, park, unpark, raise_next, raise, see, set_senders, place,
}
use fabric_x_evm_lfx.Gateway.Nonce.Filing.{
  parked_of, IsFiling, parked_of-update, parked_of-insert, IsFiling-same, without, IsFiling-without,
}
use fabric_x_evm_lfx.Gateway.Nonce.Adding.{added, parked_of-added, IsFiling-added}

-- The parked transactions of a gate are filed and indexed.
abbrev pub IsConsistent : {T Q : Type 0} → TxOps T → NonceGate T Q → Type 0
IsConsistent ops g = IsFiling ops g.max_per_sender g.senders g.by_hash

-- What `Admit` does with a transaction once the next nonce of its sender is known.
pub data Placed {T Q : Type 0} (ops : TxOps T) (enqueue : T → Q → Outcome QueueError Q) (a : Bytes)
    (tx : T) (now : ℕ) (g : NonceGate T Q) (r : Outcome AdmitError (Unit {0}) × NonceGate T Q)
    : Type 0 where
  spent :
      ops.nonce tx < (entry_of a g.senders).next.nonce
      → r ≡ (err (nonce_too_low (entry_of a g.senders).next.nonce (ops.nonce tx)), g)
      → Placed ops enqueue a tx now g r
  queued :
      ops.nonce tx ≡ (entry_of a g.senders).next.nonce
      → (queue : Q) → enqueue tx g.queue ≡ ok queue
      → r ≡ (ok tt, record g { queue = queue })
      → Placed ops enqueue a tx now g r
  refused :
      ops.nonce tx ≡ (entry_of a g.senders).next.nonce
      → (e : QueueError) → enqueue tx g.queue ≡ err e
      → r ≡ (err (not_queued e), g)
      → Placed ops enqueue a tx now g r
  full :
      (entry_of a g.senders).next.nonce < ops.nonce tx
      → lookup (ops.nonce tx) (entry_of a g.senders).parked ≡ none
      → g.max_per_sender ≤ length (entry_of a g.senders).parked
      → r ≡ (err too_many_parked, g)
      → Placed ops enqueue a tx now g r
  waiting :
      (entry_of a g.senders).next.nonce < ops.nonce tx
      → (has (ops.nonce tx) (entry_of a g.senders).parked ≡ true)
        ⊎ (length (entry_of a g.senders).parked < g.max_per_sender)
      → r ≡ (ok tt, park ops a tx now g)
      → Placed ops enqueue a tx now g r

-- Below the next nonce a transaction is rejected, at the next nonce it goes to the queue, whose refusal
-- is passed on, and above it is parked, unless the sender has its fill of parked transactions and none at
-- the nonce.
pub place-Placed :
    {T Q : Type 0} (ops : TxOps T) (enqueue : T → Q → Outcome QueueError Q) (a : Bytes) (tx : T)
    (now : ℕ) (g : NonceGate T Q)
    → Placed ops enqueue a tx now (see a now g) (place ops enqueue a tx now g)
unfolding place
place-Placed ops enqueue a tx now g =
    let g' = see a now g in
    let next = (entry_of a g'.senders).next.nonce in
    let parked = (entry_of a g'.senders).parked in
    elim (Bool-cases (ltb (ops.nonce tx) next)) [
      | inl below ↦ spent (ground arith) (rw below refl)
      | inr above ↦ elim (Bool-cases (ops.nonce tx == next)) [
        | inl same ↦ elim (Outcome-cases (enqueue tx g'.queue)) [
          | inl (q, e) ↦ queued (ground arith) q e (ground arith)
          | inr (x, e) ↦ refused (ground arith) x e (ground arith)
        ]
        | inr other ↦
            elim (Bool-cases
              (not (has (ops.nonce tx) parked) && leb g'.max_per_sender (length parked))) [
                | inl no_room ↦
                    full (ground arith) (ground arith) (ground arith)
                      (rw (above, other, no_room) refl)
                | inr room ↦ waiting (ground arith) (ground arith) (rw (above, other, room) refl)
              ]
      ]
    ]

module _ {T Q : Type 0} (ops : TxOps T) where
  -- An entry is rewritten with the same parked transactions.
  update-IsConsistent :
      (a : Bytes) (ss : SenderState T) (g : NonceGate T Q)
      → ss.parked ≡ parked_of g.senders a
      → IsConsistent ops g
      → IsConsistent ops (set_senders (insert a ss g.senders) g)
  update-IsConsistent a ss g e =
      IsFiling-same ops g.max_per_sender g.senders g.by_hash (insert a ss g.senders)
        (λ b. parked_of-update a b ss g.senders e)

  pub unpark-found :
      (a : Bytes) (n : ℕ) (p : ParkedTx T) (g : NonceGate T Q)
      → lookup n (parked_of g.senders a) ≡ some p
      → unpark ops a n g ≡ record g {
        senders =
            insert a
              (record (entry_of a g.senders) { parked = erase n (parked_of g.senders a) })
              g.senders;
        by_hash = erase (ops.hash p.tx) g.by_hash;
      }
  unfolding unpark
  unpark-found a n p g e = ground (arith, e)

  pub unpark-nothing :
      (a : Bytes) (n : ℕ) (g : NonceGate T Q)
      → lookup n (parked_of g.senders a) ≡ none
      → unpark ops a n g ≡ g
  unfolding unpark
  unpark-nothing a n g e = ground (arith, e)

  pub unpark-IsConsistent :
      (a : Bytes) (n : ℕ) (g : NonceGate T Q)
      → IsConsistent ops g
      → IsConsistent ops (unpark ops a n g)
  unpark-IsConsistent a n g w = elim (Option-cases (lookup n (parked_of g.senders a))) [
    | inl nothing ↦ subst (IsConsistent ops) (sym (unpark-nothing a n g nothing)) w
    | inr (p, found) ↦
        subst (IsConsistent ops) (sym (unpark-found a n p g found))
          (IsFiling-without ops g.max_per_sender g.senders g.by_hash a n p found w)
  ]

  unpark-max :
      (a : Bytes) (n : ℕ) (g : NonceGate T Q) → (unpark ops a n g).max_per_sender ≡ g.max_per_sender
  unfolding unpark
  unpark-max a n g = ground arith

  pub raise_next-IsConsistent :
      (a : Bytes) (n : ℕ) (g : NonceGate T Q)
      → IsConsistent ops g
      → IsConsistent ops (raise_next a n g)
  unfolding raise_next
  raise_next-IsConsistent a n g =
      let ss = entry_of a g.senders in
      update-IsConsistent a (record ss { next = raise n ss.next }) g refl

  pub see-IsConsistent :
      (a : Bytes) (now : ℕ) (g : NonceGate T Q)
      → IsConsistent ops g
      → IsConsistent ops (see a now g)
  unfolding see
  see-IsConsistent a now g =
      update-IsConsistent a (record (entry_of a g.senders) { last_seen = now }) g refl

  module _ (hash-injective : (t t' : T) → ops.hash t ≡ ops.hash t' → t ≡ t') where
    park-free :
        (a : Bytes) (tx : T) (now : ℕ) (g : NonceGate T Q)
        → lookup (ops.nonce tx) (parked_of g.senders a) ≡ none
        → park ops a tx now g ≡ record g {
          senders = added ops g.max_per_sender g.senders g.by_hash a tx now;
          by_hash = insert (ops.hash tx) tx g.by_hash;
        }
    unfolding park
    park-free a tx now g e = ground (arith, e)

    park-replaces :
        (a : Bytes) (tx : T) (now : ℕ) (old : ParkedTx T) (g : NonceGate T Q)
        → lookup (ops.nonce tx) (parked_of g.senders a) ≡ some old
        → park ops a tx now g ≡ record g {
          senders = added ops g.max_per_sender g.senders g.by_hash a tx now;
          by_hash = insert (ops.hash tx) tx (erase (ops.hash old.tx) g.by_hash);
        }
    unfolding park
    park-replaces a tx now old g e = ground (arith, e)

    -- An addition after a removal at the same nonce is an addition.
    parked_of-replaced :
        (a b : Bytes) (tx : T) (now : ℕ) (h h' : Map Bytes T) (g : NonceGate T Q)
        → parked_of (added ops g.max_per_sender g.senders g.by_hash a tx now) b
          ≡ parked_of
              (added ops g.max_per_sender
                (without ops g.max_per_sender g.senders h a (ops.nonce tx))
                h'
                a
                tx
                now)
              b
    parked_of-replaced a b tx now h h' g =
        let n = ops.nonce tx in
        let new : ParkedTx T = record { tx = tx; parked_at = now } in
        let parked = parked_of g.senders a in
        let left = without ops g.max_per_sender g.senders h a n in
        let one = parked_of-added ops g.max_per_sender g.senders g.by_hash a b tx now in
        let two = parked_of-added ops g.max_per_sender left h' a b tx now in
        let at_a : parked_of left a ≡ erase n parked =
          parked_of-insert a a (record (entry_of a g.senders) { parked = erase n parked }) g.senders
          ∙ rw ((bytes_beq_iff a a).1 refl) refl in
        let at_b =
          parked_of-insert a b (record (entry_of a g.senders) { parked = erase n parked })
            g.senders in
        one
        ∙ elim (Bool-cases (bytes_beq a b)) [
          | inl same ↦ rw same (sym (insert-erase n new parked) ∙ ap (insert n new) (sym at_a))
          | inr other ↦ rw other (sym (at_b ∙ rw other refl))
        ]
        ∙ sym two

    park-IsConsistent :
        (a : Bytes) (tx : T) (now : ℕ) (g : NonceGate T Q)
        → ops.sender tx ≡ some a
        → (has (ops.nonce tx) (parked_of g.senders a) ≡ true)
          ⊎ (length (parked_of g.senders a) < g.max_per_sender)
        → IsConsistent ops g
        → IsConsistent ops (park ops a tx now g)
    park-IsConsistent a tx now g s room w =
        elim (Option-cases (lookup (ops.nonce tx) (parked_of g.senders a))) [
          | inl free ↦ subst (IsConsistent ops) (sym (park-free a tx now g free)) (
              IsFiling-added ops g.max_per_sender g.senders g.by_hash hash-injective a tx now s free
                (ground arith) w)
          | inr (old, found) ↦
              let n = ops.nonce tx in
              let parked = parked_of g.senders a in
              let left = without ops g.max_per_sender g.senders g.by_hash a n in
              let index = erase (ops.hash old.tx) g.by_hash in
              let smaller =
                IsFiling-without ops g.max_per_sender g.senders g.by_hash a n old found w in
              let emptied : parked_of left a ≡ erase n parked =
                parked_of-insert a a (record (entry_of a g.senders) { parked = erase n parked })
                  g.senders
                ∙ rw ((bytes_beq_iff a a).1 refl) refl in
              let free : lookup n (parked_of left a) ≡ none =
                ap (lookup n) emptied ∙ lookup-erase n n parked ∙ ground arith in
              let less : length (parked_of left a) < g.max_per_sender = omega (
                arith,
                ap length emptied,
                length-erase_stored n parked (ground arith),
                w.bounded a,
              ) in
              let filled =
                IsFiling-added ops g.max_per_sender left index hash-injective a tx now s free less
                  smaller in
              subst (IsConsistent ops) (sym (park-replaces a tx now old g found)) (
                IsFiling-same ops g.max_per_sender (added ops g.max_per_sender left index a tx now)
                  (insert (ops.hash tx) tx index)
                  (added ops g.max_per_sender g.senders g.by_hash a tx now)
                  (λ b. parked_of-replaced a b tx now g.by_hash index g) filled)
        ]

    pub place-IsConsistent :
        (enqueue : T → Q → Outcome QueueError Q) (a : Bytes) (tx : T) (now : ℕ) (g : NonceGate T Q)
        → ops.sender tx ≡ some a
        → IsConsistent ops g
        → IsConsistent ops (place ops enqueue a tx now g).1
    place-IsConsistent enqueue a tx now g s w =
        let seen = see-IsConsistent a now g w in
        let g' = see a now g in
        elim (place-Placed ops enqueue a tx now g) [
          | spent lt e ↦ subst (λ r. IsConsistent ops r.1) (sym e) seen
          | queued eq q ok_ e ↦
              subst (λ r. IsConsistent ops r.1) (sym e)
                (record {
                  filed = seen.filed;
                  indexed = seen.indexed;
                  bounded = seen.bounded;
                  single = seen.single;
                })
          | refused eq x err_ e ↦ subst (λ r. IsConsistent ops r.1) (sym e) seen
          | full lt new no_room e ↦ subst (λ r. IsConsistent ops r.1) (sym e) seen
          | waiting lt room e ↦
              subst (λ r. IsConsistent ops r.1) (sym e) (park-IsConsistent a tx now g' s room seen)
        ]
