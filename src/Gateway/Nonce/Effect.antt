-- ===== src/Gateway/Nonce/Effect.antt =====
-- gateway/core/nonce_parking.go: what `Admit` does to the queue and to what is parked.
use fabric_x_evm_lfx.Prelude.{
  ℕ, ◌+◌, ◌≤◌, ◌≡◌, refl, sym, ap, ap₂, subst, ◌∙◌, Bool, true, false, ◌&&◌, ◌||◌, Option, none,
  some, arith, Map, has, lookup, Outcome, ok, err, length, ltb, ◌==◌, if◌then◌else◌, nat_eq, Bytes,
  bytes_beq, bytes_eq,
}
use fabric_x_evm_lfx.Gateway.Data.{QueueError}
use fabric_x_evm_lfx.Gateway.Nonce.{
  ExpectedNonce, value, ParkedTx, SenderState, NonceGate, TxOps, AdmitError, entry_of, acquire,
  park, see, set_senders, place, admit,
}
use fabric_x_evm_lfx.Gateway.Nonce.Filing.{parked_of, parked_of-update, parked_of-release}
use fabric_x_evm_lfx.Gateway.Nonce.Adding.{added, lookup-added}
use fabric_x_evm_lfx.Gateway.Nonce.Admission.{spent, queued, refused, full, waiting, place-Placed}
use fabric_x_evm_lfx.Gateway.Nonce.Advancing.{admit-known}
use fabric_x_evm_lfx.Gateway.Nonce.Releasing.{entry_of-insert}

-- Whether a call succeeds.
abbrev pub accepted {ℓ κ} : {E : Type ℓ} {A : Type κ} → Outcome E A → Bool
accepted r = elim r [ ok x ↦ true | err e ↦ false ]

-- Whether a transaction is parked: it is above the next nonce, and takes the place of one that is parked at
-- its nonce or finds the sender below its limit.
abbrev pub is_parked : {T : Type 0} → ℕ → ℕ → ℕ → Map ℕ (ParkedTx T) → Bool
is_parked next n max parked = ltb next n && (has n parked || ltb (length parked) max)

module _ {T Q : Type 0} (ops : TxOps T) where
  park-senders :
      (a : Bytes) (tx : T) (now : ℕ) (g : NonceGate T Q)
      → (park ops a tx now g).senders ≡ added ops g.max_per_sender g.senders g.by_hash a tx now
  unfolding park
  park-senders a tx now g = refl

  lookup-park :
      (a b : Bytes) (m : ℕ) (tx : T) (now : ℕ) (g : NonceGate T Q)
      → lookup m (parked_of (park ops a tx now g).senders b) ≡ (
          if bytes_beq a b && (ops.nonce tx == m)
          then some (record { tx = tx; parked_at = now })
          else lookup m (parked_of g.senders b))
  lookup-park a b m tx now g =
      ap (λ senders. lookup m (parked_of senders b)) (park-senders a tx now g)
      ∙ lookup-added ops g.max_per_sender g.senders g.by_hash a b m tx now

  park-queue :
      (a : Bytes) (tx : T) (now : ℕ) (g : NonceGate T Q) → (park ops a tx now g).queue ≡ g.queue
  unfolding park
  park-queue a tx now g = refl

  module _ (enqueue : T → Q → Outcome QueueError Q) where
    -- What a call that gives `r` from the gate `g` did with the transaction of a sender with the next nonce.
    abbrev pub IsAdmission :
        Bytes → ℕ → T → ℕ → NonceGate T Q → Outcome AdmitError (Unit {0}) × NonceGate T Q → Type 0
    IsAdmission a next tx now g r =
        (accepted r.0 ≡ (
          if ops.nonce tx == next
          then accepted (enqueue tx g.queue)
          else is_parked next (ops.nonce tx) g.max_per_sender (parked_of g.senders a)))
        × (r.1.queue ≡ (
            if ops.nonce tx == next
            then elim (enqueue tx g.queue) [ ok queue ↦ queue | err e ↦ g.queue ]
            else g.queue))
        × ((b : Bytes) (m : ℕ)
            → lookup m (parked_of r.1.senders b) ≡ (
                if is_parked next (ops.nonce tx) g.max_per_sender (parked_of g.senders a)
                  && (bytes_beq a b && (ops.nonce tx == m))
                then some (record { tx = tx; parked_at = now })
                else lookup m (parked_of g.senders b)))

    see-next :
        (a : Bytes) (now : ℕ) (g : NonceGate T Q)
        → (entry_of a (see a now g).senders).next ≡ (entry_of a g.senders).next
    unfolding see
    see-next a now g =
        ap (λ (ss : SenderState T). ss.next)
          (entry_of-insert ops enqueue a (record (entry_of a g.senders) { last_seen = now })
            g.senders)

    see-parked :
        (a b : Bytes) (now : ℕ) (g : NonceGate T Q)
        → parked_of (see a now g).senders b ≡ parked_of g.senders b
    unfolding see
    see-parked a b now g =
        parked_of-update a b (record (entry_of a g.senders) { last_seen = now }) g.senders refl

    see-fields :
        (a : Bytes) (now : ℕ) (g : NonceGate T Q)
        → ((see a now g).queue ≡ g.queue) × ((see a now g).max_per_sender ≡ g.max_per_sender)
    unfolding see
    see-fields a now g = (refl, refl)

    place-IsAdmission :
        (a : Bytes) (tx : T) (now : ℕ) (g : NonceGate T Q)
        → IsAdmission a (entry_of a g.senders).next.nonce tx now g (place ops enqueue a tx now g)
    place-IsAdmission a tx now g =
        let next = ap (λ (e : ExpectedNonce). e.nonce) (see-next a now g) in
        let parked = see-parked a a now g in
        let (queue_, max_) = see-fields a now g in
        let same : (b : Bytes) (m : ℕ)
            → lookup m (parked_of (see a now g).senders b) ≡ lookup m (parked_of g.senders b) =
          λ b m. ap (lookup m) (see-parked a b now g) in
        elim (place-Placed ops enqueue a tx now g) [
          | spent lt e ↦ subst (IsAdmission a (entry_of a g.senders).next.nonce tx now g) (sym e) (
            ground (arith, lt, next),
            ground (arith, lt, next, queue_),
            λ b m. same b m ∙ ground (arith, lt, next),
          )
          | queued eq q took e ↦
              let took' : enqueue tx g.queue ≡ ok q = sym (ap (enqueue tx) queue_) ∙ took in
              subst (IsAdmission a (entry_of a g.senders).next.nonce tx now g) (sym e) (
                ground (arith, eq, next, took'),
                ground (arith, eq, next, took'),
                λ b m. same b m ∙ ground (arith, eq, next),
              )
          | refused eq x no_room e ↦
              let refused' : enqueue tx g.queue ≡ err x = sym (ap (enqueue tx) queue_) ∙ no_room in
              subst (IsAdmission a (entry_of a g.senders).next.nonce tx now g) (sym e) (
                ground (arith, eq, next, refused'),
                ground (arith, eq, next, refused', queue_),
                λ b m. same b m ∙ ground (arith, eq, next),
              )
          | full lt new no_room e ↦
              let missing : lookup (ops.nonce tx) (parked_of g.senders a) ≡ none =
                sym (same a (ops.nonce tx)) ∙ new in
              let many : g.max_per_sender ≤ length (parked_of g.senders a) =
                omega (arith, no_room, max_, ap length parked) in
              subst (IsAdmission a (entry_of a g.senders).next.nonce tx now g) (sym e) (
                ground (arith, lt, next, missing, many),
                ground (arith, lt, next, queue_),
                λ b m. same b m ∙ ground (arith, lt, next, missing, many),
              )
          | waiting lt room e ↦
              let seen = see a now g in
              let roomy : (has (ops.nonce tx) (parked_of g.senders a)
                    || ltb (length (parked_of g.senders a)) g.max_per_sender)
                  ≡ true =
                ground (arith, room, max_, ap length parked, ap (has (ops.nonce tx)) parked) in
              subst (IsAdmission a (entry_of a g.senders).next.nonce tx now g) (sym e) (
                ground (arith, lt, next, roomy),
                ground (arith, lt, next, queue_, park-queue a tx now seen),
                λ b m. lookup-park a b m tx now seen ∙ ground (arith, lt, next, roomy, same b m),
              )
        ]

    known-nonce : (e : ExpectedNonce) (n : ℕ) → value e ≡ some n → e.nonce ≡ n
    unfolding value
    known-nonce e n h = ground (arith, h)

    acquire-next :
        (a : Bytes) (g : NonceGate T Q)
        → (entry_of a (acquire a g.senders)).next ≡ (entry_of a g.senders).next
    unfolding acquire
    acquire-next a g =
        ap (λ (ss : SenderState T). ss.next)
          (entry_of-insert ops enqueue a
            (record (entry_of a g.senders) { refs = (entry_of a g.senders).refs + 1 }) g.senders)

    acquire-parked :
        (a b : Bytes) (g : NonceGate T Q)
        → parked_of (acquire a g.senders) b ≡ parked_of g.senders b
    unfolding acquire
    acquire-parked a b g =
        parked_of-update a b
          (record (entry_of a g.senders) { refs = (entry_of a g.senders).refs + 1 }) g.senders refl

    -- For a sender whose next nonce is known: `Admit` succeeds exactly if the transaction is at the next nonce
    -- and the queue takes it, or it is parked. It offers the transaction to the queue exactly at the next
    -- nonce. It parks it exactly if it is above the next nonce, and either one is parked at its nonce, whose
    -- place it takes, or the sender has fewer parked than its limit. All else that is parked stays.
    pub admit_lem :
        (away : NonceGate T Q → NonceGate T Q) (seed : Option ℕ) (tx : T) (now : ℕ)
        (g : NonceGate T Q) (a : Bytes) (next : ℕ)
        → ops.sender tx ≡ some a
        → value (entry_of a g.senders).next ≡ some next
        → IsAdmission a next tx now g (admit ops enqueue away seed tx now g)
    admit_lem away seed tx now g a next s known =
        let g₁ = set_senders (acquire a g.senders) g in
        let r = place ops enqueue a tx now g₁ in
        let (took, queue_, parked) = place-IsAdmission a tx now g₁ in
        let n : (entry_of a g₁.senders).next.nonce ≡ next =
          ap (λ (e : ExpectedNonce). e.nonce) (acquire-next a g)
          ∙ known-nonce (entry_of a g.senders).next next known in
        let before = acquire-parked a a g in
        let e =
          admit-known ops enqueue away seed tx now g a next s
            (ap value (acquire-next a g) ∙ known) in
        subst (IsAdmission a next tx now g) (sym e) (
          took
              ∙ ap₂
                  (λ k p.
                    if ops.nonce tx == k
                    then accepted (enqueue tx g.queue)
                    else is_parked k (ops.nonce tx) g.max_per_sender p)
                  n before,
          queue_
              ∙ ap
                  (λ k.
                    if ops.nonce tx == k
                    then elim (enqueue tx g.queue) [ ok queue ↦ queue | err e ↦ g.queue ]
                    else g.queue)
                  n,
          λ b m.
              ap (lookup m) (parked_of-release a b r.1.senders)
              ∙ parked b m
              ∙ ap₂
                  (λ k p.
                    if is_parked k (ops.nonce tx) g.max_per_sender p
                      && (bytes_beq a b && (ops.nonce tx == m))
                    then some (record { tx = tx; parked_at = now })
                    else lookup m (parked_of g₁.senders b))
                  n before
              ∙ ap
                  (λ p.
                    if is_parked next (ops.nonce tx) g.max_per_sender (parked_of g.senders a)
                      && (bytes_beq a b && (ops.nonce tx == m))
                    then some (record { tx = tx; parked_at = now })
                    else lookup m p)
                  (acquire-parked a b g),
        )
