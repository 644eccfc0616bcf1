-- ===== src/Gateway/Nonce/Adding.antt =====
-- gateway/core/nonce_parking.go: a parked transaction is added to the index.
use fabric_x_evm_lfx.Prelude.{
  ℕ, ◌≤◌, ◌<◌, ◌≡◌, refl, sym, ap, subst, ◌∙◌, inl, inr, ◌&&◌, none, some, arith, Map, lookup,
  insert, lookup-insert, IsMap, insert-IsMap, length-insert, length, ◌==◌, if◌then◌else◌,
  Bool-cases, nat_eq, Bytes, bytes_beq, bytes_beq_iff, bytes_eq,
}
use fabric_x_evm_lfx.Gateway.Nonce.{ParkedTx, SenderState, TxOps, entry_of}
use fabric_x_evm_lfx.Gateway.Nonce.Filing.{parked_of, IsFiled, IsFiling, parked_of-insert}

module _ {T : Type 0} (ops : TxOps T) (max : ℕ) (senders : Map Bytes (SenderState T))
    (by_hash : Map Bytes T) where
  -- What the sender has after a transaction is added.
  abbrev pub added : Bytes → T → ℕ → Map Bytes (SenderState T)
  added a tx now =
      insert a
        (record (entry_of a senders) {
          parked =
              insert (ops.nonce tx) (record { tx = tx; parked_at = now }) (parked_of senders a);
        })
        senders

  pub parked_of-added :
      (a b : Bytes) (tx : T) (now : ℕ)
      → parked_of (added a tx now) b ≡ (
          if bytes_beq a b
          then insert (ops.nonce tx) (record { tx = tx; parked_at = now }) (parked_of senders a)
          else parked_of senders b)
  parked_of-added a b tx now =
      parked_of-insert a b
        (record (entry_of a senders) {
          parked =
              insert (ops.nonce tx) (record { tx = tx; parked_at = now }) (parked_of senders a);
        })
        senders

  pub lookup-added :
      (a b : Bytes) (m : ℕ) (tx : T) (now : ℕ)
      → lookup m (parked_of (added a tx now) b) ≡ (
          if bytes_beq a b && (ops.nonce tx == m)
          then some (record { tx = tx; parked_at = now })
          else lookup m (parked_of senders b))
  lookup-added a b m tx now =
      ap (lookup m) (parked_of-added a b tx now)
      ∙ ground (
        arith,
        lookup-insert (ops.nonce tx) m (record { tx = tx; parked_at = now }) (parked_of senders a),
        bytes_beq_iff a b,
        ap (λ c. lookup m (parked_of senders c)),
      )

  module _ (hash-injective : (t t' : T) → ops.hash t ≡ ops.hash t' → t ≡ t') where
    IsFiled-added :
        (a b : Bytes) (m : ℕ) (tx : T) (now : ℕ) (p : ParkedTx T)
        → ops.sender tx ≡ some a
        → IsFiling ops max senders by_hash
        → lookup m (parked_of (added a tx now) b) ≡ some p
        → IsFiled ops (insert (ops.hash tx) tx by_hash) b m p
    IsFiled-added a b m tx now p s w f = elim (Bool-cases (bytes_beq a b && (ops.nonce tx == m))) [
      | inl place ↦
          let new : record { tx = tx; parked_at = now } ≡ p =
            ground (arith, lookup-added a b m tx now) in
          let same_sender : a ≡ b = (bytes_beq_iff a b).0 (ground arith) in
          subst (IsFiled ops (insert (ops.hash tx) tx by_hash) b m) new (
            s ∙ ap some same_sender,
            ground arith,
            ground (
              arith,
              lookup-insert (ops.hash tx) (ops.hash tx) tx by_hash,
              (bytes_beq_iff (ops.hash tx) (ops.hash tx)).1 refl,
            ),
          )
      | inr elsewhere ↦
          let known : lookup m (parked_of senders b) ≡ some p =
            sym (lookup-added a b m tx now ∙ rw elsewhere refl) ∙ f in
          let (s', k, l) = w.filed b m p known in
          (
            s',
            k,
            ground (
              arith,
              lookup-insert (ops.hash tx) (ops.hash p.tx) tx by_hash,
              bytes_beq_iff (ops.hash tx) (ops.hash p.tx),
              hash-injective tx p.tx,
            ),
          )
    ]

    indexed-added :
        (a : Bytes) (tx : T) (now : ℕ) (h : Bytes) (t : T)
        → ops.sender tx ≡ some a
        → lookup (ops.nonce tx) (parked_of senders a) ≡ none
        → IsFiling ops max senders by_hash
        → lookup h (insert (ops.hash tx) tx by_hash) ≡ some t
        → (b : Bytes) × (p : ParkedTx T) × (ops.hash t ≡ h)
          × (ops.sender t ≡ some b)
          × (lookup (ops.nonce t) (parked_of (added a tx now) b) ≡ some p)
          × (p.tx ≡ t)
    indexed-added a tx now h t s free w f = elim (Bool-cases (bytes_beq (ops.hash tx) h)) [
      | inl hit ↦
          let same : tx ≡ t = ground (arith, lookup-insert (ops.hash tx) h tx by_hash) in
          let place : lookup (ops.nonce t) (parked_of (added a tx now) a)
              ≡ some (record { tx = tx; parked_at = now }) =
            lookup-added a a (ops.nonce t) tx now
            ∙ ground (arith, (bytes_beq_iff a a).1 refl, ap ops.nonce same) in
          (
            a,
            record { tx = tx; parked_at = now },
            ap ops.hash (sym same) ∙ (bytes_beq_iff (ops.hash tx) h).0 hit,
            ap ops.sender (sym same) ∙ s,
            place,
            same,
          )
      | inr miss ↦
          let kept : lookup h by_hash ≡ some t =
            ground (arith, lookup-insert (ops.hash tx) h tx by_hash) in
          let (b, p, k, s', l, q) = w.indexed h t kept in
          let place : lookup (ops.nonce t) (parked_of (added a tx now) b) ≡ some p =
            lookup-added a b (ops.nonce t) tx now
            ∙ ground (
              arith,
              bytes_beq_iff a b,
              ap (λ c. lookup (ops.nonce tx) (parked_of senders c)),
              ap (λ j. lookup j (parked_of senders b)),
            ) in
          (b, p, k, s', place, q)
    ]

    pub IsFiling-added :
        (a : Bytes) (tx : T) (now : ℕ)
        → ops.sender tx ≡ some a
        → lookup (ops.nonce tx) (parked_of senders a) ≡ none
        → length (parked_of senders a) < max
        → IsFiling ops max senders by_hash
        → IsFiling ops max (added a tx now) (insert (ops.hash tx) tx by_hash)
    IsFiling-added a tx now s free room w = record {
      filed = λ b m p f. IsFiled-added a b m tx now p s w f;
      indexed = λ h t f. indexed-added a tx now h t s free w f;
      bounded = λ b. omega (arith, ap length (parked_of-added a b tx now), within b);
      single = λ b. subst IsMap (sym (parked_of-added a b tx now)) (unique b);
    }
      where
        left : Bytes → Map ℕ (ParkedTx T)
        left b =
            if bytes_beq a b
            then insert (ops.nonce tx) (record { tx = tx; parked_at = now }) (parked_of senders a)
            else parked_of senders b

        within : (b : Bytes) → length (left b) ≤ max
        within b = ground (
          arith,
          w.bounded b,
          length-insert (ops.nonce tx) (record { tx = tx; parked_at = now }) (parked_of senders a),
        )

        unique : (b : Bytes) → IsMap (left b)
        unique b = elim (Bool-cases (bytes_beq a b)) [
          | inl same ↦ rw same (
              insert-IsMap (ops.nonce tx) (record { tx = tx; parked_at = now })
                (parked_of senders a) (w.single a))
          | inr other ↦ rw other (w.single b)
        ]
