-- ===== src/Gateway/Nonce/Filing.antt =====
-- gateway/core/nonce_parking.go: the parked transactions of the senders and their index by hash.
use fabric_x_evm_lfx.Prelude.{
  ℕ, ◌+◌, ◌-◌, ◌≤◌, ◌≡◌, refl, sym, ap, subst, ◌∙◌, inl, inr, false, ◌&&◌, ◌||◌, none, some, [],
  ◌∷◌, arith, Map, lookup, insert, erase, lookup-insert, lookup-erase, IsMap, erase-IsMap,
  length-erase, length, ltb, ◌==◌, if◌then◌else◌, Bool-cases, nat_eq, Bytes, bytes_beq,
  bytes_beq_iff, bytes_eq,
}
use fabric_x_evm_lfx.Gateway.Nonce.{ParkedTx, SenderState, TxOps, entry_of, acquire, release}

-- What a sender has parked.
abbrev pub parked_of : {T : Type 0} → Map Bytes (SenderState T) → Bytes → Map ℕ (ParkedTx T)
parked_of senders a = (entry_of a senders).parked

-- Where a parked transaction is filed: under its sender, at its nonce, and in the index.
abbrev pub IsFiled : {T : Type 0} → TxOps T → Map Bytes T → Bytes → ℕ → ParkedTx T → Type 0
IsFiled ops by_hash a n p =
    (ops.sender p.tx ≡ some a) × (ops.nonce p.tx ≡ n) × (lookup (ops.hash p.tx) by_hash ≡ some p.tx)

-- The index holds exactly the parked transactions, each filed under its sender and nonce; no sender has
-- more than `max` of them, and none has two at one nonce.
pub record IsFiling {T : Type 0} (ops : TxOps T) (max : ℕ) (senders : Map Bytes (SenderState T))
    (by_hash : Map Bytes T) : Type 0 where
  pub filed :
      (a : Bytes) (n : ℕ) (p : ParkedTx T)
      → lookup n (parked_of senders a) ≡ some p
      → IsFiled ops by_hash a n p
  pub indexed :
      (h : Bytes) (tx : T)
      → lookup h by_hash ≡ some tx
      → (a : Bytes) × (p : ParkedTx T) × (ops.hash tx ≡ h)
        × (ops.sender tx ≡ some a)
        × (lookup (ops.nonce tx) (parked_of senders a) ≡ some p)
        × (p.tx ≡ tx)
  pub bounded : (a : Bytes) → length (parked_of senders a) ≤ max
  pub single : (a : Bytes) → IsMap (parked_of senders a)

module _ {T : Type 0} where
  pub parked_of-insert :
      (a b : Bytes) (ss : SenderState T) (senders : Map Bytes (SenderState T))
      → parked_of (insert a ss senders) b
        ≡ (if bytes_beq a b then ss.parked else parked_of senders b)
  unfolding entry_of
  parked_of-insert a b ss senders = ground (arith, lookup-insert a b ss senders)

  -- A change of an entry that leaves what is parked.
  pub parked_of-update :
      (a b : Bytes) (ss : SenderState T) (senders : Map Bytes (SenderState T))
      → ss.parked ≡ parked_of senders a
      → parked_of (insert a ss senders) b ≡ parked_of senders b
  parked_of-update a b ss senders e =
      parked_of-insert a b ss senders ∙ ground (arith, bytes_beq_iff a b, ap (parked_of senders))

  pub nothing_parked : (m : Map ℕ (ParkedTx T)) → ltb 0 (length m) ≡ false → m ≡ []
  nothing_parked [] e = refl
  nothing_parked (x ∷ m) e = absurd (ground arith)

  pub parked_of-erase :
      (a b : Bytes) (senders : Map Bytes (SenderState T))
      → parked_of senders a ≡ []
      → parked_of (erase a senders) b ≡ parked_of senders b
  unfolding entry_of
  parked_of-erase a b senders e =
      ground (arith, lookup-erase a b senders, bytes_beq_iff a b, ap (λ c. lookup c senders))

  pub parked_of-release :
      (a b : Bytes) (senders : Map Bytes (SenderState T))
      → parked_of (release a senders) b ≡ parked_of senders b
  unfolding release
  parked_of-release a b senders =
      let ss = entry_of a senders in
      elim (Bool-cases (ltb 0 (ss.refs - 1) || ss.next.known || ltb 0 (length ss.parked))) [
        | inl keep ↦ rw keep (parked_of-update a b (record ss { refs = ss.refs - 1 }) senders refl)
        | inr unused ↦
            rw unused (parked_of-erase a b senders (nothing_parked ss.parked (ground arith)))
      ]

module _ {T : Type 0} (ops : TxOps T) (max : ℕ) (senders : Map Bytes (SenderState T))
    (by_hash : Map Bytes T) where
  -- Only what is parked counts.
  pub IsFiling-same :
      (senders' : Map Bytes (SenderState T))
      → ((a : Bytes) → parked_of senders' a ≡ parked_of senders a)
      → IsFiling ops max senders by_hash
      → IsFiling ops max senders' by_hash
  IsFiling-same senders' same w = record {
    filed = λ a n p e. w.filed a n p (ap (lookup n) (sym (same a)) ∙ e);
    indexed = λ h tx e.
        let (a, p, k, s, l, q) = w.indexed h tx e in
        (a, p, k, s, ap (lookup (ops.nonce tx)) (same a) ∙ l, q);
    bounded = λ a. rw (same a) (w.bounded a);
    single = λ a. subst IsMap (sym (same a)) (w.single a);
  }

  pub IsFiling-acquire :
      (a : Bytes) → IsFiling ops max senders by_hash → IsFiling ops max (acquire a senders) by_hash
  unfolding acquire
  IsFiling-acquire a =
      let ss = entry_of a senders in
      IsFiling-same (acquire a senders)
        (λ b. parked_of-update a b (record ss { refs = ss.refs + 1 }) senders refl)

  pub IsFiling-release :
      (a : Bytes) → IsFiling ops max senders by_hash → IsFiling ops max (release a senders) by_hash
  IsFiling-release a = IsFiling-same (release a senders) (λ b. parked_of-release a b senders)

  -- Two parked transactions with one hash are filed at one place.
  pub same_place :
      (a b : Bytes) (n m : ℕ) (p p' : ParkedTx T)
      → IsFiled ops by_hash a n p
      → IsFiled ops by_hash b m p'
      → ops.hash p.tx ≡ ops.hash p'.tx
      → (a ≡ b) × (n ≡ m)
  same_place a b n m p p' (s, k, l) (s', k', l') e =
      let same : p.tx ≡ p'.tx = ground (arith, ap (λ h. lookup h by_hash) e) in
      (ground (arith, ap ops.sender same), ground (arith, ap ops.nonce same))

  -- What the sender has after one of its nonces is taken out.
  abbrev pub without : Bytes → ℕ → Map Bytes (SenderState T)
  without a n =
      insert a (record (entry_of a senders) { parked = erase n (parked_of senders a) }) senders

  pub lookup-without :
      (a b : Bytes) (n m : ℕ)
      → lookup m (parked_of (without a n) b)
        ≡ (if bytes_beq a b && (n == m) then none else lookup m (parked_of senders b))
  lookup-without a b n m =
      ap (lookup m) (
        parked_of-insert a b
          (record (entry_of a senders) { parked = erase n (parked_of senders a) }) senders)
      ∙ ground (
        arith,
        lookup-erase n m (parked_of senders a),
        bytes_beq_iff a b,
        ap (λ c. lookup m (parked_of senders c)),
      )

  -- A parked transaction with another hash stays where it is.
  pub kept_place :
      (a b : Bytes) (n m : ℕ) (p p' : ParkedTx T)
      → lookup n (parked_of senders a) ≡ some p
      → lookup m (parked_of senders b) ≡ some p'
      → bytes_beq (ops.hash p.tx) (ops.hash p'.tx) ≡ false
      → lookup m (parked_of (without a n) b) ≡ some p'
  kept_place a b n m p p' e f other = elim (Bool-cases (bytes_beq a b && (n == m))) [
    | inl place ↦
        let same_sender : a ≡ b = (bytes_beq_iff a b).0 (ground arith) in
        let same_nonce : n ≡ m = ground arith in
        let same : p ≡ p' = ground (
          arith,
          ap (parked_of senders) same_sender,
          ap (λ j. lookup j (parked_of senders b)) same_nonce,
        ) in
        absurd (
          ground (
            arith,
            bytes_beq_iff (ops.hash p.tx) (ops.hash p'.tx),
            ap (λ (x : ParkedTx T). ops.hash x.tx) same,
          ))
    | inr elsewhere ↦ lookup-without a b n m ∙ rw elsewhere f
  ]

  pub erase_kept :
      (k h : Bytes) (tx : T)
      → lookup h (erase k by_hash) ≡ some tx
      → (bytes_beq k h ≡ false) × (lookup h by_hash ≡ some tx)
  erase_kept k h tx e = ground (arith, lookup-erase k h by_hash)

  pub IsFiling-without :
      (a : Bytes) (n : ℕ) (p : ParkedTx T)
      → lookup n (parked_of senders a) ≡ some p
      → IsFiling ops max senders by_hash
      → IsFiling ops max (without a n) (erase (ops.hash p.tx) by_hash)
  IsFiling-without a n p e w = record {
    filed = λ b m p' f.
        let known : lookup m (parked_of senders b) ≡ some p' =
          ground (arith, lookup-without a b n m) in
        let (s, k, l) = w.filed b m p' known in
        let apart = same_place a b n m p p' (w.filed a n p e) (s, k, l) in
        (
          s,
          k,
          ground (
            arith,
            lookup-erase (ops.hash p.tx) (ops.hash p'.tx) by_hash,
            bytes_beq_iff (ops.hash p.tx) (ops.hash p'.tx),
            apart,
            lookup-without a b n m,
            bytes_beq_iff a b,
          ),
        );
    indexed = λ h tx f.
        let (other, kept) = erase_kept (ops.hash p.tx) h tx f in
        let (b, p', k, s, l, q) = w.indexed h tx kept in
        let same : ops.hash p'.tx ≡ h = ap ops.hash q ∙ k in
        (
          b,
          p',
          k,
          s,
          kept_place a b n (ops.nonce tx) p p' e l (ap (bytes_beq (ops.hash p.tx)) same ∙ other),
          q,
        );
    bounded = λ b. omega (
      arith,
      ap length (
          parked_of-insert a b
            (record (entry_of a senders) { parked = erase n (parked_of senders a) }) senders),
      w.bounded b,
      within b,
    );
    single = λ b.
        subst IsMap
          (sym (
            parked_of-insert a b
              (record (entry_of a senders) { parked = erase n (parked_of senders a) }) senders))
          (unique b);
  }
    where
      left : Bytes → Map ℕ (ParkedTx T)
      left b = if bytes_beq a b then erase n (parked_of senders a) else parked_of senders b

      within : (b : Bytes) → length (left b) ≤ max
      within b = ground (arith, w.bounded a, w.bounded b, length-erase n (parked_of senders a))

      unique : (b : Bytes) → IsMap (left b)
      unique b = elim (Bool-cases (bytes_beq a b)) [
        | inl same ↦ rw same (erase-IsMap n (parked_of senders a) (w.single a))
        | inr other ↦ rw other (w.single b)
      ]
