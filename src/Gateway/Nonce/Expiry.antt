-- ===== src/Gateway/Nonce/Expiry.antt =====
-- gateway/core/nonce_parking.go: what the expiry of `prune` leaves parked and in the index.
use fabric_x_evm_lfx.Prelude.{
  ℕ, ◌-◌, ◌≤◌, ◌≡◌, refl, ap, subst, ◌∙◌, inl, inr, Bool, true, false, ◌&&◌, ◌||◌, none, some, [],
  ◌∷◌, arith, Map, lookup, erase, lookup-erase, IsMap, length, ltb, ◌==◌, if◌then◌else◌, Bool-cases,
  nat_eq, Bytes, bytes_beq, bytes_beq_iff, bytes_eq,
}
use fabric_x_evm_lfx.Gateway.Nonce.{
  ParkedTx, SenderState, TxOps, entry_of, expire_parked, expire_all,
}
use fabric_x_evm_lfx.Gateway.Nonce.Filing.{parked_of}

module _ {T : Type 0} where
  pub parked_of-here :
      (b : Bytes) (ss : SenderState T) (senders : Map Bytes (SenderState T))
      → parked_of ((b, ss) ∷ senders) b ≡ ss.parked
  unfolding entry_of lookup
  parked_of-here b ss senders = ground (arith, (bytes_beq_iff b b).1 refl)

  pub parked_of-there :
      (a b : Bytes) (ss : SenderState T) (senders : Map Bytes (SenderState T))
      → bytes_beq b a ≡ false
      → parked_of ((b, ss) ∷ senders) a ≡ parked_of senders a
  unfolding entry_of lookup
  parked_of-there a b ss senders e = ground (arith, e)

  pub other_sender :
      (a b : Bytes) (n : ℕ) (p : ParkedTx T) (senders : Map Bytes (SenderState T))
      → lookup b senders ≡ none
      → lookup n (parked_of senders a) ≡ some p
      → bytes_beq b a ≡ false
  unfolding entry_of lookup
  other_sender a b n p senders e l =
      ground (arith, e, l, bytes_beq_iff b a, ap (λ c. lookup c senders))

  pub single_tail :
      (b : Bytes) (ss : SenderState T) (senders : Map Bytes (SenderState T))
      → lookup b senders ≡ none
      → ((a : Bytes) → IsMap (parked_of ((b, ss) ∷ senders) a))
      → (a : Bytes) → IsMap (parked_of senders a)
  unfolding entry_of
  single_tail b ss senders e v a = elim (Bool-cases (bytes_beq b a)) [
    | inl hit ↦
        let nothing : [] ≡ parked_of senders a =
          ground (arith, ap (λ c. lookup c senders) ((bytes_beq_iff b a).0 hit), e) in
        subst IsMap nothing tt
    | inr miss ↦ subst IsMap (parked_of-there a b ss senders miss) (v a)
  ]

module _ {T : Type 0} (ops : TxOps T) (now ttl : ℕ) where
  abbrev pub is_old : ParkedTx T → Bool
  is_old p = ltb ttl (now - p.parked_at)

  -- A parked transaction with the hash has expired.
  abbrev pub drops : Bytes → Map ℕ (ParkedTx T) → Bool
  drops h [] = false
  drops h ((n, p) ∷ parked) = (is_old p && bytes_beq (ops.hash p.tx) h) || drops h parked

  abbrev pub drops_all : Bytes → Map Bytes (SenderState T) → Bool
  drops_all h [] = false
  drops_all h ((a, ss) ∷ senders) = drops h ss.parked || drops_all h senders

  -- What has not expired.
  abbrev pub kept : Map ℕ (ParkedTx T) → Map ℕ (ParkedTx T)
  kept [] = []
  kept ((n, p) ∷ parked) = let rest = kept parked in if is_old p then rest else (n, p) ∷ rest

  pub expire_parked-kept :
      (parked : Map ℕ (ParkedTx T)) (by_hash : Map Bytes T)
      → (expire_parked ops now ttl parked by_hash).0 ≡ kept parked
  unfolding expire_parked
  expire_parked-kept [] by_hash = refl
  expire_parked-kept ((n, p) ∷ parked) by_hash =
      let by_hash' = if is_old p then erase (ops.hash p.tx) by_hash else by_hash in
      ground (arith, expire_parked-kept parked by_hash')

  pub expire_parked-index :
      (parked : Map ℕ (ParkedTx T)) (by_hash : Map Bytes T) (h : Bytes)
      → lookup h (expire_parked ops now ttl parked by_hash).1
        ≡ (if drops h parked then none else lookup h by_hash)
  unfolding expire_parked
  expire_parked-index [] by_hash h = refl
  expire_parked-index ((n, p) ∷ parked) by_hash h =
      let by_hash' = if is_old p then erase (ops.hash p.tx) by_hash else by_hash in
      expire_parked-index parked by_hash' h ∙ ground (arith, lookup-erase (ops.hash p.tx) h by_hash)

  pub lookup-kept :
      (parked : Map ℕ (ParkedTx T)) (n : ℕ)
      → IsMap parked
      → lookup n (kept parked)
        ≡ elim (lookup n parked) [ none ↦ none | some p ↦ if is_old p then none else some p ]
  unfolding lookup
  lookup-kept [] n w = refl
  lookup-kept ((m, p) ∷ parked) n w =
      ground (arith, lookup-kept parked n w.1, w.0, ap (λ k. lookup k parked))

  pub length-kept : (parked : Map ℕ (ParkedTx T)) → length (kept parked) ≤ length parked
  length-kept [] = omega arith
  length-kept ((m, p) ∷ parked) = ground (arith, length-kept parked)

  pub kept-IsMap : (parked : Map ℕ (ParkedTx T)) → IsMap parked → IsMap (kept parked)
  kept-IsMap [] w = tt
  kept-IsMap ((m, p) ∷ parked) w =
      ground (arith, kept-IsMap parked w.1, lookup-kept parked m w.1, w.0)

  pub drops_sound :
      (h : Bytes) (parked : Map ℕ (ParkedTx T))
      → IsMap parked
      → drops h parked ≡ true
      → (n : ℕ) × (p : ParkedTx T) × (lookup n parked ≡ some p)
        × (is_old p ≡ true)
        × (ops.hash p.tx ≡ h)
  unfolding lookup
  drops_sound h [] w e = absurd (ground arith)
  drops_sound h ((m, p) ∷ parked) w e =
      elim (Bool-cases (is_old p && bytes_beq (ops.hash p.tx) h)) [
        | inl here ↦
            (m, p, ground arith, ground arith, (bytes_beq_iff (ops.hash p.tx) h).0 (ground arith))
        | inr later ↦
            let (n, p', l, o, k) = drops_sound h parked w.1 (ground arith) in
            (n, p', ground (arith, l, w.0, ap (λ j. lookup j parked)), o, k)
      ]

  pub drops_complete :
      (parked : Map ℕ (ParkedTx T)) (n : ℕ) (p : ParkedTx T)
      → lookup n parked ≡ some p
      → is_old p ≡ true
      → drops (ops.hash p.tx) parked ≡ true
  unfolding lookup
  drops_complete [] n p e o = absurd (ground arith)
  drops_complete ((m, p') ∷ parked) n p e o = elim (Bool-cases (m == n)) [
    | inl hit ↦
        let same : p' ≡ p = ground arith in
        ground (
          arith,
          o,
          (bytes_beq_iff (ops.hash p.tx) (ops.hash p.tx)).1 refl,
          ap is_old same,
          ap (λ (x : ParkedTx T). bytes_beq (ops.hash x.tx) (ops.hash p.tx)) same,
        )
    | inr miss ↦ ground (arith, drops_complete parked n p (ground arith) o)
  ]

  pub expire_all-index :
      (senders : Map Bytes (SenderState T)) (by_hash : Map Bytes T) (h : Bytes)
      → lookup h (expire_all ops now ttl senders by_hash).1
        ≡ (if drops_all h senders then none else lookup h by_hash)
  unfolding expire_all
  expire_all-index [] by_hash h = refl
  expire_all-index ((a, ss) ∷ senders) by_hash h =
      expire_all-index senders (expire_parked ops now ttl ss.parked by_hash).1 h
      ∙ ground (arith, expire_parked-index ss.parked by_hash h)

  pub parked_of-expire_all :
      (senders : Map Bytes (SenderState T)) (by_hash : Map Bytes T) (a : Bytes)
      → parked_of (expire_all ops now ttl senders by_hash).0 a ≡ kept (parked_of senders a)
  unfolding expire_all entry_of lookup
  parked_of-expire_all [] by_hash a = refl
  parked_of-expire_all ((b, ss) ∷ senders) by_hash a = ground (
    arith,
    expire_parked-kept ss.parked by_hash,
    parked_of-expire_all senders (expire_parked ops now ttl ss.parked by_hash).1 a,
  )

  pub drops_all_sound :
      (h : Bytes) (senders : Map Bytes (SenderState T))
      → IsMap senders
      → ((a : Bytes) → IsMap (parked_of senders a))
      → drops_all h senders ≡ true
      → (a : Bytes) × (n : ℕ) × (p : ParkedTx T) × (lookup n (parked_of senders a) ≡ some p)
        × (is_old p ≡ true)
        × (ops.hash p.tx ≡ h)
  drops_all_sound h [] w v e = absurd (ground arith)
  drops_all_sound h ((b, ss) ∷ senders) w v e = elim (Bool-cases (drops h ss.parked)) [
    | inl here ↦
        let (n, p, l, o, k) =
          drops_sound h ss.parked (subst IsMap (parked_of-here b ss senders) (v b)) here in
        (b, n, p, ap (lookup n) (parked_of-here b ss senders) ∙ l, o, k)
    | inr later ↦
        let (a, n, p, l, o, k) =
          drops_all_sound h senders w.1 (single_tail b ss senders w.0 v) (ground arith) in
        (
          a,
          n,
          p,
          ap (lookup n) (parked_of-there a b ss senders (other_sender a b n p senders w.0 l)) ∙ l,
          o,
          k,
        )
  ]

  pub drops_all_complete :
      (senders : Map Bytes (SenderState T)) (a : Bytes) (n : ℕ) (p : ParkedTx T)
      → lookup n (parked_of senders a) ≡ some p
      → is_old p ≡ true
      → drops_all (ops.hash p.tx) senders ≡ true
  unfolding entry_of lookup
  drops_all_complete [] a n p e o = absurd (ground arith)
  drops_all_complete ((b, ss) ∷ senders) a n p e o = elim (Bool-cases (bytes_beq b a)) [
    | inl hit ↦ ground (arith, drops_complete ss.parked n p (ground arith) o)
    | inr miss ↦ ground (arith, drops_all_complete senders a n p (ground arith) o)
  ]
