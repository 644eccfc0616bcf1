-- ===== src/Gateway/Nonce/Reaping.antt =====
-- gateway/core/nonce_parking.go: `prune` keeps the parked transactions and their index in step.
use fabric_x_evm_lfx.Prelude.{
  ℕ, zero, suc, ◌-◌, ◌≡◌, refl, sym, ap, ap₂, subst, ◌∙◌, inl, inr, false, none, some, [], arith,
  Map, lookup, erase, IsMap, erase-IsMap, length, ltb, if◌then◌else◌, Bool-cases, Option-cases,
  nat_eq, Bytes, bytes_eq,
}
use fabric_x_evm_lfx.Gateway.Nonce.{
  ParkedTx, SenderState, NonceGate, TxOps, entry_of, is_held, find_oldest, evict, expire_all, prune,
}
use fabric_x_evm_lfx.Gateway.Nonce.Filing.{
  parked_of, IsFiling, IsFiling-same, nothing_parked, parked_of-erase,
}
use fabric_x_evm_lfx.Gateway.Nonce.Admission.{IsConsistent}
use fabric_x_evm_lfx.Gateway.Nonce.Pruning.{find_oldest_lem, expire_all-IsMap}
use fabric_x_evm_lfx.Gateway.Nonce.Expiry.{
  is_old, drops_all, lookup-kept, length-kept, kept-IsMap, expire_all-index, parked_of-expire_all,
  drops_all_sound, drops_all_complete,
}

module _ {T : Type 0} (ops : TxOps T) (now ttl : ℕ) where
  expired-IsFiling :
      (max : ℕ) (senders : Map Bytes (SenderState T)) (by_hash : Map Bytes T)
      → IsMap senders
      → IsFiling ops max senders by_hash
      → IsFiling ops max
          (expire_all ops now ttl senders by_hash).0
          (expire_all ops now ttl senders by_hash).1
  expired-IsFiling max senders by_hash m w = record {
    filed = λ a n p e.
        let (l, young) = stays a n p e in
        let (s, k, f) = w.filed a n p l in
        (
          s,
          k,
          expire_all-index ops now ttl senders by_hash (ops.hash p.tx)
              ∙ ground (arith, f, not_dropped a n p l young),
        );
    indexed = λ h tx e.
        let f = sym (expire_all-index ops now ttl senders by_hash h) ∙ e in
        let (a, p, k, s, l, q) = w.indexed h tx (ground (arith, f)) in
        let young : is_old ops now ttl p ≡ false = ground (
          arith,
          f,
          drops_all_complete ops now ttl senders a (ops.nonce tx) p l,
          ap (λ g. drops_all ops now ttl g senders) (ap ops.hash q ∙ k),
        ) in
        (a, p, k, s, place a (ops.nonce tx) ∙ ground (arith, l, young), q);
    bounded = λ a. omega (
      arith,
      w.bounded a,
      length-kept ops now ttl (parked_of senders a),
      ap length (parked_of-expire_all ops now ttl senders by_hash a),
    );
    single = λ a.
        subst IsMap (sym (parked_of-expire_all ops now ttl senders by_hash a))
          (kept-IsMap ops now ttl (parked_of senders a) (w.single a));
  }
    where
      place :
          (a : Bytes) (n : ℕ)
          → lookup n (parked_of (expire_all ops now ttl senders by_hash).0 a)
            ≡ elim (lookup n (parked_of senders a)) [
              | none ↦ none
              | some p ↦ if is_old ops now ttl p then none else some p
            ]
      place a n =
          ap (lookup n) (parked_of-expire_all ops now ttl senders by_hash a)
          ∙ lookup-kept ops now ttl (parked_of senders a) n (w.single a)

      stays :
          (a : Bytes) (n : ℕ) (p : ParkedTx T)
          → lookup n (parked_of (expire_all ops now ttl senders by_hash).0 a) ≡ some p
          → (lookup n (parked_of senders a) ≡ some p) × (is_old ops now ttl p ≡ false)
      stays a n p e = elim (Option-cases (lookup n (parked_of senders a))) [
        | inl nothing ↦ absurd (ground (arith, place a n, e, nothing))
        | inr (p', found) ↦ elim (Bool-cases (is_old ops now ttl p')) [
          | inl old ↦ absurd (ground (arith, place a n, e, found, old))
          | inr young ↦
              let same : p' ≡ p = ground (arith, place a n, e, found, young) in
              (found ∙ ap some same, sym (ap (is_old ops now ttl) same) ∙ young)
        ]
      ]

      not_dropped :
          (a : Bytes) (n : ℕ) (p : ParkedTx T)
          → lookup n (parked_of senders a) ≡ some p
          → is_old ops now ttl p ≡ false
          → drops_all ops now ttl (ops.hash p.tx) senders ≡ false
      not_dropped a n p l young =
          elim (Bool-cases (drops_all ops now ttl (ops.hash p.tx) senders)) [
            | inr stays_ ↦ stays_
            | inl dropped ↦
                let (a', n', p', l', old, k) =
                  drops_all_sound ops now ttl (ops.hash p.tx) senders m w.single dropped in
                let (s₁, k₁, f₁) = w.filed a n p l in
                let (s₂, k₂, f₂) = w.filed a' n' p' l' in
                let same_tx : p'.tx ≡ p.tx = ground (arith, f₁, f₂, ap (λ g. lookup g by_hash) k) in
                let same_sender : a' ≡ a = ground (arith, s₁, s₂, ap ops.sender same_tx) in
                let same_nonce : n' ≡ n = ground (arith, k₁, k₂, ap ops.nonce same_tx) in
                let same : some p' ≡ some p =
                  sym l' ∙ ap₂ (λ c j. lookup j (parked_of senders c)) same_sender same_nonce ∙ l in
                absurd (ground (arith, young, old, same))
          ]

module _ {T : Type 0} where
  parked_of-unheld :
      (b : Bytes) (ss : SenderState T) (senders : Map Bytes (SenderState T))
      → lookup b senders ≡ some ss
      → is_held ss ≡ false
      → parked_of senders b ≡ []
  unfolding entry_of
  parked_of-unheld b ss senders l free = ground (arith, l, nothing_parked ss.parked (ground arith))

  parked_of-evict :
      (fuel max : ℕ) (senders : Map Bytes (SenderState T)) (a : Bytes)
      → IsMap senders
      → parked_of (evict fuel max senders) a ≡ parked_of senders a
  unfolding evict
  parked_of-evict zero max senders a w = refl
  parked_of-evict (suc fuel) max senders a w = elim (Bool-cases (ltb max (length senders))) [
    | inr within ↦ rw (within, evict) refl
    | inl over ↦ elim (Option-cases (find_oldest senders none)) [
      | inl nothing ↦ rw (over, nothing, evict) refl
      | inr ((b, seen), found) ↦
          let (ss, l, free, s, least) = find_oldest_lem senders b seen w found in
          let rest = parked_of-evict fuel max (erase b senders) a (erase-IsMap b senders w) in
          rw (over, found, evict)
            (rest ∙ parked_of-erase b a senders (parked_of-unheld b ss senders l free))
    ]
  ]

module _ {T Q : Type 0} (ops : TxOps T) where
  lookup-prune :
      (now : ℕ) (g : NonceGate T Q) (a : Bytes) (n : ℕ)
      → IsMap g.senders
      → IsConsistent ops g
      → lookup n (parked_of (prune ops now g).senders a) ≡ elim (lookup n (parked_of g.senders a)) [
        | none ↦ none
        | some p ↦ if ltb g.ttl (now - p.parked_at) then none else some p
      ]
  unfolding prune
  lookup-prune now g a n m w =
      let senders = (expire_all ops now g.ttl g.senders g.by_hash).0 in
      let kept_senders = expire_all-IsMap ops now g.ttl g.senders g.by_hash m in
      ap (lookup n) (parked_of-evict (length senders) g.max_senders senders a kept_senders)
      ∙ ap (lookup n) (parked_of-expire_all ops now g.ttl g.senders g.by_hash a)
      ∙ lookup-kept ops now g.ttl (parked_of g.senders a) n (w.single a)

  pruned-IsConsistent :
      (now : ℕ) (g : NonceGate T Q)
      → IsMap g.senders
      → IsConsistent ops g
      → IsConsistent ops (prune ops now g)
  unfolding prune
  pruned-IsConsistent now g m w =
      let (senders, by_hash) = expire_all ops now g.ttl g.senders g.by_hash in
      IsFiling-same ops g.max_per_sender senders by_hash
        (evict (length senders) g.max_senders senders)
        (λ a.
          parked_of-evict (length senders) g.max_senders senders a
            (expire_all-IsMap ops now g.ttl g.senders g.by_hash m))
        (expired-IsFiling ops now g.ttl g.max_per_sender g.senders g.by_hash m w)

  -- Where no sender has two entries and the parked transactions and their index are in step, `prune` keeps
  -- them in step, and of what was parked exactly that is still parked whose time is not over: for every
  -- sender and nonce, what was parked longer ago than the limit is gone, and anything else is as before.
  pub prune-IsConsistent :
      (now : ℕ) (g : NonceGate T Q)
      → IsMap g.senders
      → IsConsistent ops g
      → IsConsistent ops (prune ops now g)
        × ((a : Bytes) (n : ℕ)
            → lookup n (parked_of (prune ops now g).senders a)
              ≡ elim (lookup n (parked_of g.senders a)) [
                | none ↦ none
                | some p ↦ if ltb g.ttl (now - p.parked_at) then none else some p
              ])
  prune-IsConsistent now g m w = (pruned-IsConsistent now g m w, λ a n. lookup-prune now g a n m w)
