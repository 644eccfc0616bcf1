-- ===== src/Gateway/Nonce/Pruning.antt =====
-- gateway/core/nonce_parking.go: the eviction of senders by `prune`.
use fabric_x_evm_lfx.Prelude.{
  ℕ, zero, suc, ◌+◌, ◌≤◌, ◌<◌, ◌≡◌, refl, ap, subst₂, ◌⊎◌, inl, inr, true, false, Option, none,
  some, [], ◌∷◌, arith, Map, All, has, lookup, erase, lookup-erase, All-map, IsMap, erase-IsMap,
  length-erase_stored, length, ltb, Bool-cases, Option-cases, nat_eq, Bytes, bytes_beq,
  bytes_beq_iff, bytes_eq,
}
use fabric_x_evm_lfx.Gateway.Nonce.{
  ParkedTx, SenderState, NonceGate, TxOps, is_held, older, find_oldest, evict, expire_parked,
  expire_all, prune,
}

module _ {T : Type 0} where
  -- What the scan has at the end is what it had, or an entry that may be evicted.
  find_oldest_sound :
      (P : Bytes → ℕ → Type 0) (senders : Map Bytes (SenderState T)) (oldest : Option (Bytes × ℕ))
      (b : Bytes) (seen : ℕ)
      → All (λ a ss. is_held ss ≡ false → P a ss.last_seen) senders
      → ((c : Bytes) (s : ℕ) → oldest ≡ some (c, s) → P c s)
      → find_oldest senders oldest ≡ some (b, seen)
      → P b seen
  unfolding find_oldest older
  find_oldest_sound P [] oldest b seen all first e = first b seen e
  find_oldest_sound P ((a, ss) ∷ senders) oldest b seen all first e =
      find_oldest_sound P senders (older a ss oldest) b seen all.1 next e
    where
      next : (c : Bytes) (s : ℕ) → older a ss oldest ≡ some (c, s) → P c s
      next c s f = elim (Bool-cases (is_held ss)) [
        | inl held ↦ first c s (ground arith)
        | inr free ↦ elim (Option-cases oldest) [
          | inl nothing ↦ subst₂ P (ground arith) (ground arith) (all.0 free)
          | inr ((d, seen'), e') ↦ elim (Bool-cases (ltb ss.last_seen seen')) [
            | inl less ↦ subst₂ P (ground arith) (ground arith) (all.0 free)
            | inr more ↦ first c s (ground arith)
          ]
        ]
      ]

  -- It was seen no later than any entry that may be evicted.
  find_oldest_least :
      (senders : Map Bytes (SenderState T)) (oldest : Option (Bytes × ℕ)) (b : Bytes) (seen : ℕ)
      → find_oldest senders oldest ≡ some (b, seen)
      → All (λ a ss. is_held ss ≡ false → seen ≤ ss.last_seen) senders
        × ((c : Bytes) (s : ℕ) → oldest ≡ some (c, s) → seen ≤ s)
  unfolding find_oldest older
  find_oldest_least [] oldest b seen e = (tt, λ c s f. ground arith)
  find_oldest_least ((a, ss) ∷ senders) oldest b seen e =
      let (all, next) = find_oldest_least senders (older a ss oldest) b seen e in
      ((λ free. first free next, all), λ c s f. before c s f next)
    where
      first :
          is_held ss ≡ false
          → ((c : Bytes) (s : ℕ) → older a ss oldest ≡ some (c, s) → seen ≤ s)
          → seen ≤ ss.last_seen
      first free next = elim (Option-cases oldest) [
        | inl nothing ↦ next a ss.last_seen (ground arith)
        | inr ((d, seen'), e') ↦ elim (Bool-cases (ltb ss.last_seen seen')) [
          | inl less ↦ next a ss.last_seen (ground arith)
          | inr more ↦ ground (arith, next d seen' (ground arith))
        ]
      ]

      before :
          (c : Bytes) (s : ℕ)
          → oldest ≡ some (c, s)
          → ((c : Bytes) (s : ℕ) → older a ss oldest ≡ some (c, s) → seen ≤ s)
          → seen ≤ s
      before c s f next = elim (Bool-cases (is_held ss)) [
        | inl held ↦ next c s (ground arith)
        | inr free ↦ elim (Bool-cases (ltb ss.last_seen s)) [
          | inl less ↦ ground (arith, next a ss.last_seen (ground arith))
          | inr more ↦ next c s (ground arith)
        ]
      ]

  find_oldest-eq-none :
      (senders : Map Bytes (SenderState T)) (oldest : Option (Bytes × ℕ))
      → find_oldest senders oldest ≡ none
      → (oldest ≡ none) × All (λ a ss. is_held ss ≡ true) senders
  unfolding find_oldest older
  find_oldest-eq-none [] oldest e = (e, tt)
  find_oldest-eq-none ((a, ss) ∷ senders) oldest e =
      let (f, all) = find_oldest-eq-none senders (older a ss oldest) e in (nothing f, (held f, all))
    where
      nothing : older a ss oldest ≡ none → oldest ≡ none
      nothing f = ground arith

      held : older a ss oldest ≡ none → is_held ss ≡ true
      held f = ground arith

  -- Every stored key is found.
  All-has : (senders : Map Bytes (SenderState T)) → All (λ a ss. has a senders ≡ true) senders
  unfolding lookup
  All-has [] = tt
  All-has ((a, ss) ∷ senders) = (
    ground (arith, (bytes_beq_iff a a).1 refl),
    All-map (λ b ss'. has b senders ≡ true) (λ b ss'. has b ((a, ss) ∷ senders) ≡ true) senders
        (λ b ss' h. ground (arith, h)) (All-has senders),
  )

  -- With its own value, as no key is stored twice.
  All-IsMap :
      (senders : Map Bytes (SenderState T))
      → IsMap senders
      → All (λ a ss. lookup a senders ≡ some ss) senders
  unfolding lookup
  All-IsMap [] w = tt
  All-IsMap ((a, ss) ∷ senders) w = (
    ground (arith, (bytes_beq_iff a a).1 refl),
    All-map (λ b ss'. lookup b senders ≡ some ss')
        (λ b ss'. lookup b ((a, ss) ∷ senders) ≡ some ss') senders
        (λ b ss' h. ground (arith, h, w.0, bytes_beq_iff a b, ap (λ c. lookup c senders)))
        (All-IsMap senders w.1),
  )

  -- The sender that the eviction drops may be evicted, and no such sender was seen before it.
  pub find_oldest_lem :
      (senders : Map Bytes (SenderState T)) (b : Bytes) (seen : ℕ)
      → IsMap senders
      → find_oldest senders none ≡ some (b, seen)
      → (ss : SenderState T) × (lookup b senders ≡ some ss)
        × (is_held ss ≡ false)
        × (ss.last_seen ≡ seen)
        × All (λ a ss'. is_held ss' ≡ false → seen ≤ ss'.last_seen) senders
  find_oldest_lem senders b seen w e =
      let (ss, l, free, s) =
        find_oldest_sound
          (λ c s.
            (ss : SenderState T) × (lookup c senders ≡ some ss)
            × (is_held ss ≡ false)
            × (ss.last_seen ≡ s))
          senders none b seen
          (All-map (λ a ss. lookup a senders ≡ some ss)
            (λ a ss.
              is_held ss ≡ false
              → (ss' : SenderState T) × (lookup a senders ≡ some ss')
                × (is_held ss' ≡ false)
                × (ss'.last_seen ≡ ss.last_seen))
            senders (λ a ss l free. (ss, l, free, refl)) (All-IsMap senders w))
          (λ c s f. absurd (ground arith)) e in
      (ss, l, free, s, (find_oldest_least senders none b seen e).0)

  evict-bounded :
      (fuel max : ℕ) (senders : Map Bytes (SenderState T))
      → length senders ≤ fuel + max
      → (length (evict fuel max senders) ≤ max)
        ⊎ All (λ a ss. is_held ss ≡ true) (evict fuel max senders)
  unfolding evict
  evict-bounded zero max senders h = inl (omega arith)
  evict-bounded (suc fuel) max senders h = elim (Bool-cases (ltb max (length senders))) [
    | inr within ↦ rw (within, evict) (inl (ground arith))
    | inl over ↦ elim (Option-cases (find_oldest senders none)) [
      | inl nothing ↦ rw (over, nothing, evict) (inr (find_oldest-eq-none senders none nothing).1)
      | inr ((a, seen), found) ↦
          let stored : has a senders ≡ true =
            find_oldest_sound (λ c s. has c senders ≡ true) senders none a seen
              (All-map (λ c ss. has c senders ≡ true)
                (λ c ss. is_held ss ≡ false → has c senders ≡ true) senders (λ c ss k free. k)
                (All-has senders))
              (λ c s f. absurd (ground arith)) found in
          rw (over, found, evict)
            (evict-bounded fuel max (erase a senders)
              (omega (arith, length-erase_stored a senders stored)))
    ]
  ]

  evict-keeps :
      (fuel max : ℕ) (senders : Map Bytes (SenderState T)) (b : Bytes) (ss : SenderState T)
      → IsMap senders
      → lookup b senders ≡ some ss
      → is_held ss ≡ true
      → lookup b (evict fuel max senders) ≡ some ss
  unfolding evict
  evict-keeps zero max senders b ss w e held = e
  evict-keeps (suc fuel) max senders b ss w e held = elim (Bool-cases (ltb max (length senders))) [
    | inr within ↦ rw (within, evict) e
    | inl over ↦ elim (Option-cases (find_oldest senders none)) [
      | inl nothing ↦ rw (over, nothing, evict) e
      | inr ((a, seen), found) ↦
          let (ss', l, free, s, least) = find_oldest_lem senders a seen w found in
          rw (over, found, evict)
            (evict-keeps fuel max (erase a senders) b ss (erase-IsMap a senders w)
              (ground
                (arith, lookup-erase a b senders, bytes_beq_iff a b, ap (λ c. lookup c senders)))
              held)
    ]
  ]

module _ {T : Type 0} (ops : TxOps T) (now ttl : ℕ) where
  -- An expiry changes what a sender has parked, and nothing else.
  pub expire_all-lookup :
      (senders : Map Bytes (SenderState T)) (by_hash : Map Bytes T) (a : Bytes) (ss : SenderState T)
      → lookup a senders ≡ some ss
      → (parked : Map ℕ (ParkedTx T)) × (lookup a (expire_all ops now ttl senders by_hash).0
          ≡ some (record ss { parked = parked }))
  unfolding expire_all lookup
  expire_all-lookup [] by_hash a ss e = absurd (ground arith)
  expire_all-lookup ((b, ss') ∷ senders) by_hash a ss e =
      let step = expire_parked ops now ttl ss'.parked by_hash in
      elim (Bool-cases (bytes_beq b a)) [
        | inl hit ↦
            let same : ss' ≡ ss = ground arith in
            (
              step.0,
              ground (arith, ap (λ (s : SenderState T). some (record s { parked = step.0 })) same),
            )
        | inr miss ↦
            let (parked, l) = expire_all-lookup senders step.1 a ss (ground arith) in
            (parked, ground (arith, l))
      ]

  pub expire_all-nothing :
      (senders : Map Bytes (SenderState T)) (by_hash : Map Bytes T) (a : Bytes)
      → lookup a senders ≡ none
      → lookup a (expire_all ops now ttl senders by_hash).0 ≡ none
  unfolding expire_all lookup
  expire_all-nothing [] by_hash a e = e
  expire_all-nothing ((b, ss) ∷ senders) by_hash a e =
      let step = expire_parked ops now ttl ss.parked by_hash in
      ground (arith, expire_all-nothing senders step.1 a)

  pub expire_all-IsMap :
      (senders : Map Bytes (SenderState T)) (by_hash : Map Bytes T)
      → IsMap senders
      → IsMap (expire_all ops now ttl senders by_hash).0
  unfolding expire_all
  expire_all-IsMap [] by_hash w = tt
  expire_all-IsMap ((b, ss) ∷ senders) by_hash w =
      let step = expire_parked ops now ttl ss.parked by_hash in
      (expire_all-nothing senders step.1 b w.0, expire_all-IsMap senders step.1 w.1)

module _ {T Q : Type 0} (ops : TxOps T) where
  -- After `prune` there are no more senders than the limit, or every sender left is held by a caller or has
  -- a parked transaction.
  pub prune-bounded :
      (now : ℕ) (g : NonceGate T Q)
      → (length (prune ops now g).senders ≤ g.max_senders)
        ⊎ All (λ a ss. is_held ss ≡ true) (prune ops now g).senders
  unfolding prune
  prune-bounded now g =
      let senders = (expire_all ops now g.ttl g.senders g.by_hash).0 in
      evict-bounded (length senders) g.max_senders senders (omega arith)

  -- Where no sender has two entries, `prune` keeps the entry of a sender that a caller holds, with its next
  -- nonce and its count of holders.
  pub prune-keeps :
      (now : ℕ) (g : NonceGate T Q) (a : Bytes) (ss : SenderState T)
      → IsMap g.senders
      → lookup a g.senders ≡ some ss
      → 0 < ss.refs
      → (parked : Map ℕ (ParkedTx T)) × (lookup a (prune ops now g).senders
          ≡ some (record ss { parked = parked }))
  unfolding prune
  prune-keeps now g a ss w e held =
      let (parked, l) = expire_all-lookup ops now g.ttl g.senders g.by_hash a ss e in
      let senders = (expire_all ops now g.ttl g.senders g.by_hash).0 in
      (
        parked,
        evict-keeps (length senders) g.max_senders senders a (record ss { parked = parked })
            (expire_all-IsMap ops now g.ttl g.senders g.by_hash w) l (ground arith),
      )
