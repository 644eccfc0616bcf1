-- ===== src/Gateway/TxQueueV2/Completion.antt =====
-- gateway/core/txqueue_v2.go: the tracked transactions and their links, when one is completed or dequeued.
use fabric_x_evm_lfx.Prelude.{
  ℕ, ◌≡◌, refl, sym, ap, subst, ◌∙◌, ◌⊎◌, inl, inr, true, false, none, some, List, [], ◌∷◌, arith,
  has, lookup, erase, lookup-insert, lookup-erase, length, elem, elem-append, swap_remove,
  elem-swap_remove, ◌==◌, if◌then◌else◌, Bool-cases, Option-cases, nat_eq, Bytes, bytes_beq,
  bytes_beq_iff, bytes_eq,
}
use fabric_x_evm_lfx.Gateway.TxQueueV2.{
  TxEntry, ready, pending, TxQueueV2, update, waits_at, hash_at, blockers, blocked, participants_at,
  unblock, release_blocked, at_participant, unfile, complete,
}
use fabric_x_evm_lfx.Gateway.TxQueueV2.Links.{lookup-update, elem-unfile}
use fabric_x_evm_lfx.Gateway.TxQueueV2.Exclusion.{IsExclusive}

no_length : (xs : List ℕ) → (length xs == 0) ≡ true → xs ≡ []
no_length [] e = refl
no_length (x ∷ xs) e = absurd (ground arith)

module _ {T : Type 0} where
  -- What a round leaves of an entry: what it is, what it waits for but for the completed one, and that it
  -- waits for something while it is not ready.
  pub record IsRound (i : ℕ) (q q' : TxQueueV2 T) : Type 0 where
    pub maps :
        (q'.hash_map ≡ q.hash_map)
        × (q'.participant_map ≡ q.participant_map)
        × (q'.next_id ≡ q.next_id)
    pub hashes : (j : ℕ) → hash_at j q'.heap ≡ hash_at j q.heap
    pub missing : (j : ℕ) → lookup j q.heap ≡ none → lookup j q'.heap ≡ none
    pub parties : (j : ℕ) → participants_at j q'.heap ≡ participants_at j q.heap
    pub others :
        (j x : ℕ) → (i == x) ≡ false → elem x (blockers j q'.heap) ≡ elem x (blockers j q.heap)
    pub listed :
        ((j : ℕ) → elem j q.ready_list ≡ true → (has j q.heap ≡ true) × (waits_at j q.heap ≡ false))
        → (j : ℕ) → elem j q'.ready_list ≡ true
        → (has j q'.heap ≡ true) × (waits_at j q'.heap ≡ false)
    pub freed :
        (j : ℕ)
        → (waits_at j q.heap ≡ false → blockers j q.heap ≡ [])
        → waits_at j q'.heap ≡ false
        → blockers j q'.heap ≡ []

  abbrev pub drop_blocker : ℕ → TxEntry T → TxEntry T
  drop_blocker i x = record x { is_blocked_by = swap_remove x.is_blocked_by i }

  abbrev pub make_ready : TxEntry T → TxEntry T
  make_ready x = record x { state = ready }

  pub lookup-unblock :
      (i b j : ℕ) (q : TxQueueV2 T)
      → lookup j (unblock i b q).heap ≡ elim (lookup j q.heap) [
        | none ↦ none
        | some x ↦ some (
            if b == j
            then (if length (swap_remove x.is_blocked_by i) == 0
                then make_ready (drop_blocker i x)
                else drop_blocker i x)
            else x)
      ]
  unfolding unblock
  lookup-unblock i b j q = elim (Option-cases (lookup b q.heap)) [
    | inl nothing ↦ ground (arith, nothing, ap (λ k. lookup k q.heap))
    | inr (x, found) ↦ ground (
      arith,
      found,
      lookup-insert b j (make_ready (drop_blocker i x)) q.heap,
      lookup-insert b j (drop_blocker i x) q.heap,
      ap (λ k. lookup k q.heap),
    )
  ]

  pub unblock-maps :
      (i b : ℕ) (q : TxQueueV2 T)
      → ((unblock i b q).hash_map ≡ q.hash_map)
        × ((unblock i b q).participant_map ≡ q.participant_map)
        × ((unblock i b q).next_id ≡ q.next_id)
  unfolding unblock
  unblock-maps i b q = (ground arith, ground arith, ground arith)

  -- The ready list grows by an entry that is ready.
  unblock-listed :
      (i b j : ℕ) (q : TxQueueV2 T)
      → elem j (unblock i b q).ready_list ≡ true
      → (elem j q.ready_list ≡ true)
        ⊎ ((b == j) ≡ true)
          × (has j (unblock i b q).heap ≡ true)
          × (waits_at j (unblock i b q).heap ≡ false)
  unfolding unblock waits_at
  unblock-listed i b j q e = elim (Option-cases (lookup b q.heap)) [
    | inl nothing ↦ inl (ground (arith, nothing))
    | inr (x, found) ↦ elim (Bool-cases (length (swap_remove x.is_blocked_by i) == 0)) [
      | inl free ↦ elim (Bool-cases (elem j q.ready_list)) [
        | inl before ↦ inl before
        | inr pushed ↦
            let same : (b == j) ≡ true = ground (arith, elem-append j q.ready_list (b ∷ [])) in
            let now = lookup-insert b j (make_ready (drop_blocker i x)) q.heap in
            inr (same, ground (arith, now), ground (arith, now))
      ]
      | inr bound ↦ inl (ground (arith, found))
    ]
  ]

  unblock-IsRound : (i b : ℕ) (q : TxQueueV2 T) → IsRound i q (unblock i b q)
  unfolding hash_at waits_at blockers participants_at
  unblock-IsRound i b q = record {
    maps = unblock-maps i b q;
    hashes = λ j. ground (arith, lookup-unblock i b j q);
    missing = λ j e. ground (arith, lookup-unblock i b j q);
    parties = λ j. ground (arith, lookup-unblock i b j q);
    others = λ j x apart. elim (Option-cases (lookup j q.heap)) [
      | inl nothing ↦ ground (arith, lookup-unblock i b j q, nothing)
      | inr (y, found) ↦
          ground (arith, lookup-unblock i b j q, found, elem-swap_remove i x y.is_blocked_by apart)
    ];
    listed = λ before j e. elim (unblock-listed i b j q e) [
      | inl old ↦
          let (h, f) = before j old in
          (ground (arith, lookup-unblock i b j q), ground (arith, lookup-unblock i b j q))
      | inr (same, h, f) ↦ (h, f)
    ];
    freed = λ j before after. elim (Option-cases (lookup j q.heap)) [
      | inl nothing ↦ ground (arith, lookup-unblock i b j q, nothing)
      | inr (y, found) ↦ ground (
        arith,
        lookup-unblock i b j q,
        found,
        no_length (swap_remove y.is_blocked_by i),
        ap (λ l. swap_remove l i),
      )
    ];
  }

  pub release_blocked-IsRound :
      (i : ℕ) (bs : List ℕ) (q : TxQueueV2 T) → IsRound i q (release_blocked i bs q)
  unfolding release_blocked
  release_blocked-IsRound i [] q = record {
    maps = (refl, refl, refl);
    hashes = λ j. refl;
    missing = λ j e. e;
    parties = λ j. refl;
    others = λ j x apart. refl;
    listed = λ before. before;
    freed = λ j before. before;
  }
  release_blocked-IsRound i (b ∷ bs) q =
      let one = unblock-IsRound i b q in
      let rest = release_blocked-IsRound i bs (unblock i b q) in
      record {
        maps = (rest.maps.0 ∙ one.maps.0, rest.maps.1 ∙ one.maps.1, rest.maps.2 ∙ one.maps.2);
        hashes = λ j. rest.hashes j ∙ one.hashes j;
        missing = λ j e. rest.missing j (one.missing j e);
        parties = λ j. rest.parties j ∙ one.parties j;
        others = λ j x apart. rest.others j x apart ∙ one.others j x apart;
        listed = λ before. rest.listed (one.listed before);
        freed = λ j before. rest.freed j (one.freed j before);
      }

  -- The queue after a completion of the entry `i` with the hash `h`.
  abbrev pub completed : Bytes → ℕ → TxQueueV2 T → TxQueueV2 T
  completed h i q₀ =
      let q = record q₀ { pending_map = erase h q₀.pending_map } in
      let q' = release_blocked i (blocked i q.heap) q in
      record q' {
        hash_map = erase h q'.hash_map;
        participant_map = unfile i (participants_at i q'.heap) q'.participant_map;
      }

  pub complete-found :
      (h : Bytes) (i : ℕ) (q : TxQueueV2 T)
      → lookup h q.hash_map ≡ some i
      → complete h q ≡ completed h i q
  unfolding complete
  complete-found h i q e = ground (arith, e)

  pub complete-missing :
      (h : Bytes) (q : TxQueueV2 T)
      → lookup h q.hash_map ≡ none
      → complete h q ≡ record q { pending_map = erase h q.pending_map }
  unfolding complete
  complete-missing h q e = ground (arith, e)

  -- What is still tracked was tracked before, under another hash and as another entry.
  pub tracked_before :
      (h : Bytes) (i : ℕ) (q : TxQueueV2 T)
      → IsExclusive q
      → lookup h q.hash_map ≡ some i
      → (k : Bytes) (j : ℕ) → lookup k (erase h q.hash_map) ≡ some j
      → (lookup k q.hash_map ≡ some j) × ((i == j) ≡ false)
  tracked_before h i q w e k j f =
      let (kept, other) : (lookup k q.hash_map ≡ some j) × (bytes_beq h k ≡ false) =
        ground (arith, lookup-erase h k q.hash_map) in
      (
        kept,
        ground (
          arith,
          bytes_beq_iff h k,
          w.stored h i e,
          w.stored k j kept,
          ap (λ l. hash_at l q.heap),
        ),
      )

  completed-IsExclusive :
      (h : Bytes) (i : ℕ) (q : TxQueueV2 T)
      → IsExclusive q
      → lookup h q.hash_map ≡ some i
      → IsExclusive (completed h i q)
  completed-IsExclusive h i q₀ w e =
      let q = record q₀ { pending_map = erase h q₀.pending_map } in
      let q' = release_blocked i (blocked i q.heap) q in
      let r = release_blocked-IsRound i (blocked i q.heap) q in
      let before : (k : Bytes) (j : ℕ)
          → lookup k (erase h q'.hash_map) ≡ some j
          → (lookup k q.hash_map ≡ some j) × ((i == j) ≡ false) =
        λ k j f.
          tracked_before h i q₀ w e k j (sym (ap (λ m. lookup k (erase h m)) r.maps.0) ∙ f) in
      record {
        stored = λ k j f. r.hashes j ∙ w.stored k j (before k j f).0;
        unused = λ j above. r.missing j (w.unused j (omega (arith, r.maps.2)));
        free = λ k j f. r.freed j (w.free k j (before k j f).0);
        listed = r.listed w.listed;
        filed = λ k j p f g.
            elem-unfile i (participants_at i q'.heap) q'.participant_map p j (before k j f).1
            ∙ ap (λ m. elem j (at_participant p m)) r.maps.1
            ∙ w.filed k j p (before k j f).0 (sym (ap (elem p) (r.parties j)) ∙ g);
        linked = λ k l j m p f f' apart g g'.
            let (kept, other) = before k j f in
            let (kept', other') = before l m f' in
            elim (w.linked k l j m p kept kept' apart (sym (ap (elem p) (r.parties j)) ∙ g)
              (sym (ap (elem p) (r.parties m)) ∙ g')) [
                | inl a ↦ inl (r.others j m other' ∙ a)
                | inr b ↦ inr (r.others m j other ∙ b)
              ];
      }

  pub complete-IsExclusive :
      (h : Bytes) (q : TxQueueV2 T) → IsExclusive q → IsExclusive (complete h q)
  complete-IsExclusive h q w = elim (Option-cases (lookup h q.hash_map)) [
    | inl nothing ↦ subst IsExclusive (sym (complete-missing h q nothing)) (record {
      stored = w.stored;
      unused = w.unused;
      free = w.free;
      listed = w.listed;
      filed = w.filed;
      linked = w.linked;
    })
    | inr (i, found) ↦
        subst IsExclusive (sym (complete-found h i q found)) (completed-IsExclusive h i q w found)
  ]

  pub lookup-dequeued :
      (i j : ℕ) (q : TxQueueV2 T)
      → lookup j (update i (λ x. record x { state = pending }) q.heap) ≡ elim (lookup j q.heap) [
        | none ↦ none
        | some x ↦ some (if i == j then record x { state = pending } else x)
      ]
  lookup-dequeued i j q =
      lookup-update i j (λ x. record x { state = pending }) q.heap ∙ ground arith
