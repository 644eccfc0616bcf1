-- ===== src/Gateway/TxQueueV2/Progress/Completing.antt =====
-- gateway/core/txqueue_v2.go: what a tracked transaction waits for, when one is completed.
use fabric_x_evm_lfx.Prelude.{
  ℕ, ◌-◌, ◌≡◌, refl, sym, ap, subst, ◌∙◌, ◌⊎◌, inl, inr, Bool, true, false, some, List, [], ◌∷◌,
  arith, has, lookup, erase, lookup-insert, lookup-erase, length, elem, elem-append, swap_remove,
  count, elem-count, count-swap_remove, ◌==◌, if◌then◌else◌, Bool-cases, Option-cases, nat_eq,
  Bytes, bytes_beq, bytes_beq_iff, bytes_eq,
}
use fabric_x_evm_lfx.Gateway.TxQueueV2.{
  TxQueueV2, waits_at, blockers, blocked, participants_at, unblock, release_blocked, at_participant,
  unfile, complete,
}
use fabric_x_evm_lfx.Gateway.TxQueueV2.Exclusion.{IsExclusive}
use fabric_x_evm_lfx.Gateway.TxQueueV2.Completion.{
  IsRound, drop_blocker, make_ready, completed, lookup-unblock, release_blocked-IsRound,
  complete-found, complete-missing, tracked_before,
}
use fabric_x_evm_lfx.Gateway.TxQueueV2.Balance.{count-unfile}
use fabric_x_evm_lfx.Gateway.TxQueueV2.Progress.{IsTracked, IsLive}

module _ {T : Type 0} where
  -- What a completion of `i` does to the entries that it passes.
  record IsPass (i : ℕ) (bs : List ℕ) (q q' : TxQueueV2 T) : Type 0 where
    counts :
        (j x : ℕ)
        → count x (blockers j q'.heap) ≡ (
            if i == x
            then count x (blockers j q.heap) - count j bs
            else count x (blockers j q.heap))
    blocks : (j : ℕ) → blocked j q'.heap ≡ blocked j q.heap
    flying : (j : ℕ) → waits_at j q.heap ≡ false → waits_at j q'.heap ≡ false
    bound :
        (j : ℕ)
        → (waits_at j q.heap ≡ true → (length (blockers j q.heap) == 0) ≡ false)
        → waits_at j q'.heap ≡ true
        → (length (blockers j q'.heap) == 0) ≡ false
    reachable :
        (j : ℕ) (running : Bool)
        → (waits_at j q.heap ≡ false → (elem j q.ready_list ≡ true) ⊎ (running ≡ true))
        → waits_at j q'.heap ≡ false
        → (elem j q'.ready_list ≡ true) ⊎ (running ≡ true)
    running_map : q'.pending_map ≡ q.pending_map

  -- The ready list keeps its entries and takes in the entry that becomes ready.
  ready-unblock :
      (i b j : ℕ) (q : TxQueueV2 T)
      → (elem j q.ready_list ≡ true)
        ⊎ (waits_at j q.heap ≡ true) × (waits_at j (unblock i b q).heap ≡ false)
      → elem j (unblock i b q).ready_list ≡ true
  unfolding unblock waits_at
  ready-unblock i b j q e = elim (Option-cases (lookup b q.heap)) [
    | inl nothing ↦ ground (arith, nothing, e)
    | inr (x, found) ↦ elim (Bool-cases (length (swap_remove x.is_blocked_by i) == 0)) [
      | inl free ↦ ground (
        arith,
        found,
        free,
        e,
        elem-append j q.ready_list (b ∷ []),
        lookup-insert b j (make_ready (drop_blocker i x)) q.heap,
      )
      | inr bound ↦ ground (
        arith,
        found,
        bound,
        e,
        lookup-insert b j (drop_blocker i x) q.heap,
        ap (λ k. lookup k q.heap),
      )
    ]
  ]

  unblock-running : (i b : ℕ) (q : TxQueueV2 T) → (unblock i b q).pending_map ≡ q.pending_map
  unfolding unblock
  unblock-running i b q = ground arith

  unblock-IsPass : (i b : ℕ) (q : TxQueueV2 T) → IsPass i (b ∷ []) q (unblock i b q)
  unfolding waits_at blockers blocked
  unblock-IsPass i b q = record {
    counts = λ j x. elim (Option-cases (lookup j q.heap)) [
      | inl nothing ↦ ground (arith, lookup-unblock i b j q, nothing)
      | inr (y, found) ↦
          ground (arith, lookup-unblock i b j q, found, count-swap_remove i x y.is_blocked_by)
    ];
    blocks = λ j. ground (arith, lookup-unblock i b j q);
    flying = λ j e. ground (arith, lookup-unblock i b j q);
    bound = λ j before e. elim (Option-cases (lookup j q.heap)) [
      | inl nothing ↦ ground (arith, lookup-unblock i b j q, nothing)
      | inr (y, found) ↦ ground (arith, lookup-unblock i b j q, found)
    ];
    reachable = λ j running before e. elim (Bool-cases (waits_at j q.heap)) [
      | inl waits_ ↦ inl (ready-unblock i b j q (inr (waits_, e)))
      | inr flies ↦ elim (before flies) [
        | inl listed ↦ inl (ready-unblock i b j q (inl listed))
        | inr runs ↦ inr runs
      ]
    ];
    running_map = unblock-running i b q;
  }

  release_blocked-IsPass :
      (i : ℕ) (bs : List ℕ) (q : TxQueueV2 T) → IsPass i bs q (release_blocked i bs q)
  unfolding release_blocked
  release_blocked-IsPass i [] q = record {
    counts = λ j x. ground arith;
    blocks = λ j. refl;
    flying = λ j e. e;
    bound = λ j before. before;
    reachable = λ j running before. before;
    running_map = refl;
  }
  release_blocked-IsPass i (b ∷ bs) q =
      let one = unblock-IsPass i b q in
      let rest = release_blocked-IsPass i bs (unblock i b q) in
      record {
        counts = λ j x. rest.counts j x ∙ ground (arith, one.counts j x);
        blocks = λ j. rest.blocks j ∙ one.blocks j;
        flying = λ j e. rest.flying j (one.flying j e);
        bound = λ j before. rest.bound j (one.bound j before);
        reachable = λ j running before. rest.reachable j running (one.reachable j running before);
        running_map = rest.running_map ∙ one.running_map;
      }

module _ {T : Type 0} (h : Bytes) (i : ℕ) (q : TxQueueV2 T) (w : IsExclusive q) (l : IsLive q)
    (e : lookup h q.hash_map ≡ some i) where
  abbrev start : TxQueueV2 T
  start = record q { pending_map = erase h q.pending_map }

  abbrev passed : TxQueueV2 T
  passed = release_blocked i (blocked i q.heap) (record q { pending_map = erase h q.pending_map })

  pass : IsPass i (blocked i q.heap) start passed
  pass = release_blocked-IsPass i (blocked i q.heap) start

  round : IsRound i start passed
  round = release_blocked-IsRound i (blocked i q.heap) start

  kept_before :
      (k : Bytes) (j : ℕ)
      → lookup k (erase h passed.hash_map) ≡ some j
      → (lookup k q.hash_map ≡ some j) × ((i == j) ≡ false)
  kept_before k j f =
      tracked_before h i q w e k j (sym (ap (λ m. lookup k (erase h m)) round.maps.0) ∙ f)

  kept_after :
      (j : ℕ)
      → IsTracked q j
      → (i == j) ≡ false
      → (k : Bytes) × (lookup k (erase h passed.hash_map) ≡ some j)
  kept_after j (k, f) apart = (
    k,
    ap (λ m. lookup k (erase h m)) round.maps.0
        ∙ lookup-erase h k q.hash_map
        ∙ ground (arith, e, f, bytes_beq_iff h k, ap (λ m. lookup m q.hash_map)),
  )

  blocked_before :
      (b x : ℕ)
      → elem x (blockers b passed.heap) ≡ true
      → (elem x (blockers b q.heap) ≡ true) × ((i == x) ≡ false)
  blocked_before b x f =
      let after = elem-count x (blockers b passed.heap) in
      let before = elem-count x (blockers b q.heap) in
      (
        ground (arith, after, before, pass.counts b x),
        ground (
          arith,
          after,
          pass.counts b x,
          ap (λ y. count y (blockers b q.heap)),
          l.balanced i b (h, e),
        ),
      )

  abbrev filed_after : Bytes → List ℕ
  filed_after p = at_participant p (unfile i (participants_at i passed.heap) passed.participant_map)

  count-filed_after :
      (p : Bytes) (j : ℕ)
      → count j (filed_after p)
        ≡ (if i == j then 0 else count j (at_participant p q.participant_map))
  count-filed_after p j =
      count-unfile i (participants_at i passed.heap) passed.participant_map p j
      ∙ ground (
        arith,
        l.numbered i p (h, e),
        ap (count p) (round.parties i),
        ap (λ m. count j (at_participant p m)) round.maps.1,
        ap (λ y. count y (at_participant p q.participant_map)),
      )

  known_after :
      (p : Bytes) (j : ℕ)
      → elem j (filed_after p) ≡ true
      → (k : Bytes) × (lookup k (erase h passed.hash_map) ≡ some j)
  known_after p j f =
      let n = elem-count j (filed_after p) in
      let m = elem-count j (at_participant p q.participant_map) in
      let apart : (i == j) ≡ false = ground (arith, n, count-filed_after p j) in
      kept_after j (l.known p j (ground (arith, n, m, count-filed_after p j))) apart

  reachable_after :
      (k : Bytes) (j : ℕ)
      → lookup k (erase h passed.hash_map) ≡ some j
      → waits_at j passed.heap ≡ false
      → (elem j passed.ready_list ≡ true) ⊎ (has k passed.pending_map ≡ true)
  reachable_after k j f flies =
      let (kept, apart) = kept_before k j f in
      let (tracked_, other) : (lookup k q.hash_map ≡ some j) × (bytes_beq h k ≡ false) =
        (kept, ground (arith, bytes_beq_iff h k, e, kept, ap (λ m. lookup m q.hash_map))) in
      elim (pass.reachable j (has k (erase h q.pending_map))
        (λ before. elim (l.reachable k j kept before) [
          | inl listed ↦ inl listed
          | inr runs ↦ inr (ground (arith, runs, other, lookup-erase h k q.pending_map))
        ])
        flies) [ inl listed ↦ inl listed | inr runs ↦ inr (ap (has k) pass.running_map ∙ runs) ]

  completed-IsLive : IsLive (completed h i q)
  completed-IsLive = record {
    balanced = λ x b t.
        let (kept, apart) = kept_before t.0 x t.1 in
        pass.counts b x
        ∙ ground (arith, apart, l.balanced x b (t.0, kept))
        ∙ sym (ap (count b) (pass.blocks x));
    young = λ b x f. omega (arith, l.young b x (blocked_before b x f).0, round.maps.2);
    known = known_after;
    numbered = λ j p t.
        let (kept, apart) = kept_before t.0 j t.1 in
        count-filed_after p j
        ∙ ground (arith, apart, l.numbered j p (t.0, kept))
        ∙ sym (ap (count p) (round.parties j));
    backed = λ b x t f.
        let (kept, apart) = kept_before t.0 b t.1 in
        let (found, other) = blocked_before b x f in
        let (tx, next) = l.backed b x (t.0, kept) found in
        (
          kept_after x tx other,
          elim next [ inl flies ↦ inl (pass.flying x flies) | inr newer ↦ inr newer ],
        );
    bound = λ b t. pass.bound b (l.bound b (t.0, (kept_before t.0 b t.1).0));
    reachable = reachable_after;
  }

module _ {T : Type 0} where
  pub complete-IsLive :
      (h : Bytes) (q : TxQueueV2 T) → IsExclusive q → IsLive q → IsLive (complete h q)
  complete-IsLive h q w l = elim (Option-cases (lookup h q.hash_map)) [
    | inl nothing ↦ subst IsLive (sym (complete-missing h q nothing)) (record {
      balanced = l.balanced;
      young = l.young;
      known = l.known;
      numbered = l.numbered;
      backed = l.backed;
      bound = l.bound;
      reachable = λ k j f flies. elim (l.reachable k j f flies) [
        | inl listed ↦ inl listed
        | inr runs ↦ inr (
            ground (
              arith,
              runs,
              f,
              nothing,
              lookup-erase h k q.pending_map,
              bytes_beq_iff h k,
              ap (λ m. lookup m q.hash_map),
            ))
      ];
    })
    | inr (i, found) ↦
        subst IsLive (sym (complete-found h i q found)) (completed-IsLive h i q w l found)
  ]
