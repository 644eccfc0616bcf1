-- ===== src/Gateway/TxQueueV2/Progress/Enqueuing.antt =====
-- gateway/core/txqueue_v2.go: what a tracked transaction waits for, when one is enqueued.
use fabric_x_evm_lfx.Prelude.{
  ℕ, ◌+◌, ◌<◌, ◌≡◌, refl, sym, ap, subst, ◌∙◌, ◌⊎◌, inl, inr, true, false, ◌&&◌, none, some, List,
  [], ◌∷◌, arith, Map, has, lookup, insert, lookup-insert, length, elem, elem-append, count,
  elem-count, ltb, ◌==◌, Bool-cases, nat_eq, Bytes, bytes_beq_iff, bytes_eq,
}
use fabric_x_evm_lfx.Gateway.TxQueueV2.{
  TxView, participants_for_tx, TxQueueV2, waits_at, blockers, blocked, participants_at,
  at_participant, sharing, file, new_entry, admitted,
}
use fabric_x_evm_lfx.Gateway.TxQueueV2.Links.{
  participants_at-face, waits_at-face, has-face, face-wait_for, elem-blockers-wait_for,
  elem-blockers-make_wait, elem-conflicting, elem-waiting_to_block, elem-file,
}
use fabric_x_evm_lfx.Gateway.TxQueueV2.Exclusion.{
  IsExclusive, conflicts, blocked_waiting, heap₀, heap₁, heap₂, old, new, face_old, apart_from_new,
  waits_at_new, participants_at_new, blockers_old,
}
use fabric_x_evm_lfx.Gateway.TxQueueV2.Linking.{ready_after, tracked_cases}
use fabric_x_evm_lfx.Gateway.TxQueueV2.Balance.{
  IsBalanced, wait_for-IsBalanced, make_wait-IsBalanced, count-file, elem-sharing_some,
}
use fabric_x_evm_lfx.Gateway.TxQueueV2.Progress.{
  some_element, IsTracked, IsLive, tracked-has, has-older,
}

module _ {T : Type 0} (view : TxView T) (tx : T) (q : TxQueueV2 T) (w : IsExclusive q)
    (l : IsLive q) (fresh : lookup (view.hash tx) q.hash_map ≡ none) where
  abbrev ps : List Bytes
  ps = participants_for_tx view tx

  abbrev is : List ℕ
  is = sharing q.participant_map (participants_for_tx view tx)

  -- The queue after the enqueue, by its fields.
  abbrev map₂ : Map Bytes ℕ
  map₂ = insert (view.hash tx) q.next_id q.hash_map

  still_tracked : (x : ℕ) → IsTracked q x → (h : Bytes) × (lookup h map₂ ≡ some x)
  still_tracked x (h, e) = (
    h,
    lookup-insert (view.hash tx) h q.next_id q.hash_map
        ∙ ground (arith, e, fresh, bytes_beq_iff (view.hash tx) h, ap (λ k. lookup k q.hash_map)),
  )

  new_tracked : lookup (view.hash tx) map₂ ≡ some q.next_id
  new_tracked =
      lookup-insert (view.hash tx) (view.hash tx) q.next_id q.hash_map
      ∙ ground (arith, (bytes_beq_iff (view.hash tx) (view.hash tx)).1 refl)

  shared-IsTracked : (x : ℕ) → elem x is ≡ true → IsTracked q x
  shared-IsTracked x e = let (p, f) = elem-sharing_some q.participant_map ps x e in l.known p x f

  shared_has : (x : ℕ) → elem x is ≡ true → has x (heap₀ view tx q w) ≡ true
  shared_has x e =
      ground (arith, tracked-has q w l x (shared-IsTracked x e), old view tx q w x, new view tx q w)

  is_old : (x : ℕ) → IsTracked q x → (q.next_id == x) ≡ false
  is_old x (h, e) = apart_from_new view tx q w h x e

  -- Nothing waited for the new entry, and it waited for nothing.
  before_new : (b : ℕ) → IsBalanced q.next_id b (heap₀ view tx q w)
  unfolding blockers blocked new_entry
  before_new b = elim (Bool-cases (q.next_id == b)) [
    | inl same ↦ ground (arith, new view tx q w, ap (λ k. lookup k (heap₀ view tx q w)))
    | inr apart ↦
        let none_waits : count q.next_id (blockers b q.heap) ≡ 0 =
          ground (arith, elem-count q.next_id (blockers b q.heap), l.young b q.next_id) in
        ground (arith, none_waits, old view tx q w b apart, new view tx q w)
  ]

  before_old : (x b : ℕ) → IsTracked q x → IsBalanced x b (heap₀ view tx q w)
  unfolding blockers blocked new_entry
  before_old x b t = elim (Bool-cases (q.next_id == b)) [
    | inl same ↦ ground (
      arith,
      l.balanced x q.next_id t,
      w.unused q.next_id,
      old view tx q w x (is_old x t),
      new view tx q w,
      ap (λ k. lookup k (heap₀ view tx q w)),
      ap (λ k. count k (blocked x q.heap)),
    )
    | inr apart ↦
        ground (arith, l.balanced x b t, old view tx q w b apart, old view tx q w x (is_old x t))
  ]

  after-IsBalanced :
      (x b : ℕ) → IsBalanced x b (heap₀ view tx q w) → IsBalanced x b (heap₂ view tx q w)
  after-IsBalanced x b e =
      let here : has q.next_id (heap₀ view tx q w) ≡ true = ground (arith, new view tx q w) in
      make_wait-IsBalanced q.next_id (blocked_waiting view tx q w) x b (heap₁ view tx q w)
        (same_keys q.next_id ∙ here)
        (λ c f.
          same_keys c ∙ shared_has c (ground (arith, sym (elem-waiting_to_block q.heap is c) ∙ f)))
        (wait_for-IsBalanced q.next_id (conflicts view tx q w) x b (heap₀ view tx q w) here
          (λ c f. shared_has c (ground (arith, sym (elem-conflicting q.heap is c) ∙ f))) e)
    where
      same_keys : (j : ℕ) → has j (heap₁ view tx q w) ≡ has j (heap₀ view tx q w)
      same_keys j =
          has-face j (heap₁ view tx q w) (heap₀ view tx q w)
            (face-wait_for q.next_id (conflicts view tx q w) j (heap₀ view tx q w))

  -- What an entry waits for after the enqueue.
  waits_for :
      (b x : ℕ)
      → elem x (blockers b (heap₂ view tx q w)) ≡ true
      → (((q.next_id == b) ≡ false) × (elem x (blockers b q.heap) ≡ true))
        ⊎ ((q.next_id ≡ b) × (elem x (conflicts view tx q w) ≡ true))
        ⊎ ((q.next_id ≡ x) × (elem b (blocked_waiting view tx q w) ≡ true))
  unfolding blockers new_entry
  waits_for b x e =
      let late =
        elem-blockers-make_wait q.next_id (blocked_waiting view tx q w) b x (heap₁ view tx q w) in
      let early =
        elem-blockers-wait_for q.next_id (conflicts view tx q w) b x (heap₀ view tx q w) in
      elim (Bool-cases (q.next_id == x && elem b (blocked_waiting view tx q w))) [
        | inl third ↦ inr (inr (ground arith, ground arith))
        | inr no_third ↦
            let e₁ : elem x (blockers b (heap₁ view tx q w)) ≡ true = ground (arith, late, e) in
            elim (Bool-cases (q.next_id == b)) [
              | inl same ↦ inr (
                  inl (
                    ground arith,
                    ground
                        (arith, early, e₁, new view tx q w, ap (λ k. lookup k (heap₀ view tx q w))),
                  ))
              | inr apart ↦ inl (apart, ground (arith, early, e₁, old view tx q w b apart))
            ]
      ]

  -- The blockers of the new entry and of those that wait for it.
  conflict_waits :
      (x : ℕ) → elem x (conflicts view tx q w) ≡ true → IsTracked q x × (waits_at x q.heap ≡ false)
  conflict_waits x e =
      let f = sym (elem-conflicting q.heap is x) ∙ e in
      (shared-IsTracked x (ground arith), ground arith)

  old_waits_at : (x : ℕ) → IsTracked q x → waits_at x (heap₂ view tx q w) ≡ waits_at x q.heap
  old_waits_at x t =
      waits_at-face x (heap₂ view tx q w) q.heap (face_old view tx q w x (is_old x t))

  backed₂ :
      (h : Bytes) (b x : ℕ)
      → lookup h map₂ ≡ some b
      → elem x (blockers b (heap₂ view tx q w)) ≡ true
      → ((k : Bytes) × (lookup k map₂ ≡ some x))
        × ((waits_at x (heap₂ view tx q w) ≡ false) ⊎ (b < x))
  backed₂ h b x t e = elim (waits_for b x e) [
    | inl (apart, f) ↦ elim (tracked_cases view tx q w h b t) [
      | inl (same, is_new) ↦ absurd (ground arith)
      | inr (kept, apart') ↦
          let (tx_, next) = l.backed b x (h, kept) f in
          (
            still_tracked x tx_,
            elim next [ inl flies ↦ inl (old_waits_at x tx_ ∙ flies) | inr newer ↦ inr newer ],
          )
    ]
    | inr (inl (is_new, f)) ↦
        let (tx_, flies) = conflict_waits x f in
        (still_tracked x tx_, inl (old_waits_at x tx_ ∙ flies))
    | inr (inr (is_new, f)) ↦
        let b_old =
          shared-IsTracked b (ground (arith, sym (elem-waiting_to_block q.heap is b) ∙ f)) in
        (
          (view.hash tx, new_tracked ∙ ap some is_new),
          inr (ground (arith, is_new, has-older q w l b (tracked-has q w l b b_old))),
        )
  ]

  -- The list of blockers does not become empty.
  some_blocker : (xs : List ℕ) (x : ℕ) → elem x xs ≡ true → (length xs == 0) ≡ false
  some_blocker [] x e = absurd (ground arith)
  some_blocker (y ∷ xs) x e = ground arith

  bound₂ :
      (h : Bytes) (b : ℕ)
      → lookup h map₂ ≡ some b
      → waits_at b (heap₂ view tx q w) ≡ true
      → (length (blockers b (heap₂ view tx q w)) == 0) ≡ false
  bound₂ h b t e = elim (tracked_cases view tx q w h b t) [
    | inl (same, is_new) ↦
        subst (λ j. (length (blockers j (heap₂ view tx q w)) == 0) ≡ false) is_new
          (let many : (length (conflicts view tx q w) == 0) ≡ false = ground (
            arith,
            sym (waits_at_new view tx q w) ∙ ap (λ j. waits_at j (heap₂ view tx q w)) is_new ∙ e,
          ) in
            let (x, f) = some_element (conflicts view tx q w) many in
            some_blocker (blockers q.next_id (heap₂ view tx q w)) x (waits_for_conflict x f))
    | inr (kept, apart) ↦
        let before : waits_at b q.heap ≡ true = sym (old_waits_at b (h, kept)) ∙ e in
        let (x, f) = some_element (blockers b q.heap) (l.bound b (h, kept) before) in
        some_blocker (blockers b (heap₂ view tx q w)) x (blockers_old view tx q w b x apart f)
  ]
    where
      waits_for_conflict :
          (x : ℕ)
          → elem x (conflicts view tx q w) ≡ true
          → elem x (blockers q.next_id (heap₂ view tx q w)) ≡ true
      waits_for_conflict x f =
          elem-blockers-make_wait q.next_id (blocked_waiting view tx q w) q.next_id x
            (heap₁ view tx q w)
          ∙ ground (
            arith,
            f,
            elem-blockers-wait_for q.next_id (conflicts view tx q w) q.next_id x
                (heap₀ view tx q w),
            new view tx q w,
          )

  young₂ : (b x : ℕ) → elem x (blockers b (heap₂ view tx q w)) ≡ true → x < q.next_id + 1
  young₂ b x e = elim (waits_for b x e) [
    | inl (apart, f) ↦ omega (arith, l.young b x f)
    | inr (inl (is_new, f)) ↦
        let (t, flies) = conflict_waits x f in
        omega (arith, has-older q w l x (tracked-has q w l x t))
    | inr (inr (is_new, f)) ↦ omega (arith, is_new)
  ]

  known₂ :
      (p : Bytes) (i : ℕ)
      → elem i (at_participant p (file q.next_id ps q.participant_map)) ≡ true
      → (h : Bytes) × (lookup h map₂ ≡ some i)
  known₂ p i e = elim (Bool-cases (q.next_id == i)) [
    | inl same ↦ (view.hash tx, new_tracked ∙ ground arith)
    | inr apart ↦
        still_tracked i
          (l.known p i (ground (arith, sym (elem-file q.next_id ps q.participant_map p i) ∙ e)))
  ]

  numbered₂ :
      (h : Bytes) (i : ℕ) (p : Bytes)
      → lookup h map₂ ≡ some i
      → count i (at_participant p (file q.next_id ps q.participant_map))
        ≡ count p (participants_at i (heap₂ view tx q w))
  numbered₂ h i p t = elim (tracked_cases view tx q w h i t) [
    | inl (same, is_new) ↦
        subst
          (λ j.
            count j (at_participant p (file q.next_id ps q.participant_map))
            ≡ count p (participants_at j (heap₂ view tx q w)))
          is_new
          (count-file q.next_id ps q.participant_map p q.next_id
            ∙ ground (arith, unfiled, ap (count p) (participants_at_new view tx q w)))
    | inr (kept, apart) ↦
        count-file q.next_id ps q.participant_map p i
        ∙ ground (
          arith,
          l.numbered i p (h, kept),
          ap (count p)
              (participants_at-face i (heap₂ view tx q w) q.heap (face_old view tx q w i apart)),
        )
  ]
    where
      unfiled : count q.next_id (at_participant p q.participant_map) ≡ 0
      unfiled = elim (Bool-cases (elem q.next_id (at_participant p q.participant_map))) [
        | inl filed_ ↦ absurd (
            omega (
              arith,
              has-older q w l q.next_id (tracked-has q w l q.next_id (l.known p q.next_id filed_)),
            ))
        | inr free_ ↦ ground (arith, elem-count q.next_id (at_participant p q.participant_map))
      ]

  reachable₂ :
      (h : Bytes) (i : ℕ)
      → lookup h map₂ ≡ some i
      → waits_at i (heap₂ view tx q w) ≡ false
      → (elem i (ready_after view tx q w) ≡ true) ⊎ (has h q.pending_map ≡ true)
  reachable₂ h i t e = elim (tracked_cases view tx q w h i t) [
    | inl (same, is_new) ↦
        let free_ : ltb 0 (length (conflicts view tx q w)) ≡ false =
          sym (waits_at_new view tx q w) ∙ ap (λ j. waits_at j (heap₂ view tx q w)) is_new ∙ e in
        inl (ground (arith, free_, is_new, elem-append i q.ready_list (q.next_id ∷ [])))
    | inr (kept, apart) ↦ elim (l.reachable h i kept (sym (old_waits_at i (h, kept)) ∙ e)) [
      | inl listed_ ↦ inl (ground (arith, listed_, elem-append i q.ready_list (q.next_id ∷ [])))
      | inr running ↦ inr running
    ]
  ]

  pub admitted-IsLive : IsLive (admitted view tx q)
  unfolding admitted
  admitted-IsLive = record {
    balanced = λ x b t. elim (tracked_cases view tx q w t.0 x t.1) [
      | inl (same, is_new) ↦
          subst (λ j. IsBalanced j b (heap₂ view tx q w)) is_new
            (after-IsBalanced q.next_id b (before_new b))
      | inr (kept, apart) ↦ after-IsBalanced x b (before_old x b (t.0, kept))
    ];
    young = young₂;
    known = known₂;
    numbered = λ i p t. numbered₂ t.0 i p t.1;
    backed = λ b x t e. backed₂ t.0 b x t.1 e;
    bound = λ b t e. bound₂ t.0 b t.1 e;
    reachable = reachable₂;
  }
