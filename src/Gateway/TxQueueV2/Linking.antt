-- ===== src/Gateway/TxQueueV2/Linking.antt =====
-- gateway/core/txqueue_v2.go: an enqueued transaction is linked to those it shares a participant with.
use fabric_x_evm_lfx.Prelude.{
  ℕ, ◌≡◌, refl, sym, ap, subst, subst₂, ◌∙◌, ◌⊎◌, inl, inr, true, false, none, some, List, [], ◌∷◌,
  ◌++◌, arith, has, lookup, insert, lookup-insert, length, elem, elem-append, ltb, ◌==◌,
  if◌then◌else◌, Bool-cases, nat_eq, Bytes, bytes_beq, bytes_beq_iff, bytes_eq,
}
use fabric_x_evm_lfx.Gateway.TxQueueV2.{
  TxView, participants_for_tx, TxQueueV2, waits_at, hash_at, blockers, participants_at, wait_for,
  at_participant, sharing, file, new_entry, admitted,
}
use fabric_x_evm_lfx.Gateway.TxQueueV2.Links.{
  participants_at-face, waits_at-face, hash_at-face, has-face, blockers-wait_for_other,
  blockers-make_wait_other, elem-blockers-wait_for, elem-blockers-make_wait, elem-conflicting,
  elem-waiting_to_block, elem-sharing, elem-file,
}
use fabric_x_evm_lfx.Gateway.TxQueueV2.Exclusion.{
  IsExclusive, conflicts, blocked_waiting, heap₀, heap₁, heap₂, face_kept, old, new, face_old,
  apart_from_new, waits_at_new, participants_at_new, hash_at_new, blockers_old, present,
}

module _ {T : Type 0} (view : TxView T) (tx : T) (q : TxQueueV2 T) (w : IsExclusive q) where
  -- An entry that holds a participant of the new transaction is linked to it.
  linked_new :
      (k : Bytes) (j : ℕ) (p : Bytes)
      → lookup k q.hash_map ≡ some j
      → elem p (participants_for_tx view tx) ≡ true
      → elem p (participants_at j q.heap) ≡ true
      → (elem j (blockers q.next_id (heap₂ view tx q w)) ≡ true)
        ⊎ (elem q.next_id (blockers j (heap₂ view tx q w)) ≡ true)
  linked_new k j p e f g =
      let ps = participants_for_tx view tx in
      let is = sharing q.participant_map ps in
      let found : elem j is ≡ true = elem-sharing q.participant_map ps p j f (w.filed k j p e g) in
      let apart = apart_from_new view tx q w k j e in
      elim (Bool-cases (waits_at j q.heap)) [
        | inl waits_ ↦ inr (
            elem-blockers-make_wait q.next_id (blocked_waiting view tx q w) j q.next_id
              (heap₁ view tx q w)
            ∙ ground (arith, elem-waiting_to_block q.heap is j, present view tx q w k j e))
        | inr flies ↦ inl (
            elem-blockers-make_wait q.next_id (blocked_waiting view tx q w) q.next_id j
              (heap₁ view tx q w)
            ∙ ground (
              arith,
              elem-conflicting q.heap is j,
              elem-blockers-wait_for q.next_id (conflicts view tx q w) q.next_id j
                  (heap₀ view tx q w),
              new view tx q w,
            ))
      ]

  pub no_conflicts : (xs : List ℕ) → ltb 0 (length xs) ≡ false → xs ≡ []
  no_conflicts [] e = refl
  no_conflicts (x ∷ xs) e = absurd (ground arith)

  free_new :
      waits_at q.next_id (heap₂ view tx q w) ≡ false → blockers q.next_id (heap₂ view tx q w) ≡ []
  unfolding blockers waits_at wait_for new_entry
  free_new ready_ =
      let is = sharing q.participant_map (participants_for_tx view tx) in
      let none_ : (conflicts view tx q w) ≡ [] =
        no_conflicts (conflicts view tx q w) (sym (waits_at_new view tx q w) ∙ ready_) in
      let apart : elem q.next_id (blocked_waiting view tx q w) ≡ false =
        elem-waiting_to_block q.heap is q.next_id ∙ ground (arith, w.unused q.next_id) in
      blockers-make_wait_other q.next_id (blocked_waiting view tx q w) q.next_id (heap₁ view tx q w)
        apart
      ∙ ap (λ cs. blockers q.next_id (wait_for q.next_id cs (heap₀ view tx q w))) none_
      ∙ ground (arith, new view tx q w)

  free_old :
      (k : Bytes) (j : ℕ)
      → lookup k q.hash_map ≡ some j
      → waits_at j (heap₂ view tx q w) ≡ false
      → blockers j (heap₂ view tx q w) ≡ []
  unfolding blockers
  free_old k j e ready_ =
      let is = sharing q.participant_map (participants_for_tx view tx) in
      let apart = apart_from_new view tx q w k j e in
      let flies : waits_at j q.heap ≡ false =
        sym (waits_at-face j (heap₂ view tx q w) q.heap (face_old view tx q w j apart)) ∙ ready_ in
      let unblocked : elem j (blocked_waiting view tx q w) ≡ false =
        elem-waiting_to_block q.heap is j ∙ ground (arith, flies) in
      blockers-make_wait_other q.next_id (blocked_waiting view tx q w) j (heap₁ view tx q w)
        unblocked
      ∙ blockers-wait_for_other q.next_id (conflicts view tx q w) j (heap₀ view tx q w) apart
      ∙ ground (arith, old view tx q w j apart, w.free k j e flies)

  -- What is tracked after the enqueue was tracked before, or is the new entry.
  pub tracked_cases :
      (h : Bytes) (i : ℕ)
      → lookup h (insert (view.hash tx) q.next_id q.hash_map) ≡ some i
      → ((view.hash tx ≡ h) × (q.next_id ≡ i))
        ⊎ ((lookup h q.hash_map ≡ some i) × ((q.next_id == i) ≡ false))
  tracked_cases h i e = elim (Bool-cases (bytes_beq (view.hash tx) h)) [
    | inl same ↦ inl (
      (bytes_beq_iff (view.hash tx) h).0 same,
      ground (arith, lookup-insert (view.hash tx) h q.next_id q.hash_map),
    )
    | inr other ↦
        let kept : lookup h q.hash_map ≡ some i =
          ground (arith, lookup-insert (view.hash tx) h q.next_id q.hash_map) in
        inr (kept, apart_from_new view tx q w h i kept)
  ]

  linked_with_new :
      (k : Bytes) (i j : ℕ) (p : Bytes)
      → q.next_id ≡ i
      → lookup k q.hash_map ≡ some j
      → elem p (participants_at i (heap₂ view tx q w)) ≡ true
      → elem p (participants_at j (heap₂ view tx q w)) ≡ true
      → (elem j (blockers i (heap₂ view tx q w)) ≡ true)
        ⊎ (elem i (blockers j (heap₂ view tx q w)) ≡ true)
  linked_with_new k i j p is_new e f f' =
      let apart = apart_from_new view tx q w k j e in
      let at_new : elem p (participants_for_tx view tx) ≡ true =
        sym (ap (elem p) (participants_at_new view tx q w))
        ∙ ap (λ l. elem p (participants_at l (heap₂ view tx q w))) is_new
        ∙ f in
      let at_old =
        sym (
          ap (elem p)
            (participants_at-face j (heap₂ view tx q w) q.heap (face_old view tx q w j apart)))
        ∙ f' in
      subst
        (λ l.
          (elem j (blockers l (heap₂ view tx q w)) ≡ true)
          ⊎ (elem l (blockers j (heap₂ view tx q w)) ≡ true))
        is_new (linked_new k j p e at_new at_old)

  linked_all :
      (h k : Bytes) (i j : ℕ) (p : Bytes)
      → lookup h (insert (view.hash tx) q.next_id q.hash_map) ≡ some i
      → lookup k (insert (view.hash tx) q.next_id q.hash_map) ≡ some j
      → (i == j) ≡ false
      → elem p (participants_at i (heap₂ view tx q w)) ≡ true
      → elem p (participants_at j (heap₂ view tx q w)) ≡ true
      → (elem j (blockers i (heap₂ view tx q w)) ≡ true)
        ⊎ (elem i (blockers j (heap₂ view tx q w)) ≡ true)
  linked_all h k i j p e e' apart f f' = elim (tracked_cases h i e) [
    | inl (same, i_new) ↦ elim (tracked_cases k j e') [
      | inl (same', j_new) ↦ absurd (ground arith)
      | inr (kept', apart') ↦ linked_with_new k i j p i_new kept' f f'
    ]
    | inr (kept, apart_i) ↦ elim (tracked_cases k j e') [
      | inl (same', j_new) ↦ elim (linked_with_new h j i p j_new kept f' f) [
        | inl a ↦ inr a
        | inr b ↦ inl b
      ]
      | inr (kept', apart_j) ↦
          let at_i =
            sym (
              ap (elem p) (
                participants_at-face i (heap₂ view tx q w) q.heap (face_old view tx q w i apart_i)))
            ∙ f in
          let at_j =
            sym (
              ap (elem p) (
                participants_at-face j (heap₂ view tx q w) q.heap (face_old view tx q w j apart_j)))
            ∙ f' in
          elim (w.linked h k i j p kept kept' apart at_i at_j) [
            | inl a ↦ inl (blockers_old view tx q w i j apart_i a)
            | inr b ↦ inr (blockers_old view tx q w j i apart_j b)
          ]
    ]
  ]

  abbrev pub ready_after : List ℕ
  ready_after =
      if ltb 0 (length (conflicts view tx q w))
      then q.ready_list
      else q.ready_list ++ q.next_id ∷ []

  -- The new entry was in no list.
  unlisted : elem q.next_id ready_after ≡ true → ltb 0 (length (conflicts view tx q w)) ≡ false
  unlisted e = ground (arith, w.listed q.next_id, w.unused q.next_id)

  listed_all :
      (i : ℕ)
      → elem i ready_after ≡ true
      → (has i (heap₂ view tx q w) ≡ true) × (waits_at i (heap₂ view tx q w) ≡ false)
  listed_all i e = elim (Bool-cases (q.next_id == i)) [
    | inl same ↦
        let is_new : q.next_id ≡ i = ground arith in
        subst (λ j. (has j (heap₂ view tx q w) ≡ true) × (waits_at j (heap₂ view tx q w) ≡ false))
          is_new
          (
            has-face q.next_id (heap₂ view tx q w) (heap₀ view tx q w)
                  (face_kept view tx q w q.next_id)
                ∙ ground (arith, new view tx q w),
            (waits_at_new view tx q w)
                ∙ unlisted (subst (λ j. elem j ready_after ≡ true) (sym is_new) e),
          )
    | inr apart ↦
        let before : elem i q.ready_list ≡ true =
          ground (arith, elem-append i q.ready_list (q.next_id ∷ [])) in
        let (stored_, flies) = w.listed i before in
        (
          has-face i (heap₂ view tx q w) q.heap (face_old view tx q w i apart) ∙ stored_,
          waits_at-face i (heap₂ view tx q w) q.heap (face_old view tx q w i apart) ∙ flies,
        )
  ]

  pub admitted-IsExclusive : IsExclusive (admitted view tx q)
  unfolding admitted
  admitted-IsExclusive = record {
    stored = λ h i e. elim (tracked_cases h i e) [
      | inl (same, is_new) ↦
          subst₂ (λ k j. hash_at j (heap₂ view tx q w) ≡ some k) same is_new
            (hash_at_new view tx q w)
      | inr (kept, apart) ↦
          hash_at-face i (heap₂ view tx q w) q.heap (face_old view tx q w i apart)
          ∙ w.stored h i kept
    ];
    unused = λ i above.
        let gone : lookup i q.heap ≡ none = w.unused i (omega arith) in
        ground (arith, face_old view tx q w i (ground arith));
    free = λ h i e. elim (tracked_cases h i e) [
      | inl (same, is_new) ↦
          subst (λ j. waits_at j (heap₂ view tx q w) ≡ false → blockers j (heap₂ view tx q w) ≡ [])
            is_new free_new
      | inr (kept, apart) ↦ free_old h i kept
    ];
    listed = listed_all;
    filed = λ h i p e f. elim (tracked_cases h i e) [
      | inl (same, is_new) ↦ filed_new i p is_new f
      | inr (kept, apart) ↦ filed_old h i p kept apart f
    ];
    linked = linked_all;
  }
    where
      ps : List Bytes
      ps = participants_for_tx view tx

      filed_new :
          (i : ℕ) (p : Bytes)
          → q.next_id ≡ i
          → elem p (participants_at i (heap₂ view tx q w)) ≡ true
          → elem i (at_participant p (file q.next_id ps q.participant_map)) ≡ true
      filed_new i p is_new f =
          elem-file q.next_id ps q.participant_map p i
          ∙ ground (
            arith,
            ap (elem p) (participants_at_new view tx q w),
            ap (λ j. elem p (participants_at j (heap₂ view tx q w))) is_new,
          )

      filed_old :
          (h : Bytes) (i : ℕ) (p : Bytes)
          → lookup h q.hash_map ≡ some i
          → (q.next_id == i) ≡ false
          → elem p (participants_at i (heap₂ view tx q w)) ≡ true
          → elem i (at_participant p (file q.next_id ps q.participant_map)) ≡ true
      filed_old h i p kept apart f =
          elem-file q.next_id ps q.participant_map p i
          ∙ ground (
            arith,
            w.filed h i p kept,
            ap (elem p)
                (participants_at-face i (heap₂ view tx q w) q.heap (face_old view tx q w i apart)),
          )
