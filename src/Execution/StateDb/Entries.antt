-- ===== src/Execution/StateDb/Entries.antt =====
-- endorser/execution/statedb.go: each operation that changes more than the journal adds an entry that
-- undoes it.
use fabric_x_evm_lfx.Prelude.{
  ℕ, ◌-◌, ◌≡◌, refl, sym, ap, fun_ext, inl, inr, true, false, ◌&&◌, [], ◌∷◌, ◌++◌, append-nil,
  append_assoc, arith, Map, has, insert, lookup-insert, ltb, if◌then◌else◌, Bool-cases, nat_eq,
  Bytes, bytes_beq, bytes_beq_iff, bytes_eq,
}
use fabric_x_evm_lfx.Execution.AccessList.{
  AccessList, contains, contains_address, add_address, add_slot,
}
use fabric_x_evm_lfx.Execution.AccessList.Laws.{
  IsSeparate, contains_address-contains, contains-add_address, contains-add_slot,
  add_address-IsSeparate, add_slot-IsSeparate,
}
use fabric_x_evm_lfx.Execution.StateDb.{
  Log, refund_change, self_destruct, new_contract, transient_change, access_list_address,
  access_list_slot, StateDb,
}
use fabric_x_evm_lfx.Execution.StateDb.Accounts.{
  mark_new_contract, add_refund, sub_refund, add_log, get_transient_state, set_transient_state,
  add_address_to_access_list, add_slot_to_access_list, mark_self_destructed,
}
use fabric_x_evm_lfx.Execution.StateDb.View.{view, undo_view, undo_views, transient-put}
use fabric_x_evm_lfx.Execution.StateDb.Extends.{
  IsSound, Extends, Extends-refl, Extends-entry, IsIndexed-entry,
}

-- An address put into a set that lacked it, and taken out again.
has-insert-erase :
    (m : Map Bytes (Unit {0})) (a b : Bytes)
    → has a m ≡ false
    → (if bytes_beq a b then false else has b (insert a tt m)) ≡ has b m
has-insert-erase m a b h = ground (arith, bytes_beq_iff a b, lookup-insert a b tt m)

absent_slots :
    (al : AccessList) (a s t : Bytes)
    → (contains al a s).0 ≡ false
    → contains al a t ≡ (false, false)
unfolding contains
absent_slots al a s t h = ground arith

warm-add_address :
    (al : AccessList) (a b t : Bytes)
    → contains_address al a ≡ false
    → (if bytes_beq a b then (false, false) else contains (add_address al a) b t) ≡ contains al b t
warm-add_address al a b t h = ground (
  arith,
  bytes_beq_iff a b,
  contains-add_address al a b t,
  contains_address-contains al a t,
  absent_slots al a t t,
)

warm-add_slot :
    (al : AccessList) (a s b t : Bytes)
    → IsSeparate al
    → (contains al a s).0 ≡ true
    → (contains al a s).1 ≡ false
    → (if bytes_beq a b && bytes_beq s t
        then ((contains (add_slot al a s) b t).0, false)
        else contains (add_slot al a s) b t)
      ≡ contains al b t
warm-add_slot al a s b t w p q = ground (
  arith,
  bytes_beq_iff a b,
  bytes_beq_iff s t,
  contains-add_slot al a s b t w,
  contains_address-contains al a s,
  contains_address-contains al a t,
)

warm-add_slot_new :
    (al : AccessList) (a s b t : Bytes)
    → IsSeparate al
    → (contains al a s).0 ≡ false
    → (if bytes_beq a b
        then (false, false)
        else (if bytes_beq a b && bytes_beq s t
            then ((contains (add_slot al a s) b t).0, false)
            else contains (add_slot al a s) b t))
      ≡ contains al b t
warm-add_slot_new al a s b t w p =
    ground (arith, bytes_beq_iff a b, contains-add_slot al a s b t w, absent_slots al a s t p)

module _ (s : StateDb) (h : IsSound s) where
  pub mark_new_contract-Extends : (a : Bytes) → Extends s (mark_new_contract a s)
  unfolding mark_new_contract view undo_view
  mark_new_contract-Extends a = elim (Bool-cases (has a s.new_contracts)) [
    | inl old ↦ rw (old, mark_new_contract) (Extends-refl s h)
    | inr new ↦
        rw (new, mark_new_contract)
          (Extends-entry s
            (record s {
              journal = s.journal ++ new_contract a ∷ [];
              new_contracts = insert a tt s.new_contracts;
            })
            (new_contract a) refl
            (ap (λ f. record (view s) { created = f })
              (fun_ext (λ b. has-insert-erase s.new_contracts a b new)))
            refl refl refl
            (record {
              indexed = IsIndexed-entry s (new_contract a) tt h.indexed;
              separate = h.separate;
              ids = h.ids;
            }))
  ]

  -- A second destruction of an account is left out: its entry does not undo it.
  pub mark_self_destructed-Extends :
      (a : Bytes) → has a s.self_destructed ≡ false → Extends s (mark_self_destructed a s)
  unfolding mark_self_destructed view undo_view
  mark_self_destructed-Extends a fresh = elim (Bool-cases (has a s.new_contracts)) [
    | inr old ↦ rw (old, mark_self_destructed) (Extends-refl s h)
    | inl new ↦
        rw (new, mark_self_destructed)
          (Extends-entry s
            (record s {
              journal = s.journal ++ self_destruct a ∷ [];
              self_destructed = insert a tt s.self_destructed;
            })
            (self_destruct a) refl
            (ap (λ f. record (view s) { destroyed = f })
              (fun_ext (λ b. has-insert-erase s.self_destructed a b fresh)))
            refl refl refl
            (record {
              indexed = IsIndexed-entry s (self_destruct a) tt h.indexed;
              separate = h.separate;
              ids = h.ids;
            }))
  ]

  pub add_refund-Extends : (gas : ℕ) → Extends s (add_refund gas s)
  unfolding add_refund view undo_view
  add_refund-Extends gas =
      Extends-entry s _ (refund_change s.refund) refl refl refl refl refl (record {
        indexed = IsIndexed-entry s (refund_change s.refund) tt h.indexed;
        separate = h.separate;
        ids = h.ids;
      })

  pub sub_refund-Extends : (gas : ℕ) → Extends s (sub_refund gas s).1
  unfolding sub_refund view undo_view
  sub_refund-Extends gas = elim (Bool-cases (ltb s.refund gas)) [
    | inl panics ↦ rw (panics, sub_refund) (Extends-refl s h)
    | inr fits ↦
        rw (fits, sub_refund)
          (Extends-entry s
            (record s {
              journal = s.journal ++ refund_change s.refund ∷ [];
              refund = s.refund - gas;
            })
            (refund_change s.refund) refl refl refl refl refl
            (record {
              indexed = IsIndexed-entry s (refund_change s.refund) tt h.indexed;
              separate = h.separate;
              ids = h.ids;
            }))
  ]

  pub add_log-Extends : (log : Log) → Extends s (add_log log s)
  unfolding add_log view undo_views
  add_log-Extends log = record {
    entries = [];
    more_logs = log ∷ [];
    journal = sym (append-nil s.journal);
    undone = refl;
    logs = refl;
    more_revisions = [];
    revisions = sym (append-nil s.valid_revisions);
    later = tt;
    next_id = omega arith;
    sound = record { indexed = h.indexed; separate = h.separate; ids = h.ids };
  }

  pub set_transient_state-Extends : (a k v : Bytes) → Extends s (set_transient_state a k v s)
  unfolding set_transient_state view undo_view
  set_transient_state-Extends a k v =
      let e = transient_change a k (get_transient_state a k s) in
      Extends-entry s (set_transient_state a k v s) e refl
        (ap (λ f. record (view s) { transient = f })
          (fun_ext (λ b. fun_ext (λ j. ground (
            arith,
            transient-put a k v b j s.transient_storage,
            bytes_beq_iff a b,
            bytes_beq_iff k j,
          )))))
        refl refl refl
        (record { indexed = IsIndexed-entry s e tt h.indexed; separate = h.separate; ids = h.ids })

  pub add_address_to_access_list-Extends : (a : Bytes) → Extends s (add_address_to_access_list a s)
  unfolding add_address_to_access_list view undo_view
  add_address_to_access_list-Extends a = elim (Bool-cases (contains_address s.access_list a)) [
    | inl old ↦ rw (old, add_address_to_access_list) (Extends-refl s h)
    | inr new ↦
        rw (new, add_address_to_access_list)
          (Extends-entry s
            (record s {
              journal = s.journal ++ access_list_address a ∷ [];
              access_list = add_address s.access_list a;
            })
            (access_list_address a) refl
            (ap (λ f. record (view s) { warm = f })
              (fun_ext (λ b. fun_ext (λ t. warm-add_address s.access_list a b t new))))
            refl refl refl
            (record {
              indexed = IsIndexed-entry s (access_list_address a) tt h.indexed;
              separate = add_address-IsSeparate s.access_list a h.separate;
              ids = h.ids;
            }))
  ]

  pub add_slot_to_access_list-Extends : (a k : Bytes) → Extends s (add_slot_to_access_list a k s)
  unfolding add_slot_to_access_list view undo_view undo_views
  add_slot_to_access_list-Extends a k = elim (Bool-cases (contains s.access_list a k).0) [
    | inr cold ↦
        let al = s.access_list in
        let j = s.journal ++ access_list_address a ∷ [] in
        rw (cold, add_slot_to_access_list)
          (record {
            entries = access_list_address a ∷ access_list_slot a k ∷ [];
            more_logs = [];
            journal =
                append_assoc s.journal (access_list_address a ∷ []) (access_list_slot a k ∷ []);
            undone =
                ap (λ f. record (view s) { warm = f })
                  (fun_ext (λ b. fun_ext (λ t. warm-add_slot_new al a k b t h.separate cold)));
            logs = sym (append-nil s.logs);
            more_revisions = [];
            revisions = sym (append-nil s.valid_revisions);
            later = tt;
            next_id = omega arith;
            sound = record {
              indexed =
                  IsIndexed-entry (record s { journal = j }) (access_list_slot a k) tt
                    (IsIndexed-entry s (access_list_address a) tt h.indexed);
              separate = add_slot-IsSeparate al a k h.separate;
              ids = h.ids;
            };
          })
    | inl warm ↦ elim (Bool-cases (contains s.access_list a k).1) [
      | inl both ↦ rw (warm, both, add_slot_to_access_list) (Extends-refl s h)
      | inr new ↦
          let al = s.access_list in
          rw (warm, new, add_slot_to_access_list)
            (Extends-entry s
              (record s {
                journal = s.journal ++ access_list_slot a k ∷ [];
                access_list = add_slot al a k;
              })
              (access_list_slot a k) refl
              (ap (λ f. record (view s) { warm = f })
                (fun_ext (λ b. fun_ext (λ t. warm-add_slot al a k b t h.separate warm new))))
              refl refl refl
              (record {
                indexed = IsIndexed-entry s (access_list_slot a k) tt h.indexed;
                separate = add_slot-IsSeparate al a k h.separate;
                ids = h.ids;
              }))
    ]
  ]
