-- ===== src/Execution/StateDb/Destruction.antt =====
-- endorser/execution/statedb.go: a second `SelfDestruct` of an account under a snapshot, and the revert.
use fabric_x_evm_lfx.Prelude.{
  ℕ, ◌≡◌, refl, ap, ◌∙◌, true, false, some, List, [], ◌∷◌, ◌++◌, append_assoc, arith, has, insert,
  ok, length, drop, drop-append, nat_eq, Bytes, bytes_beq_iff, bytes_eq,
}
use fabric_x_evm_lfx.Execution.Eth.{Eth}
use fabric_x_evm_lfx.Execution.StateDb.{
  Revision, Entry, self_destruct, StateDb, ◌>>=◌, pure, or_store, get_state, get_state_from_journal,
  get_state_from_store, put_state,
}
use fabric_x_evm_lfx.Execution.StateDb.Accounts.{
  acc_key, bal, set_balance, has_self_destructed, is_new_contract, get_balance,
  self_destruct_account, mark_self_destructed, modify, ◌>>◌,
}
use fabric_x_evm_lfx.Execution.StateDb.Revert.{snapshot, find_revision, revert_to_snapshot}
use fabric_x_evm_lfx.Execution.StateDb.View.{View, view, undo_view, undo_views, undo_views-append}
use fabric_x_evm_lfx.Execution.StateDb.Extends.{IsSound, Extends-trans, IsIndexed-entry}
use fabric_x_evm_lfx.Execution.StateDb.Operations.{
  get_balance-IsExtending, clear_balance, clear_balance-IsExtending,
}
use fabric_x_evm_lfx.Execution.StateDb.Reverted.{
  snapshot-Extends, find_revision-append, view-reverted,
}
use fabric_x_evm_lfx.Execution.StateDb.Runs.{found_first}

undo_view-destroyed :
    (e : Entry) (v : View) (a : Bytes) → v.destroyed a ≡ false → (undo_view e v).destroyed a ≡ false
unfolding undo_view
undo_view-destroyed e v a h = ground arith

undo_views-destroyed :
    (es : List Entry) (v : View) (a : Bytes)
    → v.destroyed a ≡ false
    → (undo_views es v).destroyed a ≡ false
unfolding undo_views
undo_views-destroyed [] v a h = h
undo_views-destroyed (e ∷ es) v a h =
    undo_view-destroyed e (undo_views es v) a (undo_views-destroyed es v a h)

-- What a revert to the last snapshot shows, in a state that extends the one at the snapshot.
view-revert_to_snapshot :
    (s u : StateDb) (more : List Revision)
    → IsSound s
    → IsSound u
    → u.valid_revisions ≡ (snapshot s).1.valid_revisions ++ more
    → view (revert_to_snapshot (snapshot s).0 u)
      ≡ undo_views (drop (length s.journal) u.journal) (view u)
unfolding snapshot revert_to_snapshot
view-revert_to_snapshot s u more h w r =
    let rev : Revision = record {
      id = s.next_revision_id;
      journal_index = length s.journal;
      log_index = length s.logs;
    } in
    let before = s.valid_revisions ++ [] in
    let known : find_revision s.next_revision_id u.valid_revisions ≡ some (rev, before) =
      ap (find_revision s.next_revision_id) (r ∙ append_assoc s.valid_revisions (rev ∷ []) more)
      ∙ find_revision-append s.next_revision_id s.next_revision_id s.valid_revisions (rev ∷ more)
          h.ids (omega arith)
      ∙ found_first rev more s.valid_revisions in
    rw (known, revert_to_snapshot) (view-reverted u rev before w).0

last_undone : (a : Bytes) (v : View) → (undo_views (self_destruct a ∷ []) v).destroyed a ≡ false
unfolding undo_views undo_view
last_undone a v = ground (arith, bytes_beq_iff a a)

destroyed_shown : (a : Bytes) (s : StateDb) → has_self_destructed a s ≡ (view s).destroyed a
unfolding view
destroyed_shown a s = refl

module _ (eth : Eth) where
  -- The state just before `SelfDestruct` marks the account.
  abbrev cleared : Bytes → ℕ → StateDb → StateDb
  cleared a n s = (clear_balance eth a n (get_balance eth a s).1).1

  self_destruct_account-cleared :
      (a : Bytes) (n : ℕ) (s : StateDb)
      → (get_balance eth a s).0 ≡ ok n
      → (clear_balance eth a n (get_balance eth a s).1).0 ≡ ok tt
      → (self_destruct_account eth a s).1 ≡ mark_self_destructed a (cleared a n s)
  unfolding self_destruct_account ◌>>=◌ ◌>>◌ modify
  self_destruct_account-cleared a n s e c = ground arith

  get_state-new_contracts :
      (key : Bytes) (s : StateDb) → (get_state key s).1.new_contracts ≡ s.new_contracts
  unfolding get_state ◌>>=◌ pure or_store get_state_from_journal get_state_from_store
  get_state-new_contracts key s = ground arith

  cleared-new_contracts :
      (a : Bytes) (n : ℕ) (s : StateDb) → (cleared a n s).new_contracts ≡ s.new_contracts
  unfolding get_balance ◌>>=◌ pure modify set_balance put_state
  cleared-new_contracts a n s = ground (arith, get_state-new_contracts (acc_key eth a bal) s)

  clear_balance-ok : (a : Bytes) (n : ℕ) (s : StateDb) → (clear_balance eth a n s).0 ≡ ok tt
  unfolding pure modify
  clear_balance-ok a n s = ground arith

  -- An account that this transaction made and has already destroyed is destroyed once more after a
  -- snapshot, with a balance that can be read. After the revert to the snapshot it no longer counts as
  -- destroyed, although it did at the snapshot.
  pub revert_to_snapshot-destroyed_twice :
      (a : Bytes) (n : ℕ) (s : StateDb)
      → IsSound s
      → is_new_contract a s ≡ true
      → has_self_destructed a s ≡ true
      → (get_balance eth a (snapshot s).1).0 ≡ ok n
      → has_self_destructed a
          (revert_to_snapshot (snapshot s).0 (self_destruct_account eth a (snapshot s).1).1)
        ≡ false
  unfolding snapshot mark_self_destructed
  revert_to_snapshot-destroyed_twice a n s h made gone e =
      let s₁ = (snapshot s).1 in
      let taken = snapshot-Extends s h in
      let read_ = (get_balance-IsExtending eth a).run s₁ taken.sound in
      let s₀ = (get_balance eth a s₁).1 in
      let s₂ = cleared a n s₁ in
      let x =
        Extends-trans s₁ s₀ s₂ read_ ((clear_balance-IsExtending eth a n).run s₀ read_.sound) in
      let new : has a s₂.new_contracts ≡ true = ap (has a) (cleared-new_contracts a n s₁) ∙ made in
      let u : StateDb = record s₂ {
        journal = s₂.journal ++ self_destruct a ∷ [];
        self_destructed = insert a tt s₂.self_destructed;
      } in
      let marked : (self_destruct_account eth a s₁).1 ≡ u =
        self_destruct_account-cleared a n s₁ e (clear_balance-ok a n s₀)
        ∙ rw (new, mark_self_destructed) refl in
      let sound : IsSound u = record {
        indexed = IsIndexed-entry s₂ (self_destruct a) tt x.sound.indexed;
        separate = x.sound.separate;
        ids = x.sound.ids;
      } in
      let tail : u.journal ≡ s.journal ++ (x.entries ++ self_destruct a ∷ []) =
        ap (λ j. j ++ self_destruct a ∷ []) (x.journal)
        ∙ append_assoc s.journal x.entries (self_destruct a ∷ []) in
      let undone = undo_views-append x.entries (self_destruct a ∷ []) (view u) in
      let shown =
        view-revert_to_snapshot s u x.more_revisions h sound x.revisions
        ∙ ap (λ es. undo_views es (view u))
            (ap (drop (length s.journal)) tail
              ∙ drop-append s.journal (x.entries ++ self_destruct a ∷ []))
        ∙ undone in
      rw marked (
        destroyed_shown a (revert_to_snapshot (snapshot s).0 u)
        ∙ ap (λ v. v.destroyed a) shown
        ∙ undo_views-destroyed x.entries _ a (last_undone a (view u)))
