-- ===== src/Execution/StateDb/Runs.antt =====
-- endorser/execution/statedb.go: sequences of calls of `StateDB`, and what a revert to a snapshot restores
-- after them.
use fabric_x_evm_lfx.Prelude.{
  ℕ, ◌≤◌, ◌<◌, ◌≡◌, refl, sym, ap, subst, ◌∙◌, Bool, true, false, ◌||◌, Option, none, some, List,
  [], ◌∷◌, ◌++◌, append-nil, append_assoc, arith, length, take, drop, take-append, drop-append,
  nat_eq, Bytes, bytes_eq,
}
use fabric_x_evm_lfx.Execution.Eth.{Eth}
use fabric_x_evm_lfx.Execution.StateDb.{
  Log, Revision, StateDb, ◌>>=◌, pure, or_store, get_state, get_state_from_journal,
  get_state_from_store, put_state,
}
use fabric_x_evm_lfx.Execution.Codec.{uint64_to_bytes}
use fabric_x_evm_lfx.Execution.StateDb.Accounts
use fabric_x_evm_lfx.Execution.StateDb.Accounts.{
  has_self_destructed, acc_key, bal, nonce, set_balance, self_destruct_account,
  mark_self_destructed, modify, ◌>>◌,
}
use fabric_x_evm_lfx.Execution.StateDb.Revert.{snapshot, find_revision, revert_to_snapshot}
use fabric_x_evm_lfx.Execution.StateDb.View.{view, undo_views, unwarm}
use fabric_x_evm_lfx.Execution.StateDb.Extends.{
  IsSound, AllRevisions-map, Recovers, Recovers-trans, Extends, Extends-Recovers, Extends-refl,
  bind_run, put_state-Extends,
}
use fabric_x_evm_lfx.Execution.StateDb.Entries
use fabric_x_evm_lfx.Execution.StateDb.Operations
use fabric_x_evm_lfx.Execution.StateDb.Operations.{clear_balance, clear_balance-IsExtending}
use fabric_x_evm_lfx.Execution.StateDb.Reverted.{
  snapshot-Extends, find_revision-append, view-reverted, reverted-IsSound,
  revert_to_snapshot-Recovers,
}
use fabric_x_evm_lfx.Execution.StateDb.Preparing.{prepare-Recovers}

-- The calls of `vm.StateDB` that can change the state within a transaction.
pub data Op : Type 0 where
  create_account create_contract : Bytes → Op
  add_balance sub_balance : Bytes → ℕ → Op
  get_balance get_nonce get_code get_code_size get_code_hash exist empty : Bytes → Op
  set_nonce : Bytes → ℕ → Op
  set_code : Bytes → Bytes → Op
  get_storage get_state_and_committed_state : Bytes → Bytes → Op
  set_storage : Bytes → Bytes → Bytes → Op
  self_destruct : Bytes → Op
  add_refund sub_refund : ℕ → Op
  add_log : Log → Op
  set_transient_state : Bytes → Bytes → Bytes → Op
  add_address_to_access_list : Bytes → Op
  add_slot_to_access_list : Bytes → Bytes → Op
  prepare : Bool → Bytes → Bytes → Option Bytes → List Bytes → List (Bytes × List Bytes) → Op
  take_snapshot : Op
  revert_to : ℕ → Op

abbrev pub is_prepare : Op → Bool
is_prepare (Op.prepare shanghai sender coinbase dest precompiles accesses) = true
is_prepare _ = false

-- Whether `Prepare` is among the calls.
abbrev pub prepares : List Op → Bool
prepares [] = false
prepares (op ∷ ops) = is_prepare op || prepares ops

pub found_first :
    (rev : Revision) (more old : List Revision)
    → (let out : Option (Revision × List Revision) = elim (find_revision rev.id (rev ∷ more)) [
      | none ↦ none
      | some f ↦ some (f.0, old ++ f.1)
    ] in
        out)
      ≡ some (rev, old ++ [])
unfolding find_revision
found_first rev more old = ground arith

module _ (eth : Eth) where
  -- The state after a call, also where the call fails.
  unfoldable pub exec : Op → StateDb → StateDb
  exec (Op.create_account a) s = Accounts.create_account eth a s
  exec (Op.create_contract a) s = Accounts.create_contract eth a s
  exec (Op.add_balance a n) s = (Accounts.add_balance eth a n s).1
  exec (Op.sub_balance a n) s = (Accounts.sub_balance eth a n s).1
  exec (Op.get_balance a) s = (Accounts.get_balance eth a s).1
  exec (Op.get_nonce a) s = (Accounts.get_nonce eth a s).1
  exec (Op.get_code a) s = (Accounts.get_code eth a s).1
  exec (Op.get_code_size a) s = (Accounts.get_code_size eth a s).1
  exec (Op.get_code_hash a) s = (Accounts.get_code_hash eth a s).1
  exec (Op.exist a) s = (Accounts.exist eth a s).1
  exec (Op.empty a) s = (Accounts.empty eth a s).1
  exec (Op.set_nonce a n) s = Accounts.set_nonce eth a n s
  exec (Op.set_code a c) s = (Accounts.set_code eth a c s).1
  exec (Op.get_storage a k) s = (Accounts.get_storage eth a k s).1
  exec (Op.get_state_and_committed_state a k) s =
      (Accounts.get_state_and_committed_state eth a k s).1
  exec (Op.set_storage a k v) s = (Accounts.set_storage eth a k v s).1
  exec (Op.self_destruct a) s = (Accounts.self_destruct_account eth a s).1
  exec (Op.add_refund n) s = Accounts.add_refund n s
  exec (Op.sub_refund n) s = (Accounts.sub_refund n s).1
  exec (Op.add_log l) s = Accounts.add_log l s
  exec (Op.set_transient_state a k v) s = Accounts.set_transient_state a k v s
  exec (Op.add_address_to_access_list a) s = Accounts.add_address_to_access_list a s
  exec (Op.add_slot_to_access_list a k) s = Accounts.add_slot_to_access_list a k s
  exec (Op.prepare shanghai sender coinbase dest precompiles accesses) s =
      Accounts.prepare shanghai sender coinbase dest precompiles accesses s
  exec Op.take_snapshot s = (snapshot s).1
  exec (Op.revert_to id) s = revert_to_snapshot id s

  unfoldable pub exec_all : List Op → StateDb → StateDb
  exec_all [] s = s
  exec_all (op ∷ ops) s = exec_all ops (exec op s)

  -- What a caller keeps to after a snapshot: it reverts to no older one, and destroys no account twice.
  abbrev pub IsAllowed : ℕ → Op → StateDb → Type 0
  IsAllowed since (Op.self_destruct a) s = has_self_destructed a s ≡ false
  IsAllowed since (Op.revert_to id) s = since ≤ id
  IsAllowed since _ s = Unit

  abbrev pub AllAllowed : ℕ → List Op → StateDb → Type 0
  AllAllowed since [] s = Unit
  AllAllowed since (op ∷ ops) s = IsAllowed since op s × AllAllowed since ops (exec op s)

  get_state-self_destructed :
      (key : Bytes) (s : StateDb) → (get_state key s).1.self_destructed ≡ s.self_destructed
  unfolding get_state ◌>>=◌ pure or_store get_state_from_journal get_state_from_store
  get_state-self_destructed key s = ground arith

  get_balance-self_destructed :
      (a : Bytes) (s : StateDb)
      → (Accounts.get_balance eth a s).1.self_destructed ≡ s.self_destructed
  unfolding Accounts.get_balance ◌>>=◌ pure
  get_balance-self_destructed a s = ground (arith, get_state-self_destructed (acc_key eth a bal) s)

  clear_balance-self_destructed :
      (a : Bytes) (prev : ℕ) (s : StateDb)
      → (clear_balance eth a prev s).1.self_destructed ≡ s.self_destructed
  unfolding modify pure set_balance put_state
  clear_balance-self_destructed a prev s = ground arith

  self_destruct_account-Extends :
      (a : Bytes) (s : StateDb)
      → IsSound s
      → has_self_destructed a s ≡ false
      → Extends s (self_destruct_account eth a s).1
  unfolding self_destruct_account ◌>>◌
  self_destruct_account-Extends a s h fresh =
      let balance = Accounts.get_balance eth a in
      let x = (Operations.get_balance-IsExtending eth a).run s h in
      bind_run balance (λ prev. clear_balance eth a prev >>= λ u. modify (mark_self_destructed a)) s
        x
        (λ prev.
          let s₁ = (balance s).1 in
          let y = (clear_balance-IsExtending eth a prev).run s₁ x.sound in
          let s₂ = (clear_balance eth a prev s₁).1 in
          let marked : Extends s₂ (modify (mark_self_destructed a) s₂).1 =
            unfold modify in
            Entries.mark_self_destructed-Extends s₂ y.sound a (
              rw (clear_balance-self_destructed a prev s₁, get_balance-self_destructed a s)
                fresh) in
          bind_run (clear_balance eth a prev) (λ u. modify (mark_self_destructed a)) s₁ y
            (λ u. marked))

  extend :
      {prepared : Bool} {base : StateDb} (s t : StateDb)
      → Recovers prepared base s
      → Extends s t
      → Recovers prepared base t
  extend {prepared} {base} s t x y =
      Recovers-trans prepared base s t x (Extends-Recovers prepared s t y)

  -- A call recovers what the state does; `Prepare` gives up the access list.
  exec-Recovers :
      (prepared : Bool) (base s : StateDb) (op : Op)
      → IsSound base
      → Recovers prepared base s
      → (is_prepare op ≡ true → prepared ≡ true)
      → IsAllowed base.next_revision_id op s
      → Recovers prepared base (exec op s)
  unfolding exec
  exec-Recovers prepared base s (Op.revert_to id) h x f a =
      revert_to_snapshot-Recovers prepared base s id h x a
  exec-Recovers prepared base s (Op.self_destruct b) h x f a =
      extend s _ x (self_destruct_account-Extends b s x.sound a)
  exec-Recovers prepared base s (Op.create_account b) h x f a =
      extend s _ x (Operations.create_account-Extends eth b s x.sound)
  exec-Recovers prepared base s (Op.create_contract b) h x f a =
      extend s _ x (Operations.create_contract-Extends eth b s x.sound)
  exec-Recovers prepared base s (Op.add_balance b n) h x f a =
      extend s _ x ((Operations.add_balance-IsExtending eth b n).run s x.sound)
  exec-Recovers prepared base s (Op.sub_balance b n) h x f a =
      extend s _ x ((Operations.sub_balance-IsExtending eth b n).run s x.sound)
  exec-Recovers prepared base s (Op.get_balance b) h x f a =
      extend s _ x ((Operations.get_balance-IsExtending eth b).run s x.sound)
  exec-Recovers prepared base s (Op.get_nonce b) h x f a =
      extend s _ x ((Operations.get_nonce-IsExtending eth b).run s x.sound)
  exec-Recovers prepared base s (Op.get_code b) h x f a =
      extend s _ x ((Operations.get_code-IsExtending eth b).run s x.sound)
  exec-Recovers prepared base s (Op.get_code_size b) h x f a =
      extend s _ x ((Operations.get_code_size-IsExtending eth b).run s x.sound)
  exec-Recovers prepared base s (Op.get_code_hash b) h x f a =
      extend s _ x ((Operations.get_code_hash-IsExtending eth b).run s x.sound)
  exec-Recovers prepared base s (Op.exist b) h x f a =
      extend s _ x ((Operations.exist-IsExtending eth b).run s x.sound)
  exec-Recovers prepared base s (Op.empty b) h x f a =
      extend s _ x ((Operations.empty-IsExtending eth b).run s x.sound)
  exec-Recovers prepared base s (Op.set_nonce b n) h x f a = extend s _ x (
      unfold Accounts.set_nonce in
      put_state-Extends (acc_key eth b nonce) (uint64_to_bytes n) s x.sound)
  exec-Recovers prepared base s (Op.set_code b c) h x f a =
      extend s _ x ((Operations.set_code-IsExtending eth b c).run s x.sound)
  exec-Recovers prepared base s (Op.get_storage b k) h x f a =
      extend s _ x ((Operations.get_storage-IsExtending eth b k).run s x.sound)
  exec-Recovers prepared base s (Op.get_state_and_committed_state b k) h x f a =
      extend s _ x ((Operations.get_state_and_committed_state-IsExtending eth b k).run s x.sound)
  exec-Recovers prepared base s (Op.set_storage b k v) h x f a =
      extend s _ x ((Operations.set_storage-IsExtending eth b k v).run s x.sound)
  exec-Recovers prepared base s (Op.add_refund n) h x f a =
      extend s _ x (Entries.add_refund-Extends s x.sound n)
  exec-Recovers prepared base s (Op.sub_refund n) h x f a =
      extend s _ x (Entries.sub_refund-Extends s x.sound n)
  exec-Recovers prepared base s (Op.add_log l) h x f a =
      extend s _ x (Entries.add_log-Extends s x.sound l)
  exec-Recovers prepared base s (Op.set_transient_state b k v) h x f a =
      extend s _ x (Entries.set_transient_state-Extends s x.sound b k v)
  exec-Recovers prepared base s (Op.add_address_to_access_list b) h x f a =
      extend s _ x (Entries.add_address_to_access_list-Extends s x.sound b)
  exec-Recovers prepared base s (Op.add_slot_to_access_list b k) h x f a =
      extend s _ x (Entries.add_slot_to_access_list-Extends s x.sound b k)
  exec-Recovers prepared base s (Op.prepare shanghai sender coinbase dest precompiles accesses) h x
        f a =
      Recovers-trans prepared base s _ x (
        subst
          (λ p.
            Recovers p s (Accounts.prepare shanghai sender coinbase dest precompiles accesses s))
          (sym (f refl))
          (prepare-Recovers shanghai sender coinbase dest precompiles accesses s x.sound))
  exec-Recovers prepared base s Op.take_snapshot h x f a = extend s _ x (snapshot-Extends s x.sound)

  exec_all-Recovers :
      (prepared : Bool) (ops : List Op) (base s : StateDb)
      → IsSound base
      → Recovers prepared base s
      → (prepares ops ≡ true → prepared ≡ true)
      → AllAllowed base.next_revision_id ops s
      → Recovers prepared base (exec_all ops s)
  unfolding exec_all
  exec_all-Recovers prepared [] base s h x f a = x
  exec_all-Recovers prepared (op ∷ ops) base s h x f a =
      exec_all-Recovers prepared ops base (exec op s) h
        (exec-Recovers prepared base s op h x (λ e. f (ap (λ b. b || prepares ops) e)) a.0)
        (λ e. f (ground (arith, e))) a.1

  -- A snapshot is taken at a sound state, then any calls are made, `Prepare`, nested snapshots and reverts
  -- to them included, with no account destroyed twice and no revert to an older snapshot. A revert to the
  -- snapshot then gives back the journal, the logs, the revisions, the refund counter, the sets of destroyed
  -- and created accounts and the transient storage of the state at the snapshot, and its access list unless
  -- `Prepare` is among the calls, and leaves a sound state.
  pub revert_to_snapshot-exec_all :
      (s : StateDb) (ops : List Op)
      → IsSound s
      → AllAllowed (snapshot s).1.next_revision_id ops (snapshot s).1
      → let t = revert_to_snapshot (snapshot s).0 (exec_all ops (snapshot s).1) in
        (unwarm (prepares ops) (view t) ≡ unwarm (prepares ops) (view s))
        × (t.journal ≡ s.journal)
        × (t.logs ≡ s.logs)
        × (t.valid_revisions ≡ s.valid_revisions)
        × IsSound t
  unfolding snapshot revert_to_snapshot
  revert_to_snapshot-exec_all s ops h a =
      let s₁ = (snapshot s).1 in
      let taken = snapshot-Extends s h in
      let u = exec_all ops s₁ in
      let prepared = prepares ops in
      let start = Extends-Recovers prepared s₁ s₁ (Extends-refl s₁ taken.sound) in
      let x = exec_all-Recovers prepared ops s₁ s₁ taken.sound start (λ e. e) a in
      let rev : Revision = record {
        id = s.next_revision_id;
        journal_index = length s.journal;
        log_index = length s.logs;
      } in
      let before = s.valid_revisions ++ [] in
      let known : find_revision s.next_revision_id u.valid_revisions ≡ some (rev, before) =
        ap (find_revision s.next_revision_id)
          (x.revisions ∙ append_assoc s.valid_revisions (rev ∷ []) x.more_revisions)
        ∙ find_revision-append s.next_revision_id s.next_revision_id s.valid_revisions
            (rev ∷ x.more_revisions) h.ids (omega arith)
        ∙ found_first rev x.more_revisions s.valid_revisions in
      let seen = view-reverted u rev before x.sound in
      let old = append-nil s.valid_revisions in
      rw (known, revert_to_snapshot)
        (
          ap (unwarm prepared) seen.0
              ∙ ap (λ es. unwarm prepared (undo_views es (view u)))
                  (ap (drop (length s.journal)) x.journal ∙ drop-append s.journal x.entries)
              ∙ x.undone
              ∙ unfold view in refl,
          ap (take (length s.journal)) x.journal ∙ take-append s.journal x.entries,
          ap (take (length s.logs)) x.logs ∙ take-append s.logs x.more_logs,
          old,
          reverted-IsSound u rev before x.sound (
              rw old (
                AllRevisions-map (λ r. r.id < s.next_revision_id) (λ r. r.id < u.next_revision_id)
                  s.valid_revisions (λ r l. omega (arith, x.next_id)) h.ids)),
        )
