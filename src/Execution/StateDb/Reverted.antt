-- ===== src/Execution/StateDb/Reverted.antt =====
-- endorser/execution/statedb.go, `RevertToSnapshot`: the state after a revert to a revision taken at a
-- state or after it extends that state.
use fabric_x_evm_lfx.Prelude.{
  ℕ, ◌+◌, ◌-◌, ◌≤◌, ◌<◌, ◌≡◌, refl, sym, ap, subst, ◌∙◌, inl, inr, Bool, none, some, List, [], ◌∷◌,
  ◌++◌, append-nil, arith, length, take, drop, drop-append_ge, take-append_ge, take-append-drop,
  ◌==◌, Bool-cases, Option-cases, nat_eq, bytes_eq,
}
use fabric_x_evm_lfx.Execution.StateDb.{Revision, Entry, StateDb}
use fabric_x_evm_lfx.Execution.StateDb.Revert.{
  snapshot, undo, undo_all, find_revision, revert_to_snapshot,
}
use fabric_x_evm_lfx.Execution.AccessList.Laws.{IsSeparate}
use fabric_x_evm_lfx.Execution.StateDb.View.{
  view, undo_views, undo_views-append, unwarm, view-undo_all,
}
use fabric_x_evm_lfx.Execution.StateDb.Extends.{
  IsSound, AllRevisions, AllRevisions-append, AllRevisions-map, IsLater, Recovers, Extends,
}

pub snapshot-Extends : (s : StateDb) → IsSound s → Extends s (snapshot s).1
unfolding snapshot view undo_views
snapshot-Extends s h = record {
  entries = [];
  more_logs = [];
  journal = sym (append-nil s.journal);
  undone = refl;
  logs = sym (append-nil s.logs);
  more_revisions =
      record {
        id = s.next_revision_id;
        journal_index = length s.journal;
        log_index = length s.logs;
      }
      ∷ [];
  revisions = refl;
  later = ((omega arith, omega arith, omega arith), tt);
  next_id = omega arith;
  sound = record {
    indexed = h.indexed;
    separate = h.separate;
    ids =
        AllRevisions-append (λ r. r.id < s.next_revision_id + 1) s.valid_revisions _
          (AllRevisions-map (λ r. r.id < s.next_revision_id) (λ r. r.id < s.next_revision_id + 1)
            s.valid_revisions (λ r l. omega arith) h.ids)
          (omega arith, tt);
  };
}

-- The first revision with an id that is not below `n` lies behind all those that are.
pub find_revision-append :
    (id n : ℕ) (old new : List Revision)
    → AllRevisions (λ r. r.id < n) old
    → n ≤ id
    → find_revision id (old ++ new)
      ≡ elim (find_revision id new) [ none ↦ none | some f ↦ some (f.0, old ++ f.1) ]
unfolding find_revision
find_revision-append id n [] new a h = ground arith
find_revision-append id n (r ∷ old) new a h =
    ground (arith, find_revision-append id n old new a.1 h)

-- What is found satisfies what all revisions do, and so do those before it.
find_revision-AllRevisions :
    (P : Revision → Type 0) (id : ℕ) (rs : List Revision) (r : Revision) (before : List Revision)
    → AllRevisions P rs
    → find_revision id rs ≡ some (r, before)
    → P r × AllRevisions P before
unfolding find_revision
find_revision-AllRevisions P id [] r before a e = absurd (ground arith)
find_revision-AllRevisions P id (x ∷ rs) r before a e = elim (Bool-cases (x.id == id)) [
  | inl hit ↦
      let same : x ≡ r = ground arith in
      let first : [] ≡ before = ground arith in (subst P same a.0, subst (AllRevisions P) first tt)
  | inr miss ↦ elim (Option-cases (find_revision id rs)) [
    | inl none_ ↦ absurd (ground arith)
    | inr ((r', before'), found) ↦
        let (p, q) = find_revision-AllRevisions P id rs r' before' a.1 found in
        let same : r' ≡ r = ground arith in
        let first : x ∷ before' ≡ before = ground arith in
        (subst P same p, subst (AllRevisions P) first (a.0, q))
  ]
]

undo-next_id : (e : Entry) (s : StateDb) → (undo e s).next_revision_id ≡ s.next_revision_id
unfolding undo
undo-next_id e s = ground arith

undo_all-next_id :
    (es : List Entry) (s : StateDb) → (undo_all es s).next_revision_id ≡ s.next_revision_id
unfolding undo_all
undo_all-next_id [] s = refl
undo_all-next_id (e ∷ es) s = undo-next_id e (undo_all es s) ∙ undo_all-next_id es s

-- The state that a revert to a found revision leaves.
abbrev pub reverted : StateDb → Revision → List Revision → StateDb
reverted s rev before = record (undo_all (drop rev.journal_index s.journal) s) {
  journal = take rev.journal_index s.journal;
  write_idx = none;
  logs = take rev.log_index s.logs;
  valid_revisions = before;
}

pub view-reverted :
    (s : StateDb) (rev : Revision) (before : List Revision)
    → IsSound s
    → (view (reverted s rev before) ≡ undo_views (drop rev.journal_index s.journal) (view s))
      × IsSeparate (reverted s rev before).access_list
unfolding view
view-reverted s rev before h = view-undo_all (drop rev.journal_index s.journal) s h.separate

pub reverted-IsSound :
    (s : StateDb) (rev : Revision) (before : List Revision)
    → IsSound s
    → AllRevisions (λ r. r.id < s.next_revision_id) before
    → IsSound (reverted s rev before)
reverted-IsSound s rev before h b = record {
  indexed = tt;
  separate = (view-reverted s rev before h).1;
  ids = rw (undo_all-next_id (drop rev.journal_index s.journal) s) b;
}

reverted-Recovers :
    (prepared : Bool) (base s : StateDb) (rev : Revision) (before : List Revision)
    → Recovers prepared base s
    → IsLater base rev
    → AllRevisions (IsLater base) before
    → AllRevisions (λ r. r.id < s.next_revision_id) (base.valid_revisions ++ before)
    → Recovers prepared base (reverted s rev (base.valid_revisions ++ before))
reverted-Recovers prepared base s rev before x later earlier ids =
    let k = rev.journal_index - length base.journal in
    let kept =
      ap (take rev.journal_index) x.journal
      ∙ take-append_ge rev.journal_index base.journal x.entries later.0 in
    let gone =
      ap (drop rev.journal_index) x.journal
      ∙ drop-append_ge rev.journal_index base.journal x.entries later.0 in
    let t = reverted s rev (base.valid_revisions ++ before) in
    record {
      entries = take k x.entries;
      more_logs = take (rev.log_index - length base.logs) x.more_logs;
      journal = kept;
      undone =
          ap (λ v. unwarm prepared (undo_views (take k x.entries) v))
            ((view-reverted s rev (base.valid_revisions ++ before) x.sound).0
              ∙ ap (λ es. undo_views es (view s)) gone)
          ∙ ap (unwarm prepared)
              (sym (undo_views-append (take k x.entries) (drop k x.entries) (view s)))
          ∙ ap (λ es. unwarm prepared (undo_views es (view s))) (take-append-drop k x.entries)
          ∙ x.undone;
      logs =
          ap (take rev.log_index) x.logs
          ∙ take-append_ge rev.log_index base.logs x.more_logs later.1;
      more_revisions = before;
      revisions = refl;
      later = earlier;
      next_id = omega (arith, x.next_id, undo_all-next_id (drop rev.journal_index s.journal) s);
      sound = reverted-IsSound s rev (base.valid_revisions ++ before) x.sound ids;
    }

pub revert_to_snapshot-Recovers :
    (prepared : Bool) (base s : StateDb) (id : ℕ)
    → IsSound base
    → Recovers prepared base s
    → base.next_revision_id ≤ id
    → Recovers prepared base (revert_to_snapshot id s)
unfolding revert_to_snapshot
revert_to_snapshot-Recovers prepared base s id h x since =
    let at =
      ap (find_revision id) x.revisions
      ∙ find_revision-append id base.next_revision_id base.valid_revisions x.more_revisions h.ids
          since in
    elim (Option-cases (find_revision id x.more_revisions)) [
      | inl missing ↦
          let unknown : find_revision id s.valid_revisions ≡ none = ground (arith, at) in
          rw (unknown, revert_to_snapshot) x
      | inr ((rev, before), found) ↦
          let known : find_revision id s.valid_revisions
              ≡ some (rev, base.valid_revisions ++ before) =
            ground (arith, at) in
          let (later, earlier) =
            find_revision-AllRevisions (IsLater base) id x.more_revisions rev before x.later
              found in
          let ids =
            find_revision-AllRevisions (λ r. r.id < s.next_revision_id) id s.valid_revisions rev
              (base.valid_revisions ++ before) x.sound.ids known in
          rw (known, revert_to_snapshot)
            (reverted-Recovers prepared base s rev before x later earlier ids.1)
    ]
