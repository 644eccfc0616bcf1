-- ===== src/Execution/StateDb/Extends.antt =====
-- endorser/execution/statedb.go: an operation adds entries to the journal whose undoing gives back what
-- could be seen before. These steps compose.
use fabric_x_evm_lfx.Prelude.{
  ℕ, ◌≤◌, ◌<◌, ◌≡◌, refl, sym, ap, ◌∙◌, inl, inr, Bool, false, Option, none, some, List, [], ◌∷◌,
  ◌++◌, append-nil, append_assoc, arith, Map, Outcome, ok, err, length, length-append, Option-cases,
  Outcome-cases, nat_eq, Bytes, bytes_eq,
}
use fabric_x_evm_lfx.Execution.AccessList.Laws.{IsSeparate}
use fabric_x_evm_lfx.Execution.StateDb.{
  Log, Revision, Entry, read, write, StateDb, Error, M, ◌>>=◌, pure, current_index,
  get_state_from_journal, get_state_from_store, get_state, or_store, write_of, put_state, read_of,
}
use fabric_x_evm_lfx.Execution.StateDb.Index.{
  IsIndexed, IsNoWrite, IsIndexOf-other, get_state_from_journal-latest, put_state-IsIndexed,
}
use fabric_x_evm_lfx.Execution.StateDb.View.{
  view, undo_view, undo_views, undo_views-append, unwarm, undo_views-unwarm,
}

abbrev pub AllRevisions : (Revision → Type 0) → List Revision → Type 0
AllRevisions P [] = Unit
AllRevisions P (r ∷ rs) = P r × AllRevisions P rs

pub AllRevisions-append :
    (P : Revision → Type 0) (xs ys : List Revision)
    → AllRevisions P xs
    → AllRevisions P ys
    → AllRevisions P (xs ++ ys)
AllRevisions-append P [] ys a b = b
AllRevisions-append P (x ∷ xs) ys a b = (a.0, AllRevisions-append P xs ys a.1 b)

pub AllRevisions-map :
    (P Q : Revision → Type 0) (xs : List Revision)
    → ((r : Revision) → P r → Q r)
    → AllRevisions P xs
    → AllRevisions Q xs
AllRevisions-map P Q [] f a = tt
AllRevisions-map P Q (x ∷ xs) f a = (f x a.0, AllRevisions-map P Q xs f a.1)

-- The index is that of the journal, the access list is well formed, and the next revision id is new.
pub record IsSound (s : StateDb) : Type 0 where
  pub indexed : IsIndexed s
  pub separate : IsSeparate s.access_list
  pub ids : AllRevisions (λ r. r.id < s.next_revision_id) s.valid_revisions

-- A revision taken at the state or after it.
abbrev pub IsLater : StateDb → Revision → Type 0
IsLater s r =
    (length s.journal ≤ r.journal_index)
    × (length s.logs ≤ r.log_index)
    × (s.next_revision_id ≤ r.id)

-- The flag says that the access list need not be given back.
pub record Recovers (prepared : Bool) (s t : StateDb) : Type 0 where
  pub entries : List Entry
  pub more_logs : List Log
  pub journal : t.journal ≡ s.journal ++ entries
  pub undone : unwarm prepared (undo_views entries (view t)) ≡ unwarm prepared (view s)
  pub logs : t.logs ≡ s.logs ++ more_logs
  pub more_revisions : List Revision
  pub revisions : t.valid_revisions ≡ s.valid_revisions ++ more_revisions
  pub later : AllRevisions (IsLater s) more_revisions
  pub next_id : s.next_revision_id ≤ t.next_revision_id
  pub sound : IsSound t

abbrev pub Extends : StateDb → StateDb → Type 0
Extends s t = Recovers false s t

pub Extends-Recovers : (prepared : Bool) (s t : StateDb) → Extends s t → Recovers prepared s t
Extends-Recovers prepared s t x = record {
  entries = x.entries;
  more_logs = x.more_logs;
  journal = x.journal;
  undone = ap (unwarm prepared) x.undone;
  logs = x.logs;
  more_revisions = x.more_revisions;
  revisions = x.revisions;
  later = x.later;
  next_id = x.next_id;
  sound = x.sound;
}

pub Extends-refl : (s : StateDb) → IsSound s → Extends s s
unfolding undo_views
Extends-refl s h = record {
  entries = [];
  more_logs = [];
  journal = sym (append-nil s.journal);
  undone = refl;
  logs = sym (append-nil s.logs);
  more_revisions = [];
  revisions = sym (append-nil s.valid_revisions);
  later = tt;
  next_id = omega arith;
  sound = h;
}

IsLater-trans :
    (prepared : Bool) (s t : StateDb)
    → Recovers prepared s t
    → (r : Revision) → IsLater t r
    → IsLater s r
IsLater-trans prepared s t x r h = (
  omega (arith, h.0, ap length x.journal, length-append s.journal x.entries),
  omega (arith, h.1, ap length x.logs, length-append s.logs x.more_logs),
  omega (arith, h.2, x.next_id),
)

pub Recovers-trans :
    (prepared : Bool) (s t u : StateDb)
    → Recovers prepared s t
    → Recovers prepared t u
    → Recovers prepared s u
Recovers-trans prepared s t u x y = record {
  entries = x.entries ++ y.entries;
  more_logs = x.more_logs ++ y.more_logs;
  journal =
      y.journal ∙ ap (λ j. j ++ y.entries) x.journal ∙ append_assoc s.journal x.entries y.entries;
  undone =
      ap (unwarm prepared) (undo_views-append x.entries y.entries (view u))
      ∙ undo_views-unwarm prepared x.entries (undo_views y.entries (view u)) (view t) y.undone
      ∙ x.undone;
  logs = y.logs ∙ ap (λ l. l ++ y.more_logs) x.logs ∙ append_assoc s.logs x.more_logs y.more_logs;
  more_revisions = x.more_revisions ++ y.more_revisions;
  revisions =
      y.revisions
      ∙ ap (λ r. r ++ y.more_revisions) x.revisions
      ∙ append_assoc s.valid_revisions x.more_revisions y.more_revisions;
  later = AllRevisions-append (IsLater s) x.more_revisions y.more_revisions x.later (
      AllRevisions-map (IsLater t) (IsLater s) y.more_revisions (IsLater-trans prepared s t x)
        y.later);
  next_id = omega (arith, x.next_id, y.next_id);
  sound = y.sound;
}

pub Extends-trans : (s t u : StateDb) → Extends s t → Extends t u → Extends s u
Extends-trans s t u x y = Recovers-trans false s t u x y

-- A change of the index alone.
Extends-index :
    (s : StateDb) (idx : Option (Map Bytes ℕ))
    → IsSound s
    → IsIndexed (record s { write_idx = idx })
    → Extends s (record s { write_idx = idx })
unfolding undo_views view
Extends-index s idx h i = record {
  entries = [];
  more_logs = [];
  journal = sym (append-nil s.journal);
  undone = refl;
  logs = sym (append-nil s.logs);
  more_revisions = [];
  revisions = sym (append-nil s.valid_revisions);
  later = tt;
  next_id = omega arith;
  sound = record { indexed = i; separate = h.separate; ids = h.ids };
}

-- One new entry.
pub Extends-entry :
    (s t : StateDb) (e : Entry)
    → t.journal ≡ s.journal ++ e ∷ []
    → undo_view e (view t) ≡ view s
    → t.logs ≡ s.logs
    → t.valid_revisions ≡ s.valid_revisions
    → t.next_revision_id ≡ s.next_revision_id
    → IsSound t
    → Extends s t
unfolding undo_views
Extends-entry s t e j v l r n h = record {
  entries = e ∷ [];
  more_logs = [];
  journal = j;
  undone = v;
  logs = l ∙ sym (append-nil s.logs);
  more_revisions = [];
  revisions = r ∙ sym (append-nil s.valid_revisions);
  later = tt;
  next_id = omega arith;
  sound = h;
}

-- An entry that is no write keeps the index.
pub IsIndexed-entry :
    (s : StateDb) (e : Entry)
    → IsNoWrite e
    → IsIndexed s
    → IsIndexed (record s { journal = s.journal ++ e ∷ [] })
IsIndexed-entry s e n h = elim (Option-cases s.write_idx) [
  | inl dropped ↦ rw dropped tt
  | inr (idx, kept) ↦ rw kept (IsIndexOf-other idx s.journal e n (rw kept at h))
]

pub put_state-Extends :
    (key value : Bytes) (s : StateDb) → IsSound s → Extends s (put_state key value s)
put_state-Extends key value s h =
    Extends-entry s (put_state key value s) (write (write_of key value)) (unfold put_state in refl)
      (unfold put_state view undo_view in refl) (unfold put_state in refl)
      (unfold put_state in refl) (unfold put_state in refl)
      (record {
        indexed = put_state-IsIndexed key value s h.indexed;
        separate = unfold put_state in h.separate;
        ids = unfold put_state in h.ids;
      })

pub get_state_from_store-Extends :
    (key : Bytes) (s : StateDb) → IsSound s → Extends s (get_state_from_store key s).1
unfolding get_state_from_store view undo_view
get_state_from_store-Extends key s h = elim (Outcome-cases (s.store s.namespace key)) [
  | inr (e, failed) ↦ rw (failed, get_state_from_store) (Extends-refl s h)
  | inl (r, found) ↦
      let e = read (read_of s.monotonic_versions key r) in
      rw (found, get_state_from_store)
        (Extends-entry s (record s { journal = s.journal ++ e ∷ [] }) e refl refl refl refl refl
          (record {
            indexed = IsIndexed-entry s e tt h.indexed;
            separate = h.separate;
            ids = h.ids;
          }))
]

pub get_state_from_journal-Extends :
    (key : Bytes) (s : StateDb) → IsSound s → Extends s (get_state_from_journal key s).1
get_state_from_journal-Extends key s h =
    let (e, i) = get_state_from_journal-latest s key h.indexed in
    rw e (Extends-index s (some (current_index s)) h i)

-- A method whose every run extends the state.
pub record IsExtending {A : Type 0} (m : M A) : Type 0 where
  pub run : (s : StateDb) → IsSound s → Extends s (m s).1

pub bind_run :
    {A B : Type 0} (m : M A) (f : A → M B) (s : StateDb)
    → Extends s (m s).1
    → ((a : A) → Extends (m s).1 (f a (m s).1).1)
    → Extends s ((m >>= f) s).1
unfolding ◌>>=◌
bind_run {B = B} m f s x y =
    elim (m s).0
      as (λ r.
        (let out : Outcome Error B × StateDb = elim r [
          | ok a ↦ f a (m s).1
          | err e ↦ (err e, (m s).1)
        ] in
          Extends s out.1)) [ ok a ↦ Extends-trans s (m s).1 (f a (m s).1).1 x (y a) | err e ↦ x ]

pub bind-IsExtending :
    {A B : Type 0} {m : M A} {f : A → M B}
    → IsExtending m
    → ((a : A) → IsExtending (f a))
    → IsExtending (m >>= f)
bind-IsExtending {m = m} {f = f} x y = record {
  run = λ s h. bind_run m f s (x.run s h) (λ a. (y a).run (m s).1 (x.run s h).sound);
}

pub pure-IsExtending : {A : Type 0} (a : A) → IsExtending (pure a)
unfolding pure
pure-IsExtending a = record { run = λ s h. Extends-refl s h }

pub get_state_from_journal-IsExtending : (key : Bytes) → IsExtending (get_state_from_journal key)
get_state_from_journal-IsExtending key = record { run = get_state_from_journal-Extends key }

pub get_state_from_store-IsExtending : (key : Bytes) → IsExtending (get_state_from_store key)
get_state_from_store-IsExtending key = record { run = get_state_from_store-Extends key }

or_store-IsExtending :
    (key : Bytes) (found : Option (Option Bytes)) → IsExtending (or_store key found)
unfolding or_store
or_store-IsExtending key none = get_state_from_store-IsExtending key
or_store-IsExtending key (some v) = pure-IsExtending v

pub get_state-IsExtending : (key : Bytes) → IsExtending (get_state key)
get_state-IsExtending key =
    unfold get_state in
    bind-IsExtending (get_state_from_journal-IsExtending key) (or_store-IsExtending key)
