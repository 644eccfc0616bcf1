-- ===== src/Execution/StateDb/Index.antt =====
-- endorser/execution/statedb.go: the index from keys to their latest write agrees with a scan of the
-- journal.
use fabric_x_evm_lfx.Prelude.{
  ℕ, zero, suc, ◌≡◌, refl, sym, ap, subst, ◌∙◌, inl, inr, Option, none, some, List, [], ◌∷◌, ◌++◌,
  append-nil, arith, Map, lookup, insert, lookup-insert, Outcome, ok, err, length, length-append,
  append_singleton_append, if◌then◌else◌, Option-cases, Outcome-cases, nat_eq, Bytes, bytes_beq,
  bytes_eq,
}
use mathlib.Core.Path.{subst₂}
use fabric_x_evm_lfx.Storage.Data.{KvWrite}
use fabric_x_evm_lfx.Execution.StateDb.{
  Entry, write, StateDb, Error, index_writes, current_index, written_value, write_at,
  get_state_from_journal, write_of, put_state,
}

-- The value of the latest write of a key, by a scan.
abbrev pub latest : Bytes → List Entry → Option (Option Bytes)
latest k [] = none
latest k (write w ∷ journal) = elim (latest k journal) [
  | some v ↦ some v
  | none ↦ if bytes_beq w.key k then some (written_value w) else none
]
latest k (_ ∷ journal) = latest k journal

-- What a lookup through an index gives.
abbrev pub through : Map Bytes ℕ → List Entry → Bytes → Outcome Error (Option (Option Bytes))
through idx journal k = elim (lookup k idx) [
  | none ↦ ok none
  | some i ↦ elim (write_at journal i) [ ok v ↦ ok (some v) | err e ↦ err e ]
]

abbrev pub IsIndexOf : Map Bytes ℕ → List Entry → Type 0
IsIndexOf idx journal = (k : Bytes) → through idx journal k ≡ ok (latest k journal)

-- The index of a state, where it has one, is the index of its journal.
abbrev pub IsIndexed : StateDb → Type 0
IsIndexed s = elim s.write_idx [ none ↦ Unit {0} | some idx ↦ IsIndexOf idx s.journal ]

-- The index after one more entry.
abbrev noted : Entry → ℕ → Map Bytes ℕ → Map Bytes ℕ
noted (write w) i idx = insert w.key i idx
noted _ i idx = idx

write_at-append :
    (journal es : List Entry) (i : ℕ) (v : Option Bytes)
    → write_at journal i ≡ ok v
    → write_at (journal ++ es) i ≡ ok v
unfolding write_at
write_at-append [] es i v h = absurd (ground arith)
write_at-append (write w ∷ journal) es zero v h = h
write_at-append (write w ∷ journal) es (suc i) v h = write_at-append journal es i v h
write_at-append (_ ∷ journal) es zero v h = absurd (ground arith)
write_at-append (_ ∷ journal) es (suc i) v h = write_at-append journal es i v h

write_at-last :
    (journal : List Entry) (w : KvWrite)
    → write_at (journal ++ write w ∷ []) (length journal) ≡ ok (written_value w)
unfolding write_at
write_at-last [] w = refl
write_at-last (write x ∷ journal) w = write_at-last journal w
write_at-last (_ ∷ journal) w = write_at-last journal w

pub latest-snoc_write :
    (k : Bytes) (journal : List Entry) (w : KvWrite)
    → latest k (journal ++ write w ∷ [])
      ≡ (if bytes_beq w.key k then some (written_value w) else latest k journal)
latest-snoc_write k [] w = refl
latest-snoc_write k (write x ∷ journal) w = ground (arith, latest-snoc_write k journal w)
latest-snoc_write k (_ ∷ journal) w = latest-snoc_write k journal w

-- An entry that is no write leaves the latest writes alone.
abbrev pub IsNoWrite : Entry → Type 0
IsNoWrite (write w) = ⊥
IsNoWrite _ = Unit

pub latest-snoc :
    (k : Bytes) (journal : List Entry) (e : Entry)
    → IsNoWrite e
    → latest k (journal ++ e ∷ []) ≡ latest k journal
latest-snoc k [] (write w) h = absurd h
latest-snoc k [] _ h = refl
latest-snoc k (write x ∷ journal) e h = rw (latest-snoc k journal e h) refl
latest-snoc k (_ ∷ journal) e h = latest-snoc k journal e h

through-append :
    (idx : Map Bytes ℕ) (journal es : List Entry) (k : Bytes) (x : Option (Option Bytes))
    → through idx journal k ≡ ok x
    → through idx (journal ++ es) k ≡ ok x
through-append idx journal es k x h = elim (Option-cases (lookup k idx)) [
  | inl absent ↦ ground arith
  | inr (i, at) ↦ elim (Outcome-cases (write_at journal i)) [
    | inl (v, found) ↦ ground (arith, write_at-append journal es i v found)
    | inr (e, missing) ↦ absurd (ground arith)
  ]
]

pub IsIndexOf-write :
    (idx : Map Bytes ℕ) (journal : List Entry) (w : KvWrite)
    → IsIndexOf idx journal
    → IsIndexOf (insert w.key (length journal) idx) (journal ++ write w ∷ [])
IsIndexOf-write idx journal w h k =
    let old = through-append idx journal (write w ∷ []) k (latest k journal) (h k) in
    ground (
      arith,
      lookup-insert w.key k (length journal) idx,
      latest-snoc_write k journal w,
      write_at-last journal w,
      old,
    )

pub IsIndexOf-other :
    (idx : Map Bytes ℕ) (journal : List Entry) (e : Entry)
    → IsNoWrite e
    → IsIndexOf idx journal
    → IsIndexOf idx (journal ++ e ∷ [])
IsIndexOf-other idx journal e n h k =
    through-append idx journal (e ∷ []) k (latest k journal) (h k)
    ∙ ap ok (sym (latest-snoc k journal e n))

-- Going on with the next entry.
index_writes-next :
    (before journal : List Entry) (e : Entry) (idx : Map Bytes ℕ)
    → IsIndexOf
        (index_writes (length (before ++ e ∷ [])) journal idx)
        ((before ++ e ∷ []) ++ journal)
    → IsIndexOf (index_writes (suc (length before)) journal idx) (before ++ e ∷ journal)
index_writes-next before journal e idx h =
    let n : length (before ++ e ∷ []) ≡ suc (length before) =
      length-append before (e ∷ []) ∙ omega arith in
    subst₂ (λ i l. IsIndexOf (index_writes i journal idx) l) n
      (append_singleton_append before journal e) h

index_writes-IsIndexOf :
    (before journal : List Entry) (idx : Map Bytes ℕ)
    → IsIndexOf idx before
    → IsIndexOf (index_writes (length before) journal idx) (before ++ journal)
unfolding index_writes
index_writes-IsIndexOf before [] idx h = rw append-nil h
index_writes-IsIndexOf before (write w ∷ journal) idx h =
    index_writes-next before journal (write w) (insert w.key (length before) idx) (
      index_writes-IsIndexOf (before ++ write w ∷ []) journal (insert w.key (length before) idx)
        (IsIndexOf-write idx before w h))
index_writes-IsIndexOf before (e ∷ journal) idx h =
    index_writes-next before journal e idx
      (index_writes-IsIndexOf (before ++ e ∷ []) journal idx (IsIndexOf-other idx before e tt h))

current_index-IsIndexOf : (s : StateDb) → IsIndexed s → IsIndexOf (current_index s) s.journal
unfolding current_index
current_index-IsIndexOf s h = elim (Option-cases s.write_idx) [
  | inl dropped ↦ rw dropped (unfold lookup in index_writes-IsIndexOf [] s.journal [] (λ k. refl))
  | inr (idx, kept) ↦ rw kept (rw kept at h)
]

-- A lookup through the index, kept up to date by the writes or rebuilt after a revert, gives the value
-- of the latest write of the key in the journal, never fails, and leaves a state that differs in the
-- index alone, which is again that of the journal.
pub get_state_from_journal-latest :
    (s : StateDb) (k : Bytes)
    → IsIndexed s
    → (get_state_from_journal k s
        ≡ (ok (latest k s.journal), record s { write_idx = some (current_index s) }))
      × IsIndexed (record s { write_idx = some (current_index s) })
unfolding get_state_from_journal
get_state_from_journal-latest s k h =
    let at = current_index-IsIndexOf s h in
    (
      elim (Option-cases (lookup k (current_index s))) [
        | inl absent ↦ ground (arith, at k)
        | inr (i, found) ↦ elim (Outcome-cases (write_at s.journal i)) [
          | inl (v, e) ↦ ground (arith, at k)
          | inr (e, bad) ↦ absurd (ground (arith, at k))
        ]
      ],
      at,
    )

write_of-key : (key value : Bytes) → (write_of key value).key ≡ key
unfolding write_of
write_of-key key [] = refl
write_of-key key (b ∷ bs) = refl

-- A write keeps the index.
pub put_state-IsIndexed :
    (key value : Bytes) (s : StateDb) → IsIndexed s → IsIndexed (put_state key value s)
unfolding put_state
put_state-IsIndexed key value s h = elim (Option-cases s.write_idx) [
  | inl dropped ↦ rw dropped tt
  | inr (idx, kept) ↦ rw kept (
      subst
        (λ j.
          IsIndexOf (insert j (length s.journal) idx)
            (s.journal ++ write (write_of key value) ∷ []))
        (write_of-key key value)
        (IsIndexOf-write idx s.journal (write_of key value) (rw kept at h)))
]
