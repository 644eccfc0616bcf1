-- ===== src/Gateway/DepGraph/Reuse.antt =====
-- gateway/core/depgraph_queue.go: when an endorsement is handed over for reuse.
use fabric_x_evm_lfx.Prelude.{
  ℕ, ◌+◌, ◌-◌, ◌%◌, ◌^◌, ◌≤◌, ◌<◌, ◌≡◌, subst, inl, inr, Bool, true, false, ◌||◌, some, List, [],
  ◌∷◌, arith, Map, lookup, leb, Bool-cases, nat_eq, Bytes, bytes_beq, bytes_beq_iff, bytes_eq,
}
use fabric_x_evm_lfx.Gateway.DepGraph.{
  TrackedTx, DepGraphQueue, reuse_window, last_write_of, any_newer, reusable_endorsement,
}

abbrev pub mem : Bytes → List Bytes → Bool
mem k [] = false
mem k (j ∷ js) = bytes_beq j k || mem k js

-- What the counts of the last writes must remember of the keys that each counted block wrote: those of
-- the last `reuse_window` blocks.
pub record Remembers {T N E : Type 0} (written : ℕ → Bytes → Bool) (q : DepGraphQueue T N E)
    : Type 0 where
  pub bounded : (k : Bytes) → last_write_of k q.last_write ≤ q.commit_seq
  pub recalls :
      (seq : ℕ) (k : Bytes)
      → seq ≤ q.commit_seq
      → q.commit_seq < seq + reuse_window
      → written seq k ≡ true
      → seq ≤ last_write_of k q.last_write

any_newer-false :
    (m : Map Bytes ℕ) (seq : ℕ) (reads : List Bytes) (k : Bytes)
    → any_newer m seq reads ≡ false
    → mem k reads ≡ true
    → last_write_of k m ≤ seq
unfolding any_newer
any_newer-false m seq [] k a b = absurd (ground arith)
any_newer-false m seq (j ∷ reads) k a b = elim (Bool-cases (bytes_beq j k)) [
  | inl same ↦ subst (λ i. last_write_of i m ≤ seq) ((bytes_beq_iff j k).0 same) (ground arith)
  | inr other ↦ any_newer-false m seq reads k (ground arith) (ground arith)
]

module _ {T N E : Type 0} where
  -- An endorsement is only handed over for reuse when none of the last blocks after the one it was
  -- executed at wrote a key that it read, if the counts remember what these blocks wrote, the count is
  -- below 2^64, and the endorsement's count is not above it.
  pub reusable_endorsement-fresh :
      (written : ℕ → Bytes → Bool) (h : Bytes) (q q' : DepGraphQueue T N E) (t : TrackedTx T N E)
      (e : E)
      → Remembers written q
      → q.commit_seq < 2 ^ 64
      → lookup h q.tracked ≡ some t
      → t.read_seq ≤ q.commit_seq
      → reusable_endorsement h q ≡ (some e, q')
      → (seq : ℕ) (k : Bytes) → t.read_seq < seq
      → seq ≤ q.commit_seq
      → mem k t.reads ≡ true
      → written seq k ≡ false
  unfolding reusable_endorsement
  reusable_endorsement-fresh written h q q' t e r bound found le accepted seq k lt up read =
      let diff = (q.commit_seq + 2 ^ 64 - t.read_seq) % 2 ^ 64 in
      let checks : (leb reuse_window diff || any_newer q.last_write t.read_seq t.reads) ≡ false =
        ground arith in
      let near : diff < reuse_window = ground arith in
      let old : last_write_of k q.last_write ≤ t.read_seq =
        any_newer-false q.last_write t.read_seq t.reads k (ground arith) read in
      elim (Bool-cases (written seq k)) [
        | inl wrote ↦ absurd (omega (arith, r.recalls seq k up (omega arith) wrote))
        | inr untouched ↦ untouched
      ]
