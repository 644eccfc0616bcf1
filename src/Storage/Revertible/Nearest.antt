-- ===== src/Storage/Revertible/Nearest.antt =====
-- endorser/storage/revertible_lightkvs.go: which snapshot the scans of `NewSnapshot` and `RevertToBlock`
-- find.
use fabric_x_evm_lfx.Prelude.{
  ℕ, zero, suc, ◌-◌, ◌≤◌, ◌<◌, ◌≡◌, refl, ap, subst, ◌∙◌, ◌≢◌, ◌⊎◌, inl, inr, false, Option, none,
  some, List, [], ◌∷◌, arith, Outcome, ok, err, get_elem?, leb, Option-cases, nat_eq, bytes_eq,
}
use native.Mathlib.Nat.{sub-zero}
use fabric_x_evm_lfx.Storage.Data.{Snapshot, LightKvs, Reader, Error, snapshot_not_found}
use fabric_x_evm_lfx.Storage.LightKvs.{reader}
use fabric_x_evm_lfx.Storage.Revertible.{Found, note_slot, scan, nothing_found, new_snapshot}

-- The snapshot stands in the history at an index.
abbrev pub StandsAt : List (Option Snapshot) → ℕ → Snapshot → Type 0
StandsAt slots i s = get_elem? slots i ≡ some (some s)

-- A property of every snapshot of the history.
abbrev pub AllSlots : (Snapshot → Type 0) → List (Option Snapshot) → Type 0
AllSlots P [] = Unit
AllSlots P (none ∷ slots) = AllSlots P slots
AllSlots P (some s ∷ slots) = P s × AllSlots P slots

pub AllSlots-StandsAt :
    (P : Snapshot → Type 0) (slots : List (Option Snapshot)) (i : ℕ) (s : Snapshot)
    → AllSlots P slots
    → StandsAt slots i s
    → P s
AllSlots-StandsAt P [] i s a h = absurd (ground arith)
AllSlots-StandsAt P (none ∷ slots) zero s a h = absurd (ground arith)
AllSlots-StandsAt P (none ∷ slots) (suc i) s a h = AllSlots-StandsAt P slots i s a h
AllSlots-StandsAt P (some t ∷ slots) zero s a h = let e : t ≡ s = ground arith in subst P e a.0
AllSlots-StandsAt P (some t ∷ slots) (suc i) s a h = AllSlots-StandsAt P slots i s a.1 h

-- One more than the height of the best snapshot so far.
abbrev rank : Option (ℕ × Snapshot) → ℕ
rank none = 0
rank (some (i, b)) = suc b.block_number

rank-note_slot :
    (bn i : ℕ) (s : Snapshot) (f : Found)
    → (rank f.best ≤ rank (note_slot bn i (some s) f).best)
      × (s.block_number < bn → suc s.block_number ≤ rank (note_slot bn i (some s) f).best)
unfolding note_slot
rank-note_slot bn i s f = ground arith

rank-scan :
    (bn i : ℕ) (slots : List (Option Snapshot)) (f : Found)
    → rank f.best ≤ rank (scan bn i slots f).best
unfolding scan
rank-scan bn i [] f = omega arith
rank-scan bn i (none ∷ slots) f = unfold note_slot in rank-scan bn (suc i) slots f
rank-scan bn i (some s ∷ slots) f =
    omega
      (arith, rank-scan bn (suc i) slots (note_slot bn i (some s) f), (rank-note_slot bn i s f).0)

scan-best :
    (bn i n : ℕ) (slots : List (Option Snapshot)) (f : Found)
    → rank (scan bn i slots f).best ≤ n
    → AllSlots (λ t. t.block_number < bn → suc t.block_number ≤ n) slots
unfolding scan
scan-best bn i n [] f h = tt
scan-best bn i n (none ∷ slots) f h = scan-best bn (suc i) n slots (note_slot bn i none f) h
scan-best bn i n (some s ∷ slots) f h = (
  λ lower. omega (
    arith,
    (rank-note_slot bn i s f).1 lower,
    rank-scan bn (suc i) slots (note_slot bn i (some s) f),
  ),
  scan-best bn (suc i) n slots (note_slot bn i (some s) f) h,
)

-- What a scan reports was found before, or stands in the scanned slots at its index.
abbrev Reported :
    (ℕ → Type 0) → ℕ → List (Option Snapshot) → Option (ℕ × Snapshot) → ℕ × Snapshot → Type 0
Reported P i slots before (j, s) =
    (before ≡ some (j, s)) ⊎ ((i ≤ j) × StandsAt slots (j - i) s × P s.block_number)

Reported-cons :
    (P : ℕ → Type 0) (i : ℕ) (slot : Option Snapshot) (slots : List (Option Snapshot))
    (before now : Option (ℕ × Snapshot)) (j : ℕ) (s : Snapshot)
    → (now ≡ some (j, s) → (before ≡ some (j, s)) ⊎ ((j ≡ i) × (slot ≡ some s) × P s.block_number))
    → Reported P (suc i) slots now (j, s)
    → Reported P i (slot ∷ slots) before (j, s)
Reported-cons P i slot slots before now j s h (inl e) = elim (h e) [
  | inl old ↦ inl old
  | inr (at, here, p) ↦
      let first : j - i ≡ 0 = omega arith in
      inr (omega arith, ap (get_elem? (slot ∷ slots)) first ∙ ap some here, p)
]
Reported-cons P i slot slots before now j s h (inr (le, at, p)) =
    let next : j - i ≡ suc (j - suc i) = omega arith in
    inr (omega arith, ap (get_elem? (slot ∷ slots)) next ∙ at, p)

note_slot-exact :
    (bn i : ℕ) (slot : Option Snapshot) (f : Found) (j : ℕ) (s : Snapshot)
    → (note_slot bn i slot f).exact ≡ some (j, s)
    → (f.exact ≡ some (j, s)) ⊎ ((j ≡ i) × (slot ≡ some s) × (s.block_number ≡ bn))
unfolding note_slot
note_slot-exact bn i none f j s e = inl e
note_slot-exact bn i (some t) f j s e = ground arith

note_slot-best :
    (bn i : ℕ) (slot : Option Snapshot) (f : Found) (j : ℕ) (s : Snapshot)
    → (note_slot bn i slot f).best ≡ some (j, s)
    → (f.best ≡ some (j, s)) ⊎ ((j ≡ i) × (slot ≡ some s) × (s.block_number < bn))
unfolding note_slot
note_slot-best bn i none f j s e = inl e
note_slot-best bn i (some t) f j s e = ground arith

scan-exact-Reported :
    (bn i : ℕ) (slots : List (Option Snapshot)) (f : Found) (j : ℕ) (s : Snapshot)
    → (scan bn i slots f).exact ≡ some (j, s)
    → Reported (λ n. n ≡ bn) i slots f.exact (j, s)
unfolding scan
scan-exact-Reported bn i [] f j s e = inl e
scan-exact-Reported bn i (slot ∷ slots) f j s e =
    Reported-cons (λ n. n ≡ bn) i slot slots f.exact (note_slot bn i slot f).exact j s
      (note_slot-exact bn i slot f j s)
      (scan-exact-Reported bn (suc i) slots (note_slot bn i slot f) j s e)

scan-best-Reported :
    (bn i : ℕ) (slots : List (Option Snapshot)) (f : Found) (j : ℕ) (s : Snapshot)
    → (scan bn i slots f).best ≡ some (j, s)
    → Reported (λ n. n < bn) i slots f.best (j, s)
unfolding scan
scan-best-Reported bn i [] f j s e = inl e
scan-best-Reported bn i (slot ∷ slots) f j s e =
    Reported-cons (λ n. n < bn) i slot slots f.best (note_slot bn i slot f).best j s
      (note_slot-best bn i slot f j s)
      (scan-best-Reported bn (suc i) slots (note_slot bn i slot f) j s e)

scan-exact-none :
    (bn i : ℕ) (slots : List (Option Snapshot)) (f : Found)
    → (scan bn i slots f).exact ≡ none
    → (f.exact ≡ none) × AllSlots (λ t. t.block_number ≢ bn) slots
unfolding scan note_slot
scan-exact-none bn i [] f e = (e, tt)
scan-exact-none bn i (none ∷ slots) f e = scan-exact-none bn (suc i) slots f e
scan-exact-none bn i (some s ∷ slots) f e =
    let r = scan-exact-none bn (suc i) slots (note_slot bn i (some s) f) e in
    (ground (arith, r.0), (ground (arith, r.0), r.1))

-- The target of a revert or of a historical read: it stands in the history at its index, is not above
-- the height, and no snapshot of the history that is not above the height lies higher.
pub record IsNearest (slots : List (Option Snapshot)) (bn i : ℕ) (s : Snapshot) : Type 0 where
  pub stands : StandsAt slots i s
  pub below : s.block_number ≤ bn
  pub highest : AllSlots (λ t. t.block_number ≤ bn → t.block_number ≤ s.block_number) slots

AllSlots-all : (slots : List (Option Snapshot)) → AllSlots (λ t. Unit {0}) slots
AllSlots-all [] = tt
AllSlots-all (none ∷ slots) = AllSlots-all slots
AllSlots-all (some s ∷ slots) = (tt, AllSlots-all slots)

pub AllSlots-map :
    (P Q : Snapshot → Type 0) (slots : List (Option Snapshot))
    → ((s : Snapshot) → P s → Q s)
    → AllSlots P slots
    → AllSlots Q slots
AllSlots-map P Q [] f a = tt
AllSlots-map P Q (none ∷ slots) f a = AllSlots-map P Q slots f a
AllSlots-map P Q (some s ∷ slots) f a = (f s a.0, AllSlots-map P Q slots f a.1)

AllSlots-both :
    (P Q : Snapshot → Type 0) (slots : List (Option Snapshot))
    → AllSlots P slots
    → AllSlots Q slots
    → AllSlots (λ s. P s × Q s) slots
AllSlots-both P Q [] a b = tt
AllSlots-both P Q (none ∷ slots) a b = AllSlots-both P Q slots a b
AllSlots-both P Q (some s ∷ slots) a b = ((a.0, b.0), AllSlots-both P Q slots a.1 b.1)

pub exact-IsNearest :
    (slots : List (Option Snapshot)) (bn j : ℕ) (s : Snapshot)
    → (scan bn 0 slots nothing_found).exact ≡ some (j, s)
    → IsNearest slots bn j s
exact-IsNearest slots bn j s e = elim (scan-exact-Reported bn 0 slots nothing_found j s e) [
  | inl old ↦ absurd (ground arith)
  | inr (le, at, p) ↦ record {
    stands = subst (λ k. StandsAt slots k s) (sub-zero j) at;
    below = omega arith;
    highest = AllSlots-map (λ t. Unit {0}) _ slots (λ t u h. omega arith) (AllSlots-all slots);
  }
]

pub best-IsNearest :
    (slots : List (Option Snapshot)) (bn j : ℕ) (s : Snapshot)
    → (scan bn 0 slots nothing_found).exact ≡ none
    → (scan bn 0 slots nothing_found).best ≡ some (j, s)
    → IsNearest slots bn j s
best-IsNearest slots bn j s x e = elim (scan-best-Reported bn 0 slots nothing_found j s e) [
  | inl old ↦ absurd (ground arith)
  | inr (le, at, p) ↦
      let others = (scan-exact-none bn 0 slots nothing_found x).1 in
      let ranked = scan-best bn 0 (suc s.block_number) slots nothing_found (rw e (omega arith)) in
      record {
        stands = subst (λ k. StandsAt slots k s) (sub-zero j) at;
        below = omega arith;
        highest =
            AllSlots-map _ _ slots (λ t q h. omega (arith, q.0, q.1))
              (AllSlots-both _ _ slots others ranked);
      }
]

pub none-AllSlots :
    (slots : List (Option Snapshot)) (bn : ℕ)
    → (scan bn 0 slots nothing_found).exact ≡ none
    → (scan bn 0 slots nothing_found).best ≡ none
    → AllSlots (λ t. bn < t.block_number) slots
none-AllSlots slots bn x e =
    AllSlots-map _ _ slots (λ t q. grind (arith, q.0, q.1))
      (AllSlots-both _ _ slots (scan-exact-none bn 0 slots nothing_found x).1
        (scan-best bn 0 0 slots nothing_found (rw e (omega arith))))

abbrev pub Serves : List (Option Snapshot) → ℕ → Outcome Error Reader → Type 0
Serves slots bn (ok r) = (i : ℕ) × (s : Snapshot) × (r ≡ reader s) × IsNearest slots bn i s
Serves slots bn (err e) = (e ≡ snapshot_not_found bn) × AllSlots (λ t. bn < t.block_number) slots

-- A read at a height below the tip gives a snapshot of the history that is not above the height and
-- that no other such snapshot exceeds; it fails only if every snapshot of the history is above it.
pub new_snapshot-Serves :
    (kvs : LightKvs) (bn : ℕ)
    → bn < kvs.current.block_number
    → Serves kvs.history bn (new_snapshot kvs (some bn))
unfolding new_snapshot
new_snapshot-Serves kvs bn h =
    let found = scan bn 0 kvs.history nothing_found in
    let past : leb kvs.current.block_number bn ≡ false = ground arith in
    elim (Option-cases found.exact) [
      | inr ((i, s), x) ↦ rw (past, x) (i, s, refl, exact-IsNearest kvs.history bn i s x)
      | inl x ↦ elim (Option-cases found.best) [
        | inr ((i, s), b) ↦ rw (past, x, b) (i, s, refl, best-IsNearest kvs.history bn i s x b)
        | inl b ↦ rw (past, x, b) (refl, none-AllSlots kvs.history bn x b)
      ]
    ]
