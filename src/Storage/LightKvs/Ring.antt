-- ===== src/Storage/LightKvs/Ring.antt =====
-- endorser/storage/lightkvs.go: the ring buffer of `LightKVS` keeps the last snapshots.
use fabric_x_evm_lfx.Prelude.{
  take-append-drop, ℕ, zero, suc, ◌+◌, ◌%◌, ◌≤◌, ◌<◌, ◌≡◌, refl, sym, ap, subst, ◌∙◌, false, Option,
  none, some, List, [], ◌∷◌, ◌++◌, append-nil, append_assoc, arith, ok, length, set, take, drop,
  take-append, drop-append, set-append, ◌==◌, if◌then◌else◌, nat_eq, bytes_eq,
}
use native.Mathlib.Nat.{mod_self, mod-eq_of_lt, add-zero}
use mathlib.Core.Path.{subst₂}
use fabric_x_evm_lfx.Storage.Data.{KeyValueVersion, Snapshot, LightKvs}
use fabric_x_evm_lfx.Storage.Updates.{apply_updates}
use fabric_x_evm_lfx.Storage.LightKvs.{find_exact, apply_block}

-- The write position lies in the ring.
abbrev pub IsRing : LightKvs → Type 0
IsRing kvs = kvs.next_index < length kvs.history

-- The slots in the order in which they were written, oldest first.
abbrev pub window : LightKvs → List (Option Snapshot)
window kvs = drop kvs.next_index kvs.history ++ take kvs.next_index kvs.history

-- The store after a block that was applied.
abbrev applied : LightKvs → ℕ → List KeyValueVersion → LightKvs
applied kvs n us = record {
  current = record {
    block_number = n;
    contents = apply_updates kvs.current.contents us;
    placeholder = false;
  };
  history = set kvs.history kvs.next_index (some kvs.current);
  next_index = (kvs.next_index + 1) % length kvs.history;
}

split_at {ℓ} :
    {A : Type ℓ} (xs : List A) (i : ℕ)
    → i < length xs
    → (front : List A) × (x : A) × (back : List A) × (xs ≡ front ++ x ∷ back) × (length front ≡ i)
split_at [] i h = elim h [ ]
split_at (x ∷ xs) zero h = ([], x, xs, refl, refl)
split_at (x ∷ xs) (suc i) h =
    let (front, y, back, e, n) = split_at xs i (omega arith) in
    (x ∷ front, y, back, ap (◌∷◌ x) e, ap suc n)

drop-append_suc {ℓ} :
    {A : Type ℓ} (xs ys : List A) (y : A) → drop (suc (length xs)) (xs ++ y ∷ ys) ≡ ys
drop-append_suc [] ys y = refl
drop-append_suc (x ∷ xs) ys y = drop-append_suc xs ys y

take-append_suc {ℓ} :
    {A : Type ℓ} (xs ys : List A) (y : A) → take (suc (length xs)) (xs ++ y ∷ ys) ≡ xs ++ y ∷ []
take-append_suc [] ys y = refl
take-append_suc (x ∷ xs) ys y = ap (◌∷◌ x) (take-append_suc xs ys y)

pub length-append_cons {ℓ} :
    {A : Type ℓ} (xs ys : List A) (y : A) → length (xs ++ y ∷ ys) ≡ length xs + length ys + 1
length-append_cons [] ys y = omega arith
length-append_cons (x ∷ xs) ys y = omega (arith, length-append_cons xs ys y)

-- A write of `v` at position `i` and a step forward keep the position in the ring, drop the oldest
-- slot of the window, and append the new one.
abbrev Rotates : {A : Type 0} → List A → ℕ → A → Type 0
Rotates {A} slots i v =
    let next = (i + 1) % length slots in
    (next < length (set slots i v))
    × ((oldest : A) × (rest : List A) × (drop i slots ++ take i slots ≡ oldest ∷ rest)
        × (drop next (set slots i v) ++ take next (set slots i v) ≡ rest ++ v ∷ []))

next_wraps :
    {A : Type 0} (front : List A) (y : A) → (length front + 1) % length (front ++ y ∷ []) ≡ 0
next_wraps front y =
    rw (length-append_cons front [] y) (simp add-zero (mod_self (length front + 1)))

next_steps :
    {A : Type 0} (front back : List A) (b y : A)
    → (length front + 1) % length (front ++ y ∷ b ∷ back) ≡ suc (length front)
next_steps front back b y =
    mod-eq_of_lt (omega (arith, length-append_cons front (b ∷ back) y)) ∙ omega arith

Rotates-append :
    {A : Type 0} (front back : List A) (y v : A) → Rotates (front ++ y ∷ back) (length front) v
Rotates-append front [] y v =
    rw (next_wraps front y, set-append front [] y v)
      (
        omega (arith, length-append_cons front [] v),
        (
          y,
          front,
          rw (drop-append front (y ∷ []), take-append front (y ∷ [])),
          append-nil (front ++ v ∷ []),
        ),
      )
Rotates-append front (b ∷ back) y v =
    rw (next_steps front back b y, set-append front (b ∷ back) y v)
      (
        omega (arith, length-append_cons front (b ∷ back) v),
        (
          y,
          b ∷ back ++ front,
          rw (drop-append front (y ∷ b ∷ back), take-append front (y ∷ b ∷ back)),
          rw (drop-append_suc front (b ∷ back) v, take-append_suc front (b ∷ back) v)
              (sym (append_assoc (b ∷ back) front (v ∷ []))),
        ),
      )

Rotates-set : {A : Type 0} (slots : List A) (i : ℕ) (v : A) → i < length slots → Rotates slots i v
Rotates-set slots i v h =
    let (front, y, back, split, at) = split_at slots i h in
    subst₂ (λ s j. Rotates s j v) (sym split) at (Rotates-append front back y v)

-- Applying a block keeps the ring, retires the old snapshot into it, and forgets only the oldest.
pub apply_block-window :
    (kvs kvs' : LightKvs) (n : ℕ) (us : List KeyValueVersion)
    → IsRing kvs
    → apply_block kvs n us ≡ ok kvs'
    → IsRing kvs'
      × ((oldest : Option Snapshot) × (rest : List (Option Snapshot)) × (window kvs ≡ oldest ∷ rest)
          × (window kvs' ≡ rest ++ some kvs.current ∷ []))
unfolding apply_block
apply_block-window kvs kvs' n us h e =
    let r = Rotates-set kvs.history kvs.next_index (some kvs.current) h in
    let built : applied kvs n us ≡ kvs' = ground arith in
    subst
      (λ k.
        IsRing k
        × ((oldest : Option Snapshot) × (rest : List (Option Snapshot)) × (window kvs
              ≡ oldest ∷ rest)
            × (window k ≡ rest ++ some kvs.current ∷ [])))
      built r

-- The number of slots that hold a snapshot of a height.
abbrev pub slots_at : ℕ → List (Option Snapshot) → ℕ
slots_at bn [] = 0
slots_at bn (none ∷ slots) = slots_at bn slots
slots_at bn (some s ∷ slots) = (if s.block_number == bn then 1 else 0) + slots_at bn slots

pub slots_at-append :
    (bn : ℕ) (xs ys : List (Option Snapshot))
    → slots_at bn (xs ++ ys) ≡ slots_at bn xs + slots_at bn ys
slots_at-append bn [] ys = omega arith
slots_at-append bn (none ∷ xs) ys = slots_at-append bn xs ys
slots_at-append bn (some s ∷ xs) ys = omega (arith, slots_at-append bn xs ys)

pub find_exact-append :
    (bn : ℕ) (xs ys : List (Option Snapshot))
    → find_exact bn (xs ++ ys)
      ≡ elim (find_exact bn xs) [ none ↦ find_exact bn ys | some s ↦ some s ]
unfolding find_exact
find_exact-append bn [] ys = refl
find_exact-append bn (none ∷ xs) ys = find_exact-append bn xs ys
find_exact-append bn (some s ∷ xs) ys = ground (arith, find_exact-append bn xs ys)

pub find_exact-of_none :
    (bn : ℕ) (xs : List (Option Snapshot)) → slots_at bn xs ≡ 0 → find_exact bn xs ≡ none
unfolding find_exact
find_exact-of_none bn [] h = refl
find_exact-of_none bn (none ∷ xs) h = find_exact-of_none bn xs h
find_exact-of_none bn (some s ∷ xs) h = ground (arith, find_exact-of_none bn xs)

-- Where at most one slot holds the height, the scan does not depend on where the ring begins.
find_exact-rotate :
    (bn : ℕ) (xs ys : List (Option Snapshot))
    → slots_at bn (xs ++ ys) ≤ 1
    → find_exact bn (xs ++ ys) ≡ find_exact bn (ys ++ xs)
find_exact-rotate bn xs ys h =
    rw (find_exact-append bn xs ys, find_exact-append bn ys xs)
      (ground (arith, slots_at-append bn xs ys, find_exact-of_none bn xs, find_exact-of_none bn ys))

pub find_exact-window :
    (bn : ℕ) (kvs : LightKvs)
    → slots_at bn (window kvs) ≤ 1
    → find_exact bn kvs.history ≡ find_exact bn (window kvs)
find_exact-window bn kvs h =
    let i = kvs.next_index in
    let slots = kvs.history in
    ap (find_exact bn) (sym (take-append-drop i slots))
    ∙ sym (find_exact-rotate bn (drop i slots) (take i slots) h)
