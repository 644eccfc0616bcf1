-- ===== src/Storage/LightKvs/History.antt =====
-- endorser/storage/lightkvs.go: which heights `LightKVS` still serves after a sequence of deliveries.
use fabric_x_evm_lfx.Prelude.{
  drop-append_ge, ℕ, zero, suc, ◌+◌, ◌-◌, ◌≤◌, ◌<◌, ◌≡◌, refl, sym, ap, ap₂, subst, ◌∙◌, inl, inr,
  Option, none, some, List, [], ◌∷◌, ◌++◌, map, append_assoc, arith, ok, err, length, drop,
  replicate, length-append, length-replicate, ltb, if◌then◌else◌, Bool-cases, nat_eq, bytes_eq,
}
use mathlib.Core.List.{map-append}
use fabric_x_evm_lfx.Storage.Data.{Snapshot, LightKvs, Block, snapshot_not_found}
use fabric_x_evm_lfx.Storage.LightKvs.{new_light_kvs, reader, find_exact, new_snapshot}
use fabric_x_evm_lfx.Storage.LightKvs.Ring.{
  find_exact-of_none, length-append_cons, window, slots_at, slots_at-append, find_exact-append,
  find_exact-window,
}
use fabric_x_evm_lfx.Storage.LightKvs.Window.{
  no_snapshot, length-map, deliver_all, new_light_kvs-Tracks, deliver_all-Tracks,
}

-- Heights that rise along the list.
abbrev pub Above : ℕ → List Snapshot → Type 0
Above n [] = Unit
Above n (s ∷ ss) = (n < s.block_number) × Above n ss

abbrev pub Increasing : List Snapshot → Type 0
Increasing [] = Unit
Increasing (s ∷ ss) = Above s.block_number ss × Increasing ss

Above-mem :
    (n : ℕ) (xs ys : List Snapshot) (s : Snapshot) → Above n (xs ++ s ∷ ys) → n < s.block_number
Above-mem n [] ys s h = h.0
Above-mem n (x ∷ xs) ys s h = Above-mem n xs ys s h.1

Above-slots_at : (n : ℕ) (xs : List Snapshot) → Above n xs → slots_at n (map some xs) ≡ 0
Above-slots_at n [] h = refl
Above-slots_at n (x ∷ xs) h = ground (arith, Above-slots_at n xs)

Above-prefix : (n : ℕ) (xs ys : List Snapshot) → Above n (xs ++ ys) → Above n xs
Above-prefix n [] ys h = tt
Above-prefix n (x ∷ xs) ys h = (h.0, Above-prefix n xs ys h.1)

-- Around a snapshot of an increasing list no other has its height.
Increasing-around :
    (older newer : List Snapshot) (s c : Snapshot)
    → Increasing ((older ++ s ∷ newer) ++ c ∷ [])
    → (slots_at s.block_number (map some older) ≡ 0)
      × (slots_at s.block_number (map some newer) ≡ 0)
      × (s.block_number < c.block_number)
Increasing-around [] newer s c h = (
  refl,
  Above-slots_at s.block_number newer (Above-prefix s.block_number newer (c ∷ []) h.0),
  Above-mem s.block_number newer [] c h.0,
)
Increasing-around (o ∷ older) newer s c h =
    let (left, right, below) = Increasing-around older newer s c h.1 in
    let lower =
      Above-mem o.block_number older newer s
        (Above-prefix o.block_number (older ++ s ∷ newer) (c ∷ []) h.0) in
    (ground arith, right, below)

slots_at-replicate : (bn size : ℕ) → slots_at bn (replicate size none) ≡ 0
slots_at-replicate bn zero = refl
slots_at-replicate bn (suc size) = slots_at-replicate bn size

slots_at-drop : (bn n : ℕ) (xs : List (Option Snapshot)) → slots_at bn (drop n xs) ≤ slots_at bn xs
slots_at-drop bn zero xs = omega arith
slots_at-drop bn (suc n) [] = omega arith
slots_at-drop bn (suc n) (none ∷ xs) = slots_at-drop bn n xs
slots_at-drop bn (suc n) (some s ∷ xs) = omega (arith, slots_at-drop bn n xs)

drop-append_le {ℓ} :
    {A : Type ℓ} (n : ℕ) (xs ys : List A) → n ≤ length xs → drop n (xs ++ ys) ≡ drop n xs ++ ys
drop-append_le zero xs ys h = refl
drop-append_le (suc n) [] ys h = elim h [ ]
drop-append_le (suc n) (x ∷ xs) ys h = drop-append_le n xs ys (omega arith)

module _ (size : ℕ) (older newer : List Snapshot) (s : Snapshot) where
  abbrev slots : List (Option Snapshot)
  slots = drop (length (older ++ s ∷ newer)) (replicate size none ++ map some (older ++ s ∷ newer))

  slots_lem :
      slots
      ≡ drop
          (length older + length newer + 1)
          ((replicate size none ++ map some older) ++ some s ∷ map some newer)
  slots_lem = ap₂ drop (length-append_cons older newer s) (
      ap (◌++◌ (replicate size none)) (map-append some older (s ∷ newer))
      ∙ sym (append_assoc (replicate size none) (map some older) (some s ∷ map some newer)))

  abbrev front : List (Option Snapshot)
  front = replicate size none ++ map some older

  length-front : length front ≡ size + length older
  length-front =
      length-append (replicate size no_snapshot) (map some older)
      ∙ ap₂ ◌+◌ (length-replicate size no_snapshot) (length-map older some)

  front_none : slots_at s.block_number (map some older) ≡ 0 → slots_at s.block_number front ≡ 0
  front_none h = omega (
    arith,
    slots_at-append s.block_number (replicate size none) (map some older),
    slots_at-replicate s.block_number size,
  )

  slots-served :
      slots_at s.block_number (map some older) ≡ 0
      → slots_at s.block_number (map some newer) ≡ 0
      → length newer < size
      → (find_exact s.block_number slots ≡ some s) × (slots_at s.block_number slots ≡ 1)
  unfolding find_exact
  slots-served h k n =
      let i = length older + length newer + 1 in
      let bn = s.block_number in
      let rest = some s ∷ map some newer in
      let e : slots ≡ drop i front ++ rest =
        slots_lem ∙ drop-append_le i front rest (omega (arith, length-front)) in
      let zero_ : slots_at bn (drop i front) ≡ 0 =
        omega (arith, front_none h, slots_at-drop bn i front) in
      (
        ap (find_exact bn) e
            ∙ find_exact-append bn (drop i front) rest
            ∙ ground (arith, find_exact-of_none bn (drop i front) zero_),
        ap (slots_at bn) e ∙ slots_at-append bn (drop i front) rest ∙ ground (arith, zero_),
      )

  slots-forgotten :
      slots_at s.block_number (map some newer) ≡ 0
      → size ≤ length newer
      → slots_at s.block_number slots ≡ 0
  slots-forgotten h n =
      let i = length older + length newer + 1 in
      let bn = s.block_number in
      let k = length newer - size in
      let d : i - length front ≡ suc k = omega (arith, length-front) in
      let e : slots ≡ drop k (map some newer) =
        slots_lem
        ∙ drop-append_ge i front (some s ∷ map some newer) (omega (arith, length-front))
        ∙ ap (λ j. drop j (some s ∷ map some newer)) d in
      ap (slots_at bn) e ∙ omega (arith, h, slots_at-drop bn k (map some newer))

-- After any accepted deliveries to a new store with at least one history slot, where the heights of the
-- retired snapshots, the empty placeholder of the construction at height 0 among them, and of the current
-- one are strictly rising (so the first block delivered is above 0), a read at the height of a retired snapshot `s`
-- gives exactly `s` if fewer than `size` snapshots were retired after it, and fails with
-- `snapshot_not_found` if not.
pub new_snapshot-history :
    (size : ℕ) (bs : List Block) (past older newer : List Snapshot) (s : Snapshot) (kvs : LightKvs)
    → 0 < size
    → deliver_all [] (new_light_kvs size) bs ≡ ok (past, kvs)
    → past ≡ older ++ s ∷ newer
    → Increasing (past ++ kvs.current ∷ [])
    → new_snapshot kvs (some s.block_number)
      ≡ (if ltb (length newer) size then ok (reader s) else err (snapshot_not_found s.block_number))
unfolding new_snapshot
new_snapshot-history size bs past older newer s kvs pos run split rising =
    let t =
      deliver_all-Tracks size [] past (new_light_kvs size) kvs bs (new_light_kvs-Tracks size pos)
        run in
    let w : window kvs ≡ slots size older newer s =
      t.1 ∙ ap (λ p. drop (length p) (replicate size none ++ map some p)) split in
    let (left, right, below) =
      Increasing-around older newer s kvs.current
        (subst (λ p. Increasing (p ++ kvs.current ∷ [])) split rising) in
    elim (Bool-cases (ltb (length newer) size)) [
      | inl kept ↦
          let v = slots-served size older newer s left right (ground arith) in
          let at = find_exact-window s.block_number kvs (rw (w, v.1) (omega arith)) in
          rw kept (ground (arith, at, ap (find_exact s.block_number) w, v.0))
      | inr dropped ↦
          let v = slots-forgotten size older newer s right (ground arith) in
          let at = find_exact-window s.block_number kvs (rw (w, v) (omega arith)) in
          let e = find_exact-of_none s.block_number (slots size older newer s) v in
          rw dropped (ground (arith, at, ap (find_exact s.block_number) w, e))
    ]
