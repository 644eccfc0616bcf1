-- ===== src/Storage/Revertible/History.antt =====
-- endorser/storage/revertible_lightkvs.go: deliveries and reverts keep the history in order, and a revert
-- undoes a delivery.
use fabric_x_evm_lfx.Prelude.{
  ℕ, zero, suc, ◌+◌, ◌-◌, ◌≤◌, ◌<◌, ◌≡◌, refl, sym, ap, ap₂, subst, ◌∙◌, inl, inr, false, ◌||◌,
  Option, none, some, List, [], ◌∷◌, ◌++◌, map, arith, Map, ok, length, set, take, replicate,
  length-replicate, ltb, ◌==◌, if◌then◌else◌, Bool-cases, Option-cases, nat_eq, Bytes, bytes_eq,
}
use fabric_x_evm_lfx.Storage.Data.{ValueVersion, KeyValueVersion, Snapshot, LightKvs, Block}
use fabric_x_evm_lfx.Storage.Updates.{apply_updates, collect_all}
use fabric_x_evm_lfx.Storage.Updates.Versions.{lookup-apply_updates}
use fabric_x_evm_lfx.Storage.LightKvs.Window.{length-append_singleton, no_snapshot}
use fabric_x_evm_lfx.Storage.Revertible.{
  shift, append_history, apply_block_sequential, handle, merge, clear_from, revert_target,
  revert_to_block,
}
use fabric_x_evm_lfx.Storage.Revertible.Nearest.{StandsAt, AllSlots, AllSlots-map}
use fabric_x_evm_lfx.Storage.Revertible.Merge.{Covers, IsHistory, lookup-merge, target-IsNearest}

-- The retired snapshots and the free slots after one more: at a full history the oldest goes.
abbrev pub append_past : List Snapshot → ℕ → Snapshot → List Snapshot × ℕ
append_past past (suc free) c = (past ++ c ∷ [], free)
append_past [] zero c = ([], 0)
append_past (p ∷ past) zero c = (past ++ c ∷ [], 0)

abbrev pub slots_of : List Snapshot → ℕ → List (Option Snapshot)
slots_of past free = map some past ++ replicate free none

set-shift :
    (p c : Snapshot) (past : List Snapshot)
    → set (shift (map some (p ∷ past) ++ [])) (length past) (some c)
      ≡ map some (past ++ c ∷ []) ++ []
unfolding shift
set-shift p c [] = refl
set-shift p c (q ∷ past) = ap (◌∷◌ (some q)) (set-shift q c past)

set-slots_of :
    (past : List Snapshot) (c : Snapshot) (free : ℕ)
    → set (slots_of past (suc free)) (length past) (some c) ≡ slots_of (past ++ c ∷ []) free
set-slots_of [] c free = refl
set-slots_of (p ∷ past) c free = ap (◌∷◌ (some p)) (set-slots_of past c free)

pub length-slots_of :
    (past : List Snapshot) (free : ℕ) → length (slots_of past free) ≡ length past + free
length-slots_of [] free = length-replicate free no_snapshot ∙ omega arith
length-slots_of (p ∷ past) free = omega (arith, length-slots_of past free)

length-append_past :
    (past : List Snapshot) (free : ℕ) (c : Snapshot)
    → length (append_past past free c).0 + (append_past past free c).1 ≡ length past + free
length-append_past past (suc free) c = omega (arith, length-append_singleton past c)
length-append_past [] zero c = refl
length-append_past (p ∷ past) zero c = omega (arith, length-append_singleton past c)

append_history-append_past :
    (past : List Snapshot) (free : ℕ) (c : Snapshot)
    → append_history (slots_of past free) (length past) c
      ≡ ok (
        slots_of (append_past past free c).0 (append_past past free c).1,
        length (append_past past free c).0,
      )
unfolding append_history
append_history-append_past past (suc free) c = ground (
  arith,
  length-slots_of past (suc free),
  set-slots_of past c free,
  length-append_singleton past c,
)
append_history-append_past [] zero c = refl
append_history-append_past (p ∷ past) zero c =
    let last : suc (length past) - 1 ≡ length past = omega arith in
    ground (
      arith,
      length-slots_of (p ∷ past) zero,
      ap (λ i. set (shift (map some (p ∷ past) ++ [])) i (some c)) last,
      set-shift p c past,
      length-append_singleton past c,
    )

AllSlots-snoc :
    (P : Snapshot → Type 0) (past : List Snapshot) (c : Snapshot)
    → AllSlots P (slots_of past 0)
    → P c
    → AllSlots P (slots_of (past ++ c ∷ []) 0)
AllSlots-snoc P [] c a p = (p, tt)
AllSlots-snoc P (q ∷ past) c a p = (a.0, AllSlots-snoc P past c a.1 p)

AllSlots-slots_of :
    (P : Snapshot → Type 0) (past : List Snapshot) (free : ℕ) (c : Snapshot)
    → AllSlots P (slots_of past free)
    → P c
    → AllSlots P (slots_of (append_past past free c).0 (append_past past free c).1)
AllSlots-slots_of P [] (suc free) c a p = (p, a)
AllSlots-slots_of P [] zero c a p = tt
AllSlots-slots_of P (q ∷ past) (suc free) c a p = (a.0, AllSlots-slots_of P past (suc free) c a.1 p)
AllSlots-slots_of P (q ∷ past) zero c a p = AllSlots-snoc P past c a.1 p

pub Covers-apply_updates :
    (old : Map Bytes ValueVersion) (us : List KeyValueVersion) → Covers old (apply_updates old us)
Covers-apply_updates old us k e = ground (arith, lookup-apply_updates old us k)

Covers-merge : (target old : Map Bytes ValueVersion) → Covers old (merge target old)
Covers-merge target old k e = ground (arith, lookup-merge target old k)

Covers-trans : (a b c : Map Bytes ValueVersion) → Covers a b → Covers b c → Covers a c
Covers-trans a b c p q k e = p k (q k e)

pub apply_block_sequential-IsHistory :
    (kvs : LightKvs) (past : List Snapshot) (free n : ℕ) (us : List KeyValueVersion)
    → IsHistory kvs past free
    → (kvs' : LightKvs) × (apply_block_sequential kvs n us ≡ ok kvs')
      × (kvs'.current.contents ≡ apply_updates kvs.current.contents us)
      × (kvs'.current.block_number ≡ n)
      × IsHistory kvs' (append_past past free kvs.current).0 (append_past past free kvs.current).1
unfolding apply_block_sequential
apply_block_sequential-IsHistory kvs past free n us h =
    let next = append_past past free kvs.current in
    let new = apply_updates kvs.current.contents us in
    let grow = Covers-apply_updates kvs.current.contents us in
    (
      record {
        current = record { block_number = n; contents = new; placeholder = false };
        history = slots_of next.0 next.1;
        next_index = length next.0;
      },
      rw (h.slots, h.count, append_history-append_past past free kvs.current) refl,
      refl,
      refl,
      record {
        slots = refl;
        count = refl;
        covered =
            AllSlots-slots_of (λ s. Covers s.contents new) past free kvs.current
              (AllSlots-map (λ s. Covers s.contents kvs.current.contents)
                (λ s. Covers s.contents new) (slots_of past free)
                (λ s c. Covers-trans s.contents kvs.current.contents new c grow)
                (subst (AllSlots (λ s. Covers s.contents kvs.current.contents)) h.slots h.covered))
              grow;
      },
    )

-- The retired snapshots and the free slots after a delivery: one that is applied retires the current
-- snapshot, and a redelivery changes nothing.
abbrev pub past_after : LightKvs → Block → List Snapshot → ℕ → List Snapshot × ℕ
past_after kvs b past free =
    if kvs.current.placeholder || ltb kvs.current.block_number b.number
    then append_past past free kvs.current
    else (past, free)

-- With a history of the snapshots `past`, oldest first, and `free` free slots after them, an accepted
-- delivery to the empty store or above the current height retires the current snapshot behind them: into
-- a free slot, or, if there is none, behind the others as the oldest goes; a history without slots stays
-- empty. Any other accepted delivery leaves the history. The slots are as many as before, and the current snapshot has all keys of the retired ones.
pub handle-IsHistory :
    (kvs kvs' : LightKvs) (b : Block) (past : List Snapshot) (free : ℕ)
    → IsHistory kvs past free
    → handle kvs b ≡ ok kvs'
    → IsHistory kvs' (past_after kvs b past free).0 (past_after kvs b past free).1
      × (length (past_after kvs b past free).0 + (past_after kvs b past free).1
          ≡ length past + free)
unfolding handle
handle-IsHistory kvs kvs' b past free h e =
    let us = collect_all b.number [] b.transactions in
    let (k, applied, contents, height, kept) =
      apply_block_sequential-IsHistory kvs past free b.number us h in
    let next = append_past past free kvs.current in
    elim (Bool-cases (kvs.current.placeholder || ltb kvs.current.block_number b.number)) [
      | inl new ↦
          let same : k ≡ kvs' = ground arith in
          let after : next ≡ past_after kvs b past free = ground (arith, new) in
          subst (λ n. IsHistory kvs' n.0 n.1 × (length n.0 + n.1 ≡ length past + free)) after
            (
              subst (λ r. IsHistory r next.0 next.1) same kept,
              length-append_past past free kvs.current,
            )
      | inr old ↦
          let same : kvs ≡ kvs' = ground arith in
          let after : (past, free) ≡ past_after kvs b past free = ground (arith, old) in
          subst (λ n. IsHistory kvs' n.0 n.1 × (length n.0 + n.1 ≡ length past + free)) after
            (subst (λ r. IsHistory r past free) same h, refl)
    ]

StandsAt-lt :
    (past : List Snapshot) (free i : ℕ) (s : Snapshot)
    → StandsAt (slots_of past free) i s
    → i < length past
StandsAt-lt [] zero i s h = absurd (ground arith)
StandsAt-lt [] (suc free) zero s h = absurd (ground arith)
StandsAt-lt [] (suc free) (suc i) s h = absurd (omega (arith, StandsAt-lt [] free i s h))
StandsAt-lt (p ∷ past) free zero s h = omega arith
StandsAt-lt (p ∷ past) free (suc i) s h = omega (arith, StandsAt-lt past free i s h)

clear_from-zero : (i : ℕ) (slots : List (Option Snapshot)) → clear_from i 0 slots ≡ slots
unfolding clear_from
clear_from-zero i [] = refl
clear_from-zero zero (x ∷ slots) = refl
clear_from-zero (suc i) (x ∷ slots) = refl

clear_from-slots_of :
    (past : List Snapshot) (free i : ℕ)
    → i ≤ length past
    → (clear_from i (length past) (slots_of past free)
        ≡ slots_of (take i past) (length past - i + free))
      × (length (take i past) ≡ i)
unfolding clear_from
clear_from-slots_of [] free zero h =
    let n : 0 - 0 + free ≡ free = omega arith in
    (rw n (clear_from-zero 0 (replicate free none)), refl)
clear_from-slots_of [] free (suc i) h = absurd (omega arith)
clear_from-slots_of (p ∷ past) free zero h =
    let n : suc (length past) - 0 + free ≡ suc (length past - 0 + free) = omega arith in
    (rw n (ap (◌∷◌ none) (clear_from-slots_of past free zero (omega arith)).0), refl)
clear_from-slots_of (p ∷ past) free (suc i) h =
    let (c, l) = clear_from-slots_of past free i (omega arith) in
    let n : suc (length past) - suc i ≡ length past - i = omega arith in
    (rw n (ap (◌∷◌ (some p)) c), ap suc l)

AllSlots-replicate : (P : Snapshot → Type 0) (free : ℕ) → AllSlots P (replicate free none)
AllSlots-replicate P zero = tt
AllSlots-replicate P (suc free) = AllSlots-replicate P free

AllSlots-take :
    (P : Snapshot → Type 0) (past : List Snapshot) (free free' i : ℕ)
    → AllSlots P (slots_of past free)
    → AllSlots P (slots_of (take i past) free')
AllSlots-take P past free free' zero a = AllSlots-replicate P free'
AllSlots-take P [] free free' (suc i) a = AllSlots-replicate P free'
AllSlots-take P (p ∷ past) free free' (suc i) a = (a.0, AllSlots-take P past free free' i a.1)

reverted :
    (kvs kvs' : LightKvs) (bn : ℕ) (past : List Snapshot) (free i : ℕ) (s : Snapshot)
    → IsHistory kvs past free
    → StandsAt kvs.history i s
    → kvs'.history ≡ clear_from i kvs.next_index kvs.history
    → kvs'.next_index ≡ i
    → kvs'.current.contents ≡ merge s.contents kvs.current.contents
    → (past' : List Snapshot) × (free' : ℕ) × IsHistory kvs' past' free'
      × (length past' + free' ≡ length past + free)
reverted kvs kvs' bn past free i s h at history count contents =
    let below = StandsAt-lt past free i s (subst (λ l. StandsAt l i s) h.slots at) in
    let (cut, short) = clear_from-slots_of past free i (omega arith) in
    let slots : kvs'.history ≡ slots_of (take i past) (length past - i + free) =
      history ∙ ap₂ (clear_from i) h.count h.slots ∙ cut in
    (
      take i past,
      length past - i + free,
      record {
        slots = slots;
        count = count ∙ sym short;
        covered =
            rw (slots, contents)
              (AllSlots-take _ past free (length past - i + free) i (
                AllSlots-map (λ t. Covers t.contents kvs.current.contents)
                  (λ t. Covers t.contents (merge s.contents kvs.current.contents))
                  (slots_of past free)
                  (λ t c.
                    Covers-trans t.contents kvs.current.contents
                      (merge s.contents kvs.current.contents) c
                      (Covers-merge s.contents kvs.current.contents))
                  (subst (AllSlots (λ t. Covers t.contents kvs.current.contents)) h.slots
                    h.covered)));
      },
      omega arith,
    )

-- A revert that succeeds keeps the history a packed list of snapshots whose keys the current snapshot
-- has, in a window of the same size.
pub revert_to_block-IsHistory :
    (kvs kvs' : LightKvs) (bn : ℕ) (past : List Snapshot) (free : ℕ)
    → IsHistory kvs past free
    → revert_to_block kvs bn ≡ ok kvs'
    → (past' : List Snapshot) × (free' : ℕ) × IsHistory kvs' past' free'
      × (length past' + free' ≡ length past + free)
unfolding revert_to_block
revert_to_block-IsHistory kvs kvs' bn past free h e =
    elim (Bool-cases (kvs.current.block_number == bn)) [
      | inl here ↦
          let same : kvs ≡ kvs' = ground arith in
          (past, free, subst (λ r. IsHistory r past free) same h, refl)
      | inr away ↦ elim (Option-cases (revert_target kvs bn)) [
        | inl missing ↦ absurd (ground arith)
        | inr ((i, s), found) ↦
            reverted kvs kvs' bn past free i s h (target-IsNearest kvs bn i s found).stands
              (ground arith) (ground arith) (ground arith)
      ]
    ]
