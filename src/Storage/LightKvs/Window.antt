-- ===== src/Storage/LightKvs/Window.antt =====
-- endorser/storage/lightkvs.go: the ring of `LightKVS` through a sequence of deliveries.
use fabric_x_evm_lfx.Prelude.{
  ℕ, zero, suc, ◌<◌, ◌≡◌, refl, sym, ap, ap₂, subst, ◌∙◌, inl, inr, Bool, ◌||◌, Option, none, some,
  List, [], ◌∷◌, ◌++◌, map, append_assoc, arith, Outcome, ok, ◌>>=◌, >>=-eq-ok, length, drop,
  replicate, length-replicate, ltb, if◌then◌else◌, Bool-cases, nat_eq, bytes_eq,
}
use mathlib.Core.List.{map-append}
use mathlib.Core.Path.{subst₂}
use fabric_x_evm_lfx.Storage.Data.{KeyValueVersion, Snapshot, LightKvs, Block, Error}
use fabric_x_evm_lfx.Storage.Updates.{collect_all}
use fabric_x_evm_lfx.Storage.LightKvs.{new_light_kvs, apply_block, handle}
use fabric_x_evm_lfx.Storage.LightKvs.Ring.{IsRing, window, apply_block-window}

-- A delivery that moves the store to a new snapshot.
abbrev pub fresh : LightKvs → Block → Bool
fresh kvs b = kvs.current.placeholder || ltb kvs.current.block_number b.number

-- The deliveries of a list of blocks, beside the snapshots that were current before, oldest first.
unfoldable pub deliver_all :
    List Snapshot → LightKvs → List Block → Outcome Error (List Snapshot × LightKvs)
deliver_all past kvs [] = ok (past, kvs)
deliver_all past kvs (b ∷ bs) = do
  kvs' ← handle kvs b
  deliver_all (if fresh kvs b then past ++ kvs.current ∷ [] else past) kvs' bs

-- The ring holds the last `size` snapshots that were retired.
abbrev pub Tracks : ℕ → List Snapshot → LightKvs → Type 0
Tracks size past kvs =
    IsRing kvs × (window kvs ≡ drop (length past) (replicate size none ++ map some past))

abbrev pub no_snapshot : Option Snapshot
no_snapshot = none

drop-suc_append {ℓ} :
    {A : Type ℓ} (n : ℕ) (xs : List A) (x y : A) (rest : List A)
    → drop n xs ≡ x ∷ rest
    → drop (suc n) (xs ++ y ∷ []) ≡ rest ++ y ∷ []
drop-suc_append zero [] x y rest e = cc
drop-suc_append zero (z ∷ xs) x y rest e = ground arith
drop-suc_append (suc n) [] x y rest e = cc
drop-suc_append (suc n) (z ∷ xs) x y rest e = drop-suc_append n xs x y rest e

pub new_light_kvs-Tracks : (size : ℕ) → 0 < size → Tracks size [] (new_light_kvs size)
unfolding new_light_kvs
new_light_kvs-Tracks size h = (omega (arith, length-replicate size no_snapshot), refl)

pub length-map {ℓ κ} :
    {A : Type ℓ} {B : Type κ} (xs : List A) (f : A → B) → length (map f xs) ≡ length xs
length-map [] f = refl
length-map (x ∷ xs) f = ap suc (length-map xs f)

pub length-append_singleton {ℓ} :
    {A : Type ℓ} (xs : List A) (y : A) → length (xs ++ y ∷ []) ≡ suc (length xs)
length-append_singleton [] y = refl
length-append_singleton (x ∷ xs) y = ap suc (length-append_singleton xs y)

apply_block-Tracks :
    (size : ℕ) (past : List Snapshot) (kvs kvs' : LightKvs) (n : ℕ) (us : List KeyValueVersion)
    → Tracks size past kvs
    → apply_block kvs n us ≡ ok kvs'
    → Tracks size (past ++ kvs.current ∷ []) kvs'
apply_block-Tracks size past kvs kvs' n us t e =
    let (ring, (oldest, rest, before, after)) = apply_block-window kvs kvs' n us t.0 e in
    (
      ring,
      after
          ∙ sym (drop-suc_append (length past) _ oldest (some kvs.current) rest (sym t.1 ∙ before))
          ∙ ap₂ drop (sym (length-append_singleton past kvs.current)) (
              append_assoc (replicate size none) (map some past) (some kvs.current ∷ [])
              ∙ ap (◌++◌ (replicate size none)) (sym (map-append some past (kvs.current ∷ [])))),
    )

handle-Tracks :
    (size : ℕ) (past : List Snapshot) (kvs kvs' : LightKvs) (b : Block)
    → Tracks size past kvs
    → handle kvs b ≡ ok kvs'
    → Tracks size (if fresh kvs b then past ++ kvs.current ∷ [] else past) kvs'
unfolding handle
handle-Tracks size past kvs kvs' b t e =
    let us = collect_all b.number [] b.transactions in
    elim (Bool-cases (fresh kvs b)) [
      | inl new ↦
          let applied : apply_block kvs b.number us ≡ ok kvs' = ground arith in
          rw new (apply_block-Tracks size past kvs kvs' b.number us t applied)
      | inr old ↦ let same : kvs ≡ kvs' = ground arith in rw old (subst (Tracks size past) same t)
    ]

pub deliver_all-Tracks :
    (size : ℕ) (past past' : List Snapshot) (kvs kvs' : LightKvs) (bs : List Block)
    → Tracks size past kvs
    → deliver_all past kvs bs ≡ ok (past', kvs')
    → Tracks size past' kvs'
unfolding deliver_all
deliver_all-Tracks size past past' kvs kvs' [] t e =
    let p : past ≡ past' = ground arith in
    let k : kvs ≡ kvs' = ground arith in subst₂ (Tracks size) p k t
deliver_all-Tracks size past past' kvs kvs' (b ∷ bs) t e =
    let past₁ = if fresh kvs b then past ++ kvs.current ∷ [] else past in
    let (mid, first, then_) = >>=-eq-ok (handle kvs b) _ e in
    deliver_all-Tracks size past₁ past' mid kvs' bs (handle-Tracks size past kvs mid b t first)
      then_
