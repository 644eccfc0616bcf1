-- ===== src/Prelude/Maps.antt =====
-- Go maps as association lists over keys with a decidable equality. A key is stored at most once;
-- the order of the entries is one that Go leaves open.
use mathlib.Core.Path.{◌≡◌, ◌∙◌, refl, ap, subst₂}
use mathlib.Core.Logic.{inl, inr}
use mathlib.Core.Bool.{Bool, true, false}
use mathlib.Core.List.{List, [], ◌∷◌}
use mathlib.Core.Option.{Option, none, some}
use native.Mathlib.Omega.{arith}
use Prim.Native.Nat.{◌+◌, ◌≤◌, ◌<◌}
use fabric_x_evm_lfx.Prelude.Lists.{length}
use fabric_x_evm_lfx.Prelude.Tests.{Eq, if◌then◌else◌, Bool-cases}

abbrev pub Map {ℓ κ} : Type ℓ → Type κ → Type (ℓ ⊔ κ)
Map K V = List (K × V)

module _ {ℓ κ} {K : Type ℓ} {V : Type κ} ⦃e : Eq K⦄ where
  -- `v, ok := m[k]`
  unfoldable pub lookup : K → Map K V → Option V
  lookup k [] = none
  lookup k ((j, v) ∷ m) = if e.beq j k then some v else lookup k m

  -- `delete(m, k)`
  unfoldable pub erase : K → Map K V → Map K V
  erase k [] = []
  erase k ((j, w) ∷ m) = if e.beq j k then erase k m else (j, w) ∷ erase k m

  -- `m[k] = v`
  unfoldable pub insert : K → V → Map K V → Map K V
  unfolding erase
  insert k v m = (k, v) ∷ erase k m

  abbrev pub has : K → Map K V → Bool
  has k m = elim (lookup k m) [ none ↦ false | some v ↦ true ]

  pub lookup-erase :
      (k j : K) (m : Map K V) → lookup j (erase k m) ≡ (if e.beq k j then none else lookup j m)
  unfolding lookup erase
  lookup-erase k j [] = ground arith
  lookup-erase k j ((i, w) ∷ m) =
      ground (arith, e.beq_iff k j, e.beq_iff i k, e.beq_iff i j, lookup-erase k j m)

  pub lookup-insert :
      (k j : K) (v : V) (m : Map K V)
      → lookup j (insert k v m) ≡ (if e.beq k j then some v else lookup j m)
  unfolding lookup insert
  lookup-insert k j v m = ground (arith, lookup-erase k j m)

  -- A property of every entry.
  abbrev pub All {μ} : (K → V → Type μ) → Map K V → Type μ
  All P [] = Unit
  All P ((k, v) ∷ m) = P k v × All P m

  pub All-map {μ ν} :
      (P : K → V → Type μ) (Q : K → V → Type ν) (m : Map K V)
      → ((k : K) (v : V) → P k v → Q k v)
      → All P m
      → All Q m
  All-map P Q [] f h = tt
  All-map P Q ((k, v) ∷ m) f h = (f k v h.0, All-map P Q m f h.1)

  pub All-lookup {μ} :
      (P : K → V → Type μ) (m : Map K V) (k : K) (v : V) → All P m → lookup k m ≡ some v → P k v
  unfolding lookup
  All-lookup P [] k v h p = absurd (ground arith)
  All-lookup P ((j, w) ∷ m) k v h p = elim (Bool-cases (e.beq j k)) [
    | inl hit ↦ let same : w ≡ v = ground arith in subst₂ P ((e.beq_iff j k).0 hit) same h.0
    | inr miss ↦ All-lookup P m k v h.1 (rw miss at p)
  ]

  -- What is left after a deletion has another key.
  pub All-erase {μ} :
      (P : K → V → Type μ) (k : K) (m : Map K V)
      → All P m
      → All (λ j w. P j w × (e.beq k j ≡ false)) (erase k m)
  unfolding erase
  All-erase P k [] h = tt
  All-erase P k ((j, w) ∷ m) h = elim (Bool-cases (e.beq j k)) [
    | inl hit ↦ rw hit (All-erase P k m h.1)
    | inr miss ↦ rw miss ((h.0, ground (arith, e.beq_iff j k, e.beq_iff k j)), All-erase P k m h.1)
  ]

  -- No key is stored twice.
  abbrev pub IsMap : Map K V → Type κ
  IsMap [] = Unit
  IsMap ((k, v) ∷ m) = (lookup k m ≡ none) × IsMap m

  pub erase-IsMap : (k : K) (m : Map K V) → IsMap m → IsMap (erase k m)
  unfolding erase
  erase-IsMap k [] h = tt
  erase-IsMap k ((j, w) ∷ m) h = ground (arith, erase-IsMap k m h.1, lookup-erase k j m)

  pub insert-IsMap : (k : K) (v : V) (m : Map K V) → IsMap m → IsMap (insert k v m)
  unfolding insert
  insert-IsMap k v m h =
      (lookup-erase k k m ∙ ground (arith, (e.beq_iff k k).1 refl), erase-IsMap k m h)

  pub length-erase : (k : K) (m : Map K V) → length (erase k m) ≤ length m
  unfolding erase
  length-erase k [] = omega arith
  length-erase k ((j, w) ∷ m) = ground (arith, length-erase k m)

  -- A deletion of a stored key makes the map smaller.
  pub length-erase_stored : (k : K) (m : Map K V) → has k m ≡ true → length (erase k m) < length m
  unfolding erase lookup
  length-erase_stored k [] h = cc
  length-erase_stored k ((j, w) ∷ m) h = ground (arith, length-erase k m, length-erase_stored k m)

  pub length-insert : (k : K) (v : V) (m : Map K V) → length (insert k v m) ≤ length m + 1
  unfolding insert
  length-insert k v m = omega (arith, length-erase k m)

  pub erase-erase : (k : K) (m : Map K V) → erase k (erase k m) ≡ erase k m
  unfolding erase
  erase-erase k [] = refl
  erase-erase k ((j, w) ∷ m) = ground (arith, erase-erase k m)

  -- An insertion replaces what was there.
  pub insert-erase : (k : K) (v : V) (m : Map K V) → insert k v (erase k m) ≡ insert k v m
  unfolding insert
  insert-erase k v m = ap (◌∷◌ (k, v)) (erase-erase k m)
