-- ===== src/Prelude/Members.antt =====
-- Membership in lists, and the removal that moves the last element into the gap.
use mathlib.Core.Path.{◌≡◌, refl, ap}
use mathlib.Core.Bool.{Bool, false, ◌||◌}
use mathlib.Core.List.{List, [], ◌∷◌, ◌++◌}
use Prim.Native.Nat.{ℕ, ◌+◌, ◌-◌}
use native.Mathlib.Omega.{arith}
use fabric_x_evm_lfx.Prelude.Tests.{Eq, ltb, if◌then◌else◌}

module _ {ℓ} {A : Type ℓ} ⦃e : Eq A⦄ where
  abbrev pub elem : A → List A → Bool
  elem a [] = false
  elem a (x ∷ xs) = e.beq x a || elem a xs

  pub elem-append : (a : A) (xs ys : List A) → elem a (xs ++ ys) ≡ (elem a xs || elem a ys)
  elem-append a [] ys = refl
  elem-append a (x ∷ xs) ys = ground (arith, elem-append a xs ys)

  -- The last element comes first.
  abbrev pub last_first : List A → List A
  last_first [] = []
  last_first (x ∷ xs) = elim (last_first xs) [ [] ↦ x ∷ [] | y ∷ ys ↦ y ∷ x ∷ ys ]

  -- The first occurrence is overwritten by the last element, and the list is cut.
  abbrev pub swap_remove : List A → A → List A
  swap_remove [] a = []
  swap_remove (x ∷ xs) a =
      let rest = swap_remove xs a in if e.beq x a then last_first xs else x ∷ rest

  pub elem-last_first : (a : A) (xs : List A) → elem a (last_first xs) ≡ elem a xs
  elem-last_first a [] = refl
  elem-last_first a (x ∷ xs) = ground (arith, elem-last_first a xs)

  -- The other elements stay.
  pub elem-swap_remove :
      (a b : A) (xs : List A) → e.beq a b ≡ false → elem b (swap_remove xs a) ≡ elem b xs
  elem-swap_remove a b [] ne = refl
  elem-swap_remove a b (x ∷ xs) ne =
      ground (
        arith,
        elem-swap_remove a b xs ne,
        elem-last_first b xs,
        e.beq_iff x a,
        ap (λ y. e.beq y b),
      )

  pub swap_remove-nil : (a : A) (xs : List A) → xs ≡ [] → swap_remove xs a ≡ []
  swap_remove-nil a xs h = ap (λ l. swap_remove l a) h

  abbrev pub count : A → List A → ℕ
  count a [] = 0
  count a (x ∷ xs) = (if e.beq x a then 1 else 0) + count a xs

  pub count-append : (a : A) (xs ys : List A) → count a (xs ++ ys) ≡ count a xs + count a ys
  count-append a [] ys = omega arith
  count-append a (x ∷ xs) ys = omega (arith, count-append a xs ys)

  pub elem-count : (a : A) (xs : List A) → elem a xs ≡ ltb 0 (count a xs)
  elem-count a [] = refl
  elem-count a (x ∷ xs) = ground (arith, elem-count a xs)

  count-last_first : (a : A) (xs : List A) → count a (last_first xs) ≡ count a xs
  count-last_first a [] = refl
  count-last_first a (x ∷ xs) = ground (arith, count-last_first a xs)

  -- One occurrence goes, and no other element.
  pub count-swap_remove :
      (a b : A) (xs : List A)
      → count b (swap_remove xs a) ≡ (if e.beq a b then count b xs - 1 else count b xs)
  count-swap_remove a b [] = ground arith
  count-swap_remove a b (x ∷ xs) = ground (
    arith,
    count-swap_remove a b xs,
    count-last_first b xs,
    elem-count b xs,
    e.beq_iff x a,
    e.beq_iff a b,
    e.beq_iff x b,
    ap (λ y. e.beq y b),
  )
