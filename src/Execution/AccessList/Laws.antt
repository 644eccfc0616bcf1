-- ===== src/Execution/AccessList/Laws.antt =====
-- endorser/execution/statedb.go: `accessList` is a set of addresses and, for each, a set of slots.
use fabric_x_evm_lfx.Prelude.{
  ℕ, zero, suc, ◌<◌, ◌≡◌, refl, ap, inl, inr, true, false, ◌&&◌, ◌||◌, Option, none, some, List, [],
  ◌∷◌, ◌++◌, arith, lookup, insert, erase, lookup-insert, lookup-erase, length, set, length-append,
  ◌==◌, if◌then◌else◌, Option-cases, nat_eq, Bytes, bytes_beq, bytes_beq_iff, bytes_eq,
}
use fabric_x_evm_lfx.Execution.AccessList.{
  BytesSet, AccessList, slot_set, contains_address, contains, add_address, add_slot, delete_address,
  delete_slot,
}

-- Every index points into the list, and no two addresses share a slot set.
pub record IsSeparate (al : AccessList) : Type 0 where
  pub inside : (a : Bytes) (i : ℕ) → lookup a al.addresses ≡ some (some i) → i < length al.slots
  pub apart :
      (a b : Bytes) (i : ℕ)
      → lookup a al.addresses ≡ some (some i)
      → lookup b al.addresses ≡ some (some i)
      → a ≡ b

abbrev no_index : Option ℕ
no_index = none

-- The index of an address: none where it has no slot set.
abbrev index_of : AccessList → Bytes → Option ℕ
index_of al a = elim (lookup a al.addresses) [ none ↦ none | some i ↦ i ]

abbrev slot_index : AccessList → Bytes → ℕ
slot_index al a = elim (index_of al a) [ none ↦ 0 | some i ↦ i ]

lookup-singleton :
    (s t : Bytes) → lookup t ((s, tt {0}) ∷ []) ≡ (if bytes_beq s t then some tt else none)
unfolding lookup
lookup-singleton s t = refl

slot_set-set :
    (slots : List BytesSet) (i j : ℕ) (m : BytesSet)
    → i < length slots
    → slot_set (set slots i m) j ≡ (if i == j then m else slot_set slots j)
slot_set-set [] i j m h = elim h [ ]
slot_set-set (x ∷ slots) zero zero m h = refl
slot_set-set (x ∷ slots) zero (suc j) m h = ground arith
slot_set-set (x ∷ slots) (suc i) zero m h = ground arith
slot_set-set (x ∷ slots) (suc i) (suc j) m h = ground (arith, slot_set-set slots i j m)

slot_set-snoc :
    (slots : List BytesSet) (j : ℕ) (m : BytesSet)
    → slot_set (slots ++ m ∷ []) j ≡ (if length slots == j then m else slot_set slots j)
slot_set-snoc [] zero m = refl
slot_set-snoc [] (suc j) m = ground arith
slot_set-snoc (x ∷ slots) zero m = ground arith
slot_set-snoc (x ∷ slots) (suc j) m = ground (arith, slot_set-snoc slots j m)

length-set {ℓ} : {A : Type ℓ} (xs : List A) (i : ℕ) (v : A) → length (set xs i v) ≡ length xs
length-set [] i v = refl
length-set (x ∷ xs) zero v = refl
length-set (x ∷ xs) (suc i) v = ap suc (length-set xs i v)

pub contains_address-contains :
    (al : AccessList) (a s : Bytes) → contains_address al a ≡ (contains al a s).0
unfolding contains_address contains
contains_address-contains al a s = ground arith

module _ (al : AccessList) (a : Bytes) where
  pub contains-add_address :
      (b t : Bytes)
      → contains (add_address al a) b t
        ≡ (if bytes_beq a b then (true, (contains al b t).1) else contains al b t)
  unfolding contains add_address
  contains-add_address b t =
      ground (arith, bytes_beq_iff a b, lookup-insert a b no_index al.addresses)

  pub contains-delete_address :
      (b t : Bytes)
      → contains (delete_address al a) b t
        ≡ (if bytes_beq a b then (false, false) else contains al b t)
  unfolding contains delete_address
  contains-delete_address b t = ground (arith, bytes_beq_iff a b, lookup-erase a b al.addresses)

  pub add_address-IsSeparate : IsSeparate al → IsSeparate (add_address al a)
  unfolding add_address
  add_address-IsSeparate w = record {
    inside = λ b i h. ground (arith, w.inside b i, lookup-insert a b no_index al.addresses);
    apart = λ b c i h k. ground (
      arith,
      w.apart b c i,
      lookup-insert a b no_index al.addresses,
      lookup-insert a c no_index al.addresses,
    );
  }

  pub delete_address-IsSeparate : IsSeparate al → IsSeparate (delete_address al a)
  unfolding delete_address
  delete_address-IsSeparate w = record {
    inside = λ b i h. ground (arith, w.inside b i, lookup-erase a b al.addresses);
    apart = λ b c i h k.
        ground (arith, w.apart b c i, lookup-erase a b al.addresses, lookup-erase a c al.addresses);
  }

  module _ (s : Bytes) where
    -- In a list where no two addresses share a slot set, adding a slot makes the address and the slot of it
    -- warm and leaves every other answer as it was.
    pub contains-add_slot :
        (b t : Bytes)
        → IsSeparate al
        → contains (add_slot al a s) b t ≡ (
            if bytes_beq a b then (true, bytes_beq s t || (contains al b t).1) else contains al b t)
    unfolding contains add_slot
    contains-add_slot b t w = elim (Option-cases (index_of al a)) [
      | inl absent ↦ elim (Option-cases (index_of al b)) [
        | inl other ↦ ground (
          arith,
          bytes_beq_iff a b,
          lookup-insert a b (some (length al.slots)) al.addresses,
          slot_set-snoc al.slots (length al.slots) ((s, tt) ∷ []),
          lookup-singleton s t,
        )
        | inr (j, other) ↦ ground (
          arith,
          bytes_beq_iff a b,
          lookup-insert a b (some (length al.slots)) al.addresses,
          slot_set-snoc al.slots j ((s, tt) ∷ []),
          w.inside b j,
        )
      ]
      | inr (i, at) ↦ elim (Option-cases (index_of al b)) [
        | inl other ↦ ground (arith, bytes_beq_iff a b)
        | inr (j, other) ↦ ground (
          arith,
          bytes_beq_iff a b,
          w.inside a i,
          w.apart a b i,
          slot_set-set al.slots i j (insert s tt (slot_set al.slots i)),
          lookup-insert s t tt (slot_set al.slots i),
        )
      ]
    ]

    -- In a list where no two addresses share a slot set, deleting a slot makes that slot of the address cold
    -- and leaves every other answer as it was.
    pub contains-delete_slot :
        (b t : Bytes)
        → IsSeparate al
        → contains (delete_slot al a s) b t ≡ (
            if bytes_beq a b && bytes_beq s t
            then ((contains al b t).0, false)
            else contains al b t)
    unfolding contains delete_slot
    contains-delete_slot b t w = elim (Option-cases (index_of al a)) [
      | inl absent ↦ ground (arith, bytes_beq_iff a b)
      | inr (i, at) ↦ elim (Option-cases (index_of al b)) [
        | inl other ↦ ground (arith, bytes_beq_iff a b)
        | inr (j, other) ↦ ground (
          arith,
          bytes_beq_iff a b,
          w.inside a i,
          w.apart a b i,
          slot_set-set al.slots i j (erase s (slot_set al.slots i)),
          lookup-erase s t (slot_set al.slots i),
        )
      ]
    ]

    pub add_slot-IsSeparate : IsSeparate al → IsSeparate (add_slot al a s)
    unfolding add_slot
    add_slot-IsSeparate w = record {
      inside = λ b i h. ground (
        arith,
        bytes_beq_iff a b,
        w.inside b i,
        lookup-insert a b (some (length al.slots)) al.addresses,
        length-append al.slots (((s, tt) ∷ []) ∷ []),
        length-set al.slots (slot_index al a) (insert s tt (slot_set al.slots (slot_index al a))),
      );
      apart = λ b c i h k. ground (
        arith,
        bytes_beq_iff a b,
        bytes_beq_iff a c,
        w.inside b i,
        w.inside c i,
        w.apart b c i,
        lookup-insert a b (some (length al.slots)) al.addresses,
        lookup-insert a c (some (length al.slots)) al.addresses,
      );
    }

    pub delete_slot-IsSeparate : IsSeparate al → IsSeparate (delete_slot al a s)
    unfolding delete_slot
    delete_slot-IsSeparate w = record {
      inside = λ b i h. ground (
        arith,
        w.inside b i,
        length-set al.slots (slot_index al a) (erase s (slot_set al.slots (slot_index al a))),
      );
      apart = λ b c i h k. ground (arith, w.apart b c i);
    }
