-- ===== src/Execution/AccessList.antt =====
-- endorser/execution/statedb.go, `accessList`: addresses with an index into a list of slot sets, or
-- with none (the index -1).
pub mod Laws
use fabric_x_evm_lfx.Prelude.{
  [], ℕ, zero, suc, Bool, true, false, Option, none, some, List, ◌∷◌, ◌++◌, Map, has, lookup,
  insert, erase, length, set, if◌then◌else◌, nat_eq, Bytes, bytes_eq,
}

abbrev pub BytesSet : Type 0
BytesSet = Map Bytes (Unit {0})

pub record AccessList : Type 0 where
  pub addresses : Map Bytes (Option ℕ)
  pub slots : List BytesSet

abbrev pub new_access_list : AccessList
new_access_list = record { addresses = []; slots = [] }

unfoldable pub contains_address : AccessList → Bytes → Bool
contains_address al addr = has addr al.addresses

-- An index past the end would panic; no operation leaves one.
abbrev pub slot_set : List BytesSet → ℕ → BytesSet
slot_set [] i = []
slot_set (m ∷ slots) zero = m
slot_set (m ∷ slots) (suc i) = slot_set slots i

-- `contains`: whether the address is there, and whether the slot is.
unfoldable pub contains : AccessList → Bytes → Bytes → Bool × Bool
contains al addr slot = elim (lookup addr al.addresses) [
  | none ↦ (false, false)
  | some index ↦ elim index [
    | none ↦ (true, false)
    | some i ↦ (true, has slot (slot_set al.slots i))
  ]
]

unfoldable pub add_address : AccessList → Bytes → AccessList
add_address al addr =
    if has addr al.addresses then al else record al { addresses = insert addr none al.addresses }

-- The case of an address with no slot set yet.
abbrev pub new_slot_set : AccessList → Bytes → Bytes → AccessList
new_slot_set al addr slot = record {
  addresses = insert addr (some (length al.slots)) al.addresses;
  slots = al.slots ++ ((slot, tt) ∷ []) ∷ [];
}

unfoldable pub add_slot : AccessList → Bytes → Bytes → AccessList
add_slot al addr slot = elim (lookup addr al.addresses) [
  | none ↦ new_slot_set al addr slot
  | some index ↦ elim index [
    | none ↦ new_slot_set al addr slot
    | some i ↦ record al { slots = set al.slots i (insert slot tt (slot_set al.slots i)) }
  ]
]

unfoldable pub delete_address : AccessList → Bytes → AccessList
delete_address al addr = record al { addresses = erase addr al.addresses }

unfoldable pub delete_slot : AccessList → Bytes → Bytes → AccessList
delete_slot al addr slot = elim (lookup addr al.addresses) [
  | none ↦ al
  | some index ↦ elim index [
    | none ↦ al
    | some i ↦ record al { slots = set al.slots i (erase slot (slot_set al.slots i)) }
  ]
]
