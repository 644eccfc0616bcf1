-- ===== src/Execution/StateDb/View.antt =====
-- endorser/execution/statedb.go: what the EVM can see of the state that is not in the journal, and what the
-- loop of `RevertToSnapshot` does to it.
use fabric_x_evm_lfx.Prelude.{
  ℕ, ◌≡◌, refl, sym, ap, ◌∙◌, fun_ext, Bool, true, false, ◌&&◌, none, some, List, [], ◌∷◌, ◌++◌,
  arith, Map, has, lookup, insert, lookup-insert, lookup-erase, if◌then◌else◌, nat_eq, Bytes,
  bytes_beq, bytes_beq_iff, bytes_eq,
}
use fabric_x_evm_lfx.Execution.AccessList.{contains}
use fabric_x_evm_lfx.Execution.AccessList.Laws.{
  IsSeparate, contains-delete_address, contains-delete_slot, delete_address-IsSeparate,
  delete_slot-IsSeparate,
}
use fabric_x_evm_lfx.Execution.StateDb.{
  Entry, read, write, refund_change, self_destruct, new_contract, transient_change,
  access_list_address, access_list_slot, StateDb,
}
use fabric_x_evm_lfx.Execution.StateDb.Accounts.{get_transient_state, transient_at, put_transient}
use fabric_x_evm_lfx.Execution.StateDb.Revert.{undo, undo_all}

pub record View : Type 0 where
  pub refund : ℕ
  pub destroyed : Bytes → Bool
  pub created : Bytes → Bool
  pub transient : Bytes → Bytes → Bytes
  pub warm : Bytes → Bytes → Bool × Bool

unfoldable pub view : StateDb → View
view s = record {
  refund = s.refund;
  destroyed = λ a. has a s.self_destructed;
  created = λ a. has a s.new_contracts;
  transient = λ a k. get_transient_state a k s;
  warm = contains s.access_list;
}

-- The inverse of what an operation does when it adds an entry.
unfoldable pub undo_view : Entry → View → View
undo_view (refund_change prev) v = record v { refund = prev }
undo_view (self_destruct a) v = record v {
  destroyed = λ b. if bytes_beq a b then false else v.destroyed b;
}
undo_view (new_contract a) v = record v {
  created = λ b. if bytes_beq a b then false else v.created b;
}
undo_view (transient_change a k prev) v = record v {
  transient = λ b j. if bytes_beq a b && bytes_beq k j then prev else v.transient b j;
}
undo_view (access_list_address a) v = record v {
  warm = λ b t. if bytes_beq a b then (false, false) else v.warm b t;
}
undo_view (access_list_slot a s) v = record v {
  warm = λ b t. if bytes_beq a b && bytes_beq s t then ((v.warm b t).0, false) else v.warm b t;
}
undo_view (read r) v = v
undo_view (write w) v = v

unfoldable pub undo_views : List Entry → View → View
undo_views [] v = v
undo_views (e ∷ es) v = undo_view e (undo_views es v)

pub undo_views-append :
    (es fs : List Entry) (v : View) → undo_views (es ++ fs) v ≡ undo_views es (undo_views fs v)
unfolding undo_views
undo_views-append [] fs v = refl
undo_views-append (e ∷ es) fs v = ap (undo_view e) (undo_views-append es fs v)

-- What can be seen, without the access list where the flag says so.
abbrev pub unwarm : Bool → View → View
unwarm false v = v
unwarm true v = record v { warm = λ a s. (false, false) }

undo_view-unwarm :
    (e : Entry) (v : View) → unwarm true (undo_view e v) ≡ unwarm true (undo_view e (unwarm true v))
unfolding undo_view
undo_view-unwarm (refund_change prev) v = refl
undo_view-unwarm (self_destruct a) v = refl
undo_view-unwarm (new_contract a) v = refl
undo_view-unwarm (transient_change a k prev) v = refl
undo_view-unwarm (access_list_address a) v = refl
undo_view-unwarm (access_list_slot a s) v = refl
undo_view-unwarm (read r) v = refl
undo_view-unwarm (write w) v = refl

-- Undoing keeps what is alike but for the access list alike.
pub undo_views-unwarm :
    (prepared : Bool) (es : List Entry) (v w : View)
    → unwarm prepared v ≡ unwarm prepared w
    → unwarm prepared (undo_views es v) ≡ unwarm prepared (undo_views es w)
unfolding undo_views
undo_views-unwarm prepared [] v w h = h
undo_views-unwarm false (e ∷ es) v w h = ap (λ u. undo_view e (undo_views es u)) h
undo_views-unwarm true (e ∷ es) v w h =
    undo_view-unwarm e (undo_views es v)
    ∙ ap (λ u. unwarm true (undo_view e u)) (undo_views-unwarm true es v w h)
    ∙ sym (undo_view-unwarm e (undo_views es w))

lookup_nil : (j : Bytes) → lookup {V = Bytes} j [] ≡ none
unfolding lookup
lookup_nil j = refl

pub transient-put :
    (a k v b j : Bytes) (m : Map Bytes (Map Bytes Bytes))
    → transient_at b j (put_transient a k v m)
      ≡ (if bytes_beq a b && bytes_beq k j then v else transient_at b j m)
unfolding transient_at put_transient
transient-put a k v b j m =
    let inner : Map Bytes Bytes = elim (lookup a m) [ none ↦ [] | some storage ↦ storage ] in
    ground (
      arith,
      bytes_beq_iff a b,
      lookup-insert a b (insert k v inner) m,
      lookup-insert k j v inner,
      lookup_nil j,
    )

view-undo :
    (e : Entry) (s : StateDb)
    → IsSeparate s.access_list
    → (view (undo e s) ≡ undo_view e (view s)) × IsSeparate (undo e s).access_list
unfolding view undo undo_view
view-undo (refund_change prev) s w = (refl, w)
view-undo (self_destruct a) s w = (
  ap (λ f. record (view s) { destroyed = f })
      (fun_ext (λ b. ground (arith, lookup-erase a b s.self_destructed))),
  w,
)
view-undo (new_contract a) s w = (
  ap (λ f. record (view s) { created = f })
      (fun_ext (λ b. ground (arith, lookup-erase a b s.new_contracts))),
  w,
)
view-undo (transient_change a k prev) s w = (
  ap (λ f. record (view s) { transient = f })
      (fun_ext (λ b. fun_ext (λ j. transient-put a k prev b j s.transient_storage))),
  w,
)
view-undo (access_list_address a) s w = (
  ap (λ f. record (view s) { warm = f })
      (fun_ext (λ b. fun_ext (λ t. contains-delete_address s.access_list a b t))),
  delete_address-IsSeparate s.access_list a w,
)
view-undo (access_list_slot a k) s w = (
  ap (λ f. record (view s) { warm = f })
      (fun_ext (λ b. fun_ext (λ t. contains-delete_slot s.access_list a k b t w))),
  delete_slot-IsSeparate s.access_list a k w,
)
view-undo (read r) s w = (refl, w)
view-undo (write x) s w = (refl, w)

pub view-undo_all :
    (es : List Entry) (s : StateDb)
    → IsSeparate s.access_list
    → (view (undo_all es s) ≡ undo_views es (view s)) × IsSeparate (undo_all es s).access_list
unfolding undo_all undo_views
view-undo_all [] s w = (refl, w)
view-undo_all (e ∷ es) s w =
    let (v, w₁) = view-undo_all es s w in
    let (v₂, w₂) = view-undo e (undo_all es s) w₁ in (v₂ ∙ ap (undo_view e) v, w₂)
