-- ===== src/Prelude.antt =====
-- The names that the components share: the libraries', passed on, and those of the children.
mod Tests
mod Lists
mod Maps
mod Members
mod Outcomes
pub use Tests.*
pub use Lists.*
pub use Members.*
pub use Outcomes.*
unfoldable pub use Maps.{lookup, insert, erase}
pub use Maps.{
  Map, All, has, lookup-insert, lookup-erase, All-map, All-lookup, All-erase, IsMap, erase-IsMap,
  insert-IsMap, length-erase, length-erase_stored, length-insert, erase-erase, insert-erase,
}
pub use Prim.Native.Nat.{ℕ, zero, suc, ◌+◌, ◌-◌, ◌*◌, ◌/◌, ◌%◌, ◌^◌, ◌≤◌, ◌<◌}
pub use mathlib.Core.Path.{◌≡◌, refl, sym, ap, ap₂, subst, subst₂, ◌∙◌, fun_ext}
pub use mathlib.Core.Logic.{◌≢◌, ◌↔◌, ◌⊎◌, inl, inr}
pub use mathlib.Core.Bool.{Bool, true, false, not, ◌&&◌, ◌||◌}
pub use mathlib.Core.Option.{Option, none, some}
pub use mathlib.Core.List.{List, [], ◌∷◌, ◌++◌, map, append-nil, append_assoc}
pub use native.Mathlib.Omega.{arith}
