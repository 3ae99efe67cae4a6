-- ===== src/Prelude.antt =====
-- The names that the other modules share: the libraries', passed on, and those of the children.
mod Tests
pub mod Floats
mod Lists
mod Maps
mod Ranks
mod Errors
mod Integers
pub use Tests.*
pub use Integers.*
pub use Errors.*
pub use Ranks.{
  Distinct, rank_of-insert, sum_over-insert, sum_over-insert_new, sum_over-zero, sum_over-add,
  sum_over-const, sum-values, has_key_of_Elem, window,
}
unfoldable pub use Ranks.{rank_of, sum_over}
pub use Lists.*
pub use Maps.{
  Eq, lookup-nil, lookup-insert, lookup-remove, lookup_all, beq_refl, length-insert-le,
  length-le-insert, keys-insert_old, dict_laws,
}
unfoldable pub use Maps.{
  nat_eq, string_eq, Dict, keys, values, lookup, lookup_or, has_key, insert, remove,
}
pub use Prim.Native.Nat.{ℕ, zero, suc, ◌+◌, ◌-◌, ◌*◌, ◌/◌, ◌%◌, ◌^◌, ◌≤◌, ◌<◌, min, max}
pub use mathlib.Core.Path.{◌≡◌, refl, sym, ap, ◌∙◌}
pub use mathlib.Core.Logic.{◌≢◌, ◌↔◌, ◌⊎◌, inl, inr}
pub use mathlib.Core.Bool.{Bool, true, false, not, ◌&&◌, ◌||◌}
pub use mathlib.Core.Option.{Option, none, some}
pub use mathlib.Core.List.{List, [], ◌∷◌, ◌++◌, map}
pub use native.Mathlib.Omega.{arith}
