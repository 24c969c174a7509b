-- ===== src/Prelude.antt =====
-- Names that every module shares: the libraries', passed on, and those of the children.
mod Tests
mod Lists
mod Texts
mod Rows
mod Results
mod Integers
pub use Tests.*
pub use Lists.*
pub use Texts.*
unfoldable pub use Texts.{◌==◌, mem, text_ltb, lower}
pub use Rows.*
unfoldable pub use Rows.{
  find_where, any_where, select_where, update_where, delete_where, count_where, order_by,
}
pub use Results.*
pub use Integers.*
pub use Prim.Native.Nat.{ℕ, zero, suc, ◌+◌, ◌-◌, ◌*◌, ◌/◌, ◌%◌, ◌^◌, ◌≤◌, ◌<◌}
pub use mathlib.Core.Path.{◌≡◌, refl, sym, ap, ◌∙◌}
pub use mathlib.Core.Logic.{◌≢◌, ◌↔◌, ◌⊎◌, inl, inr}
pub use mathlib.Core.Bool.{Bool, true, false, ◌&&◌, ◌||◌, not}
pub use mathlib.Core.Option.{Option, none, some}
pub use mathlib.Core.List.{List, [], ◌∷◌, ◌++◌, map}
pub use native.Mathlib.Omega.{arith}
