-- ===== src/Prelude.antt =====
-- The names that the other modules share: the libraries', passed on, and those of the children.
pub mod Tests
pub mod Lists
pub mod Int
pub mod Sort
pub mod Text
pub mod Table
pub use Tests.*
pub use Lists.*
pub use Int.*
unfoldable pub use Sort.{sort_by}
pub use Sort.{
  IsOrder, IsAscending, All-sort_by, length-sort_by, sort_by-IsAscending, sort_by_perm,
  sort_by-perm,
}
unfoldable pub use Text.{str_leb}
pub use Text.{codes, str_leb-IsOrder}
pub use Prim.Native.Nat.{ℕ, zero, suc, ◌+◌, ◌-◌, ◌*◌, ◌/◌, ◌%◌, ◌^◌, ◌≤◌, ◌<◌}
pub use Prim.Native.String.{String}
pub use mathlib.Core.Path.{◌≡◌, refl, sym, ap, subst, ◌∙◌}
pub use mathlib.Core.Logic.{◌≢◌, ◌↔◌, ◌⊎◌, inl, inr}
pub use mathlib.Core.Bool.{Bool, true, false, not, ◌&&◌, ◌||◌}
pub use mathlib.Core.Option.{Option, none, some}
pub use mathlib.Core.List.{List, [], ◌∷◌, ◌++◌, map}
pub use native.Mathlib.Omega.{arith}
unfoldable pub use Table.{row, update_row}
pub use Table.{apply_to, row-key, row-update_row, any_of_row}
