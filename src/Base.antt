-- ===== src/Base.antt =====
-- The names that the other modules share: the libraries', passed on, and those of the children.
mod Tests
mod Lists
mod Strings
mod Trim
mod Dict
pub mod Result
pub use Tests.*
pub use Lists.*
pub use Strings.{Text, is_empty, Lacks, eq_iff, eq_refl, is_empty_iff, has_prefix-append}
pub use Strings.{split_on-Lacks, split_on_of_Lacks, split_on-append}
pub use Trim.{trim_space_idempotent, trim_space-Lacks, IsVisible, IsSolid, trim_space-append}
pub use Trim.{trim_space_of_IsSolid}
unfoldable pub use Strings.{codes, ◌==◌, has_prefix, has_substring, lower, to_lower}
unfoldable pub use Trim.{is_space, is_wide_pair, is_wide_triple, front_space, back_space, drop_runs}
unfoldable pub use Trim.{trim_left, trim_right, trim_space}
unfoldable pub use Strings.{split_on}
unfoldable pub use Dict.{lookup, insert, delete}
pub use Dict.{values_of, lookup-insert, lookup-delete, Holds, lookup-Holds, insert-Holds}
pub use Prim.Native.Nat.{ℕ, zero, suc, ◌+◌, ◌-◌, ◌*◌, ◌/◌, ◌%◌, ◌^◌, ◌≤◌, ◌<◌}
pub use Prim.Native.String.{String}
pub use mathlib.Core.Path.{◌≡◌, refl, sym, ap, ◌∙◌, subst}
pub use mathlib.Core.Logic.{◌≢◌, ◌↔◌, ◌⊎◌, inl, inr}
pub use mathlib.Core.Bool.{Bool, true, false, not, ◌&&◌, ◌||◌}
pub use mathlib.Core.Option.{Option, none, some}
pub use mathlib.Core.List.{List, [], ◌∷◌, ◌++◌, map, reverse, append-nil, append_assoc}
pub use native.Mathlib.Omega.{arith}
