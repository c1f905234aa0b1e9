-- ===== src/Prelude.antt =====
-- The names that the other modules share: the libraries', passed on, and those of the children.
pub mod Tests
pub mod Lists
pub mod Classes
pub mod Assoc
pub mod Int
pub mod Outcome
pub use Tests.{◌>>=◌, ltb, leb, if◌then◌else◌, ltb→lt, lt→ltb, leb→le, Bool-cases, Option-cases}
pub use Lists.*
pub use Classes.*
unfoldable pub use Assoc.{lookup, insert, delete}
pub use Assoc.{
  lookup-insert, lookup-insert_self, lookup-delete, All-insert, All-delete, All-lookup,
  length-insert,
}
pub use Prim.Native.Nat.{ℕ, zero, suc, ◌+◌, ◌-◌, ◌*◌, ◌/◌, ◌%◌, ◌^◌, ◌≤◌, ◌<◌}
pub use Prim.Native.String.{String}
pub use mathlib.Core.Path.{◌≡◌, refl, sym, ap, ◌∙◌, subst}
pub use mathlib.Core.Logic.{◌≢◌, ◌↔◌, ◌⊎◌, inl, inr}
pub use mathlib.Core.Bool.{Bool, true, false, ◌&&◌, ◌||◌, not}
pub use mathlib.Core.Option.{Option, none, some}
pub use mathlib.Core.List.{List, [], ◌∷◌, ◌++◌, map}
pub use native.Mathlib.Omega.{arith}
unfoldable pub use Int.{◌+ℤ◌, ◌-ℤ◌, ◌*ℤ◌, wrap}
pub use Int.{
  ℤ, pos, negsuc, pos_part, neg_part, sub_ℕ, ◌≤ℤ◌, ◌<ℤ◌, ltb_ℤ, leb_ℤ, beq_ℤ, int_eq, int_laws,
  IsInt, IsSmall, wrap_of_IsInt, wrap-IsInt, wrap-add, wrap-sub, shr, low_bits, quot, +ℤ_parts,
  -ℤ_parts, eq_of_parts, beq_ℤ_iff,
}
