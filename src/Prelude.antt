-- ===== src/Prelude.antt =====
-- The names that every module shares: numbers, lists, tests, Python's integers, and the
-- results of calls that may raise an exception.
mod Tests
mod Lists
mod Int
mod Errors
unfoldable pub use Tests.*
unfoldable pub use Lists.*
pub use Errors.*
pub use Int.{ℤ, pos, negsuc, pos_part, neg_part, ◌≤ℤ◌, ◌<ℤ◌, leb_ℤ, ltb_ℤ, eq_ℤ→eq, eq_ℤ_refl}
unfoldable pub use Int.{eq_ℤ, sub_ℕ, ◌+ℤ◌, ◌-ℤ◌, min_ℤ, mask, bit, with_bit}
pub use Int.{mask-lt, mask_uint, +ℤ_parts, -ℤ_parts, eq_of_parts, int_laws}
pub use Prim.Native.Nat.{ℕ, zero, suc, ◌+◌, ◌-◌, ◌*◌, ◌/◌, ◌%◌, ◌^◌, ◌≤◌, ◌<◌}
pub use mathlib.Core.Path.{◌≡◌, refl, sym, ap, ◌∙◌}
pub use mathlib.Core.Logic.{◌≢◌, ◌↔◌, ◌⊎◌, inl, inr}
pub use mathlib.Core.Bool.{Bool, true, false, not, ◌&&◌, ◌||◌}
pub use mathlib.Core.Option.{Option, none, some}
pub use mathlib.Core.List.{List, [], ◌∷◌, ◌++◌, map, append-nil, append_assoc}
pub use native.Mathlib.Omega.{arith}
