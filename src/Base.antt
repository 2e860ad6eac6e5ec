-- ===== src/Base.antt =====
-- The names that every module of the development shares: those of the libraries, passed on, and
-- the tests, lists, integers, equalities and dictionaries of the children.
mod Tests
mod Lists
mod Int
mod Equality
mod Dicts
mod Texts
pub use Tests.*
pub use Lists.*
pub use Int.{
  ℤ, pos, negsuc, pos_part, neg_part, sub_ℕ, +ℤ_parts, -ℤ_parts, eq_of_parts, int_laws, int_beq,
  int_beq_iff, int_eq,
}
unfoldable pub use Int.{◌+ℤ◌, ◌-ℤ◌}
pub use Texts.{◌<+>◌}
unfoldable pub use Texts.{starts_with, contains}
pub use Equality.*
unfoldable pub use Dicts.{Dict, get, put, remove}
pub use Dicts.{
  get-put, get-put_self, get-remove, length-put-le, length-remove-le, In-get, All-put, All-remove,
}
pub use Prim.Native.Nat.{ℕ, zero, suc, ◌+◌, ◌-◌, ◌*◌, ◌/◌, ◌%◌, ◌^◌, ◌≤◌, ◌<◌}
pub use Prim.Native.String.{String}
pub use mathlib.Core.Path.{◌≡◌, refl, sym, ap, ◌∙◌, subst, fun_ext}
pub use mathlib.Core.Logic.{◌≢◌, ◌↔◌, ◌⊎◌, inl, inr, ⊎_elim}
pub use mathlib.Core.Bool.{Bool, true, false, ◌&&◌, ◌||◌, not}
pub use mathlib.Core.Option.{Option, none, some}
pub use mathlib.Core.List.{List, [], ◌∷◌, ◌++◌, map, append_assoc, append-nil}
pub use native.Mathlib.Omega.{arith}
