-- ===== src/Prelude.antt =====
-- The names that every module shares: the libraries', passed on, and those of the children
-- (Boolean tests, lists by native numbers, Python dictionaries, exceptions, floats).
mod Tests
mod Lists
mod Dicts
mod Exceptions
pub mod Tables
pub mod Int
pub mod Floats
unfoldable pub use Tests.*
pub use Lists.*
unfoldable pub use Dicts.*
pub use Exceptions.*
pub use Prim.Native.Nat.{ℕ, zero, suc, ◌+◌, ◌-◌, ◌*◌, ◌/◌, ◌%◌, ◌≤◌, ◌<◌}
pub use Prim.Native.String.{String}
pub use mathlib.Core.Path.{◌≡◌, refl, sym, ap, subst, ◌∙◌}
pub use mathlib.Core.Logic.{◌≢◌, ◌↔◌, ◌⊎◌, inl, inr, ite, dite, if_pos, if_neg}
pub use mathlib.Core.Bool.{Bool, true, false, not, ◌&&◌, ◌||◌, xor}
pub use mathlib.Core.Option.{Option, none, some}
pub use mathlib.Core.List.{List, [], ◌∷◌, ◌++◌, map}
pub use native.Mathlib.Omega.{arith}
unfoldable pub use native.Mathlib.Decide.{dec_lt, dec_le, ℕ_discrete}
