-- ===== src/Prelude.antt =====
-- Names, tests and lemmas that every module shares.
mod Tests
mod Lists
mod Indexed
mod Sums
mod Any
pub mod Int
pub mod Word
pub use Tests.*
pub use Lists.*
pub use Indexed.*
pub use Sums.*
pub use Any.*
pub use Prim.Native.Nat.{ℕ, zero, suc, ◌+◌, ◌-◌, ◌*◌, ◌/◌, ◌%◌, ◌^◌, ◌≤◌, ◌<◌}
pub use mathlib.Core.Path.{◌≡◌, refl, sym, ap, ap₂, ◌∙◌, fun_ext, subst}
pub use mathlib.Core.Logic.{◌≢◌, ◌⊎◌, inl, inr}
pub use mathlib.Core.Bool.{Bool, true, false, not, ◌&&◌, ◌||◌}
pub use mathlib.Core.Option.{Option, none, some}
pub use mathlib.Core.List.{List, [], ◌∷◌, ◌++◌, append_assoc, append-nil, map, foldl}
pub use native.Mathlib.Omega.{arith}
