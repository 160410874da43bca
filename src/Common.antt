-- ===== src/Common.antt =====
-- The names that every component uses: those of the libraries, passed on, and of the children.
mod Tests
mod Lists
mod Strings
mod Errors
pub mod Action
mod Canonical
pub use Tests.*
pub use Lists.*
unfoldable pub use Strings.*
unfoldable pub use Errors.*
unfoldable pub use Canonical.*
pub use Prim.Native.Nat.{ℕ, zero, suc, ◌+◌, ◌-◌, ◌*◌, ◌/◌, ◌%◌, ◌≤◌, ◌<◌}
pub use Prim.Native.String.{String}
pub use mathlib.Core.Path.{◌≡◌, refl, sym, ap, ◌∙◌, subst}
pub use mathlib.Core.Logic.{◌≢◌, ◌↔◌, ◌⊎◌, inl, inr}
pub use mathlib.Core.Bool.{Bool, true, false, not, ◌&&◌, ◌||◌}
pub use mathlib.Core.Option.{Option, none, some}
pub use mathlib.Core.List.{List, [], ◌∷◌, ◌++◌, map, append-nil, append_assoc}
pub use native.Mathlib.Omega.{arith}
