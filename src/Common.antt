-- ===== src/Common.antt =====
-- The names that the component models share: the libraries' names passed on, machine words, lists and maps.
mod Tests
mod Words
mod Lists
mod Maps
mod Slices
pub mod Faults
pub mod Bits
pub mod Threads
pub mod Turns
pub mod Writes
pub use Tests.*
pub use Words.*
pub use Lists.*
pub use Slices.*
unfoldable pub use Maps.*
pub use Prim.Native.Nat.{ℕ, zero, suc, ◌+◌, ◌-◌, ◌*◌, ◌/◌, ◌%◌, ◌^◌, ◌≤◌, ◌<◌, min, max}
pub use mathlib.Core.Path.{◌≡◌, refl, sym, ap, ap₂, ◌∙◌, subst, subst₂}
pub use mathlib.Core.Logic.{◌≢◌, ◌↔◌, ◌⊎◌, inl, inr}
pub use mathlib.Core.Bool.{Bool, true, false, not, ◌&&◌, ◌||◌}
pub use mathlib.Core.Option.{Option, none, some}
pub use mathlib.Core.List.{List, [], ◌∷◌, ◌++◌, map}
pub use native.Mathlib.Omega.{arith}
