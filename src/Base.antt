-- ===== src/Base.antt =====
-- What the modules share: library names passed on, Boolean tests, lists and memory indexed by the
-- native numbers, and the monad of code that may fault.
mod Tests
mod Texts
mod Lists
mod Codes
mod Memory
mod Fault
pub mod Int
pub use Tests.*
pub use Lists.*
pub use Codes.*
unfoldable pub use Memory.*
unfoldable pub use Texts.*
pub use Fault.*
pub use Prim.Native.Nat.{ℕ, zero, suc, ◌+◌, ◌-◌, ◌*◌, ◌/◌, ◌%◌, ◌^◌, ◌≤◌, ◌<◌, min}
pub use mathlib.Core.Path.{◌≡◌, refl, sym, ap, ap₂, subst, ◌∙◌, ◌≡⟨◌⟩◌, ◌∎}
pub use mathlib.Core.Logic.{◌≢◌, ◌↔◌, ◌⊎◌, inl, inr}
pub use mathlib.Core.Bool.{Bool, true, false, not, ◌&&◌, ◌||◌}
pub use mathlib.Core.Option.{Option, none, some}
pub use mathlib.Core.List.{List, [], ◌∷◌, ◌++◌, map, append-nil, append_assoc}
pub use native.Mathlib.Omega.{arith}
