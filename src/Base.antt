-- ===== src/Base.antt =====
-- The names that all modules share: the libraries', passed on, and those of its children.
mod Tests
mod Lists
mod Word
mod Outcome
mod Arrays
pub use Tests.*
pub use Lists.*
pub use Arrays.*
unfoldable pub use Word.*
unfoldable pub use Outcome.*
pub use Prim.Native.Nat.{ℕ, zero, suc, ◌+◌, ◌-◌, ◌*◌, ◌/◌, ◌%◌, ◌^◌, ◌≤◌, ◌<◌}
pub use mathlib.Core.Path.{◌≡◌, refl, sym, ap, ◌∙◌}
pub use mathlib.Core.Logic.{◌≢◌, ◌↔◌, ◌⊎◌, inl, inr}
pub use mathlib.Core.Bool.{Bool, true, false, not, ◌&&◌, ◌||◌}
pub use mathlib.Core.Option.{Option, none, some}
pub use mathlib.Core.List.{List, [], ◌∷◌, ◌++◌, map, reverse, reverse_aux, append-nil, append_assoc}
pub use native.Mathlib.Omega.{arith}
