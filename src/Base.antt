-- ===== src/Base.antt =====
-- The names that every part shares: the libraries', passed on, and those of the children.
mod Tests
mod Lists
mod Slices
mod Xor
mod Word
mod Fallible
mod Selection
mod Tables
mod Sets
mod Entries
unfoldable pub use Tests.*
pub use Selection.*
unfoldable pub use Tables.*
unfoldable pub use Sets.*
pub use Entries.*
pub use Lists.*
pub use Slices.*
pub use Xor.*
unfoldable pub use Word.*
unfoldable pub use Fallible.*
pub use Prim.Native.Nat.{ℕ, zero, suc, ◌+◌, ◌-◌, ◌*◌, ◌/◌, ◌%◌, ◌^◌, ◌≤◌, ◌<◌}
pub use mathlib.Core.Path.{◌≡◌, refl, sym, ap, ap₂, subst, ◌∙◌, ◌≡⟨◌⟩◌, ◌∎}
pub use mathlib.Core.Logic.{◌≢◌, ◌↔◌, ◌⊎◌, inl, inr, dite, ite, if_pos, if_neg, dif_pos, dif_neg}
pub use mathlib.Core.Bool.{Bool, true, false, not, ◌&&◌, ◌||◌}
pub use mathlib.Core.Option.{Option, none, some}
pub use mathlib.Core.List.{List, [], ◌∷◌, ◌++◌, map, foldl, reverse}
pub use native.Mathlib.Omega.{arith}
unfoldable pub use native.Mathlib.Decide.{ℕ_discrete, dec_lt}
