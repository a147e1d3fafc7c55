-- ===== src/Base.antt =====
-- The names that the modules of the development share.
mod Logic
mod Lists
mod Int
mod Time
mod Text
mod Power
unfoldable pub use Logic.*
unfoldable pub use Lists.*
unfoldable pub use Int.*
unfoldable pub use Time.*
unfoldable pub use Text.*
pub use Power.*
pub use native.Mathlib.Nat.{pow-suc}
pub use Prim.Native.Nat.{ℕ, zero, suc, ◌+◌, ◌-◌, ◌*◌, ◌/◌, ◌%◌, ◌^◌, ◌≤◌, ◌<◌, min, max}
pub use mathlib.Core.Path.{◌≡◌, refl, sym, ap, ◌∙◌, subst}
pub use mathlib.Core.Logic.{◌≢◌, ◌↔◌, ◌⊎◌, inl, inr}
pub use mathlib.Core.Bool.{Bool, true, false, not, ◌&&◌, ◌||◌}
pub use mathlib.Core.Option.{Option, none, some}
pub use mathlib.Core.List.{List, [], ◌∷◌, ◌++◌, map, append-nil, append_assoc}
pub use native.Mathlib.Omega.{arith}
unfoldable pub use native.Mathlib.Decide.{dec_lt, dec_le, ℕ_discrete}
