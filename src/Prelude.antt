-- ===== src/Prelude.antt =====
-- Shared names: the libraries' passed on, Boolean tests, lists over the native numbers, integers,
-- text and association lists.
mod Tests
mod Lists
mod Sets
pub mod Int
pub mod Dict
pub mod Options
pub use Tests.*
pub use Lists.*
pub use Sets.{contains-set_insert, contains-set_erase, set_laws}
unfoldable pub use Sets.{contains, set_insert, set_erase}
pub use Prim.Native.Nat.{ℕ, zero, suc, ◌+◌, ◌-◌, ◌*◌, ◌/◌, ◌%◌, ◌^◌, ◌≤◌, ◌<◌}
pub use Prim.Native.String.{String}
pub use mathlib.Core.Path.{◌≡◌, refl, sym, ap, ◌∙◌, subst}
pub use mathlib.Core.Logic.{◌≢◌, ◌↔◌, ◌⊎◌, inl, inr}
pub use mathlib.Core.Bool.{Bool, true, false, not, ◌&&◌, ◌||◌}
pub use mathlib.Core.Option.{Option, none, some}
pub use mathlib.Core.List.{List, [], ◌∷◌, ◌++◌, map, head?}
pub use native.Mathlib.Omega.{arith}
pub use text.Mathlib.Text.{◌==◌, starts_with}
pub use text.Mathlib.TextEquality.{eq_iff}
pub use text.Mathlib.TextPositions.{eq_refl}
