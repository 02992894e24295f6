-- ===== src/Base.antt =====
-- The names that the other modules share: the libraries', passed on, and those of its children.
mod Tests
mod Lists
mod Words
mod Texts
pub use Tests.*
pub use Lists.*
unfoldable pub use Words.{add64, sub64}
unfoldable pub use Texts.{Text, text_eq, text_lt}
pub use Texts.{text_eq_refl, text_eq→eq, text_lt_irrefl, text_lt_trans, text_lt_total}
pub use Words.{u64_mod, add64-eq, sub64-eq, add64-lt, sub64-lt, add64-ne_self}
pub use Prim.Native.Nat.{ℕ, zero, suc, ◌+◌, ◌-◌, ◌*◌, ◌/◌, ◌%◌, ◌^◌, ◌≤◌, ◌<◌, min, max}
pub use mathlib.Core.Path.{◌≡◌, refl, sym, ap, ◌∙◌, subst}
pub use mathlib.Core.Logic.{◌≢◌, ◌↔◌, ◌⊎◌, inl, inr}
pub use mathlib.Core.Bool.{Bool, true, false, not, ◌&&◌, ◌||◌}
pub use mathlib.Core.Option.{Option, none, some}
pub use mathlib.Core.List.{List, [], ◌∷◌, ◌++◌, map}
pub use native.Mathlib.Omega.{arith}
