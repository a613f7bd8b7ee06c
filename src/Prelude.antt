-- ===== src/Prelude.antt =====
-- The names that the other modules share: the libraries', passed on, and those of the children.
mod Tests
mod Lists
pub mod Words
pub mod HashMap
pub mod Text
pub mod Digits
pub use Tests.*
pub use Lists.{
  Bytes, length, take, drop, replicate, last?, All, Member, Apart, All-mono, All-snoc, All-middle,
  All-of_Member, All-of_map, All-append, All-drop, All-Member, Member-snoc, Apart-snoc,
  List-discrete, length-append, length-drop, drop-append, take-append, last?-append,
}
unfoldable pub use Lists.{bytes_discrete}
pub use Prim.Native.Nat.{ℕ, zero, suc, ◌+◌, ◌-◌, ◌*◌, ◌/◌, ◌%◌, ◌^◌, ◌≤◌, ◌<◌, min}
pub use mathlib.Core.Path.{◌≡◌, refl, sym, ap, ap₂, ◌∙◌, subst, fun_ext}
pub use mathlib.Core.Logic.{◌≢◌, ◌↔◌, ◌⊎◌, inl, inr}
pub use mathlib.Core.Bool.{Bool, true, false, ◌&&◌, ◌||◌, not}
pub use mathlib.Core.Option.{Option, none, some}
pub use mathlib.Core.List.{List, [], ◌∷◌, ◌++◌, map}
pub use native.Mathlib.Omega.{arith}
unfoldable pub use native.Mathlib.Decide.{ℕ_discrete}
