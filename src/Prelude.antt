-- ===== src/Prelude.antt =====
-- The names that the other modules share: the libraries', passed on, and those of the children.
-- Models no code of its own.
mod Tests
mod Lists
mod Maps
mod Results
mod Text
mod Runes
mod Words
pub mod Fallible
mod Strconv
pub mod Decimals
mod Utf8
pub use Tests.*
pub use Lists.*
unfoldable pub use Maps.*
pub use Results.*
unfoldable pub use Text.*
unfoldable pub use Runes.*
unfoldable pub use Strconv.*
unfoldable pub use Utf8.*
pub use Words.*
pub use Prim.Native.Nat.{ℕ, zero, suc, ◌+◌, ◌-◌, ◌*◌, ◌/◌, ◌%◌, ◌^◌, ◌≤◌, ◌<◌}
pub use Prim.Native.String.{String}
pub use mathlib.Core.Path.{◌≡◌, refl, sym, ap, ◌∙◌, subst, fun_ext}
pub use mathlib.Core.Logic.{◌≢◌, ◌↔◌, ◌⊎◌, inl, inr}
pub use mathlib.Core.Bool.{Bool, true, false, ◌&&◌, ◌||◌, not}
pub use mathlib.Core.Option.{Option, none, some}
pub use mathlib.Core.List.{List, [], ◌∷◌, ◌++◌, map}
pub use native.Mathlib.Omega.{arith}
