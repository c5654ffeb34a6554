-- ===== src/Prelude.antt =====
-- The names that the other modules share: those of the libraries, passed on, and those of the
-- children (Boolean tests, results and panics, lists, finite maps, event loops).
mod Tests
mod Results
mod Lists
mod Maps
mod Loops
pub use Tests.*
pub use Results.*
pub use Lists.*
pub use Maps.*
unfoldable pub use Tests.{bytes_eq}
unfoldable pub use Maps.{lookup, insert, remove}
pub use Loops.{Flow, continues, returns, panics, run_loop-keeps, run_loop-continues}
unfoldable pub use Loops.{run_loop}
pub use Prim.Native.Nat.{ℕ, zero, suc, ◌+◌, ◌-◌, ◌*◌, ◌/◌, ◌%◌, ◌^◌, ◌≤◌, ◌<◌}
pub use mathlib.Core.Path.{◌≡◌, refl, sym, ap, subst, ◌∙◌}
pub use mathlib.Core.Logic.{◌≢◌, ◌↔◌, ◌⊎◌, inl, inr}
pub use mathlib.Core.Bool.{Bool, true, false, not, ◌&&◌, ◌||◌}
pub use mathlib.Core.Option.{Option, none, some}
pub use mathlib.Core.List.{List, [], ◌∷◌, ◌++◌, reverse}
pub use mathlib.Core.List.{append_assoc, append-nil, reverse-reverse}
pub use native.Mathlib.Omega.{arith}
