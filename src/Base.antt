-- ===== src/Base.antt =====
-- Names that every module shares: the libraries', passed on, and those of the children, which
-- hold Boolean tests, lists, results and the Go strings and maps that the program is written with.
mod Tests
mod Lists
mod Results
mod GoStrings
mod GoMaps
pub use Tests.*
pub use Lists.*
pub use Results.*
unfoldable pub use GoStrings.*
unfoldable pub use GoMaps.*
pub use Prim.Native.Nat.{ℕ, zero, suc, ◌+◌, ◌-◌, ◌*◌, ◌/◌, ◌%◌, ◌≤◌, ◌<◌}
pub use mathlib.Core.Path.{◌≡◌, refl, sym, ap, subst, ◌∙◌}
pub use mathlib.Core.Logic.{◌≢◌, ◌↔◌, ◌⊎◌, inl, inr}
pub use mathlib.Core.Bool.{Bool, true, false, not, ◌&&◌, ◌||◌}
pub use mathlib.Core.Option.{Option, none, some}
pub use mathlib.Core.List.{List, [], ◌∷◌, ◌++◌, map, append-nil, append_assoc}
pub use native.Mathlib.Omega.{arith}
