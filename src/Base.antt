-- ===== src/Base.antt =====
-- The names that every component shares: the libraries' names passed on, and those of the
-- children. No source file is modelled here but the Python built-ins that the code calls.
mod Tests
mod Lists
mod Keys
mod Text
mod Results
pub mod Dict
pub mod Sweep
pub mod Sorting
pub use Tests.*
pub use Lists.*
pub use Keys.*
pub use Results.*
unfoldable pub use Text.{strip, is_blank, join_colon, lower_is, text_length, last_text, letters}
pub use Text.{◌+s◌}
pub use Text.{join_colon_assoc, letters-append, letters-strip}
pub use Prim.Native.Nat.{ℕ, zero, suc, ◌+◌, ◌-◌, ◌*◌, ◌/◌, ◌%◌, ◌^◌, ◌≤◌, ◌<◌, max, min}
pub use Prim.Native.String.{String}
pub use mathlib.Core.Path.{◌≡◌, refl, sym, ap, ◌∙◌, subst}
pub use mathlib.Core.Logic.{◌≢◌, ◌↔◌, ◌⊎◌, inl, inr}
pub use mathlib.Core.Bool.{Bool, true, false, not, ◌&&◌, ◌||◌}
pub use mathlib.Core.Option.{Option, none, some}
pub use mathlib.Core.List.{List, [], ◌∷◌, ◌++◌, map, append-nil, append_assoc}
pub use native.Mathlib.Omega.{arith}
pub use text.Mathlib.TextEquality.{eq_iff}
