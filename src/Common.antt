-- ===== src/Common.antt =====
-- Shared names: the libraries', passed on, and those of the children: tests and the conditional,
-- lists measured by native numbers, predicates over lists, integers, little-endian numbers.
mod Tests
mod Lists
mod ByteString
mod Maps
pub mod Int
pub use Tests.*
pub use Lists.*
pub use ByteString.*
pub use Maps.*
pub use Prim.Native.Nat.{ℕ, zero, suc, ◌+◌, ◌-◌, ◌*◌, ◌/◌, ◌%◌, ◌^◌, ◌≤◌, ◌<◌, min, max, bit_and}
pub use mathlib.Core.Path.{◌≡◌, refl, sym, ap, ap₂, subst, ◌∙◌, ◌≡⟨◌⟩◌, ◌∎}
pub use mathlib.Core.Logic.{◌≢◌, ◌↔◌, ◌⊎◌, inl, inr}
pub use mathlib.Core.Bool.{Bool, true, false, not, ◌&&◌, ◌||◌}
pub use mathlib.Core.Option.{Option, none, some, some-injective}
pub use mathlib.Core.List.{
  List, [], ◌∷◌, ◌++◌, map, reverse, append-nil, append_assoc, append_cancel_left,
  append_cancel_right, reverse-cons, reverse-append, reverse-reverse,
}
pub use native.Mathlib.Omega.{arith}
