-- ===== src/Common.antt =====
-- The names that the other modules share: the libraries', passed on, and those of the children.
mod Tests
mod Lists
mod Texts
pub mod Utf8
mod Maps
mod Int
pub mod Paths
pub mod Net
mod Results
mod Rules
pub use Tests.*
pub use Lists.{
  length, get_elem?, take, drop, replicate, All, All-append, All-take, All-drop, All-reverse,
  length-append, length-take, length-drop, length-replicate, take-append-drop, take-append,
  drop-append, get_elem?-take, get_elem?-drop, length-keep-le,
}
unfoldable pub use Lists.{keep, all, any}
pub use Texts.{
  Bytes, codes, bytes_beq, bytes_beq_iff, is_empty, has_prefix, has_prefix-append, has_prefix-split,
  IsAscii, equal_fold-lower,
}
unfoldable pub use Texts.{has_suffix, trim_prefix, trim_suffix, to_lower, equal_fold}
pub use Maps.{
  Eq, ◌==◌, nat_eq, bytes_eq, Map, lookup-insert, lookup-delete, length-insert-le, length-delete-le,
  length-delete-lt, beq_refl,
}
pub use Maps.Distinct.{
  Distinct, unless, length-delete_if-le, insert-Distinct, delete-Distinct, delete_if-Distinct,
  lookup-delete_if, All-insert, All-delete, All-delete_if, All-lookup,
}
unfoldable pub use Maps.Distinct.{delete_if}
unfoldable pub use Maps.{lookup, insert, delete}
pub use Int.*
pub use Results.*
pub use Rules.*
pub use Prim.Native.Nat.{ℕ, zero, suc, ◌+◌, ◌-◌, ◌*◌, ◌/◌, ◌%◌, ◌^◌, ◌≤◌, ◌<◌, min, max}
pub use mathlib.Core.Path.{◌≡◌, refl, sym, ap, ◌∙◌}
pub use mathlib.Core.Logic.{◌≢◌, ◌↔◌, ◌⊎◌, inl, inr}
pub use mathlib.Core.Bool.{Bool, true, false, not, ◌&&◌, ◌||◌}
pub use mathlib.Core.Option.{Option, none, some}
pub use mathlib.Core.List.{List, [], ◌∷◌, ◌++◌, map, foldl, reverse, append_assoc, append-nil}
pub use native.Mathlib.Omega.{arith}
