-- ===== src/Prelude.antt =====
-- The names that the other modules share: the libraries', passed on, and those of the children.
mod Tests
mod Lists
mod Texts
mod Maps
mod Sets
pub mod Decimal
pub use Tests.*
pub use Lists.*
unfoldable pub use Texts.{
  text_eq, len, cut_prefix, has_prefix, split, join, cut_last, has_code, text_le, insert_sorted,
  sort, contains,
}
pub use Texts.{
  Text, codes, text_eq_iff, text_eq_refl, has_code-append, rune_len, is_some, push_head,
}
unfoldable pub use Maps.{keys, lookup, has_key, insert, erase}
pub use Maps.{
  lookup-insert, lookup-erase, has_key-lookup, has_key-insert, has_key-erase, contains-keys,
}
pub use Sets.*
pub use Prim.Native.Nat.{ℕ, zero, suc, ◌+◌, ◌-◌, ◌*◌, ◌/◌, ◌%◌, ◌≤◌, ◌<◌}
pub use mathlib.Core.Path.{◌≡◌, refl, sym, ap, subst, ◌∙◌}
pub use mathlib.Core.Logic.{◌≢◌, ◌↔◌, ◌⊎◌, inl, inr}
pub use mathlib.Core.Bool.{Bool, true, false, not, ◌&&◌, ◌||◌}
pub use mathlib.Core.Option.{Option, none, some}
pub use mathlib.Core.List.{List, [], ◌∷◌, ◌++◌, map, foldl}
pub use native.Mathlib.Omega.{arith}
