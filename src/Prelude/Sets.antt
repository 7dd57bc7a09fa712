-- ===== src/Prelude/Sets.antt =====
-- Sets of texts as lists: what `contains` says of the list functions, and the pigeonhole principle.
use Prim.Native.Nat.{ℕ, zero, suc, ◌+◌, ◌≤◌, ◌<◌}
use mathlib.Core.Path.{◌≡◌, refl, ◌∙◌}
use mathlib.Core.Logic.{inl, inr}
use mathlib.Core.Bool.{Bool, true, false, not, ◌&&◌, ◌||◌}
use mathlib.Core.List.{List, [], ◌∷◌, ◌++◌}
use native.Mathlib.Omega.{arith}
use codescan.Prelude.Tests.{Bool-cases}
use codescan.Prelude.Lists.{keep, length}
use codescan.Prelude.Texts.{Text, text_eq, text_eq_iff, contains, insert_sorted, sort}

pub contains-append :
    (ss ts : List Text) (k : Text) → contains (ss ++ ts) k ≡ (contains ss k || contains ts k)
unfolding contains
contains-append [] ts k = refl
contains-append (s ∷ ss) ts k = ground (arith, contains-append ss ts k)

contains-insert_sorted :
    (s : Text) (ts : List Text) (k : Text)
    → contains (insert_sorted s ts) k ≡ (text_eq s k || contains ts k)
unfolding contains insert_sorted
contains-insert_sorted s [] k = refl
contains-insert_sorted s (t ∷ ts) k = ground (arith, contains-insert_sorted s ts k)

pub contains-sort : (ts : List Text) (k : Text) → contains (sort ts) k ≡ contains ts k
unfolding sort contains
contains-sort [] k = refl
contains-sort (t ∷ ts) k = contains-insert_sorted t (sort ts) k ∙ rw (contains-sort ts k)

pub contains-keep :
    (p : Text → Bool) (ks : List Text) (k : Text) → contains (keep p ks) k ≡ (contains ks k && p k)
unfolding contains
contains-keep p [] k = refl
contains-keep p (j ∷ ks) k = elim (Bool-cases (text_eq j k)) [
  | inl same ↦ ground (arith, contains-keep p ks k, (text_eq_iff j k).0 same)
  | inr other ↦ ground (arith, contains-keep p ks k)
]

pub not-contains-nil : (k : Text) → contains [] k ≡ false
unfolding contains
not-contains-nil k = refl

pub contains-cons :
    (s : Text) (ss : List Text) (k : Text) → contains (s ∷ ss) k ≡ (text_eq s k || contains ss k)
unfolding contains
contains-cons s ss k = refl

length-keep : (p : Text → Bool) (ss : List Text) → length (keep p ss) ≤ length ss
length-keep p [] = omega arith
length-keep p (s ∷ ss) = ground (arith, length-keep p ss)

length-remove :
    (x : Text) (ss : List Text)
    → contains ss x ≡ true
    → length (keep (λ s. not (text_eq s x)) ss) + 1 ≤ length ss
unfolding contains
length-remove x [] h = cc
length-remove x (s ∷ ss) h =
    ground (arith, length-remove x ss, length-keep (λ s. not (text_eq s x)) ss)

-- As many different names as a list holds, and one more, are not all in it.
pub pigeonhole :
    (name : ℕ → Text)
    → ((i j : ℕ) → name i ≡ name j → i ≡ j)
    → (n : ℕ) (ss : List Text) → ((i : ℕ) → i < n → contains ss (name i) ≡ true)
    → n ≤ length ss
pigeonhole name injective zero ss h = omega arith
pigeonhole name injective (suc n) ss h =
    omega (
      arith,
      length-remove (name n) ss (h n (omega arith)),
      pigeonhole name injective n rest others,
    )
  where
    rest : List Text
    rest = keep (λ s. not (text_eq s (name n))) ss

    others : (i : ℕ) → i < n → contains rest (name i) ≡ true
    others i lt = ground (
      arith,
      contains-keep (λ s. not (text_eq s (name n))) ss (name i),
      h i,
      text_eq_iff (name i) (name n),
      injective i n,
    )
