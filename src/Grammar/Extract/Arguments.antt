-- ===== src/Grammar/Extract/Arguments.antt =====
-- The arguments of swagger:parameters: each is kept once, and a repetition is reported.
use codescan.Prelude.{
  Text, ℕ, suc, ◌+◌, ◌≡◌, refl, subst, inl, inr, List, [], ◌∷◌, length, map, Bool, true, false,
  ◌&&◌, ◌||◌, not, contains, text_eq, text_eq_iff, text_eq_refl, if◌then◌else◌, Bool-cases, arith,
}
use codescan.Grammar.Token.{Arg}
use codescan.Grammar.Extract.{add_arg, distinct_args}

abbrev pub texts : List Arg → List Text
texts args = map (λ a. a.text) args

abbrev pub distinct : List Text → Bool
distinct [] = true
distinct (t ∷ ts) = not (contains ts t) && distinct ts

-- The arguments that are neither empty nor seen before.
abbrev pub is_new : List Text → List Arg → Text → Bool
is_new seen args x = (not (contains seen x) && not (text_eq x [])) && contains (texts args) x

abbrev filled : List Arg → ℕ
filled [] = 0
filled (a ∷ rest) = if text_eq a.text [] then filled rest else suc (filled rest)

abbrev pub KeptOnce : List Text → List Arg → List Text × List Text → Type 0
KeptOnce seen args (kept, dups) =
    ((x : Text) → contains kept x ≡ is_new seen args x)
    × ((distinct kept ≡ true) × (length kept + length dups ≡ filled args))

-- A statement on all texts follows from the ones on this text and on all others.
either :
    (P : Text → Type 0) (a : Text)
    → P a
    → ((x : Text) → text_eq a x ≡ false → P x)
    → (x : Text) → P x
either P a here other x = elim (Bool-cases (text_eq a x)) [
  | inl e ↦ subst P ((text_eq_iff a x).0 e) here
  | inr e ↦ other x e
]

add_arg-KeptOnce :
    (seen : List Text) (a : Arg) (rest : List Arg) (r : List Text × List Text) (is_empty old : Bool)
    → text_eq a.text [] ≡ is_empty
    → contains seen a.text ≡ old
    → KeptOnce (if is_empty || old then seen else a.text ∷ seen) rest r
    → KeptOnce seen (a ∷ rest) (add_arg a.text is_empty old r)
unfolding contains
add_arg-KeptOnce seen a rest r true old he ho h = (
  either (λ x. contains r.0 x ≡ is_new seen (a ∷ rest) x) a.text (ground (arith, he, h.0 a.text))
      (λ x e. ground (arith, e, h.0 x)),
  (h.1.0, ground (arith, he, h.1.1)),
)
add_arg-KeptOnce seen a rest (kept, dups) false true he ho h = (
  either (λ x. contains kept x ≡ is_new seen (a ∷ rest) x) a.text (ground (arith, ho, h.0 a.text))
      (λ x e. ground (arith, e, h.0 x)),
  (h.1.0, ground (arith, he, h.1.1)),
)
add_arg-KeptOnce seen a rest (kept, dups) false false he ho h = (
  either (λ x. contains (a.text ∷ kept) x ≡ is_new seen (a ∷ rest) x) a.text
      (ground (arith, ho, he, text_eq_refl a.text)) (λ x e. ground (arith, e, h.0 x)),
  (ground (arith, h.1.0, h.0 a.text, text_eq_refl a.text), ground (arith, he, h.1.1)),
)

-- An argument is kept just when it is not empty, not seen before and among the arguments; none is
-- kept twice; and each argument that is not empty is kept or reported.
pub distinct_args-KeptOnce :
    (seen : List Text) (args : List Arg) → KeptOnce seen args (distinct_args seen args)
unfolding distinct_args
distinct_args-KeptOnce seen [] = ((λ x. unfold contains in ground arith), (refl, refl))
distinct_args-KeptOnce seen (a ∷ rest) =
    add_arg-KeptOnce seen a rest _ (text_eq a.text []) (contains seen a.text) refl refl (
      distinct_args-KeptOnce
        (if text_eq a.text [] || contains seen a.text then seen else a.text ∷ seen) rest)
