-- ===== src/Grammar/Typing/Sound.antt =====
-- The typed value of a keyword has the type that its table entry names, or an error says why not.
use codescan.Prelude.{
  Text, ◌≡◌, refl, sym, ap, subst, ◌⊎◌, inl, inr, List, [], ◌∷◌, Option, none, some, Bool, true,
  false, ◌&&◌, contains, ◌||◌, text_eq_refl, if◌then◌else◌, Bool-cases, and-intro, arith,
}
use codescan.Grammar.Strings.{equal_fold, trim_space}
use codescan.Grammar.Token.{Arg, Token}
use codescan.Grammar.Keywords
use codescan.Grammar.Keywords.{ValueShape, Keyword}
use codescan.Grammar.Block.{
  Code, Diagnostic, errorf, TypedValue, untyped, number, integer, boolean, option, invalid_number,
  invalid_integer, invalid_boolean, invalid_enum_option,
}
use codescan.Grammar.Typing.{
  Services, match_option, parse_bool, split_cmp_operator, typed_or, type_of_shape, type_args,
  type_inline_value,
}

-- The shapes whose value the parser types, with the code of their error.
abbrev pub error_of : ValueShape → Option Code
error_of Keywords.ValueShape.number = some invalid_number
error_of Keywords.ValueShape.int = some invalid_integer
error_of Keywords.ValueShape.bool = some invalid_boolean
error_of Keywords.ValueShape.enum_option = some invalid_enum_option
error_of _ = none

module _ {F I : Type 0} where
  abbrev pub well_typed : ValueShape → List Text → Text → TypedValue F I → Bool
  well_typed Keywords.ValueShape.number allowed s (number op n) = true
  well_typed Keywords.ValueShape.int allowed s (integer i) = true
  well_typed Keywords.ValueShape.bool allowed s (boolean b) = true
  well_typed Keywords.ValueShape.enum_option allowed s (option v) =
      contains allowed v && equal_fold s v
  well_typed _ allowed s _ = false

  -- A value of the shape and no diagnostic, or no value and the error of the shape.
  abbrev Outcome :
      ValueShape → List Text → Arg → Option Code → TypedValue F I × List Diagnostic → Type 0
  Outcome shape allowed a none (v, ds) = (v ≡ untyped) × (ds ≡ [])
  Outcome shape allowed a (some c) (v, ds) =
      ((well_typed shape allowed a.text v ≡ true) × (ds ≡ []))
      ⊎ ((v ≡ untyped) × (ds ≡ errorf a.pos c ∷ []))

  abbrev pub Typed : ValueShape → List Text → Arg → TypedValue F I × List Diagnostic → Type 0
  Typed shape allowed a r = Outcome shape allowed a (error_of shape) r

abbrev pub Matched : List Text → Text → Option Text → Type 0
Matched allowed s none = Unit
Matched allowed s (some v) = (contains allowed v && equal_fold s v) ≡ true

Matched-later :
    (v : Text) (vs : List Text) (s : Text) (o : Option Text) → Matched vs s o → Matched (v ∷ vs) s o
Matched-later v vs s none h = tt
Matched-later v vs s (some w) h = unfold contains in ground (arith, h)

pub match_option-Matched :
    (allowed : List Text) (s : Text) → Matched allowed s (match_option allowed s)
unfolding match_option
match_option-Matched [] s = tt
match_option-Matched (v ∷ vs) s = elim (Bool-cases (equal_fold s v)) [
  | inl e ↦
      subst (λ b. Matched (v ∷ vs) s (if b then some v else match_option vs s)) (sym e)
        (and-intro (contains (v ∷ vs) v) (equal_fold s v)
          (unfold contains in ap (λ b. b || contains vs v) (text_eq_refl v)) e)
  | inr e ↦
      subst (λ b. Matched (v ∷ vs) s (if b then some v else match_option vs s)) (sym e)
        (Matched-later v vs s (match_option vs s) (match_option-Matched vs s))
]

module _ {F I V : Type 0} (sv : Services F I V) where
  abbrev Result : Type 0
  Result = TypedValue F I × List Diagnostic

  number-Typed :
      (allowed : List Text) (a : Arg) (op : Text) (o : Option F)
      → Typed Keywords.ValueShape.number allowed a
          (typed_or sv o (λ n. number op n) (errorf a.pos invalid_number))
  number-Typed allowed a op none = inr (refl, refl)
  number-Typed allowed a op (some n) = inl (refl, refl)

  int-Typed :
      (allowed : List Text) (a : Arg) (o : Option I)
      → Typed Keywords.ValueShape.int allowed a
          (typed_or sv o (λ i. integer i) (errorf a.pos invalid_integer))
  int-Typed allowed a none = inr (refl, refl)
  int-Typed allowed a (some i) = inl (refl, refl)

  bool-Typed :
      (allowed : List Text) (a : Arg) (o : Option Bool)
      → Typed Keywords.ValueShape.bool allowed a
          (typed_or sv o (λ b. boolean b) (errorf a.pos invalid_boolean))
  bool-Typed allowed a none = inr (refl, refl)
  bool-Typed allowed a (some b) = inl (refl, refl)

  option-Typed :
      (allowed : List Text) (a : Arg) (o : Option Text)
      → Matched allowed a.text o
      → Typed Keywords.ValueShape.enum_option allowed a
          (typed_or sv o (λ s. option s) (errorf a.pos invalid_enum_option))
  option-Typed allowed a none h = inr (refl, refl)
  option-Typed allowed a (some s) h = inl (h, refl)

  type_of_shape-Typed :
      (shape : ValueShape) (allowed : List Text) (a : Arg)
      → Typed shape allowed a (type_of_shape sv shape allowed a)
  unfolding type_of_shape
  type_of_shape-Typed Keywords.ValueShape.number allowed a =
      number-Typed allowed a (split_cmp_operator a.text).0
        (sv.parse_float (trim_space (split_cmp_operator a.text).1))
  type_of_shape-Typed Keywords.ValueShape.int allowed a =
      int-Typed allowed a (sv.parse_int (trim_space a.text))
  type_of_shape-Typed Keywords.ValueShape.bool allowed a = bool-Typed allowed a (parse_bool a.text)
  type_of_shape-Typed Keywords.ValueShape.enum_option allowed a =
      option-Typed allowed a (match_option allowed a.text) (match_option-Matched allowed a.text)
  type_of_shape-Typed _ allowed a = (refl, refl)

  -- A keyword whose first argument is `a` gets a value of the shape that its table entry declares,
  -- without diagnostic (an option is one of the allowed values, which the argument folds to), or no
  -- value and the error of that shape at the argument. A keyword of another shape gets neither.
  pub type_inline_value-Typed :
      (kw : Keyword) (t : Token) (a : Arg) (rest : List Arg)
      → t.args ≡ a ∷ rest
      → Typed kw.shape kw.values a (type_inline_value sv kw t)
  unfolding type_inline_value
  type_inline_value-Typed kw t a rest e =
      subst (λ args. Typed kw.shape kw.values a (type_args sv kw args)) (sym e)
        (type_of_shape-Typed kw.shape kw.values a)
