-- ===== src/Validate/Conform.antt =====
-- `CoerceValue` against the table of labels in the package's README.
use codescan.Prelude.{
  Text, codes, ℕ, ◌≡◌, ◌≢◌, refl, sym, ap, subst, ◌∙◌, ◌⊎◌, inl, inr, List, [], ◌∷◌, ◌++◌, map,
  Option, none, some, Bool, true, false, has_code, text_eq, contains, if◌then◌else◌, All,
  Bool-cases, arith,
}
use codescan.Grammar.Strings.{trim_left, trim_right}
use codescan.Validate.{
  Decoders, Value, text, integer, boolean, number, json, Target, to_integer, to_boolean, to_number,
  to_string, to_object, to_array, as_is, is_quote, trim_quotes, target_of, given, or_text, or_same,
  unquote_if_quoted, coerce_to, coerce_value, delimited, last_is, without_last,
}

-- The rows of the table.
pub data Kind : Type 0 where
  integers booleans numbers strings objects arrays others : Kind

abbrev pub labels : Kind → List Text
labels integers = codes "integer" ∷ codes "int" ∷ codes "int64" ∷ codes "int32" ∷ codes "int16" ∷ []
labels booleans = codes "bool" ∷ codes "boolean" ∷ []
labels numbers = codes "number" ∷ codes "float64" ∷ codes "float32" ∷ []
labels strings = codes "string" ∷ []
labels objects = codes "object" ∷ []
labels arrays = codes "array" ∷ []
labels others = []

abbrev pub all_labels : List Text
all_labels =
    labels integers
    ++ (labels booleans
        ++ (labels numbers ++ (labels strings ++ (labels objects ++ labels arrays))))

abbrev pub quoted : Text → Text
quoted s = b'"' ∷ (s ++ b'"' ∷ [])

abbrev pub Listed : List Text → Text → Type 0
Listed [] t = ⊥
Listed (n ∷ ns) t = (t ≡ n) ⊎ Listed ns t

-- The row for a type name: of no schema and of a name that is in no row, the last.
abbrev pub Means : Option Text → Kind → Type 0
Means none k = k ≡ others
Means (some name) others = (contains all_labels name ≡ false) × (has_code b'"' name ≡ false)
Means (some name) k = Listed (labels k ++ map quoted (labels k)) name

-- What a text is read as in a row; none is an error.
pub data Reads {F I J : Type 0} (d : Decoders F I J)
    : Kind → Text → Option (Value F I J) → Type 0 where
  an_integer : {s : Text} {i : I} → d.atoi s ≡ some i → Reads d integers s (some (integer i))
  no_integer : {s : Text} → d.atoi s ≡ none → Reads d integers s none
  a_boolean :
      {s : Text} {b : Bool} → d.parse_bool s ≡ some b → Reads d booleans s (some (boolean b))
  no_boolean : {s : Text} → d.parse_bool s ≡ none → Reads d booleans s none
  a_number : {s : Text} {n : F} → d.parse_float s ≡ some n → Reads d numbers s (some (number n))
  no_number : {s : Text} → d.parse_float s ≡ none → Reads d numbers s none
  an_object : {s : Text} {j : J} → d.json_object s ≡ some j → Reads d objects s (some (json j))
  no_object : {s : Text} → d.json_object s ≡ none → Reads d objects s (some (text s))
  an_array : {s : Text} {j : J} → d.json_array s ≡ some j → Reads d arrays s (some (json j))
  no_array : {s : Text} → d.json_array s ≡ none → Reads d arrays s (some (text s))
  a_plain_string : {s : Text} → ((t : Text) → s ≢ quoted t) → Reads d strings s (some (text s))
  a_quoted_string :
      {s u : Text} (t : Text)
      → s ≡ quoted t
      → d.unquote s ≡ some u
      → Reads d strings s (some (text u))
  no_quoted_string :
      {s : Text} (t : Text) → s ≡ quoted t → d.unquote s ≡ none → Reads d strings s (some (text s))
  another : {s : Text} → Reads d others s (some (text s))

-- The switch finds the row.
abbrev target : Kind → Target
target integers = to_integer
target booleans = to_boolean
target numbers = to_number
target strings = to_string
target objects = to_object
target arrays = to_array
target others = as_is

All-Listed : (P : Text → Type 0) (ns : List Text) → All P ns → (t : Text) → Listed ns t → P t
All-Listed P [] h t l = elim l [ ]
All-Listed P (n ∷ ns) h t (inl e) = subst P (sym e) h.0
All-Listed P (n ∷ ns) h t (inr l) = All-Listed P ns h.1 t l

labels-target : (k : Kind) → All (λ n. target_of n ≡ target k) (labels k ++ map quoted (labels k))
unfolding target_of contains text_eq trim_left trim_right
labels-target integers =
    (refl, (refl, (refl, (refl, (refl, (refl, (refl, (refl, (refl, (refl, tt))))))))))
labels-target booleans = (refl, (refl, (refl, (refl, tt))))
labels-target numbers = (refl, (refl, (refl, (refl, (refl, (refl, tt))))))
labels-target strings = (refl, (refl, tt))
labels-target objects = (refl, (refl, tt))
labels-target arrays = (refl, (refl, tt))
labels-target others = tt

trim_right-unquoted : (s : Text) → has_code b'"' s ≡ false → trim_right is_quote s ≡ s
unfolding trim_right has_code
trim_right-unquoted [] h = refl
trim_right-unquoted (c ∷ []) h = ground arith
trim_right-unquoted (c ∷ d ∷ s) h =
    let rest : trim_right is_quote (d ∷ s) ≡ d ∷ s = trim_right-unquoted (d ∷ s) (ground arith) in
    rw (rest, trim_right) refl

trim_quotes-unquoted : (s : Text) → has_code b'"' s ≡ false → trim_quotes s ≡ s
unfolding trim_left has_code
trim_quotes-unquoted [] h = unfold trim_right in refl
trim_quotes-unquoted (c ∷ s) h = ground (arith, trim_right-unquoted (c ∷ s) h)

text_eq_sym : (s t : Text) → text_eq s t ≡ text_eq t s
unfolding text_eq
text_eq_sym (a ∷ s) (b ∷ t) = ground (arith, text_eq_sym s t)
text_eq_sym [] [] = refl
text_eq_sym [] (b ∷ t) = refl
text_eq_sym (a ∷ s) [] = refl

others-target :
    (name : Text)
    → contains all_labels name ≡ false
    → has_code b'"' name ≡ false
    → target_of name ≡ as_is
unfolding target_of contains
others-target name h q =
    rw (trim_quotes-unquoted name q, target_of)
      (ground (
        arith,
        h,
        text_eq_sym name (codes "string"),
        text_eq_sym name (codes "object"),
        text_eq_sym name (codes "array"),
      ))

labelled-target :
    (k : Kind) (name : Text)
    → Listed (labels k ++ map quoted (labels k)) name
    → target_of name ≡ target k
labelled-target k =
    All-Listed (λ n. target_of n ≡ target k) (labels k ++ map quoted (labels k)) (labels-target k)

Means-target : (name : Text) (k : Kind) → Means (some name) k → target_of name ≡ target k
Means-target name others h = others-target name h.0 h.1
Means-target name integers h = labelled-target integers name h
Means-target name booleans h = labelled-target booleans name h
Means-target name numbers h = labelled-target numbers name h
Means-target name strings h = labelled-target strings name h
Means-target name objects h = labelled-target objects name h
Means-target name arrays h = labelled-target arrays name h

-- A text that the code takes for quoted is one.
last_is-shape : (c : ℕ) (s : Text) → last_is c s ≡ true → s ≡ without_last s ++ c ∷ []
last_is-shape c [] h = ground arith
last_is-shape c (d ∷ []) h = ground arith
last_is-shape c (d ∷ e ∷ s) h = ap (λ t. d ∷ t) (last_is-shape c (e ∷ s) h)

quoted-shape : (s : Text) → delimited b'"' b'"' s ≡ true → (t : Text) × (s ≡ quoted t)
quoted-shape [] h = absurd (ground arith)
quoted-shape (c ∷ []) h = absurd (ground arith)
quoted-shape (c ∷ d ∷ s) h =
    let first : c ≡ b'"' = ground arith in
    let last : last_is b'"' (d ∷ s) ≡ true = ground arith in
    (
      without_last (d ∷ s),
      ap (λ x. x ∷ d ∷ s) first ∙ ap (λ t. b'"' ∷ t) (last_is-shape b'"' (d ∷ s) last),
    )

last_is-append : (c : ℕ) (s : Text) → last_is c (s ++ c ∷ []) ≡ true
last_is-append c [] = ground arith
last_is-append c (x ∷ []) = ground arith
last_is-append c (x ∷ y ∷ s) = last_is-append c (y ∷ s)

-- Between two characters, the text is delimited by them.
pub delimited-between : (c d : ℕ) (s : Text) → delimited c d (c ∷ (s ++ d ∷ [])) ≡ true
delimited-between c d [] = ground arith
delimited-between c d (x ∷ s) = ground (arith, last_is-append d (x ∷ s))

module _ {F I J : Type 0} (d : Decoders F I J) where
  unquote-plain : (s : Text) → ((t : Text) → s ≢ quoted t) → unquote_if_quoted d s ≡ s
  unfolding unquote_if_quoted
  unquote-plain s h = elim (Bool-cases (delimited b'"' b'"' s)) [
    | inl e ↦ absurd (h (quoted-shape s e).0 (quoted-shape s e).1)
    | inr e ↦ ap (λ b. if b then or_same d s (d.unquote s) else s) e
  ]

  unquote-quoted : (s t : Text) → s ≡ quoted t → unquote_if_quoted d s ≡ or_same d s (d.unquote s)
  unfolding unquote_if_quoted
  unquote-quoted s t e =
      ap (λ b. if b then or_same d s (d.unquote s) else s)
        (ap (delimited b'"' b'"') e ∙ delimited-between b'"' b'"' t)

  coerce_to-Reads :
      (k : Kind) (s : Text) (v : Option (Value F I J))
      → Reads d k s v
      → coerce_to d (target k) s ≡ v
  unfolding coerce_to
  coerce_to-Reads k s v (an_integer e) = ap (given d (λ i. integer i)) e
  coerce_to-Reads k s v (no_integer e) = ap (given d (λ i. integer i)) e
  coerce_to-Reads k s v (a_boolean e) = ap (given d (λ b. boolean b)) e
  coerce_to-Reads k s v (no_boolean e) = ap (given d (λ b. boolean b)) e
  coerce_to-Reads k s v (a_number e) = ap (given d (λ n. number n)) e
  coerce_to-Reads k s v (no_number e) = ap (given d (λ n. number n)) e
  coerce_to-Reads k s v (an_object e) = ap (λ o. some (or_text d s o)) e
  coerce_to-Reads k s v (no_object e) = ap (λ o. some (or_text d s o)) e
  coerce_to-Reads k s v (an_array e) = ap (λ o. some (or_text d s o)) e
  coerce_to-Reads k s v (no_array e) = ap (λ o. some (or_text d s o)) e
  coerce_to-Reads k s v (a_plain_string h) = ap (λ t. some (text t)) (unquote-plain s h)
  coerce_to-Reads k s v (a_quoted_string t q e) =
      ap (λ x. some (text x)) (unquote-quoted s t q ∙ ap (or_same d s) e)
  coerce_to-Reads k s v (no_quoted_string t q e) =
      ap (λ x. some (text x)) (unquote-quoted s t q ∙ ap (or_same d s) e)
  coerce_to-Reads k s v another = refl

  -- A text is coerced to what the row of the schema's type name reads it as, and fails where that
  -- row refuses it. A row has its labels, plain or in double quotes; a name without quotes that is
  -- no label, and no schema, leave the text as it is. An object or an array that does not decode is
  -- read as the text, and a string loses its quotes if it can be unquoted.
  pub coerce_value-Reads :
      (name : Option Text) (k : Kind) (s : Text) (v : Option (Value F I J))
      → Means name k
      → Reads d k s v
      → coerce_value d s name ≡ v
  unfolding coerce_value coerce_to
  coerce_value-Reads none k s v m r = coerce_to-Reads others s v (subst (λ j. Reads d j s v) m r)
  coerce_value-Reads (some name) k s v m r =
      ap (λ t. coerce_to d t s) (Means-target name k m) ∙ coerce_to-Reads k s v r
