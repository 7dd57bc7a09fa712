-- ===== src/Validate/Enums.antt =====
-- `CoerceEnum` on each way to write an enum.
use codescan.Prelude.{
  Text, codes, ◌≡◌, refl, sym, ap, ◌∙◌, inl, inr, List, [], ◌∷◌, ◌++◌, map, Option, none, some,
  false, ◌⊎◌, has_code, has_code-append, split, join, All, arith,
}
use codescan.Grammar.Strings.{trim_space}
use codescan.Validate.{
  Decoders, Value, text, or_raw, or_same, enum_element, coerce_enum_comma_list, coerce_enum,
  enum_of, delimited, strip_brackets,
}
use codescan.Validate.Conform.{Kind, Means, Reads, coerce_value-Reads}
use codescan.Validate.Pieces.{
  Spaces, Tight, bracketed, trim_space-Tight, split-join, no_comma, strip_brackets-bracketed,
  strip_brackets-plain,
}

-- One member of a list: the spaces around it, its text, and what that is read as.
pub record Member (F I J : Type 0) : Type 0 where
  pub left : Text
  pub core : Text
  pub right : Text
  pub value : Option (Value F I J)

-- One element of a JSON array: as it stands there, and without its quotes.
pub record Element (F I J : Type 0) : Type 0 where
  pub raw : Text
  pub core : Text
  pub value : Option (Value F I J)

module _ {F I J : Type 0} where
  abbrev pub written : Member F I J → Text
  written m = m.left ++ (m.core ++ m.right)

  abbrev pub commas : Member F I J → List (Member F I J) → Text
  commas m ms = join (codes ",") (map written (m ∷ ms))

  -- A text that is refused stays a text.
  abbrev pub kept : Text → Option (Value F I J) → Value F I J
  kept s none = text s
  kept s (some v) = v

module _ {F I J : Type 0} (d : Decoders F I J) (k : Kind) where
  abbrev pub IsMember : Member F I J → Type 0
  IsMember m =
      Spaces m.left
      × Spaces m.right
      × Tight m.core
      × (has_code b',' m.core ≡ false)
      × Reads d k m.core m.value

  abbrev pub IsElement : Element F I J → Type 0
  IsElement e =
      ((d.unquote e.raw ≡ some e.core) ⊎ ((d.unquote e.raw ≡ none) × (e.raw ≡ e.core)))
      × Reads d k e.core e.value

  -- The ways to write an enum: members between commas, these in brackets, and a JSON array.
  pub data Spells : Text → List (Value F I J) → Type 0 where
    listed :
        {val : Text} {vs : List (Value F I J)} (m : Member F I J) (ms : List (Member F I J))
        → All IsMember (m ∷ ms)
        → val ≡ commas m ms
        → vs ≡ map (λ n. kept n.core n.value) (m ∷ ms)
        → d.json_elements val ≡ none
        → delimited b'[' b']' (trim_space val) ≡ false
        → Spells val vs
    in_brackets :
        {val : Text} {vs : List (Value F I J)} (m : Member F I J) (ms : List (Member F I J))
        → All IsMember (m ∷ ms)
        → val ≡ bracketed (commas m ms)
        → vs ≡ map (λ n. kept n.core n.value) (m ∷ ms)
        → d.json_elements val ≡ none
        → Spells val vs
    json_array :
        {val : Text} {vs : List (Value F I J)} (es : List (Element F I J))
        → All IsElement es
        → d.json_elements val ≡ some (map (λ e. e.raw) es)
        → vs ≡ map (λ e. kept e.core e.value) es
        → Spells val vs

module _ {F I J : Type 0} (d : Decoders F I J) (k : Kind) (name : Option Text)
    (m : Means name k) where
  or_raw-kept : (s : Text) (o : Option (Value F I J)) → or_raw d s o ≡ kept s o
  or_raw-kept s none = refl
  or_raw-kept s (some v) = refl

  element-Reads :
      (s : Text) (v : Option (Value F I J)) → Reads d k s v → enum_element d name s ≡ kept s v
  unfolding enum_element
  element-Reads s v r = ap (or_raw d s) (coerce_value-Reads d name k s v m r) ∙ or_raw-kept s v

  members-Reads :
      (ms : List (Member F I J))
      → All (IsMember d k) ms
      → map (λ s. enum_element d name (trim_space s)) (map written ms)
        ≡ map (λ n. kept n.core n.value) ms
  members-Reads [] h = refl
  members-Reads (n ∷ ms) ((hl, hr, ht, hc, r), h) =
      ap
        (λ s.
          enum_element d name s ∷ map (λ t. enum_element d name (trim_space t)) (map written ms))
        (trim_space-Tight n.left n.core n.right hl ht hr)
      ∙ ap (λ v. v ∷ map (λ t. enum_element d name (trim_space t)) (map written ms))
          (element-Reads n.core n.value r)
      ∙ ap (λ vs. kept n.core n.value ∷ vs) (members-Reads ms h)

  written-no_comma :
      (ms : List (Member F I J))
      → All (IsMember d k) ms
      → All (λ s. has_code b',' s ≡ false) (map written ms)
  written-no_comma [] h = tt
  written-no_comma (n ∷ ms) ((hl, hr, ht, hc, r), h) = (
    ground (
      arith,
      has_code-append b',' n.left (n.core ++ n.right),
      has_code-append b',' n.core n.right,
      no_comma n.left hl,
      no_comma n.right hr,
      hc,
    ),
    written-no_comma ms h,
  )

  list-Reads :
      (val : Text) (n : Member F I J) (ms : List (Member F I J))
      → All (IsMember d k) (n ∷ ms)
      → strip_brackets val ≡ commas n ms
      → coerce_enum_comma_list d val name ≡ map (λ x. kept x.core x.value) (n ∷ ms)
  unfolding coerce_enum_comma_list
  list-Reads val n ms h e =
      ap (λ t. map (λ s. enum_element d name (trim_space s)) (split b',' t)) e
      ∙ ap (map (λ s. enum_element d name (trim_space s)))
          (split-join b',' (written n) (map written ms) (written-no_comma (n ∷ ms) h))
      ∙ members-Reads (n ∷ ms) h

  unquote-element :
      (e : Element F I J)
      → (d.unquote e.raw ≡ some e.core) ⊎ ((d.unquote e.raw ≡ none) × (e.raw ≡ e.core))
      → or_same d e.raw (d.unquote e.raw) ≡ e.core
  unquote-element e (inl h) = ap (or_same d e.raw) h
  unquote-element e (inr h) = ap (or_same d e.raw) h.0 ∙ h.1

  elements-Reads :
      (es : List (Element F I J))
      → All (IsElement d k) es
      → map (λ raw. enum_element d name (or_same d raw (d.unquote raw))) (map (λ e. e.raw) es)
        ≡ map (λ e. kept e.core e.value) es
  elements-Reads [] h = refl
  elements-Reads (e ∷ es) h =
      ap
        (λ s.
          enum_element d name s
          ∷ map (λ raw. enum_element d name (or_same d raw (d.unquote raw))) (map (λ x. x.raw) es))
        (unquote-element e h.0.0)
      ∙ ap
          (λ v.
            v
            ∷ map (λ raw. enum_element d name (or_same d raw (d.unquote raw)))
                (map (λ x. x.raw) es))
          (element-Reads e.core e.value h.0.1)
      ∙ ap (λ vs. kept e.core e.value ∷ vs) (elements-Reads es h.1)

-- An enum gives its members, in order, each as the row of the schema's type name reads it, and as a
-- text where that row refuses it; spaces around a member are dropped. It is written as members
-- between commas, not itself in brackets, or as such a list in brackets, neither of them JSON, or
-- as a JSON array, whose elements lose their quotes.
pub coerce_enum-Spells :
    {F I J : Type 0} (d : Decoders F I J) (name : Option Text) (k : Kind) (val : Text)
    (vs : List (Value F I J))
    → Means name k
    → Spells d k val vs
    → coerce_enum d val name ≡ vs
unfolding coerce_enum
coerce_enum-Spells d name k val vs m (listed n ms h e ev none_found plain) =
    ap (enum_of d val name) none_found
    ∙ list-Reads d k name m val n ms h (strip_brackets-plain val plain ∙ e)
    ∙ sym ev
coerce_enum-Spells d name k val vs m (in_brackets n ms h e ev none_found) =
    ap (enum_of d val name) none_found
    ∙ list-Reads d k name m val n ms h
        (ap strip_brackets e ∙ strip_brackets-bracketed (commas n ms))
    ∙ sym ev
coerce_enum-Spells d name k val vs m (json_array es h found ev) =
    ap (enum_of d val name) found ∙ elements-Reads d k name m es h ∙ sym ev
