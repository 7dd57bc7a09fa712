-- ===== src/Validate.antt =====
-- internal/builders/validations: values of the type that a schema names, and which keywords and
-- formats go with a type. The values of encoding/json and strconv are the parameter `Json`.
pub mod Conform
pub mod Enums
pub mod Pieces
use codescan.Prelude.{
  Text, codes, ℕ, List, [], ◌∷◌, ◌++◌, map, Option, none, some, Bool, true, false, ◌&&◌, ◌||◌,
  text_eq, contains, split, join, lookup, ◌==◌, if◌then◌else◌,
}
use codescan.Grammar.Strings.{trim_space, trim_left, trim_right}

-- What the code calls of strconv and encoding/json; none stands for an error.
pub record Decoders (F I J : Type 0) : Type 0 where
  pub atoi : Text → Option I
  pub parse_bool : Text → Option Bool
  pub parse_float : Text → Option F
  pub unquote : Text → Option Text
  -- json.Unmarshal into a map, a slice, and any value.
  pub json_object : Text → Option J
  pub json_array : Text → Option J
  pub json_value : Text → Option J
  -- json.Unmarshal into a slice of raw messages.
  pub json_elements : Text → Option (List Text)

-- A value of the type any, as far as the code makes one.
pub data Value (F I J : Type 0) : Type 0 where
  text : Text → Value F I J
  integer : I → Value F I J
  boolean : Bool → Value F I J
  number : F → Value F I J
  json : J → Value F I J

-- The cases of the switch of `CoerceValue`.
pub data Target : Type 0 where
  to_integer to_boolean to_number to_string to_object to_array as_is : Target

abbrev is_quote : ℕ → Bool
is_quote c = c == b'"'

abbrev trim_quotes : Text → Text
trim_quotes s = trim_right is_quote (trim_left is_quote s)

abbrev integer_names : List Text
integer_names = codes "integer" ∷ codes "int" ∷ codes "int64" ∷ codes "int32" ∷ codes "int16" ∷ []

abbrev number_names : List Text
number_names = codes "number" ∷ codes "float64" ∷ codes "float32" ∷ []

unfoldable pub target_of : Text → Target
target_of type_name =
    let t = trim_quotes type_name in
    if contains integer_names t
    then to_integer
    else if contains (codes "bool" ∷ codes "boolean" ∷ []) t
    then to_boolean
    else if contains number_names t
    then to_number
    else if text_eq t (codes "string")
    then to_string
    else if text_eq t (codes "object")
    then to_object
    else if text_eq t (codes "array")
    then to_array
    else as_is

-- The length is in bytes, and both ends are ASCII.
abbrev pub last_is : ℕ → Text → Bool
last_is c [] = false
last_is c (d ∷ []) = d == c
last_is c (d ∷ e ∷ s) = last_is c (e ∷ s)

abbrev pub delimited : ℕ → ℕ → Text → Bool
delimited first last [] = false
delimited first last (c ∷ []) = false
delimited first last (c ∷ d ∷ s) = c == first && last_is last (d ∷ s)

abbrev pub without_last : Text → Text
without_last [] = []
without_last (c ∷ []) = []
without_last (c ∷ d ∷ s) = c ∷ without_last (d ∷ s)

abbrev pub inner : Text → Text
inner [] = []
inner (c ∷ s) = without_last s

-- The brackets of `coerceEnumCommaList`.
unfoldable pub strip_brackets : Text → Text
strip_brackets val = if delimited b'[' b']' (trim_space val) then inner (trim_space val) else val

module _ {F I J : Type 0} (d : Decoders F I J) where
  abbrev Coerced : Type 0
  Coerced = Option (Value F I J)

  abbrev pub given {ℓ} : {A : Type ℓ} → (A → Value F I J) → Option A → Coerced
  given f none = none
  given f (some a) = some (f a)

  abbrev pub or_text : Text → Option J → Value F I J
  or_text s none = text s
  or_text s (some j) = json j

  abbrev pub or_same : Text → Option Text → Text
  or_same s none = s
  or_same s (some t) = t

  -- `unquoteIfQuoted`
  unfoldable pub unquote_if_quoted : Text → Text
  unquote_if_quoted s = if delimited b'"' b'"' s then or_same s (d.unquote s) else s

  unfoldable pub coerce_to : Target → Text → Coerced
  coerce_to to_integer s = given (λ i. integer i) (d.atoi s)
  coerce_to to_boolean s = given (λ b. boolean b) (d.parse_bool s)
  coerce_to to_number s = given (λ n. number n) (d.parse_float s)
  coerce_to to_string s = some (text (unquote_if_quoted s))
  coerce_to to_object s = some (or_text s (d.json_object s))
  coerce_to to_array s = some (or_text s (d.json_array s))
  coerce_to as_is s = some (text s)

  -- `CoerceValue`: the type name is none where there is no schema, and an error is none.
  unfoldable pub coerce_value : Text → Option Text → Coerced
  coerce_value s none = some (text s)
  coerce_value s (some type_name) = coerce_to (target_of type_name) s

  -- `CoerceJSONOrString`
  abbrev opens_json : Text → Bool
  opens_json [] = false
  opens_json (c ∷ s) = c == b'{' || c == b'['

  unfoldable pub coerce_json_or_string : Text → Value F I J
  coerce_json_or_string s =
      let quoted = unquote_if_quoted s in
      if opens_json (trim_space s)
      then or_text quoted (d.json_value (trim_space s))
      else text quoted

  abbrev pub or_raw : Text → Coerced → Value F I J
  or_raw s none = text s
  or_raw s (some v) = v

  -- One element of an enum.
  unfoldable pub enum_element : Option Text → Text → Value F I J
  enum_element type_name s = or_raw s (coerce_value s type_name)

  -- `coerceEnumCommaList`
  unfoldable pub coerce_enum_comma_list : Text → Option Text → List (Value F I J)
  coerce_enum_comma_list val type_name =
      map (λ s. enum_element type_name (trim_space s)) (split b',' (strip_brackets val))

  -- `CoerceEnum`
  abbrev pub enum_of : Text → Option Text → Option (List Text) → List (Value F I J)
  enum_of val type_name none = coerce_enum_comma_list val type_name
  enum_of val type_name (some raws) =
      map (λ raw. enum_element type_name (or_same raw (d.unquote raw))) raws

  unfoldable pub coerce_enum : Text → Option Text → List (Value F I J)
  coerce_enum val type_name = enum_of val type_name (d.json_elements val)

-- `keywordTypeRules`
abbrev pub keyword_type_rules : List (Text × List Text)
keyword_type_rules =
    (codes "pattern", codes "string" ∷ [])
    ∷ (codes "minLength", codes "string" ∷ [])
    ∷ (codes "maxLength", codes "string" ∷ [])
    ∷ (codes "maximum", codes "integer" ∷ codes "number" ∷ [])
    ∷ (codes "minimum", codes "integer" ∷ codes "number" ∷ [])
    ∷ (codes "multipleOf", codes "integer" ∷ codes "number" ∷ [])
    ∷ (codes "minItems", codes "array" ∷ [])
    ∷ (codes "maxItems", codes "array" ∷ [])
    ∷ (codes "uniqueItems", codes "array" ∷ [])
    ∷ (codes "minProperties", codes "object" ∷ [])
    ∷ (codes "maxProperties", codes "object" ∷ [])
    ∷ (codes "patternProperties", codes "object" ∷ [])
    ∷ []

-- `IsLegalForType`, without the hint.
unfoldable pub is_legal_for_type : Text → Text → Bool
is_legal_for_type keyword schema_type = elim (lookup keyword keyword_type_rules) [
  | none ↦ true
  | some rules ↦ if text_eq schema_type [] then true else contains rules schema_type
]

-- `isIntegerFormat`, `isFloatFormat`
abbrev pub integer_formats : List Text
integer_formats =
    codes "int"
    ∷ codes "int8"
    ∷ codes "int16"
    ∷ codes "int32"
    ∷ codes "int64"
    ∷ codes "uint"
    ∷ codes "uint8"
    ∷ codes "uint16"
    ∷ codes "uint32"
    ∷ codes "uint64"
    ∷ []

abbrev pub float_formats : List Text
float_formats = codes "float" ∷ codes "double" ∷ codes "float32" ∷ codes "float64" ∷ []

-- `IsFormatCompatible`, without the hint.
unfoldable pub is_format_compatible : Text → Text → Bool
is_format_compatible schema_type format =
    if text_eq format []
    then true
    else if text_eq schema_type [] || text_eq schema_type (codes "string")
    then true
    else if text_eq schema_type (codes "integer")
    then contains integer_formats format
    else if text_eq schema_type (codes "number")
    then contains integer_formats format || contains float_formats format
    else false
