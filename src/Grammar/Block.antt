-- ===== src/Grammar/Block.antt =====
-- ast.go, diagnostic.go, walker.go, synthetic.go: blocks, their properties, and what reads them.
-- The types of strconv's float64 and int64 and of a decoded extension are parameters, `F`, `I`, `V`.
-- A diagnostic is kept with its severity, its code and its position; its message is left out.
use codescan.Prelude.{
  Text, codes, ℕ, List, [], ◌∷◌, ◌++◌, Option, none, some, Bool, true, false, ◌||◌, text_eq, split,
  cut_prefix, if◌then◌else◌,
}
use codescan.Grammar.Strings.{equal_fold, trim_space}
use codescan.Grammar.Token.{Position, Arg, AnnotationKind}
use codescan.Grammar.Keywords.{Keyword}
use codescan.Yaml.Security.{Requirement}

pub data Severity : Type 0 where
  error warning : Severity

-- The codes that the parser and the route bodies raise.
pub data Code : Type 0 where
  missing_required_arg unexpected_token malformed_operation context_invalid invalid_type_ref : Code
  unterminated_yaml invalid_number invalid_integer invalid_boolean invalid_enum_option : Code
  invalid_yaml_extensions invalid_annotation : Code

pub record Diagnostic : Type 0 where
  pub severity : Severity
  pub code : Code
  pub pos : Position

abbrev pub errorf : Position → Code → Diagnostic
errorf p c = record { severity = error; code = c; pos = p }

abbrev pub warnf : Position → Code → Diagnostic
warnf p c = record { severity = warning; code = c; pos = p }

-- `TypedValue`, with one constructor for each `Type` that a value has.
pub data TypedValue (F I : Type 0) : Type 0 where
  untyped : TypedValue F I
  number : Text → F → TypedValue F I
  integer : I → TypedValue F I
  boolean : Bool → TypedValue F I
  option : Text → TypedValue F I
  block_body : TypedValue F I
  value_body : TypedValue F I

pub record Property (F I : Type 0) : Type 0 where
  pub keyword : Keyword
  pub pos : Position
  pub value : Text
  pub body : Text
  pub raw : Text
  pub typed : TypedValue F I
  pub items_depth : ℕ

pub record RawYaml : Type 0 where
  pub pos : Position
  pub text : Text
  pub truncated : Bool

pub record Extension (V : Type 0) : Type 0 where
  pub name : Text
  pub source : Text
  pub pos : Position
  pub value : V

-- `baseBlock`
pub record BaseBlock (F I V : Type 0) : Type 0 where
  pub pos : Position
  pub title : Text
  pub description : Text
  pub prose_lines : List Text
  pub preamble_lines : List Text
  pub preamble_title : Text
  pub preamble_description : Text
  pub kind : AnnotationKind
  pub properties : List (Property F I)
  pub yaml_blocks : List RawYaml
  pub extensions : List (Extension V)
  pub security : Option (List Requirement)
  pub diagnostics : List Diagnostic

pub data ParametersTarget : Type 0 where
  operations shared path : ParametersTarget

-- `enumArgsForm`
pub data EnumForm : Type 0 where
  empty bracketed_only plain_only name_only name_plus_bracketed name_plus_plain : EnumForm

-- What a block of each family has beside its base.
pub data Shape : Type 0 where
  model : Text → Shape
  response : Text → Shape
  name : Text → Shape
  parameters : ParametersTarget → (path : Text) → (args dups : List Text) → Shape
  route : (method path : Text) → (tags : List Text) → (op_id : Text) → Shape
  operation : (method path : Text) → (tags : List Text) → (op_id : Text) → Shape
  meta : Shape
  classifier : List Arg → Shape
  enum_decl : Text → EnumForm → List Arg → (body_values : Text) → Shape
  unbound : Shape

pub record Block (F I V : Type 0) : Type 0 where
  pub base : BaseBlock F I V
  pub shape : Shape

-- `newBaseBlock`
abbrev pub new_base_block : {F I V : Type 0} → AnnotationKind → Position → BaseBlock F I V
new_base_block kind p = record {
  pos = p;
  title = [];
  description = [];
  prose_lines = [];
  preamble_lines = [];
  preamble_title = [];
  preamble_description = [];
  kind = kind;
  properties = [];
  yaml_blocks = [];
  extensions = [];
  security = none;
  diagnostics = [];
}

-- The texts of `AnnotationArg`.
abbrev if_given : Text → Option Text
if_given [] = none
if_given (c ∷ s) = some (c ∷ s)

unfoldable pub annotation_arg : Shape → Option Text
annotation_arg (model n) = if_given n
annotation_arg (response n) = if_given n
annotation_arg (name n) = if_given n
annotation_arg (enum_decl n f args b) = if_given n
annotation_arg (classifier []) = none
annotation_arg (classifier (a ∷ args)) = if_given a.text
annotation_arg _ = none

abbrev folds_to_any : Text → List Text → Bool
folds_to_any n [] = false
folds_to_any n (a ∷ rest) = equal_fold a n || folds_to_any n rest

abbrev tokens_of : List Text → List Text
tokens_of [] = []
tokens_of (t ∷ ts) =
    let rest = tokens_of ts in if text_eq (trim_space t) [] then rest else trim_space t ∷ rest

abbrev without_dash : Text → Text
without_dash line = elim (cut_prefix (codes "- ") line) [ none ↦ line | some rest ↦ rest ]

abbrev list_of_lines : List Text → List Text
list_of_lines [] = []
list_of_lines (l ∷ ls) =
    tokens_of (split b',' (trim_space (without_dash (trim_space l)))) ++ list_of_lines ls

abbrev value_lines : Text → List Text
value_lines [] = []
value_lines (c ∷ s) = (c ∷ s) ∷ []

abbrev body_lines : Text → List Text
body_lines [] = []
body_lines (c ∷ s) = split 10 (c ∷ s)

module _ {F I : Type 0} where
  -- `IsTyped`
  unfoldable pub is_typed : TypedValue F I → Bool
  is_typed (number op n) = true
  is_typed (integer i) = true
  is_typed (boolean b) = true
  is_typed (option s) = true
  is_typed _ = false

  -- `findProperty`: the first property whose keyword has the name, or an alias, in any case.
  unfoldable pub find_property : List (Property F I) → Text → Option (Property F I)
  find_property [] n = none
  find_property (p ∷ ps) n =
      if equal_fold p.keyword.name n || folds_to_any n p.keyword.aliases
      then some p
      else find_property ps n

  abbrev number_in : TypedValue F I → Option F
  number_in (number op n) = some n
  number_in _ = none

  abbrev integer_in : TypedValue F I → Option I
  integer_in (integer i) = some i
  integer_in _ = none

  abbrev boolean_in : TypedValue F I → Option Bool
  boolean_in (boolean b) = some b
  boolean_in _ = none

  abbrev string_in : Property F I → Text → TypedValue F I → Text
  string_in p v (option s) = s
  string_in p v _ = v

  abbrev and_then {ℓ} : {B : Type ℓ} → Option (Property F I) → (Property F I → Option B) → Option B
  and_then none f = none
  and_then (some p) f = f p

  -- `GetFloat`, `GetInt`, `GetBool`, `GetString`
  unfoldable pub get_float : List (Property F I) → Text → Option F
  get_float ps n = and_then (find_property ps n) (λ p. number_in p.typed)

  unfoldable pub get_int : List (Property F I) → Text → Option I
  get_int ps n = and_then (find_property ps n) (λ p. integer_in p.typed)

  unfoldable pub get_bool : List (Property F I) → Text → Option Bool
  get_bool ps n = and_then (find_property ps n) (λ p. boolean_in p.typed)

  unfoldable pub get_string : List (Property F I) → Text → Option Text
  get_string ps n = and_then (find_property ps n) (λ p. some (string_in p p.value p.typed))

  -- An empty line has no tokens, as the source skips it.
  -- `AsList`
  unfoldable pub as_list : Property F I → List Text
  as_list p = list_of_lines (value_lines p.value ++ body_lines p.body)

  unfoldable pub get_list : List (Property F I) → Text → Option (List Text)
  get_list ps n = and_then (find_property ps n) (λ p. some (as_list p))
