-- ===== src/Grammar/Typing.antt =====
-- parser.go: which keywords are legal under an annotation, and the typed value of a keyword.
-- strconv.ParseFloat, ParseInt and the decoder of extensions are the fields of `Services`.
pub mod Sound
use codescan.Prelude.{
  Text, codes, ℕ, List, [], ◌∷◌, ◌++◌, map, Option, none, some, Bool, true, false, ◌&&◌, ◌||◌, not,
  text_eq, cut_prefix, ◌==◌, if◌then◌else◌,
}
use codescan.Grammar.Strings.{equal_fold, trim_space, trim_left, is_blank_code}
use codescan.Grammar.Token.{
  Position, Arg, Token, AnnotationKind, ann_model, ann_parameters, ann_response, ann_operation,
  ann_route, ann_meta,
}
use codescan.Grammar.Keywords
use codescan.Grammar.Keywords.{
  ValueShape, Keyword, KeywordContext, param, header, schema, items, route, operation, meta,
  response, share,
}
use codescan.Yaml.Node.{Node}
use codescan.Grammar.Block.{
  Diagnostic, errorf, TypedValue, untyped, number, integer, boolean, option, invalid_number,
  invalid_integer, invalid_boolean, invalid_enum_option,
}

pub record Services (F I V : Type 0) : Type 0 where
  pub parse_float : Text → Option F
  pub parse_int : Text → Option I
  -- strconv.ParseBool
  pub parse_go_bool : Text → Option Bool
  -- The content of the document node of a YAML text.
  pub decode : Text → Option (List Node)
  -- A YAML mapping as decoded into JSON values, after `dropDuplicateMappingKeys`.
  pub decode_extensions : Text → Option (List (Text × V))

-- `allowedContexts`: none where the kind has no policy.
unfoldable pub allowed_contexts : AnnotationKind → Option (List KeywordContext)
allowed_contexts ann_model = some (schema ∷ items ∷ [])
allowed_contexts ann_parameters = some (param ∷ schema ∷ items ∷ [])
allowed_contexts ann_response = some (response ∷ schema ∷ header ∷ items ∷ [])
allowed_contexts ann_operation = some (operation ∷ param ∷ schema ∷ header ∷ items ∷ response ∷ [])
allowed_contexts ann_route = some (route ∷ param ∷ schema ∷ header ∷ items ∷ response ∷ [])
allowed_contexts ann_meta = some (meta ∷ schema ∷ [])
allowed_contexts _ = none

-- `contextLegal`
unfoldable pub context_legal : Keyword → AnnotationKind → Bool
context_legal kw kind = elim (allowed_contexts kind) [
  | none ↦ true
  | some allowed ↦ share kw.contexts allowed
]

abbrev cut_first : List Text → Text → Text × Text
cut_first [] s = ([], s)
cut_first (op ∷ ops) s = elim (cut_prefix op s) [ some rest ↦ (op, rest) | none ↦ cut_first ops s ]

-- `splitCmpOperator`
unfoldable pub split_cmp_operator : Text → Text × Text
split_cmp_operator s =
    cut_first (codes "<=" ∷ codes ">=" ∷ codes "<" ∷ codes ">" ∷ codes "=" ∷ [])
      (trim_left is_blank_code s)

-- `parseBool`
unfoldable pub parse_bool : Text → Option Bool
parse_bool s =
    if equal_fold (trim_space s) (codes "true")
    then some true
    else if equal_fold (trim_space s) (codes "false")
    then some false
    else none

-- The allowed value that the text folds to.
unfoldable pub match_option : List Text → Text → Option Text
match_option [] s = none
match_option (v ∷ vs) s = if equal_fold s v then some v else match_option vs s

module _ {F I V : Type 0} (sv : Services F I V) where
  -- A value, or the diagnostic that stands in its place.
  abbrev pub typed_or {ℓ} :
      {A : Type ℓ} → Option A → (A → TypedValue F I) → Diagnostic → TypedValue F I × List Diagnostic
  typed_or none f d = (untyped, d ∷ [])
  typed_or (some a) f d = (f a, [])

  unfoldable pub type_of_shape : ValueShape → List Text → Arg → TypedValue F I × List Diagnostic
  type_of_shape Keywords.ValueShape.number allowed a =
      let (op, rest) = split_cmp_operator a.text in
      typed_or (sv.parse_float (trim_space rest)) (λ n. number op n) (errorf a.pos invalid_number)
  type_of_shape Keywords.ValueShape.int allowed a =
      typed_or (sv.parse_int (trim_space a.text)) (λ i. integer i) (errorf a.pos invalid_integer)
  type_of_shape Keywords.ValueShape.bool allowed a =
      typed_or (parse_bool a.text) (λ b. boolean b) (errorf a.pos invalid_boolean)
  type_of_shape Keywords.ValueShape.enum_option allowed a =
      typed_or (match_option allowed a.text) (λ s. option s) (errorf a.pos invalid_enum_option)
  type_of_shape _ allowed a = (untyped, [])

  -- `typeInlineValue`, with the diagnostics that it emits.
  abbrev pub type_args : Keyword → List Arg → TypedValue F I × List Diagnostic
  type_args kw [] = (untyped, [])
  type_args kw (a ∷ rest) = type_of_shape kw.shape kw.values a

  unfoldable pub type_inline_value : Keyword → Token → TypedValue F I × List Diagnostic
  type_inline_value kw t = type_args kw t.args
