-- ===== src/Grammar/Args.antt =====
-- lexer.go and disambiguate.go: the arguments of an annotation line.
use codescan.Prelude.{
  Text, codes, ℕ, zero, suc, ◌+◌, List, [], ◌∷◌, map, Option, none, some, Bool, true, false, ◌&&◌,
  ◌||◌, not, text_eq, len, has_prefix, lookup, length, leb, ◌==◌, if◌then◌else◌,
}
use codescan.Grammar.Strings.{
  Platform, is_blank_code, trim_left, trim_right, trim_space, is_space, span, trim_dot,
}
use codescan.Grammar.Token.{
  Position, advance, TokenKind, ident_name, json_value, raw_value, type_ref, http_method, url_path,
  wildcard, comma_list_value, Arg, AnnotationKind, ann_route, ann_operation, ann_default_name,
  ann_type, ann_additional_properties, ann_omit, ann_pattern_properties, ann_title, ann_description,
  ann_enum, ann_parameters, ann_response, ann_all_of, ann_model, ann_strfmt, ann_name,
}

abbrev pub arg : TokenKind → Position → Text → Arg
arg k p t = record { kind = k; pos = p; text = t }

-- `stripTrailingDot`
unfoldable pub strip_trailing_dot : Text → Text
strip_trailing_dot s = trim_dot (trim_right is_space s)

-- `splitFirstField`
unfoldable pub split_first_field : Text → Text × Text
split_first_field s =
    let (head, rest) = span (λ c. not (is_blank_code c)) (trim_left is_blank_code s) in
    (head, trim_left is_blank_code rest)

pub record Field : Type 0 where
  pub text : Text
  pub pos : Position

-- `splitFields`: each round takes one field at least.
unfoldable pub fields_on : ℕ → Position → Text → List Field
fields_on zero p s = []
fields_on (suc fuel) p s =
    let (skipped, r) = span is_blank_code s in
    let (word, rest) = span (λ c. not (is_blank_code c)) r in
    let at = advance p (len skipped) in
    let later = fields_on fuel (advance at (len word)) rest in
    elim r [ [] ↦ [] | _ ∷ _ ↦ record { text = word; pos = at } ∷ later ]

unfoldable pub split_fields : Text → Position → List Field
split_fields s p = fields_on (suc (length s)) p s

abbrev http_methods : List (Text × Text)
http_methods =
    (codes "get", codes "GET")
    ∷ (codes "post", codes "POST")
    ∷ (codes "put", codes "PUT")
    ∷ (codes "patch", codes "PATCH")
    ∷ (codes "head", codes "HEAD")
    ∷ (codes "delete", codes "DELETE")
    ∷ (codes "options", codes "OPTIONS")
    ∷ (codes "trace", codes "TRACE")
    ∷ []

unfoldable pub classify_http_method : Platform → Text → Option Text
classify_http_method u s = lookup (map u.to_lower s) http_methods

unfoldable pub looks_like_url_path : Text → Bool
looks_like_url_path s = has_prefix (codes "/") s

unfoldable pub strip_arrays : Text → Text
strip_arrays [] = []
strip_arrays (c ∷ []) = c ∷ []
strip_arrays (c ∷ d ∷ s) =
    let rest = strip_arrays s in if c == b'[' && d == b']' then rest else c ∷ d ∷ s

abbrev type_start : ℕ → Bool
type_start c = leb b'a' c && leb c b'z' || leb b'A' c && leb c b'Z' || c == b'_'

abbrev type_rest : Text → Bool
type_rest [] = true
type_rest (c ∷ s) = (type_start c || (leb b'0' c && leb c b'9' || c == b'.')) && type_rest s

abbrev type_name : Text → Bool
type_name [] = false
type_name (c ∷ s) = type_start c && type_rest s

unfoldable pub looks_like_type_ref : Text → Bool
looks_like_type_ref s = type_name (strip_arrays (trim_space s))

-- `classifyDefaultValue`: JSON is tried where the first character may open it.
abbrev may_open_json : ℕ → Bool
may_open_json c =
    c == b'"' || c == b'[' || c == b'{' || c == b'+' || c == b'-' || leb b'0' c && leb c b'9'

unfoldable pub classify_default_value : Platform → Text → TokenKind
classify_default_value u s = elim (trim_space s) [
  | [] ↦ raw_value
  | c ∷ t ↦
      if may_open_json c
      then (if u.is_json (c ∷ t) then json_value else raw_value)
      else if text_eq (c ∷ t) (codes "true")
          || text_eq (c ∷ t) (codes "false")
          || text_eq (c ∷ t) (codes "null")
      then json_value
      else raw_value
]

unfoldable pub arg_type_ref : Text → Position → Arg
arg_type_ref rest p =
    let t = trim_space rest in arg (if looks_like_type_ref t then type_ref else ident_name) p t

unfoldable pub identifier_continue : Platform → ℕ → Bool
identifier_continue u c = u.is_letter c || u.is_digit c || c == b'_' || c == b'-' || c == b'.'

-- `classifyEnumArgs` with `classifyEnumAnnotationArgs`: the form decides the tokens.
unfoldable pub enum_values : Position → Text → Text → List Arg
enum_values p name [] = []
enum_values p name (c ∷ values) =
    arg (if c == b'[' then json_value else comma_list_value) (advance p (len name + 1)) (c ∷ values)
    ∷ []

unfoldable pub classify_enum_annotation_args : Platform → Text → Position → List Arg
classify_enum_annotation_args u rest p = elim (trim_space rest) [
  | [] ↦ []
  | c ∷ s ↦
      if c == b'['
      then arg json_value p (c ∷ s) ∷ []
      else if not (u.is_letter c)
      then arg comma_list_value p (c ∷ s) ∷ []
      else (let (tail, after) = span (identifier_continue u) s in
          arg ident_name p (c ∷ tail) ∷ enum_values p (c ∷ tail) (trim_left is_blank_code after))
]

abbrev pub idents : List Field → List Arg
idents [] = []
idents (f ∷ fs) = arg ident_name f.pos f.text ∷ idents fs

unfoldable pub classify_ident_list : Text → Position → List Arg
classify_ident_list rest p = idents (split_fields rest p)

unfoldable pub first_ident : Text → Position → Arg
first_ident rest p = elim (split_fields rest p) [
  | [] ↦ arg ident_name p []
  | f ∷ _ ↦ arg ident_name f.pos f.text
]

abbrev path_then_idents : List Field → List Arg
path_then_idents [] = []
path_then_idents (f ∷ fs) =
    if looks_like_url_path f.text then arg url_path f.pos f.text ∷ idents fs else idents (f ∷ fs)

unfoldable pub classify_operation_args : Platform → Text → Position → List Arg
classify_operation_args u rest p = elim (split_fields rest p) [
  | [] ↦ []
  | f ∷ fs ↦ elim (classify_http_method u f.text) [
    | some canon ↦ arg http_method f.pos canon ∷ path_then_idents fs
    | none ↦ path_then_idents (f ∷ fs)
  ]
]

unfoldable pub classify_parameters_args : Text → Position → List Arg
classify_parameters_args rest p = elim (split_fields rest p) [
  | [] ↦ []
  | f ∷ fs ↦
      arg
        (if text_eq f.text (codes "*")
          then wildcard
          else if looks_like_url_path f.text
          then url_path
          else ident_name)
        f.pos f.text
      ∷ idents fs
]

unfoldable pub args_of_kind : Platform → AnnotationKind → Text → Position → List Arg
args_of_kind u ann_route rest p = classify_operation_args u rest p
args_of_kind u ann_operation rest p = classify_operation_args u rest p
args_of_kind u ann_default_name rest p =
    arg (classify_default_value u rest) p (trim_space rest) ∷ []
args_of_kind u ann_type rest p = arg_type_ref rest p ∷ []
args_of_kind u ann_additional_properties rest p = arg_type_ref rest p ∷ []
args_of_kind u ann_omit rest p = arg raw_value p (trim_space rest) ∷ []
args_of_kind u ann_pattern_properties rest p = arg raw_value p (trim_space rest) ∷ []
args_of_kind u ann_title rest p = arg raw_value p (trim_space rest) ∷ []
args_of_kind u ann_description rest p = arg raw_value p (trim_space rest) ∷ []
args_of_kind u ann_enum rest p = classify_enum_annotation_args u rest p
args_of_kind u ann_parameters rest p = classify_parameters_args rest p
args_of_kind u ann_response rest p =
    if text_eq (split_first_field rest).0 (codes "*")
    then arg wildcard p (codes "*") ∷ []
    else first_ident rest p ∷ []
args_of_kind u ann_all_of rest p = first_ident rest p ∷ []
args_of_kind u ann_model rest p = first_ident rest p ∷ []
args_of_kind u ann_strfmt rest p = first_ident rest p ∷ []
args_of_kind u ann_name rest p = first_ident rest p ∷ []
args_of_kind u _ rest p = classify_ident_list rest p

-- `classifyAnnotationArgs`
unfoldable pub classify_annotation_args : Platform → AnnotationKind → Text → Position → ℕ → List Arg
classify_annotation_args u kind rest p base = elim (trim_left is_blank_code rest) [
  | [] ↦ []
  | c ∷ s ↦ args_of_kind u kind (c ∷ s) (advance p base)
]
