-- ===== src/Grammar/Extract.antt =====
-- parser.go: the prose of a comment, and the arguments of an annotation.
pub mod Arguments
use codescan.Prelude.{
  Text, codes, ℕ, suc, ◌+◌, ◌-◌, List, [], ◌∷◌, ◌++◌, map, foldl, take, drop, length, Option, none,
  some, Bool, true, false, ◌&&◌, ◌||◌, not, text_eq, has_code, join, contains, leb, ◌==◌,
  if◌then◌else◌,
}
use codescan.Grammar.Token.{
  Position, no_position, TokenKind, eof, blank, title, desc, annotation, keyword, ident_name,
  json_value, type_ref, http_method, url_path, wildcard, comma_list_value, raw_block_body,
  raw_value_body, opaque_yaml, Arg, Token, is_annotation,
}
use codescan.Grammar.Bodies.{clip}
use codescan.Grammar.Blocks.{newline}
use codescan.Grammar.Block.{Diagnostic, errorf, EnumForm, ParametersTarget, malformed_operation}

-- `extractTitleDesc`
pub data ProseState : Type 0 where
  before_title in_title in_desc : ProseState

pub record Prose : Type 0 where
  pub titles : List Text
  pub descs : List Text
  pub lines : List Text
  pub state : ProseState

abbrev blank_line : Prose → ProseState → Prose
blank_line p before_title = record p { lines = p.lines ++ [] ∷ [] }
blank_line p in_title = record p { lines = p.lines ++ [] ∷ []; titles = p.titles ++ [] ∷ [] }
blank_line p in_desc = record p { lines = p.lines ++ [] ∷ []; descs = p.descs ++ [] ∷ [] }

unfoldable pub prose_step : Prose → Token → Prose
prose_step p t = elim t.kind [
  | title ↦ record p {
    titles = p.titles ++ t.text ∷ [];
    lines = p.lines ++ t.text ∷ [];
    state = in_title;
  }
  | desc ↦ record p {
    descs = p.descs ++ t.text ∷ [];
    lines = p.lines ++ t.text ∷ [];
    state = in_desc;
  }
  | blank ↦ blank_line p p.state
  | _ ↦ p
]

abbrev no_prose : Prose
no_prose = record { titles = []; descs = []; lines = []; state = before_title }

unfoldable pub extract_title_desc : List Token → Text × (Text × List Text)
extract_title_desc ts =
    let p = foldl prose_step no_prose ts in
    (join newline (clip p.titles), (join newline (clip p.descs), clip p.lines))

-- `demoteSingleLineTitle`
unfoldable pub demote_single_line_title : Bool → Text → Text → Text × Text
demote_single_line_title false t d = (t, d)
demote_single_line_title true t d =
    if text_eq t [] || not (text_eq d []) || has_code 10 t then (t, d) else ([], t)

abbrev pub before_annotation : List Token → List Token
before_annotation [] = []
before_annotation (t ∷ ts) =
    let rest = before_annotation ts in if is_annotation t.kind then [] else t ∷ rest

-- What stands before and after the first annotation.
abbrev pub Split : Type 0
Split = List Token × (Token × List Token)

abbrev pub push_before : Token → Option Split → Option Split
push_before t none = none
push_before t (some (before, (ann, after))) = some (t ∷ before, (ann, after))

abbrev pub split_annotation : List Token → Option Split
split_annotation [] = none
split_annotation (t ∷ ts) =
    let rest = push_before t (split_annotation ts) in
    if is_annotation t.kind then some ([], (t, ts)) else rest

-- `firstMeaningfulPos`
abbrev pub first_meaningful_pos : List Token → Position
first_meaningful_pos [] = no_position
first_meaningful_pos (t ∷ ts) = elim t.kind [
  | eof ↦ first_meaningful_pos ts
  | blank ↦ first_meaningful_pos ts
  | _ ↦ t.pos
]

-- `firstIdentArg`
unfoldable pub first_ident_arg : List Arg → Text
first_ident_arg [] = []
first_ident_arg (a ∷ rest) = elim a.kind [ ident_name ↦ a.text | _ ↦ first_ident_arg rest ]

-- `splitEnumArgs`; the position is not used by its caller.
abbrev one_enum_arg : Arg → EnumForm × (Text × List Arg)
one_enum_arg a = elim a.kind [
  | json_value ↦ (EnumForm.bracketed_only, ([], a ∷ []))
  | comma_list_value ↦ (EnumForm.plain_only, ([], a ∷ []))
  | ident_name ↦ (EnumForm.name_only, (a.text, []))
  | _ ↦ (EnumForm.empty, ([], a ∷ []))
]

abbrev two_enum_args : Arg → Arg → EnumForm × (Text × List Arg)
two_enum_args a b = elim a.kind [
  | ident_name ↦ elim b.kind [
    | json_value ↦ (EnumForm.name_plus_bracketed, (a.text, b ∷ []))
    | comma_list_value ↦ (EnumForm.name_plus_plain, (a.text, b ∷ []))
    | _ ↦ (EnumForm.empty, ([], a ∷ b ∷ []))
  ]
  | _ ↦ (EnumForm.empty, ([], a ∷ b ∷ []))
]

unfoldable pub split_enum_args : List Arg → EnumForm × (Text × List Arg)
split_enum_args [] = (EnumForm.empty, ([], []))
split_enum_args (a ∷ []) = one_enum_arg a
split_enum_args (a ∷ b ∷ []) = two_enum_args a b
split_enum_args (a ∷ b ∷ c ∷ rest) = (EnumForm.empty, ([], a ∷ b ∷ c ∷ rest))

-- `parseParametersArgs`: the loop that drops duplicates, and the target.
abbrev pub add_arg : Text → Bool → Bool → List Text × List Text → List Text × List Text
add_arg a true old r = r
add_arg a false true (kept, dups) = (kept, a ∷ dups)
add_arg a false false (kept, dups) = (a ∷ kept, dups)

unfoldable pub distinct_args : List Text → List Arg → List Text × List Text
distinct_args seen [] = ([], [])
distinct_args seen (a ∷ rest) =
    let is_empty = text_eq a.text [] in
    let old = contains seen a.text in
    add_arg a.text is_empty old
      (distinct_args (if is_empty || old then seen else a.text ∷ seen) rest)

abbrev pub target_of : List Arg → ParametersTarget × (Text × List Arg)
target_of [] = (ParametersTarget.operations, ([], []))
target_of (a ∷ rest) = elim a.kind [
  | wildcard ↦ (ParametersTarget.shared, ([], rest))
  | url_path ↦ (ParametersTarget.path, (a.text, rest))
  | _ ↦ (ParametersTarget.operations, ([], a ∷ rest))
]

-- `parseOperationArgs`
pub record OperationArgs : Type 0 where
  pub method : Text
  pub path : Text
  pub tags : List Text
  pub op_id : Text
  pub raised : List Diagnostic

abbrev pub is_method : TokenKind → Bool
is_method http_method = true
is_method _ = false

abbrev pub is_path : TokenKind → Bool
is_path url_path = true
is_path _ = false

abbrev pub is_ident : TokenKind → Bool
is_ident ident_name = true
is_ident _ = false

-- The first argument if it is of the kind, the others, and the diagnostic where it is not.
abbrev pub take_arg : (TokenKind → Bool) → Position → List Arg → Text × (List Arg × List Diagnostic)
take_arg wanted p [] = ([], ([], errorf p malformed_operation ∷ []))
take_arg wanted p (a ∷ rest) =
    if wanted a.kind
    then (a.text, (rest, []))
    else ([], (a ∷ rest, errorf p malformed_operation ∷ []))

abbrev init_of : Arg → List Arg → List Arg
init_of a [] = []
init_of a (b ∷ rest) = a ∷ init_of b rest

abbrev pub last_of : Arg → List Arg → Arg
last_of a [] = a
last_of a (b ∷ rest) = last_of b rest

abbrev ident_texts : List Arg → List Text
ident_texts [] = []
ident_texts (a ∷ rest) =
    let more = ident_texts rest in if is_ident a.kind then a.text ∷ more else more

-- The last argument is the operation's id, and those before it its tags.
abbrev pub operation_args_of :
    Position → (method path : Text) → List Diagnostic → List Arg → OperationArgs
operation_args_of p method path ds [] = record {
  method = method;
  path = path;
  tags = [];
  op_id = [];
  raised = ds ++ errorf p malformed_operation ∷ [];
}
operation_args_of p method path ds (a ∷ others) =
    let last = last_of a others in
    record {
      method = method;
      path = path;
      tags = ident_texts (init_of a others);
      op_id = last.text;
      raised = ds ++ (if is_ident last.kind then [] else errorf last.pos malformed_operation ∷ []);
    }

unfoldable pub parse_operation_args : Token → OperationArgs
parse_operation_args t =
    let (method, (rest, no_method)) = take_arg is_method t.pos t.args in
    let (path, (more, no_path)) = take_arg is_path t.pos rest in
    operation_args_of t.pos method path (no_method ++ no_path) more
