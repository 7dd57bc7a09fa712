-- ===== src/Grammar/Parser.antt =====
-- parser.go: from tokens to blocks. `s.diags`, which finaliseBase copies onto the block, are the
-- diagnostics of the block from the start. The callback of the parser sees the same diagnostics.
pub mod Properties
pub mod Kinds
pub mod Quiet
use codescan.Prelude.{
  Text, codes, ℕ, suc, ◌+◌, ◌-◌, List, [], ◌∷◌, ◌++◌, map, foldl, take, drop, length, Option, none,
  some, Bool, true, false, ◌&&◌, ◌||◌, not, text_eq, has_code, join, contains, leb, ◌==◌,
  if◌then◌else◌,
}
use codescan.Grammar.Strings.{Platform, trim_space}
use codescan.Grammar.Token.{
  Position, no_position, TokenKind, eof, blank, title, desc, annotation, keyword, ident_name,
  json_value, type_ref, http_method, url_path, wildcard, comma_list_value, raw_block_body,
  raw_value_body, opaque_yaml, Arg, Token, is_annotation, AnnotationKind, ann_unknown, ann_model,
  ann_response, ann_parameters, ann_route, ann_operation, ann_meta, ann_strfmt, ann_name, ann_enum,
  ann_type, ann_title, ann_description, ann_alias, ann_all_of, ann_ignore, ann_omit,
  ann_default_name, ann_file, ann_additional_properties, ann_pattern_properties,
  annotation_kind_from_name,
}
use codescan.Grammar.Keywords.{Keyword, lookup_keyword}
use codescan.Grammar.Bodies.{clip}
use codescan.Grammar.Blocks.{newline}
use codescan.Grammar.Block
use codescan.Grammar.Block.{
  Diagnostic, errorf, warnf, Property, RawYaml, Extension, BaseBlock, Block, EnumForm,
  ParametersTarget, new_base_block, block_body, value_body, missing_required_arg, unexpected_token,
  malformed_operation, context_invalid, invalid_type_ref, unterminated_yaml,
  invalid_yaml_extensions, invalid_annotation,
}
use codescan.Grammar.Typing.{Services, context_legal, type_inline_value}
use codescan.Yaml.Dedent.{normalise_extension_body}
use codescan.Grammar.Extract.{
  extract_title_desc, demote_single_line_title, before_annotation, Split, split_annotation,
  first_meaningful_pos, first_ident_arg, split_enum_args, distinct_args, target_of, OperationArgs,
  parse_operation_args,
}
use codescan.Grammar.Groups.{token_groups}
use codescan.Yaml.Security
use codescan.Grammar.Emit.{
  is_extension_name, action_of, emit, check_context, inline_with, emit_inline_keyword,
  add_extension, typed_extensions, add_extensions, collect_extensions_from_body, with_extensions,
  with_security, block_property, raw_block_with, emit_raw_block, raw_value_with, emit_raw_value,
  add_yaml, consume_as, consume_body_token, Action, skip, inline, raw_block, raw_value, yaml, stray,
}

-- `isStructuralKeyword`
abbrev is_structural_keyword : Text → Bool
is_structural_keyword n = text_eq n (codes "in") || text_eq n (codes "name")

-- The annotations whose argument the parser wants.
abbrev pub no_args : List Arg → Bool
no_args [] = true
no_args (a ∷ args) = false

abbrev pub schema_argument : AnnotationKind → Token → List Diagnostic
schema_argument ann_parameters t =
    if no_args t.args then errorf t.pos missing_required_arg ∷ [] else []
schema_argument ann_name t =
    if text_eq (first_ident_arg t.args) [] then errorf t.pos missing_required_arg ∷ [] else []
schema_argument _ t = []

abbrev type_argument : Token → List Diagnostic
type_argument t = elim t.args [
  | [] ↦ errorf t.pos missing_required_arg ∷ []
  | a ∷ _ ↦ elim a.kind [ type_ref ↦ [] | _ ↦ errorf a.pos invalid_type_ref ∷ [] ]
]

abbrev classifier_argument : AnnotationKind → Token → List Diagnostic
classifier_argument ann_strfmt t =
    if text_eq (first_ident_arg t.args) [] then errorf t.pos missing_required_arg ∷ [] else []
classifier_argument ann_type t = type_argument t
classifier_argument _ t = []

-- One token of the body of a classifier: the body of an enum so far, and the diagnostics.
abbrev classifier_step : AnnotationKind → Text × List Diagnostic → Token → Text × List Diagnostic
classifier_step kind (body, ds) t = elim t.kind [
  | raw_value_body ↦ elim kind [
    | ann_enum ↦
        if text_eq t.parent (codes "enum")
        then (t.body, ds)
        else (body, ds ++ warnf t.pos context_invalid ∷ [])
    | _ ↦ (body, ds ++ warnf t.pos context_invalid ∷ [])
  ]
  | raw_block_body ↦ (body, ds ++ warnf t.pos context_invalid ∷ [])
  | keyword ↦
      if is_structural_keyword t.name
      then (body, ds)
      else (body, ds ++ warnf t.pos context_invalid ∷ [])
  | opaque_yaml ↦ (body, ds ++ warnf t.pos unexpected_token ∷ [])
  | _ ↦ (body, ds)
]

abbrev pub is_operation : AnnotationKind → Bool
is_operation ann_operation = true
is_operation _ = false

-- `family`
pub data Family : Type 0 where
  unknown_family schema_family operation_family meta_family classifier_family : Family

unfoldable pub family : AnnotationKind → Family
family ann_model = schema_family
family ann_response = schema_family
family ann_parameters = schema_family
family ann_name = schema_family
family ann_title = schema_family
family ann_description = schema_family
family ann_route = operation_family
family ann_operation = operation_family
family ann_meta = meta_family
family ann_unknown = unknown_family
family _ = classifier_family

module _ {F I V : Type 0} (sv : Services F I V) (u : Platform) (single : Bool) where
  abbrev Base : Type 0
  Base = BaseBlock F I V

  -- `finaliseBase`
  unfoldable pub finalise_base : List Token → Base → Base
  finalise_base ts b =
      let (t, (d, lines)) = extract_title_desc ts in
      let (pt, (pd, pre_lines)) = extract_title_desc (before_annotation ts) in
      let (heading, text) = demote_single_line_title single t d in
      let (pre_heading, pre_text) = demote_single_line_title single pt pd in
      record b {
        title = heading;
        description = text;
        prose_lines = lines;
        preamble_title = pre_heading;
        preamble_description = pre_text;
        preamble_lines = pre_lines;
      }

  -- `parseUnboundBlock`
  unfoldable pub parse_unbound_block : List Token → Block F I V
  parse_unbound_block ts = record {
    base = finalise_base ts (
        foldl (consume_body_token sv u single ann_unknown)
          (new_base_block ann_unknown (first_meaningful_pos ts)) ts);
    shape = Block.unbound;
  }

  abbrev schema_shape : AnnotationKind → Token → Block.Shape
  schema_shape ann_model t = Block.model (first_ident_arg t.args)
  schema_shape ann_response t = Block.response (first_ident_arg t.args)
  schema_shape ann_parameters t =
      let (target, (path, rest)) = target_of t.args in
      let (kept, dups) = distinct_args [] rest in Block.parameters target path kept dups
  schema_shape ann_name t = Block.name (first_ident_arg t.args)
  schema_shape ann_title t = Block.classifier t.args
  schema_shape ann_description t = Block.classifier t.args
  schema_shape _ t = Block.unbound

  -- `parseSchemaBlock`, on what stands before and after the annotation.
  unfoldable pub parse_schema_block :
      List Token → List Token → Token → List Token → AnnotationKind → Block F I V
  parse_schema_block ts before ann after kind = record {
    base = finalise_base ts (
        foldl (consume_body_token sv u single kind)
          (emit sv u single (schema_argument kind ann) (new_base_block kind ann.pos))
          (before ++ after));
    shape = schema_shape kind ann;
  }

  abbrev pub operation_as : AnnotationKind → Base → Token → Action → Base
  operation_as kind b t yaml =
      if is_operation kind
      then add_yaml sv u single b t
      else emit sv u single (errorf t.pos unexpected_token ∷ []) b
  operation_as kind b t action = consume_as sv u single kind b t action

  abbrev pub operation_step : AnnotationKind → Base → Token → Base
  operation_step kind b t = operation_as kind b t (action_of t.kind)

  abbrev operation_shape : AnnotationKind → OperationArgs → Block.Shape
  operation_shape ann_route a = Block.route a.method a.path a.tags a.op_id
  operation_shape _ a = Block.operation a.method a.path a.tags a.op_id

  -- `parseOperationBlock`
  unfoldable pub parse_operation_block :
      List Token → List Token → Token → List Token → AnnotationKind → Block F I V
  parse_operation_block ts before ann after kind =
      let args = parse_operation_args ann in
      record {
        base = finalise_base ts (
            foldl (operation_step kind) (emit sv u single args.raised (new_base_block kind ann.pos))
              (before ++ after));
        shape = operation_shape kind args;
      }

  -- `parseMetaBlock`
  unfoldable pub parse_meta_block : List Token → List Token → Token → List Token → Block F I V
  parse_meta_block ts before ann after = record {
    base = finalise_base ts (
        foldl (consume_body_token sv u single ann_meta) (new_base_block ann_meta ann.pos)
          (before ++ after));
    shape = Block.meta;
  }

  abbrev classifier_shape : AnnotationKind → Token → Text → Block.Shape
  classifier_shape ann_enum t body =
      let (form, (name, values)) = split_enum_args t.args in Block.enum_decl name form values body
  classifier_shape _ t body = Block.classifier t.args

  -- `parseClassifierBlock`
  unfoldable pub parse_classifier_block :
      List Token → List Token → Token → List Token → AnnotationKind → Block F I V
  parse_classifier_block ts before ann after kind =
      let (body, raised) = foldl (classifier_step kind) ([], []) (before ++ after) in
      record {
        base = finalise_base ts (
            emit sv u single (raised ++ classifier_argument kind ann)
              (new_base_block kind ann.pos));
        shape = classifier_shape kind ann body;
      }

  abbrev pub parse_family :
      List Token → List Token → Token → List Token → AnnotationKind → Family → Block F I V
  parse_family ts before ann after kind schema_family = parse_schema_block ts before ann after kind
  parse_family ts before ann after kind operation_family =
      parse_operation_block ts before ann after kind
  parse_family ts before ann after kind meta_family = parse_meta_block ts before ann after
  parse_family ts before ann after kind classifier_family =
      parse_classifier_block ts before ann after kind
  parse_family ts before ann after kind unknown_family = parse_unbound_block ts

  -- `parseTokens`
  abbrev pub parse_split : List Token → Option Split → Block F I V
  parse_split ts none = parse_unbound_block ts
  parse_split ts (some (before, (ann, after))) =
      let kind = annotation_kind_from_name ann.name in
      parse_family ts before ann after kind (family kind)

  unfoldable pub parse_tokens : List Token → Block F I V
  parse_tokens ts = parse_split ts (split_annotation ts)

  -- `parseAllTokens`
  unfoldable pub parse_all_tokens : List Token → List (Block F I V)
  parse_all_tokens ts = map parse_tokens (token_groups ts)
