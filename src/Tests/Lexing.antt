-- ===== src/Tests/Lexing.antt =====
-- Lexing a few comments.
use codescan.Prelude.{
  codes, ◌≡◌, refl, List, [], ◌∷◌, ◌++◌, map, keep, Option, none, some, true, false, length,
  text_eq, len, cut_prefix, has_prefix, join, contains,
}
use codescan.Grammar.Strings.{
  is_space, trim_left, trim_right, trim_space, span, cut, equal_fold, trim_dot,
}
use codescan.Grammar.Token.{
  annotation_kind_from_name, TokenKind, eof, blank, title, desc, annotation, keyword, opaque_yaml,
  Line, Token, all_line_kinds, all_public, bare, text_line, no_position,
}
use codescan.Grammar.Keywords.{keywords, lookup_keyword, is_sibling_terminator_for}
use codescan.Grammar.Args.{
  strip_trailing_dot, split_first_field, fields_on, split_fields, classify_http_method,
  looks_like_url_path, strip_arrays, looks_like_type_ref, classify_default_value, arg_type_ref,
  identifier_continue, enum_values, classify_enum_annotation_args, classify_ident_list, first_ident,
  classify_operation_args, classify_parameters_args, args_of_kind, classify_annotation_args,
}
use codescan.Grammar.Lines.{
  has_swagger_prefix, scan_go_identifier, match_godoc_route_prefix, is_go_directive, lex_annotation,
  strip_one_items_prefix, strip_items, strip_items_prefix, lower_first, is_bool, lex_keyword,
  lex_plain, lex_line, is_literal_desc_marker, classify_from, classify_lines, raw_token,
}
use codescan.Grammar.Bodies.{
  combine_description_arg, prose_run, collect_description_body, raw_run, clip,
  collect_description_literal, collect_fenced_yaml, finalise_inline_keyword, collect_keyword, round,
  accumulate, accumulate_bodies, eof_token, yaml_token,
}
use codescan.Grammar.Blocks.{
  push, yaml_body, body_line, format_keyword_line, indent_from, leading_indent_width, ends_block,
  raw_block_step, collect_raw_block, raw_value_step, collect_value_lines, collect_raw_value,
}
use codescan.Grammar.Prose.{
  is_directive_marker, strip_atx_heading, ends_with_punct, divide, classify_from_text,
  classify_title_desc_run, prose_prefix, classify_runs, classify_prose, no_marker,
}
use codescan.Grammar.Lexer.{lex}
use codescan.Grammar.Lines.OneToken.{classify_lines-one_token}
use codescan.Grammar.Lines.Literal.{
  fence_line, no_fence, no_annotation, starts_annotation, classify_lines-literal,
}
use codescan.Grammar.Bodies.Public.{Closes, accumulate_bodies-Closes}
use codescan.Grammar.Bodies.Fence.{onto, fenced_lines-verbatim}
use codescan.Grammar.Prose.Runs.{Typed}
use codescan.Grammar.Lexer.Clean.{classify_prose-Typed, lex-public}
use codescan.Tests.Samples.{ascii, line_at}

abbrev kinds : Option (List Token) → List TokenKind
kinds none = []
kinds (some ts) = map (λ t. t.kind) ts

abbrev comment : List Line
comment =
    line_at 0 (codes "A pet.")
    ∷ line_at 1 (codes "")
    ∷ line_at 2 (codes "It has a name.")
    ∷ line_at 3 (codes "swagger:model Pet")
    ∷ line_at 4 (codes "maximum: 10")
    ∷ []

-- A title, a description, an annotation and an inline keyword.
kinds-comment : kinds (lex ascii comment) ≡ title ∷ blank ∷ desc ∷ annotation ∷ keyword ∷ eof ∷ []
unfolding is_space trim_left trim_right trim_space span cut equal_fold trim_dot
    annotation_kind_from_name keywords lookup_keyword is_sibling_terminator_for strip_trailing_dot
    split_first_field fields_on split_fields classify_http_method looks_like_url_path strip_arrays
    looks_like_type_ref classify_default_value arg_type_ref identifier_continue enum_values
    classify_enum_annotation_args classify_ident_list first_ident classify_operation_args
    classify_parameters_args args_of_kind classify_annotation_args has_swagger_prefix
    scan_go_identifier match_godoc_route_prefix is_go_directive lex_annotation
    strip_one_items_prefix strip_items strip_items_prefix lower_first is_bool lex_keyword lex_plain
    lex_line is_literal_desc_marker classify_from classify_lines combine_description_arg prose_run
    collect_description_body raw_run clip collect_description_literal collect_fenced_yaml push
    yaml_body body_line format_keyword_line indent_from leading_indent_width ends_block
    raw_block_step collect_raw_block raw_value_step collect_value_lines collect_raw_value
    finalise_inline_keyword collect_keyword round accumulate accumulate_bodies is_directive_marker
    strip_atx_heading ends_with_punct divide classify_from_text classify_title_desc_run prose_prefix
    classify_runs classify_prose lex text_eq len cut_prefix has_prefix join contains
kinds-comment = refl

abbrev fence : Line
fence = line_at 10 (codes "  ---")

abbrev yaml : List Line
yaml = line_at 11 (codes "get:") ∷ line_at 12 (codes "swagger:model X") ∷ []

abbrev literal : Line
literal = line_at 20 (codes "swagger:description |")

abbrev markdown : List Line
markdown = line_at 21 (codes "a: b") ∷ line_at 22 (codes "") ∷ line_at 23 (codes "---") ∷ []

-- The fence opens a block that takes the annotation in.
kinds-fenced :
    kinds (lex ascii (fence ∷ yaml ++ fence ∷ comment))
    ≡ opaque_yaml ∷ title ∷ blank ∷ desc ∷ annotation ∷ keyword ∷ eof ∷ []
unfolding is_space trim_left trim_right trim_space span cut equal_fold trim_dot
    annotation_kind_from_name keywords lookup_keyword is_sibling_terminator_for strip_trailing_dot
    split_first_field fields_on split_fields classify_http_method looks_like_url_path strip_arrays
    looks_like_type_ref classify_default_value arg_type_ref identifier_continue enum_values
    classify_enum_annotation_args classify_ident_list first_ident classify_operation_args
    classify_parameters_args args_of_kind classify_annotation_args has_swagger_prefix
    scan_go_identifier match_godoc_route_prefix is_go_directive lex_annotation
    strip_one_items_prefix strip_items strip_items_prefix lower_first is_bool lex_keyword lex_plain
    lex_line is_literal_desc_marker classify_from classify_lines combine_description_arg prose_run
    collect_description_body raw_run clip collect_description_literal collect_fenced_yaml push
    yaml_body body_line format_keyword_line indent_from leading_indent_width ends_block
    raw_block_step collect_raw_block raw_value_step collect_value_lines collect_raw_value
    finalise_inline_keyword collect_keyword round accumulate accumulate_bodies is_directive_marker
    strip_atx_heading ends_with_punct divide classify_from_text classify_title_desc_run prose_prefix
    classify_runs classify_prose lex text_eq len cut_prefix has_prefix join contains
kinds-fenced = refl

-- The lines of a literal description are folded into the annotation.
kinds-literal : kinds (lex ascii (literal ∷ markdown)) ≡ annotation ∷ eof ∷ []
unfolding is_space trim_left trim_right trim_space span cut equal_fold trim_dot
    annotation_kind_from_name keywords lookup_keyword is_sibling_terminator_for strip_trailing_dot
    split_first_field fields_on split_fields classify_http_method looks_like_url_path strip_arrays
    looks_like_type_ref classify_default_value arg_type_ref identifier_continue enum_values
    classify_enum_annotation_args classify_ident_list first_ident classify_operation_args
    classify_parameters_args args_of_kind classify_annotation_args has_swagger_prefix
    scan_go_identifier match_godoc_route_prefix is_go_directive lex_annotation
    strip_one_items_prefix strip_items strip_items_prefix lower_first is_bool lex_keyword lex_plain
    lex_line is_literal_desc_marker classify_from classify_lines combine_description_arg prose_run
    collect_description_body raw_run clip collect_description_literal collect_fenced_yaml push
    yaml_body body_line format_keyword_line indent_from leading_indent_width ends_block
    raw_block_step collect_raw_block raw_value_step collect_value_lines collect_raw_value
    finalise_inline_keyword collect_keyword round accumulate accumulate_bodies is_directive_marker
    strip_atx_heading ends_with_punct divide classify_from_text classify_title_desc_run prose_prefix
    classify_runs classify_prose lex text_eq len cut_prefix has_prefix join contains
kinds-literal = refl

fence_opens : fence_line fence ≡ true
unfolding is_space trim_left trim_right trim_space span cut equal_fold trim_dot
    annotation_kind_from_name keywords lookup_keyword is_sibling_terminator_for strip_trailing_dot
    split_first_field fields_on split_fields classify_http_method looks_like_url_path strip_arrays
    looks_like_type_ref classify_default_value arg_type_ref identifier_continue enum_values
    classify_enum_annotation_args classify_ident_list first_ident classify_operation_args
    classify_parameters_args args_of_kind classify_annotation_args has_swagger_prefix
    scan_go_identifier match_godoc_route_prefix is_go_directive lex_annotation
    strip_one_items_prefix strip_items strip_items_prefix lower_first is_bool lex_keyword lex_plain
    lex_line is_literal_desc_marker classify_from classify_lines combine_description_arg prose_run
    collect_description_body raw_run clip collect_description_literal collect_fenced_yaml push
    yaml_body body_line format_keyword_line indent_from leading_indent_width ends_block
    raw_block_step collect_raw_block raw_value_step collect_value_lines collect_raw_value
    finalise_inline_keyword collect_keyword round accumulate accumulate_bodies is_directive_marker
    strip_atx_heading ends_with_punct divide classify_from_text classify_title_desc_run prose_prefix
    classify_runs classify_prose lex text_eq len cut_prefix has_prefix join contains
fence_opens = refl

yaml_plain : no_fence yaml ≡ true
unfolding is_space trim_left trim_right trim_space span cut equal_fold trim_dot
    annotation_kind_from_name keywords lookup_keyword is_sibling_terminator_for strip_trailing_dot
    split_first_field fields_on split_fields classify_http_method looks_like_url_path strip_arrays
    looks_like_type_ref classify_default_value arg_type_ref identifier_continue enum_values
    classify_enum_annotation_args classify_ident_list first_ident classify_operation_args
    classify_parameters_args args_of_kind classify_annotation_args has_swagger_prefix
    scan_go_identifier match_godoc_route_prefix is_go_directive lex_annotation
    strip_one_items_prefix strip_items strip_items_prefix lower_first is_bool lex_keyword lex_plain
    lex_line is_literal_desc_marker classify_from classify_lines combine_description_arg prose_run
    collect_description_body raw_run clip collect_description_literal collect_fenced_yaml push
    yaml_body body_line format_keyword_line indent_from leading_indent_width ends_block
    raw_block_step collect_raw_block raw_value_step collect_value_lines collect_raw_value
    finalise_inline_keyword collect_keyword round accumulate accumulate_bodies is_directive_marker
    strip_atx_heading ends_with_punct divide classify_from_text classify_title_desc_run prose_prefix
    classify_runs classify_prose lex text_eq len cut_prefix has_prefix join contains
yaml_plain = refl

literal_marker : is_literal_desc_marker (lex_line ascii literal false) ≡ true
unfolding is_space trim_left trim_right trim_space span cut equal_fold trim_dot
    annotation_kind_from_name keywords lookup_keyword is_sibling_terminator_for strip_trailing_dot
    split_first_field fields_on split_fields classify_http_method looks_like_url_path strip_arrays
    looks_like_type_ref classify_default_value arg_type_ref identifier_continue enum_values
    classify_enum_annotation_args classify_ident_list first_ident classify_operation_args
    classify_parameters_args args_of_kind classify_annotation_args has_swagger_prefix
    scan_go_identifier match_godoc_route_prefix is_go_directive lex_annotation
    strip_one_items_prefix strip_items strip_items_prefix lower_first is_bool lex_keyword lex_plain
    lex_line is_literal_desc_marker classify_from classify_lines combine_description_arg prose_run
    collect_description_body raw_run clip collect_description_literal collect_fenced_yaml push
    yaml_body body_line format_keyword_line indent_from leading_indent_width ends_block
    raw_block_step collect_raw_block raw_value_step collect_value_lines collect_raw_value
    finalise_inline_keyword collect_keyword round accumulate accumulate_bodies is_directive_marker
    strip_atx_heading ends_with_punct divide classify_from_text classify_title_desc_run prose_prefix
    classify_runs classify_prose lex text_eq len cut_prefix has_prefix join contains
literal_marker = refl

markdown_plain : no_annotation ascii markdown ≡ true
unfolding is_space trim_left trim_right trim_space span cut equal_fold trim_dot
    annotation_kind_from_name keywords lookup_keyword is_sibling_terminator_for strip_trailing_dot
    split_first_field fields_on split_fields classify_http_method looks_like_url_path strip_arrays
    looks_like_type_ref classify_default_value arg_type_ref identifier_continue enum_values
    classify_enum_annotation_args classify_ident_list first_ident classify_operation_args
    classify_parameters_args args_of_kind classify_annotation_args has_swagger_prefix
    scan_go_identifier match_godoc_route_prefix is_go_directive lex_annotation
    strip_one_items_prefix strip_items strip_items_prefix lower_first is_bool lex_keyword lex_plain
    lex_line is_literal_desc_marker classify_from classify_lines combine_description_arg prose_run
    collect_description_body raw_run clip collect_description_literal collect_fenced_yaml push
    yaml_body body_line format_keyword_line indent_from leading_indent_width ends_block
    raw_block_step collect_raw_block raw_value_step collect_value_lines collect_raw_value
    finalise_inline_keyword collect_keyword round accumulate accumulate_bodies is_directive_marker
    strip_atx_heading ends_with_punct divide classify_from_text classify_title_desc_run prose_prefix
    classify_runs classify_prose lex text_eq len cut_prefix has_prefix join contains
markdown_plain = refl

lex-public_example :
    (out : List Token) × all_public out ≡ true × lex ascii comment ≡ some (out ++ eof_token ∷ [])
lex-public_example = lex-public ascii comment

comment_clean : all_line_kinds (classify_lines ascii comment) ≡ true
comment_clean = (classify_lines-one_token ascii comment).1

accumulate_bodies-Closes_example : Closes (accumulate_bodies ascii (classify_lines ascii comment))
accumulate_bodies-Closes_example =
    accumulate_bodies-Closes ascii (classify_lines ascii comment) comment_clean

abbrev prose : List Token
prose =
    record (bare text_line no_position) { text = codes "A pet." } ∷ bare annotation no_position ∷ []

classify_prose-Typed_example :
    (out : List Token) × Typed out (keep no_marker prose)
    × classify_prose ascii (prose ++ eof_token ∷ []) ≡ out ++ eof_token ∷ []
classify_prose-Typed_example = classify_prose-Typed ascii prose refl

fenced_lines-verbatim_example :
    accumulate_bodies ascii (classify_lines ascii (fence ∷ yaml ++ fence ∷ comment))
    ≡ onto
        (yaml_token fence.pos (map (λ line. line.raw) yaml) (map (λ line. line.raw) yaml) false)
        (accumulate_bodies ascii (classify_lines ascii comment))
fenced_lines-verbatim_example =
    fenced_lines-verbatim ascii fence yaml fence comment fence_opens yaml_plain fence_opens

next_starts : starts_annotation ascii (line_at 24 (codes "swagger:model Pet") ∷ []) ≡ true
unfolding is_space trim_left trim_right trim_space span cut equal_fold trim_dot
    annotation_kind_from_name keywords lookup_keyword is_sibling_terminator_for strip_trailing_dot
    split_first_field fields_on split_fields classify_http_method looks_like_url_path strip_arrays
    looks_like_type_ref classify_default_value arg_type_ref identifier_continue enum_values
    classify_enum_annotation_args classify_ident_list first_ident classify_operation_args
    classify_parameters_args args_of_kind classify_annotation_args has_swagger_prefix
    scan_go_identifier match_godoc_route_prefix is_go_directive lex_annotation
    strip_one_items_prefix strip_items strip_items_prefix lower_first is_bool lex_keyword lex_plain
    lex_line is_literal_desc_marker classify_from classify_lines combine_description_arg prose_run
    collect_description_body raw_run clip collect_description_literal collect_fenced_yaml push
    yaml_body body_line format_keyword_line indent_from leading_indent_width ends_block
    raw_block_step collect_raw_block raw_value_step collect_value_lines collect_raw_value
    finalise_inline_keyword collect_keyword round accumulate accumulate_bodies is_directive_marker
    strip_atx_heading ends_with_punct divide classify_from_text classify_title_desc_run prose_prefix
    classify_runs classify_prose lex text_eq len cut_prefix has_prefix join contains
next_starts = refl

classify_lines-literal_example :
    classify_lines ascii (literal ∷ markdown ++ line_at 24 (codes "swagger:model Pet") ∷ [])
    ≡ lex_line ascii literal false ∷ map raw_token markdown
      ++ classify_lines ascii (line_at 24 (codes "swagger:model Pet") ∷ [])
classify_lines-literal_example =
    classify_lines-literal ascii literal markdown (line_at 24 (codes "swagger:model Pet") ∷ [])
      literal_marker markdown_plain next_starts

classify_lines-one_token_example :
    length (classify_lines ascii comment) ≡ length comment
    × all_line_kinds (classify_lines ascii comment) ≡ true
classify_lines-one_token_example = classify_lines-one_token ascii comment
