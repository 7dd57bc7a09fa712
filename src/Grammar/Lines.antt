-- ===== src/Grammar/Lines.antt =====
-- lexer.go: what a line is. Annotations, directives, keywords, and the state between lines.
pub mod OneToken
pub mod Literal
use codescan.Prelude.{
  Text, codes, ℕ, zero, suc, ◌+◌, ◌-◌, List, [], ◌∷◌, ◌++◌, map, Option, none, some, Bool, true,
  false, ◌&&◌, ◌||◌, not, text_eq, len, cut_prefix, has_prefix, length, drop, ltb, leb, ◌==◌,
  if◌then◌else◌, is_some,
}
use codescan.Grammar.Strings.{
  Platform, is_blank_code, trim_left, trim_right, trim_space, is_space, span, cut, fold_code,
  equal_fold,
}
use codescan.Grammar.Token.{
  Position, advance, Line, TokenKind, annotation, blank, yaml_fence, raw_line, directive,
  keyword_pre, text_line, Arg, Token, bare, is_annotation, is_fence, annotation_prefix, label_route,
  label_description, AnnotationKind, ann_title, ann_description, annotation_kind_from_name,
}
use codescan.Grammar.Keywords.{Keyword, lookup_keyword}
use codescan.Grammar.Args.{strip_trailing_dot, split_first_field, classify_annotation_args}

-- `hasSwaggerPrefix`: only the first character may be of either case.
unfoldable pub has_swagger_prefix : Text → Bool
has_swagger_prefix [] = false
has_swagger_prefix (c ∷ s) = (c == b's' || c == b'S') && has_prefix (codes "wagger:") s

-- The bytes of `scanGoIdentifier`, and what follows.
unfoldable pub scan_go_identifier : Platform → Text → ℕ × Text
scan_go_identifier u [] = (0, [])
scan_go_identifier u (c ∷ s) =
    if not (u.is_letter c)
    then (0, c ∷ s)
    else (let (tail, rest) =
          span (λ d. u.is_letter d || u.is_digit d || d == b'_' || d == b'-') s in
        (len (c ∷ tail), rest))

abbrev ends_word : Text → Bool
ends_word [] = true
ends_word (c ∷ s) = is_blank_code c

-- `matchGodocRoutePrefix`: the offset of "swagger:route", and the text from there.
unfoldable pub match_godoc_route_prefix : Platform → Text → Option (ℕ × Text)
match_godoc_route_prefix u s =
    let (ident, r) = scan_go_identifier u s in
    let (blanks, rest) = span is_blank_code r in
    if ident == 0
    then none
    else if length blanks == 0
    then none
    else elim (cut_prefix (annotation_prefix ++ label_route) rest) [
      | none ↦ none
      | some after ↦ if ends_word after then some (ident + len blanks, rest) else none
    ]

abbrev is_lower : ℕ → Bool
is_lower c = leb b'a' c && leb c b'z'

abbrev directive_tail : Text → Bool
directive_tail [] = false
directive_tail (c ∷ []) = false
directive_tail (c ∷ d ∷ s) = c == b':' && not (is_blank_code d)

-- `isGoDirective`
unfoldable pub is_go_directive : Text → Bool
is_go_directive [] = false
is_go_directive (c ∷ s) = is_lower c && directive_tail (span is_lower s).1

abbrev keeps_dot : AnnotationKind → Bool
keeps_dot ann_title = true
keeps_dot ann_description = true
keeps_dot _ = false

-- `lexAnnotation`, on a text that begins with the prefix, whose characters are eight bytes.
unfoldable pub lex_annotation : Platform → Text → Position → Token
lex_annotation u text p =
    let raw_rest = trim_right is_space (drop 8 text) in
    let name = (split_first_field (strip_trailing_dot raw_rest)).0 in
    let kind = annotation_kind_from_name name in
    let rest = if keeps_dot kind then raw_rest else strip_trailing_dot raw_rest in
    let after = (split_first_field rest).1 in
    let none' = bare text_line p in
    let found = bare annotation p in
    if text_eq name [] then record none' { text = text } else record found {
      name = name;
      args = classify_annotation_args u kind after p (len text - len after);
    }

-- s[:5] is five bytes, so only ASCII characters fold here.
abbrev cut_fold : Text → Text → Option Text
cut_fold [] s = some s
cut_fold (p ∷ ps) [] = none
cut_fold (p ∷ ps) (c ∷ s) = if ltb c 0x80 && fold_code p == fold_code c then cut_fold ps s else none

unfoldable pub strip_one_items_prefix : Text → Option Text
strip_one_items_prefix s = elim (cut_fold (codes "items") s) [
  | none ↦ none
  | some rest ↦
      let trimmed = trim_left (λ c. c == b'.' || is_blank_code c) rest in
      if len trimmed == len rest then none else some trimmed
]

-- `stripItemsPrefix`: each round takes five characters at least.
unfoldable pub strip_items : ℕ → Text → ℕ → Text × ℕ
strip_items zero s depth = (s, depth)
strip_items (suc fuel) s depth = elim (strip_one_items_prefix s) [
  | none ↦ (s, depth)
  | some stripped ↦ strip_items fuel stripped (depth + 1)
]

unfoldable pub strip_items_prefix : Text → Text × ℕ
strip_items_prefix s = strip_items (length s) s 0

unfoldable pub lower_first : Platform → Text → Text
lower_first u [] = []
lower_first u (c ∷ s) = if u.is_upper c then u.to_lower c ∷ s else c ∷ s

-- Whether `parseBool` (parser.go) accepts the text.
unfoldable pub is_bool : Text → Bool
is_bool s = equal_fold (codes "true") (trim_space s) || equal_fold (codes "false") (trim_space s)

-- The token of a keyword line.
abbrev keyword_token : Keyword → Text → Text → Text → Position → ℕ → Token
keyword_token kw source value raw p depth =
    let found = bare keyword_pre p in
    record found {
      name = kw.name;
      source_name = source;
      text = value;
      raw = raw;
      items_depth = depth;
      parent = kw.name;
    }

-- `lexKeyword`
unfoldable pub lex_keyword : Platform → Text → Text → Position → Option Token
lex_keyword u text raw p =
    let (rest, depth) = strip_items_prefix text in
    elim (cut b':' rest) [
      | none ↦ none
      | some (before, after) ↦
          let name = trim_space before in
          let value = strip_trailing_dot (trim_space after) in
          if text_eq name [] then none else elim (lookup_keyword u (lower_first u name)) [
            | none ↦ none
            | some kw ↦
                if text_eq kw.name (codes "deprecated") && not (is_bool value)
                then none
                else some (keyword_token kw name value raw (advance p (len text - len rest)) depth)
          ]
    ]

abbrev pub raw_token : Line → Token
raw_token line =
    let found = bare raw_line line.pos in record found { text = line.raw; raw = line.raw }

-- The last cases of `lexLine`.
unfoldable pub lex_plain : Platform → Text → Line → Token
lex_plain u text line =
    let dropped = bare directive line.pos in
    let prose = bare text_line line.pos in
    if is_go_directive line.raw
    then record dropped { raw = line.raw }
    else elim (lex_keyword u text line.raw line.pos) [
      | some tok ↦ tok
      | none ↦ record prose { text = text; raw = line.raw }
    ]

unfoldable pub lex_line : Platform → Line → Bool → Token
unfolding lex_plain
lex_line u line in_fence =
    let text = trim_right is_space line.text in
    if text_eq (trim_space text) (codes "---")
    then bare yaml_fence line.pos
    else if in_fence
    then raw_token line
    else if text_eq text []
    then bare blank line.pos
    else if has_swagger_prefix text
    then lex_annotation u text line.pos
    else elim (match_godoc_route_prefix u text) [
      | some (offset, rest) ↦ lex_annotation u rest (advance line.pos offset)
      | none ↦ lex_plain u text line
    ]

abbrev only_bar : List Arg → Bool
only_bar (a ∷ []) = text_eq (trim_space a.text) (codes "|")
only_bar _ = false

-- `isLiteralDescMarker`
unfoldable pub is_literal_desc_marker : Token → Bool
is_literal_desc_marker t =
    is_annotation t.kind && text_eq t.name label_description && only_bar t.args

-- `classifyLines`: the two flags are `inFence` and `inLiteralDesc`.
unfoldable pub classify_from : Platform → Bool → Bool → List Line → List Token
classify_from u in_fence in_literal [] = []
classify_from u in_fence true (line ∷ lines) = elim (is_annotation (lex_line u line false).kind) [
  | false ↦ raw_token line ∷ classify_from u in_fence true lines
  | true ↦
      lex_line u line false
      ∷ classify_from u in_fence (is_literal_desc_marker (lex_line u line false)) lines
]
classify_from u in_fence false (line ∷ lines) =
    let tok = lex_line u line in_fence in
    let fenced = if is_fence tok.kind then not in_fence else in_fence in
    tok ∷ classify_from u fenced (not fenced && is_literal_desc_marker tok) lines

unfoldable pub classify_lines : Platform → List Line → List Token
classify_lines u lines = classify_from u false false lines
