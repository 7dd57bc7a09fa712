-- ===== src/Grammar/Bodies.antt =====
-- lexer.go, stage 2: `accumulateBodies` and the collectors it calls. The index into the tokens is
-- the list of those still to be read, and a collector returns its token with the rest.
pub mod Public
pub mod Fence
use codescan.Prelude.{
  Text, codes, ℕ, zero, suc, ◌+◌, ◌-◌, ◌%◌, List, [], ◌∷◌, ◌++◌, map, Option, none, some, Bool,
  true, false, ◌&&◌, ◌||◌, not, text_eq, len, join, cut_prefix, length, ltb, ◌==◌, if◌then◌else◌,
}
use codescan.Grammar.Strings.{Platform, trim_right, trim_space, is_space}
use codescan.Grammar.Token.{
  Position, advance, no_position, TokenKind, eof, blank, annotation, keyword, raw_value,
  number_value, int_value, bool_value, string_value, comma_list_value, enum_option, raw_block_body,
  raw_value_body, opaque_yaml, yaml_fence, text_line, keyword_pre, raw_line, directive, Arg, Token,
  bare, is_text, is_raw_line, label_description,
}
use codescan.Grammar.Keywords
use codescan.Grammar.Keywords.{
  Keyword, ValueShape, no_keyword, lookup_keyword, is_sibling_terminator_for,
}
use codescan.Grammar.Lines.{is_literal_desc_marker}
use codescan.Grammar.Blocks.{
  Body, push, emit, yaml_body, body_line, format_keyword_line, indent_from, leading_indent_width,
  ends_block, raw_block_step, collect_raw_block, opening, raw_value_step, collect_value_lines,
  collect_raw_value, newline,
}

-- `combineDescriptionArg`
unfoldable pub combine_description_arg : List Arg → Position → List Text → Arg
combine_description_arg [] p body = record { kind = raw_value; pos = p; text = join newline body }
combine_description_arg (a ∷ _) p body =
    if text_eq a.text []
    then record { kind = raw_value; pos = p; text = join newline body }
    else record { kind = raw_value; pos = a.pos; text = join newline (a.text ∷ body) }

-- The prose lines at the front, trimmed, and the rest.
unfoldable pub prose_run : List Token → List Text × List Token
prose_run [] = ([], [])
prose_run (t ∷ ts) = elim (is_text t.kind) [
  | true ↦ (trim_space t.text ∷ (prose_run ts).0, (prose_run ts).1)
  | false ↦ ([], t ∷ ts)
]

unfoldable pub collect_description_body : Token → List Token → Token × List Token
collect_description_body ann ts =
    let (body, rest) = prose_run ts in
    elim body [
      | [] ↦ (ann, rest)
      | line ∷ more ↦
          (record ann { args = combine_description_arg ann.args ann.pos (line ∷ more) ∷ [] }, rest)
    ]

abbrev without_space : Text → Text
without_space raw = elim (cut_prefix (codes " ") raw) [ none ↦ raw | some rest ↦ rest ]

-- The raw lines at the front, and the rest.
unfoldable pub raw_run : List Token → List Text × List Token
raw_run [] = ([], [])
raw_run (t ∷ ts) = elim (is_raw_line t.kind) [
  | true ↦ (without_space t.raw ∷ (raw_run ts).0, (raw_run ts).1)
  | false ↦ ([], t ∷ ts)
]

-- Trailing blank lines are clipped.
unfoldable pub clip : List Text → List Text
clip [] = []
clip (line ∷ lines) = elim (clip lines) [
  | [] ↦ if text_eq (trim_space line) [] then [] else line ∷ []
  | next ∷ more ↦ line ∷ next ∷ more
]

unfoldable pub collect_description_literal : Token → List Token → Token × List Token
collect_description_literal ann ts =
    let (body, rest) = raw_run ts in
    let folded : Arg = record {
      kind = raw_value;
      pos = ann.pos;
      text = join newline (clip body);
    } in
    (record ann { args = folded ∷ [] }, rest)

abbrev pub yaml_token : Position → List Text → List Text → Bool → Token
yaml_token p body raw cut =
    let found = bare opaque_yaml p in
    record found { body = join newline body; raw = join newline raw; truncated = cut }

-- `collectFencedYAML`, after the opener at `p`.
unfoldable pub collect_fenced_yaml :
    Position → List Text → List Text → List Token → Token × List Token
collect_fenced_yaml p body raw [] = (yaml_token p body raw true, [])
collect_fenced_yaml p body raw (t ∷ ts) = elim t.kind [
  | yaml_fence ↦ (yaml_token p body raw false, ts)
  | raw_line ↦ collect_fenced_yaml p (body ++ t.text ∷ []) (raw ++ t.raw ∷ []) ts
  | _ ↦ collect_fenced_yaml p body raw ts
]

abbrev value_kind : ValueShape → TokenKind
value_kind Keywords.ValueShape.number = number_value
value_kind Keywords.ValueShape.int = int_value
value_kind Keywords.ValueShape.bool = bool_value
value_kind Keywords.ValueShape.comma_list = comma_list_value
value_kind Keywords.ValueShape.enum_option = enum_option
value_kind _ = string_value

-- `finaliseInlineKeyword`
unfoldable pub finalise_inline_keyword : Token → Keyword → Token
finalise_inline_keyword t kw =
    let found = bare keyword t.pos in
    let value : Arg = record {
      kind = value_kind kw.shape;
      pos = advance t.pos (len t.source_name + 1);
      text = t.text;
    } in
    record found {
      name = kw.name;
      source_name = t.source_name;
      text = t.text;
      raw = t.raw;
      items_depth = t.items_depth;
      args = value ∷ [];
    }

unfoldable pub collect_keyword :
    Platform → Token → List Token → Keyword → ValueShape → Token × List Token
collect_keyword u t ts kw Keywords.ValueShape.raw_block =
    collect_raw_block u kw t false (opening t) ts
collect_keyword u t ts kw Keywords.ValueShape.raw_value = collect_raw_value u kw t ts
collect_keyword u t ts kw _ = (finalise_inline_keyword t kw, ts)

abbrev keyword_of : Platform → Token → Keyword
keyword_of u t = elim (lookup_keyword u t.name) [ none ↦ no_keyword | some kw ↦ kw ]

-- One round of `accumulateBodies`: a token if one is emitted, and the tokens still to be read.
unfoldable pub round : Platform → Token → List Token → Option Token × List Token
round u t ts = elim t.kind [
  | yaml_fence ↦ let (out, rest) = collect_fenced_yaml t.pos [] [] ts in (some out, rest)
  | keyword_pre ↦
      let (out, rest) = collect_keyword u t ts (keyword_of u t) (keyword_of u t).shape in
      (some out, rest)
  | raw_line ↦ (none, ts)
  | directive ↦ (none, ts)
  | annotation ↦
      if not (text_eq t.name label_description)
      then (some t, ts)
      else if is_literal_desc_marker t
      then (let (out, rest) = collect_description_literal t ts in (some out, rest))
      else (let (out, rest) = collect_description_body t ts in (some out, rest))
  | _ ↦ (some t, ts)
]

abbrev pub emitted : Option Token → List Token → List Token
emitted none out = out
emitted (some t) out = t ∷ out

abbrev pub eof_token : Token
eof_token = bare eof no_position

-- The loop, on the number of rounds; `none` if they do not suffice.
unfoldable pub accumulate : Platform → ℕ → List Token → Option (List Token)
accumulate u fuel [] = some (eof_token ∷ [])
accumulate u zero (t ∷ ts) = none
accumulate u (suc fuel) (t ∷ ts) = elim (accumulate u fuel (round u t ts).1) [
  | none ↦ none
  | some out ↦ some (emitted (round u t ts).0 out)
]

unfoldable pub accumulate_bodies : Platform → List Token → Option (List Token)
accumulate_bodies u ts = accumulate u (length ts) ts
