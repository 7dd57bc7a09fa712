-- ===== src/Grammar/Lines/OneToken.antt =====
-- lexer.go, stage 1: `classifyLines` gives one token for each line.
use codescan.Prelude.{
  suc, ◌≡◌, refl, arith, ap, List, [], ◌∷◌, Option, none, some, Bool, true, false, not, length,
  ◌&&◌, if◌then◌else◌, Text,
}
use codescan.Grammar.Strings.{Platform, trim_right, is_space}
use codescan.Grammar.Token.{Position, Line, Token, is_fence, is_line_kind, all_line_kinds}
use codescan.Grammar.Lines.{
  classify_from, classify_lines, lex_line, lex_plain, lex_annotation, lex_keyword,
  is_literal_desc_marker,
}

length-classify_from :
    (u : Platform) (in_fence in_literal : Bool) (lines : List Line)
    → length (classify_from u in_fence in_literal lines) ≡ length lines
unfolding classify_from
length-classify_from u f l [] = refl
length-classify_from u f true (line ∷ lines) = ground (
  arith,
  length-classify_from u f true lines,
  length-classify_from u f (is_literal_desc_marker (lex_line u line false)) lines,
)
length-classify_from u f false (line ∷ lines) =
    let tok = lex_line u line f in
    let fenced = if is_fence tok.kind then not f else f in
    ap suc (length-classify_from u fenced (not fenced && is_literal_desc_marker tok) lines)

lex_annotation-is_line_kind :
    (u : Platform) (text : Text) (p : Position) → is_line_kind (lex_annotation u text p).kind ≡ true
unfolding lex_annotation
lex_annotation-is_line_kind u text p = ground arith

abbrev keyword_kind : Option Token → Bool
keyword_kind none = true
keyword_kind (some t) = is_line_kind t.kind

lex_keyword-is_line_kind :
    (u : Platform) (text raw : Text) (p : Position) → keyword_kind (lex_keyword u text raw p) ≡ true
unfolding lex_keyword
lex_keyword-is_line_kind u text raw p = ground arith

lex_plain-is_line_kind :
    (u : Platform) (text : Text) (line : Line) → is_line_kind (lex_plain u text line).kind ≡ true
unfolding lex_plain
lex_plain-is_line_kind u text line =
    ground (arith, lex_keyword-is_line_kind u text line.raw line.pos)

lex_line-is_line_kind :
    (u : Platform) (line : Line) (f : Bool) → is_line_kind (lex_line u line f).kind ≡ true
unfolding lex_line lex_annotation
lex_line-is_line_kind u line f = ground (
  arith,
  lex_annotation-is_line_kind u (trim_right is_space line.text) line.pos,
  lex_plain-is_line_kind u (trim_right is_space line.text) line,
)

all_line_kinds-classify_from :
    (u : Platform) (in_fence in_literal : Bool) (lines : List Line)
    → all_line_kinds (classify_from u in_fence in_literal lines) ≡ true
unfolding classify_from
all_line_kinds-classify_from u f l [] = refl
all_line_kinds-classify_from u f true (line ∷ lines) = ground (
  arith,
  all_line_kinds-classify_from u f true lines,
  lex_line-is_line_kind u line false,
  all_line_kinds-classify_from u f (is_literal_desc_marker (lex_line u line false)) lines,
)
all_line_kinds-classify_from u f false (line ∷ lines) =
    let tok = lex_line u line f in
    let fenced = if is_fence tok.kind then not f else f in
    let rest =
      all_line_kinds-classify_from u fenced (not fenced && is_literal_desc_marker tok) lines in
    rw (lex_line-is_line_kind u line f) rest

-- `classifyLines` gives one token for each line, of one of the seven kinds of stage 1.
pub classify_lines-one_token :
    (u : Platform) (lines : List Line)
    → length (classify_lines u lines) ≡ length lines
      × all_line_kinds (classify_lines u lines) ≡ true
unfolding classify_lines
classify_lines-one_token u lines =
    (length-classify_from u false false lines, all_line_kinds-classify_from u false false lines)
