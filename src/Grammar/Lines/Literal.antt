-- ===== src/Grammar/Lines/Literal.antt =====
-- lexer.go, stage 1: the state between lines. A literal description, a YAML fence.
use codescan.Prelude.{
  ◌≡◌, refl, ◌∙◌, arith, ap, List, [], ◌∷◌, ◌++◌, map, Bool, true, false, not, ◌&&◌, text_eq, codes,
}
use codescan.Grammar.Strings.{Platform, trim_right, trim_space, is_space}
use codescan.Grammar.Token.{Line, Token, is_annotation, is_fence, bare, yaml_fence}
use codescan.Grammar.Lines.{
  classify_from, classify_lines, lex_line, raw_token, is_literal_desc_marker,
}

-- No line of these is an annotation.
abbrev pub no_annotation : Platform → List Line → Bool
no_annotation u [] = true
no_annotation u (line ∷ lines) =
    not (is_annotation (lex_line u line false).kind) && no_annotation u lines

-- Whether a line is a fence, `---` with blanks around it.
abbrev pub fence_line : Line → Bool
fence_line line = text_eq (trim_space (trim_right is_space line.text)) (codes "---")

-- No line of these is a fence.
abbrev pub no_fence : List Line → Bool
no_fence [] = true
no_fence (line ∷ lines) = not (fence_line line) && no_fence lines

verbatim :
    (u : Platform) (f : Bool) (lines rest : List Line) (plain : no_annotation u lines ≡ true)
    → classify_from u f true (lines ++ rest) ≡ map raw_token lines ++ classify_from u f true rest
unfolding classify_from
verbatim u f [] rest plain = refl
verbatim u f (line ∷ lines) rest plain = ground (arith, verbatim u f lines rest)

fence-line :
    (u : Platform) (line : Line) (f : Bool) (fence : fence_line line ≡ true)
    → lex_line u line f ≡ bare yaml_fence line.pos
unfolding lex_line
fence-line u line f fence = ground arith

fenced-line :
    (u : Platform) (line : Line) (plain : fence_line line ≡ false)
    → lex_line u line true ≡ raw_token line
unfolding lex_line
fenced-line u line plain = ground arith

opened :
    (u : Platform) (lines : List Line) (closer : Line) (rest : List Line)
    (plain : no_fence lines ≡ true) (fence : fence_line closer ≡ true)
    → classify_from u true false (lines ++ closer ∷ rest)
      ≡ map raw_token lines ++ bare yaml_fence closer.pos ∷ classify_from u false false rest
unfolding classify_from is_literal_desc_marker
opened u [] closer rest plain fence = rw (fence-line u closer true fence) refl
opened u (line ∷ lines) closer rest plain fence =
    let here : fence_line line ≡ false = ground arith in
    let later : no_fence lines ≡ true = ground arith in
    rw (fenced-line u line here)
      (ap (λ ts. raw_token line ∷ ts) (opened u lines closer rest later fence))

-- The lines between two fences that hold no fence become raw lines as they stand, an annotation or
-- a keyword among them too; and the lines after the closing fence are read as if the block were
-- not there.
pub classify_lines-fenced :
    (u : Platform) (opener : Line) (lines : List Line) (closer : Line) (rest : List Line)
    (opens : fence_line opener ≡ true) (plain : no_fence lines ≡ true)
    (closes : fence_line closer ≡ true)
    → classify_lines u (opener ∷ lines ++ closer ∷ rest)
      ≡ bare yaml_fence opener.pos ∷ map raw_token lines
        ++ bare yaml_fence closer.pos ∷ classify_lines u rest
unfolding classify_lines classify_from
classify_lines-fenced u opener lines closer rest opens plain closes =
    rw (fence-line u opener false opens)
      (ap (λ ts. bare yaml_fence opener.pos ∷ ts) (opened u lines closer rest plain closes))

literal-kind : (t : Token) (literal : is_literal_desc_marker t ≡ true) → is_fence t.kind ≡ false
unfolding is_literal_desc_marker
literal-kind t literal = ground arith

annotation-kind : (t : Token) (found : is_annotation t.kind ≡ true) → is_fence t.kind ≡ false
annotation-kind t found = ground arith

-- Lines of which the first, if there is one, is an annotation.
abbrev pub starts_annotation : Platform → List Line → Bool
starts_annotation u [] = true
starts_annotation u (line ∷ lines) = is_annotation (lex_line u line false).kind

resumed :
    (u : Platform) (rest : List Line) (starts : starts_annotation u rest ≡ true)
    → classify_from u false true rest ≡ classify_from u false false rest
unfolding classify_from
resumed u [] starts = refl
resumed u (line ∷ rest) starts =
    let here : is_annotation (lex_line u line false).kind ≡ true = starts in
    rw (here, annotation-kind (lex_line u line false) here, classify_from) refl

-- After a line that is a literal description marker, the lines up to the next annotation, or to the
-- end, become raw lines as they stand: blank lines, fences, keywords and directives among them.
-- From the annotation on, the lines are read as if they stood alone.
pub classify_lines-literal :
    (u : Platform) (marker : Line) (lines rest : List Line)
    (literal : is_literal_desc_marker (lex_line u marker false) ≡ true)
    (plain : no_annotation u lines ≡ true) (starts : starts_annotation u rest ≡ true)
    → classify_lines u (marker ∷ lines ++ rest)
      ≡ lex_line u marker false ∷ map raw_token lines ++ classify_lines u rest
unfolding classify_lines classify_from
classify_lines-literal u marker lines rest literal plain starts =
    rw (literal-kind (lex_line u marker false) literal, literal)
      (ap (λ ts. lex_line u marker false ∷ ts)
        (verbatim u false lines rest plain
          ∙ ap (λ ts. map raw_token lines ++ ts) (resumed u rest starts)))
