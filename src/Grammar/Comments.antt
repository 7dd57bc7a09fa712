-- ===== src/Grammar/Comments.antt =====
-- preprocess.go: from a comment group, or a text without markers, to the lines of the lexer.
-- A comment is its text with the position of its slash, as `fset.Position` gives it.
pub mod Positions
use codescan.Prelude.{
  Text, codes, ℕ, ◌+◌, ◌-◌, List, [], ◌∷◌, ◌++◌, Option, none, some, Bool, true, false, ◌&&◌, ◌||◌,
  len, cut_prefix, split, ◌==◌, if◌then◌else◌,
}
use codescan.Grammar.Strings.{is_space, is_blank_code, trim_left}
use codescan.Grammar.Token.{Position, advance, Line}

pub record Comment : Type 0 where
  pub text : Text
  pub slash : Position

abbrev pub newline_code : ℕ
newline_code = 10

abbrev pub starts_newline : Text → Bool
starts_newline [] = false
starts_newline (c ∷ s) = c == 10

-- `normaliseLineEndings`: "\r\n" and a lone "\r" become "\n".
unfoldable pub normalise_line_endings : Text → Text
normalise_line_endings [] = []
normalise_line_endings (c ∷ s) =
    let rest = normalise_line_endings s in
    if c == 13 then (if starts_newline s then rest else 10 ∷ rest) else c ∷ rest

-- strings.TrimSuffix with "*/".
unfoldable pub trim_closer : Text → Text
trim_closer [] = []
trim_closer (c ∷ []) = c ∷ []
trim_closer (c ∷ d ∷ []) = if c == b'*' && d == b'/' then [] else c ∷ d ∷ []
trim_closer (c ∷ d ∷ e ∷ s) = c ∷ trim_closer (d ∷ e ∷ s)

-- `normalizeBullet`
unfoldable pub normalize_bullet : Text → Text
normalize_bullet (c ∷ d ∷ s) =
    if (c == b'*' || c == b'+') && d == b' ' then b'-' ∷ b' ' ∷ s else c ∷ d ∷ s
normalize_bullet s = s

-- What `trimContentPrefix` strips before it looks at the bullet.
abbrev pub trim_bar : Text → Text
trim_bar [] = []
trim_bar (c ∷ s) = if c == b'|' then s else c ∷ s

abbrev pub is_decoration : ℕ → Bool
is_decoration c = is_blank_code c || c == b'/'

unfoldable pub trim_decoration : Text → Text
trim_decoration s = trim_left is_blank_code (trim_bar (trim_left is_decoration s))

-- `trimContentPrefix`
unfoldable pub trim_content_prefix : Text → Text
trim_content_prefix s = normalize_bullet (trim_decoration s)

abbrev pub after_star : Text → Text
after_star [] = []
after_star (c ∷ s) = if is_space c then s else c ∷ s

abbrev pub star_or : Text → Text → Text
star_or s [] = s
star_or s (c ∷ r) = if c == b'*' then after_star r else s

-- `stripBlockContinuation`
unfoldable pub strip_block_continuation : Text → Text
strip_block_continuation s = star_or s (trim_left is_space s)

-- `stripLine`
unfoldable pub strip_line : (Text → Text) → Text → Position → Line
strip_line raw_strip s p =
    let raw = raw_strip s in
    let stripped = trim_content_prefix raw in
    record { text = stripped; raw = raw; pos = advance p (len s - len stripped) }

-- The position at which the line `idx` of a block comment starts, `offset` bytes into its body.
abbrev pub block_position : Position → ℕ → ℕ → Position
block_position base idx offset =
    if idx == 0
    then advance base 2
    else record base { line = base.line + idx; column = 1; offset = base.offset + (2 + offset) }

unfoldable pub block_lines : Position → ℕ → ℕ → List Text → List Line
block_lines base idx offset [] = []
block_lines base idx offset (seg ∷ segs) =
    strip_line strip_block_continuation seg (block_position base idx offset)
    ∷ block_lines base (idx + 1) (offset + (len seg + 1)) segs

abbrev pub plain_strip : Text → Text
plain_strip s = s

-- `stripComment`
abbrev pub block_or_whole : Text → Position → Option Text → List Line
block_or_whole text base (some rest) = block_lines base 0 0 (split 10 (trim_closer rest))
block_or_whole text base none = record { text = text; raw = text; pos = base } ∷ []

abbrev pub line_or_block : Text → Position → Option Text → List Line
line_or_block text base (some rest) = strip_line plain_strip rest (advance base 2) ∷ []
line_or_block text base none = block_or_whole text base (cut_prefix (codes "/*") text)

unfoldable pub strip_comment : Text → Position → List Line
strip_comment text base = line_or_block text base (cut_prefix (codes "//") text)

-- `Preprocess`; no group is one without comments.
unfoldable pub preprocess : List Comment → List Line
preprocess [] = []
preprocess (c ∷ cs) = strip_comment (normalise_line_endings c.text) c.slash ++ preprocess cs

abbrev text_position : Position → ℕ → Position
text_position base i = if i == 0 then base else record base { line = base.line + i; column = 1 }

abbrev text_lines : Position → ℕ → List Text → List Line
text_lines base i [] = []
text_lines base i (row ∷ rows) =
    record { text = trim_content_prefix row; raw = row; pos = text_position base i }
    ∷ text_lines base (i + 1) rows

-- `preprocessText`
unfoldable pub preprocess_text : Text → Position → List Line
preprocess_text text base = text_lines base 0 (split 10 (normalise_line_endings text))
