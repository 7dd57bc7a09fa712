-- ===== src/Yaml/Dedent.antt =====
-- internal/parsers/yaml/dedent.go, and the dedent of typed extensions in yaml.go.
pub mod Nesting
use Prim.Native.Nat.{min}
use codescan.Prelude.{
  Text, codes, ℕ, zero, suc, ◌+◌, ◌-◌, rune_len, List, [], ◌∷◌, ◌++◌, map, Option, none, some, Bool,
  true, false, ◌||◌, text_eq, len, split, join, ltb, ◌==◌, drop, length, if◌then◌else◌,
}
use codescan.Grammar.Strings.{is_blank_code, trim_space, span}

abbrev pub is_blank_line : Text → Bool
is_blank_line line = text_eq (trim_space line) []

-- strings.ReplaceAll of a tab by two blanks.
unfoldable pub expand_tabs : Text → Text
expand_tabs [] = []
expand_tabs (c ∷ s) = if c == b'\t' then b' ' ∷ b' ' ∷ expand_tabs s else c ∷ expand_tabs s

-- `retabLeading`, and `replaceLeadingTabs` of yaml.go.
unfoldable pub retab_leading : Text → Text
retab_leading line = let (blanks, rest) = span is_blank_code line in expand_tabs blanks ++ rest

abbrev is_slash : ℕ → Bool
is_slash c = c == b'/'

-- `leadingIndent`: all characters that it counts are one byte.
unfoldable pub leading_indent : Text → ℕ
leading_indent line =
    let (blanks, r) = span is_blank_code line in
    let (slashes, s) = span is_slash r in
    let (more, rest) = span is_blank_code s in
    elim rest [ [] ↦ 0 | _ ∷ _ ↦ length blanks + (length slashes + length more) ]

-- The first pass of `RemoveIndent`.
abbrev pub expand_line : Text → Text
expand_line line = if is_blank_line line then line else retab_leading line

abbrev pub first_indent : List Text → ℕ
first_indent [] = 0
first_indent (line ∷ lines) = if is_blank_line line then first_indent lines else leading_indent line

abbrev pub replacement : ℕ → Text
replacement zero = []
replacement (suc n) = 0xFFFD ∷ replacement n

-- line[n:] at a byte offset; each byte that is left of a character that is cut is written as
-- U+FFFD, as which Go reads it.
abbrev pub drop_at : Bool → Bool → Text → Text → Text → Text
drop_at true within whole cut rest = whole
drop_at false true whole cut rest = cut
drop_at false false whole cut rest = rest

unfoldable pub drop_bytes : ℕ → Text → Text
drop_bytes n [] = []
drop_bytes n (c ∷ s) =
    drop_at (n == 0) (ltb n (rune_len c)) (c ∷ s) (replacement (rune_len c - n) ++ s)
      (drop_bytes (n - rune_len c) s)

-- A line that is shorter than the indent stays as it is.
unfoldable pub strip_indent : ℕ → Text → Text
strip_indent indent line = if ltb (len line) indent then line else drop_bytes indent line

-- `RemoveIndent`
unfoldable pub remove_indent : List Text → List Text
remove_indent lines =
    let expanded = map expand_line lines in
    let indent = first_indent expanded in
    if indent == 0 then expanded else map (strip_indent indent) expanded

abbrev leading_blanks : Text → ℕ
leading_blanks line = length (span is_blank_code line).0

abbrev least_of : ℕ → Option ℕ → ℕ
least_of n none = n
least_of n (some m) = min n m

-- `commonLeadingWhitespace`: none where no line has content.
unfoldable pub least_blanks : List Text → Option ℕ
least_blanks [] = none
least_blanks (line ∷ lines) =
    let rest = least_blanks lines in
    if is_blank_line line then rest else some (least_of (leading_blanks line) rest)

unfoldable pub common_leading_whitespace : List Text → ℕ
common_leading_whitespace lines = elim (least_blanks lines) [ none ↦ 0 | some n ↦ n ]

-- `normaliseExtensionBody`
unfoldable pub normalise_extension_lines : List Text → List Text
normalise_extension_lines lines =
    map (λ line. retab_leading (strip_indent (common_leading_whitespace lines) line)) lines

unfoldable pub normalise_extension_body : Text → Text
normalise_extension_body body = join (codes "\n") (normalise_extension_lines (split 10 body))
