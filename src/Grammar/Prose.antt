-- ===== src/Grammar/Prose.antt =====
-- lexer.go, stage 3: `classifyProse` types the prose lines as title or description.
pub mod Runs
use codescan.Prelude.{
  Text, ℕ, zero, suc, List, [], ◌∷◌, ◌++◌, map, keep, Option, none, some, Bool, true, false, ◌&&◌,
  ◌||◌, not, length, leb, ◌==◌, if◌then◌else◌,
}
use codescan.Grammar.Strings.{Platform, trim_right, trim_space, is_space, span}
use codescan.Grammar.Token.{TokenKind, blank, title, desc, text_line, Token, is_text, is_blank}

abbrev pub is_prose : TokenKind → Bool
is_prose k = is_text k || is_blank k

abbrev is_ascii_letter : ℕ → Bool
is_ascii_letter c = leb b'a' c && leb c b'z' || leb b'A' c && leb c b'Z'

-- `isDirectiveMarker`
unfoldable pub is_directive_marker : Text → Bool
is_directive_marker (c ∷ d ∷ s) = c == b'+' && is_ascii_letter d
is_directive_marker _ = false

abbrev heading_space : ℕ → Bool
heading_space c = c == b' ' || leb 9 c && leb c 13

-- `stripATXHeading`
unfoldable pub strip_atx_heading : Text → Option Text
strip_atx_heading s =
    let (marks, rest) = span (λ c. c == b'#') s in
    elim rest [
      | [] ↦ none
      | c ∷ text ↦
          if length marks == 0
          then none
          else if heading_space c
          then some (trim_space text)
          else none
    ]

abbrev last_code : Text → Option ℕ
last_code [] = none
last_code (c ∷ []) = some c
last_code (c ∷ d ∷ s) = last_code (d ∷ s)

-- `endsWithPunct`
unfoldable pub ends_with_punct : Platform → Text → Bool
ends_with_punct u s = elim (last_code (trim_right is_space s)) [
  | none ↦ false
  | some c ↦ u.is_other_punct c
]

-- `retypeRunAs`
abbrev pub retype_one : TokenKind → Token → Token
retype_one k t = if is_text t.kind then record t { kind = k } else t

abbrev pub retype : TokenKind → List Token → List Token
retype k [] = []
retype k (t ∷ ts) = retype_one k t ∷ retype k ts

abbrev pub has_text : List Token → Bool
has_text [] = false
has_text (t ∷ ts) = is_text t.kind || has_text ts

-- The first blank line with text after it, and what stands before it.
unfoldable pub divide : List Token → Option (List Token × List Token)
divide [] = none
divide (t ∷ ts) = elim (is_blank t.kind && has_text ts) [
  | true ↦ some ([], t ∷ ts)
  | false ↦ elim (divide ts) [ none ↦ none | some (before, after) ↦ some (t ∷ before, after) ]
]

abbrev pub with_heading : Token → Token
with_heading t = elim (strip_atx_heading t.text) [ none ↦ t | some rest ↦ record t { text = rest } ]

-- `classifyTitleDescRun` from the first text line on.
unfoldable pub classify_from_text : Platform → Token → List Token → List Token
classify_from_text u first more = elim (divide more) [
  | some (before, after) ↦ retype title (with_heading first ∷ before) ++ retype desc after
  | none ↦
      if ends_with_punct u first.text
      then retype_one title first ∷ retype desc more
      else elim (strip_atx_heading first.text) [
        | some rest ↦ retype_one title (record first { text = rest }) ∷ retype desc more
        | none ↦ retype desc (first ∷ more)
      ]
]

-- The blank lines before the first text line stay.
unfoldable pub classify_title_desc_run : Platform → List Token → List Token
classify_title_desc_run u [] = []
classify_title_desc_run u (t ∷ ts) = elim (is_text t.kind) [
  | true ↦ classify_from_text u t ts
  | false ↦ t ∷ classify_title_desc_run u ts
]

-- The prose tokens at the front, and the rest.
unfoldable pub prose_prefix : List Token → List Token × List Token
prose_prefix [] = ([], [])
prose_prefix (t ∷ ts) = elim (is_prose t.kind) [
  | true ↦ (t ∷ (prose_prefix ts).0, (prose_prefix ts).1)
  | false ↦ ([], t ∷ ts)
]

-- `classifyProseRunsInPlace`, on the number of rounds; the flag is `firstRun`.
unfoldable pub classify_runs : Platform → ℕ → Bool → List Token → List Token
classify_runs u zero first ts = ts
classify_runs u (suc fuel) first [] = []
classify_runs u (suc fuel) first (t ∷ ts) = elim (is_prose t.kind) [
  | false ↦ t ∷ classify_runs u fuel first ts
  | true ↦
      (if first
        then classify_title_desc_run u (t ∷ (prose_prefix ts).0)
        else retype desc (t ∷ (prose_prefix ts).0))
      ++ classify_runs u fuel false (prose_prefix ts).1
]

-- Marker comments are dropped from the prose.
abbrev pub no_marker : Token → Bool
no_marker t = not (is_text t.kind && is_directive_marker t.text)

unfoldable pub classify_prose : Platform → List Token → List Token
classify_prose u ts = let marked = keep no_marker ts in classify_runs u (length marked) true marked
