-- ===== src/Grammar/Blocks.antt =====
-- lexer.go, stage 2: the bodies of the keywords that hold a raw block or a raw value.
use codescan.Prelude.{
  Text, codes, ℕ, zero, suc, ◌+◌, ◌-◌, ◌%◌, List, [], ◌∷◌, ◌++◌, Option, none, some, Bool, true,
  false, ◌&&◌, ◌||◌, not, text_eq, join, ltb, ◌==◌, if◌then◌else◌,
}
use codescan.Grammar.Strings.{Platform, trim_right, is_space}
use codescan.Grammar.Token.{
  TokenKind, blank, raw_block_body, raw_value_body, yaml_fence, text_line, keyword_pre, raw_line,
  directive, Token, bare,
}
use codescan.Grammar.Keywords.{Keyword, is_sibling_terminator_for}

abbrev pub newline : Text
newline = codes "\n"

-- The body that a raw block or a raw value has gathered, and the blank lines not yet flushed.
pub record Body : Type 0 where
  pub text : List Text
  pub raw : List Text
  pub pending : ℕ

abbrev blanks : ℕ → List Text
blanks zero = []
blanks (suc n) = [] ∷ blanks n

-- `consumed`, and one more line.
unfoldable pub push : Body → Text → Text → Body
push b text raw = record {
  text = b.text ++ (blanks b.pending ++ text ∷ []);
  raw = b.raw ++ (blanks b.pending ++ raw ∷ []);
  pending = 0;
}

abbrev pub emit : TokenKind → Keyword → Token → Body → Token
emit k kw head b =
    let found = bare k head.pos in
    record found {
      name = kw.name;
      source_name = head.source_name;
      parent = kw.name;
      body = join newline b.text;
      raw = join newline b.raw;
      items_depth = head.items_depth;
    }

abbrev named_in : Text → List Text → Bool
named_in name [] = false
named_in name (n ∷ ns) = text_eq name n || named_in name ns

-- The keywords whose body keeps its indentation for a YAML parser.
unfoldable pub yaml_body : Keyword → Bool
yaml_body kw = named_in kw.name (
    codes "extensions"
    ∷ codes "infoExtensions"
    ∷ codes "securityDefinitions"
    ∷ codes "tags"
    ∷ codes "security"
    ∷ codes "examples"
    ∷ [])

unfoldable pub body_line : Keyword → Token → Text
body_line kw t = if yaml_body kw then trim_right is_space t.raw else t.text

-- `formatKeywordLine`
unfoldable pub format_keyword_line : Token → Text
format_keyword_line t =
    let name = if text_eq t.source_name [] then t.name else t.source_name in
    if text_eq t.text [] then name ++ codes ":" else name ++ (codes ": " ++ t.text)

-- `leadingIndentWidth`: a tab goes to the next multiple of eight.
abbrev tab_stop_width : ℕ
tab_stop_width = 8

unfoldable pub indent_from : ℕ → Text → ℕ
indent_from w [] = w
indent_from w (c ∷ s) = elim (c == b' ') [
  | true ↦ indent_from (w + 1) s
  | false ↦ elim (c == b'\t') [
    | true ↦ indent_from (w + (tab_stop_width - w % tab_stop_width)) s
    | false ↦ w
  ]
]

unfoldable pub leading_indent_width : Text → ℕ
leading_indent_width = indent_from 0

-- Whether a keyword line ends the block: a sibling, unless it is a nested key of a YAML body.
unfoldable pub ends_block : Platform → Keyword → Token → Token → Bool
ends_block u kw head next =
    is_sibling_terminator_for u kw next.name
    && not (yaml_body kw && ltb (leading_indent_width head.raw) (leading_indent_width next.raw))

-- One token of `collectRawBlock`: whether the next is inside a decorative fence (the loop of
-- `absorbDecorativeFenceInto`) with the body so far, or none where the block ends.
unfoldable pub raw_block_step :
    Platform → Keyword → Token → Bool → Body → Token → Option (Bool × Body)
raw_block_step u kw head true b t = elim t.kind [
  | yaml_fence ↦ some (false, b)
  | raw_line ↦ some (true, record b { text = b.text ++ t.text ∷ []; raw = b.raw ++ t.raw ∷ [] })
  | _ ↦ some (true, b)
]
raw_block_step u kw head false b t = elim t.kind [
  | keyword_pre ↦
      if ends_block u kw head t
      then none
      else some (
        false,
        push b (if yaml_body kw then trim_right is_space t.raw else format_keyword_line t) t.raw,
      )
  | yaml_fence ↦ if text_eq kw.name (codes "extensions") then some (true, b) else none
  | text_line ↦ some (false, push b (body_line kw t) t.raw)
  | raw_line ↦ some (false, push b (body_line kw t) t.raw)
  | directive ↦ some (false, b)
  | blank ↦ some (false, record b { pending = b.pending + 1 })
  | _ ↦ none
]

-- `collectRawBlock`
unfoldable pub collect_raw_block :
    Platform → Keyword → Token → Bool → Body → List Token → Token × List Token
collect_raw_block u kw head inside b [] = (emit raw_block_body kw head b, [])
collect_raw_block u kw head inside b (t ∷ ts) = elim (raw_block_step u kw head inside b t) [
  | none ↦ (emit raw_block_body kw head b, t ∷ ts)
  | some (within, body) ↦ collect_raw_block u kw head within body ts
]

-- The inline value of the head is the first body line.
abbrev pub opening : Token → Body
opening head =
    if text_eq head.text []
    then record { text = []; raw = []; pending = 0 }
    else record { text = head.text ∷ []; raw = head.text ∷ []; pending = 0 }

-- One token of the loop of `collectRawValue`: the body so far, or none where the value ends.
unfoldable pub raw_value_step : Platform → Keyword → Body → Token → Option Body
raw_value_step u kw b t = elim t.kind [
  | keyword_pre ↦
      if is_sibling_terminator_for u kw t.name
      then none
      else some (push b (format_keyword_line t) t.raw)
  | text_line ↦ some (push b t.text t.raw)
  | directive ↦ some b
  | blank ↦ some (record b { pending = b.pending + 1 })
  | _ ↦ none
]

unfoldable pub collect_value_lines :
    Platform → Keyword → Token → Body → List Token → Token × List Token
collect_value_lines u kw head b [] = (emit raw_value_body kw head b, [])
collect_value_lines u kw head b (t ∷ ts) = elim (raw_value_step u kw b t) [
  | none ↦ (emit raw_value_body kw head b, t ∷ ts)
  | some body ↦ collect_value_lines u kw head body ts
]

-- `collectRawValue`: an inline value is the whole body.
unfoldable pub collect_raw_value : Platform → Keyword → Token → List Token → Token × List Token
collect_raw_value u kw head ts =
    if text_eq head.text []
    then collect_value_lines u kw head (record { text = []; raw = []; pending = 0 }) ts
    else (
      emit raw_value_body kw head
          (record { text = head.text ∷ []; raw = head.raw ∷ []; pending = 0 }),
      ts,
    )
