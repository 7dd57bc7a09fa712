-- ===== src/Grammar/Parser/Quiet.antt =====
-- Where the tokens are those that the lexer emits, the parser does not complain of a stray token.
use codescan.Prelude.{
  Text, codes, ◌≡◌, refl, List, [], ◌∷◌, ◌++◌, foldl, Option, none, some, Bool, true, false, ◌&&◌,
  ◌||◌, not, text_eq, if◌then◌else◌, and-intro, and-elim,
}
use codescan.Grammar.Strings.{Platform, trim_space}
use codescan.Grammar.Token.{Position, Token, Arg, AnnotationKind}
use codescan.Grammar.Keywords
use codescan.Grammar.Keywords.{Keyword, ValueShape, lookup_keyword}
use codescan.Grammar.Block.{
  Severity, warning, Code, unexpected_token, Diagnostic, errorf, warnf, TypedValue, BaseBlock,
  context_invalid, invalid_annotation, invalid_yaml_extensions,
}
use codescan.Grammar.Typing.{
  Services, context_legal, typed_or, type_of_shape, type_args, type_inline_value, parse_bool,
  match_option, split_cmp_operator,
}
use codescan.Grammar.Emit.{
  Action, skip, inline, raw_block, raw_value, yaml, stray, action_of, is_extension_name, emit,
  check_context, add_extension, add_extensions, with_extensions, typed_extensions,
  collect_extensions_from_body, inline_with, emit_inline_keyword, block_property, raw_block_with,
  emit_raw_block, raw_value_with, emit_raw_value, add_yaml, consume_as, consume_body_token,
}
use codescan.Grammar.Parser.{is_operation, operation_as, operation_step, finalise_base}

-- The warning that `consumeBodyToken` gives for a token that has no place in a body.
abbrev is_unexpected : Code → Bool
is_unexpected unexpected_token = true
is_unexpected _ = false

abbrev is_warning : Severity → Bool
is_warning warning = true
is_warning _ = false

abbrev pub quiet : List Diagnostic → Bool
quiet [] = true
quiet (d ∷ ds) = not (is_warning d.severity && is_unexpected d.code) && quiet ds

abbrev pub has_place : Action → Bool
has_place stray = false
has_place _ = true

abbrev pub all_placed : List Token → Bool
all_placed [] = true
all_placed (t ∷ ts) = has_place (action_of t.kind) && all_placed ts

pub quiet-append :
    (xs ys : List Diagnostic) → quiet xs ≡ true → quiet ys ≡ true → quiet (xs ++ ys) ≡ true
quiet-append [] ys hx hy = hy
quiet-append (d ∷ xs) ys hx hy =
    let h = and-elim (not (is_warning d.severity && is_unexpected d.code)) (quiet xs) hx in
    and-intro (not (is_warning d.severity && is_unexpected d.code)) (quiet (xs ++ ys)) h.0
      (quiet-append xs ys h.1 hy)

pub if-quiet :
    (b : Bool) (xs ys : List Diagnostic)
    → quiet xs ≡ true
    → quiet ys ≡ true
    → quiet (if b then xs else ys) ≡ true
if-quiet true xs ys hx hy = hx
if-quiet false xs ys hx hy = hy

abbrev every : {A : Type 0} → (A → Bool) → List A → Bool
every ok [] = true
every ok (a ∷ rest) = ok a && every ok rest

every-true : {A : Type 0} (xs : List A) → every (λ x. true) xs ≡ true
every-true [] = refl
every-true (x ∷ xs) = every-true xs

module _ {F I V : Type 0} where
  abbrev pub Quiet : BaseBlock F I V → Type 0
  Quiet b = quiet b.diagnostics ≡ true

  if-Quiet : (c : Bool) (x y : BaseBlock F I V) → Quiet x → Quiet y → Quiet (if c then x else y)
  if-Quiet true x y hx hy = hx
  if-Quiet false x y hx hy = hy

module _ {F I V : Type 0} (sv : Services F I V) where
  typed_or-quiet :
      {A : Type 0} (o : Option A) (f : A → TypedValue F I) (p : Position) (c : Code)
      → quiet (typed_or sv o f (errorf p c)).1 ≡ true
  typed_or-quiet none f p c = refl
  typed_or-quiet (some a) f p c = refl

  type_of_shape-quiet :
      (shape : ValueShape) (allowed : List Text) (a : Arg)
      → quiet (type_of_shape sv shape allowed a).1 ≡ true
  unfolding type_of_shape
  type_of_shape-quiet Keywords.ValueShape.number allowed a =
      typed_or-quiet (sv.parse_float (trim_space (split_cmp_operator a.text).1)) _ a.pos _
  type_of_shape-quiet Keywords.ValueShape.int allowed a =
      typed_or-quiet (sv.parse_int (trim_space a.text)) _ a.pos _
  type_of_shape-quiet Keywords.ValueShape.bool allowed a =
      typed_or-quiet (parse_bool a.text) _ a.pos _
  type_of_shape-quiet Keywords.ValueShape.enum_option allowed a =
      typed_or-quiet (match_option allowed a.text) _ a.pos _
  type_of_shape-quiet _ allowed a = refl

  type_args-quiet : (kw : Keyword) (args : List Arg) → quiet (type_args sv kw args).1 ≡ true
  type_args-quiet kw [] = refl
  type_args-quiet kw (a ∷ args) = type_of_shape-quiet kw.shape kw.values a

module _ {F I V : Type 0} (sv : Services F I V) (u : Platform) (single : Bool) where
  abbrev Base : Type 0
  Base = BaseBlock F I V

  check_context-quiet :
      (kw : Keyword) (kind : AnnotationKind) (p : Position)
      → quiet (check_context sv u single kw kind p) ≡ true
  check_context-quiet kw kind p =
      if-quiet (context_legal kw kind) [] (warnf p context_invalid ∷ []) refl refl

  inline_with-Quiet :
      (kind : AnnotationKind) (b : Base) (t : Token) (kw : Option Keyword)
      → Quiet b
      → Quiet (inline_with sv u single b t kind kw)
  unfolding type_inline_value
  inline_with-Quiet kind b t none h = h
  inline_with-Quiet kind b t (some kw) h = quiet-append b.diagnostics _ h (
      quiet-append (check_context sv u single kw kind t.pos) (type_args sv kw t.args).1
        (check_context-quiet kw kind t.pos) (type_args-quiet sv kw t.args))

  add_extension-Quiet :
      (source : Text) (p : Position) (b : Base) (e : Text × V)
      → Quiet b
      → Quiet (add_extension sv u single source p b e)
  add_extension-Quiet source p b (name, value) h =
      if-Quiet (is_extension_name name) _ (emit sv u single (warnf p invalid_annotation ∷ []) b) h
        (quiet-append b.diagnostics (warnf p invalid_annotation ∷ []) h refl)

  foldl-Quiet :
      {A : Type 0} (f : Base → A → Base) (ok : A → Bool)
      → ((b : Base) (a : A) → ok a ≡ true → Quiet b → Quiet (f b a))
      → (b : Base) (xs : List A) → every ok xs ≡ true
      → Quiet b
      → Quiet (foldl f b xs)
  foldl-Quiet f ok step b [] e h = h
  foldl-Quiet f ok step b (a ∷ rest) e h =
      let both = and-elim (ok a) (every ok rest) e in
      foldl-Quiet f ok step (f b a) rest both.1 (step b a both.0 h)

  add_extensions-Quiet :
      (b : Base) (t : Token) (source : Text) (es : Option (List (Text × V)))
      → Quiet b
      → Quiet (add_extensions sv u single b t source es)
  add_extensions-Quiet b t source none h =
      quiet-append b.diagnostics (warnf t.pos invalid_yaml_extensions ∷ []) h refl
  add_extensions-Quiet b t source (some es) h =
      foldl-Quiet (add_extension sv u single source t.pos) (λ e. true)
        (λ c e k q. add_extension-Quiet source t.pos c e q) b es (every-true es) h

  raw_block_with-Quiet :
      (kind : AnnotationKind) (b : Base) (t : Token) (kw : Option Keyword)
      → Quiet b
      → Quiet (raw_block_with sv u single b t kind kw)
  unfolding collect_extensions_from_body
  raw_block_with-Quiet kind b t none h = h
  raw_block_with-Quiet kind b t (some kw) h =
      let added = block_property sv u single b t kind kw in
      let start =
        quiet-append b.diagnostics (check_context sv u single kw kind t.pos) h
          (check_context-quiet kw kind t.pos) in
      let extended =
        if-Quiet (text_eq kw.name (codes "extensions") || text_eq kw.name (codes "infoExtensions"))
          (collect_extensions_from_body sv u single added t kw.name) added
          (add_extensions-Quiet added t kw.name (typed_extensions sv u single t.body) start)
          start in
      if-Quiet (text_eq kw.name (codes "security")) _ (with_extensions sv u single kw t added)
        extended extended

  raw_value_with-Quiet :
      (kind : AnnotationKind) (b : Base) (t : Token) (kw : Option Keyword)
      → Quiet b
      → Quiet (raw_value_with sv u single b t kind kw)
  raw_value_with-Quiet kind b t none h = h
  raw_value_with-Quiet kind b t (some kw) h =
      quiet-append b.diagnostics (check_context sv u single kw kind t.pos) h
        (check_context-quiet kw kind t.pos)

  consume_as-Quiet :
      (kind : AnnotationKind) (b : Base) (t : Token) (a : Action)
      → has_place a ≡ true
      → Quiet b
      → Quiet (consume_as sv u single kind b t a)
  unfolding emit_inline_keyword emit_raw_block emit_raw_value
  consume_as-Quiet kind b t inline e h = inline_with-Quiet kind b t (lookup_keyword u t.name) h
  consume_as-Quiet kind b t raw_block e h =
      raw_block_with-Quiet kind b t (lookup_keyword u t.parent) h
  consume_as-Quiet kind b t raw_value e h =
      raw_value_with-Quiet kind b t (lookup_keyword u t.parent) h
  consume_as-Quiet kind b t skip e h = h
  consume_as-Quiet kind b t yaml e h =
      quiet-append b.diagnostics _ h (if-quiet t.truncated _ _ refl refl)
  consume_as-Quiet kind b t stray e h = absurd (cc e)

  operation_as-Quiet :
      (kind : AnnotationKind) (b : Base) (t : Token) (a : Action)
      → has_place a ≡ true
      → Quiet b
      → Quiet (operation_as sv u single kind b t a)
  operation_as-Quiet kind b t yaml e h =
      if-Quiet (is_operation kind) (add_yaml sv u single b t)
        (emit sv u single (errorf t.pos unexpected_token ∷ []) b)
        (consume_as-Quiet kind b t yaml refl h)
        (quiet-append b.diagnostics (errorf t.pos unexpected_token ∷ []) h refl)
  operation_as-Quiet kind b t skip e h = consume_as-Quiet kind b t skip e h
  operation_as-Quiet kind b t inline e h = consume_as-Quiet kind b t inline e h
  operation_as-Quiet kind b t raw_block e h = consume_as-Quiet kind b t raw_block e h
  operation_as-Quiet kind b t raw_value e h = consume_as-Quiet kind b t raw_value e h
  operation_as-Quiet kind b t stray e h = consume_as-Quiet kind b t stray e h

  -- A body of placed tokens, and what `finaliseBase` makes of it.
  pub body-Quiet :
      (f : Base → Token → Base)
      → ((b : Base) (t : Token) → has_place (action_of t.kind) ≡ true → Quiet b → Quiet (f b t))
      → (b : Base) (ts body : List Token) → all_placed body ≡ true
      → Quiet b
      → Quiet (finalise_base sv u single ts (foldl f b body))
  unfolding finalise_base
  body-Quiet f step b ts [] e h = h
  body-Quiet f step b ts (t ∷ body) e h =
      let both = and-elim (has_place (action_of t.kind)) (all_placed body) e in
      body-Quiet f step (f b t) ts body both.1 (step b t both.0 h)

  pub consume-Quiet :
      (kind : AnnotationKind) (b : Base) (t : Token)
      → has_place (action_of t.kind) ≡ true
      → Quiet b
      → Quiet (consume_body_token sv u single kind b t)
  unfolding consume_body_token
  consume-Quiet kind b t e h = consume_as-Quiet kind b t (action_of t.kind) e h

  pub operation-Quiet :
      (kind : AnnotationKind) (b : Base) (t : Token)
      → has_place (action_of t.kind) ≡ true
      → Quiet b
      → Quiet (operation_step sv u single kind b t)
  operation-Quiet kind b t e h = operation_as-Quiet kind b t (action_of t.kind) e h
