-- ===== src/Grammar/Parser/Properties.antt =====
-- The annotation kinds of the blocks, and the keywords of their properties.
use codescan.Prelude.{
  Text, codes, ◌≡◌, refl, sym, ap, subst, ◌∙◌, List, [], ◌∷◌, ◌++◌, map, foldl, Option, none, some,
  Bool, true, false, ◌||◌, text_eq, if◌then◌else◌, append_assoc, append-nil, map-append,
}
use codescan.Grammar.Strings.{Platform}
use codescan.Grammar.Token.{
  Position, TokenKind, keyword, raw_block_body, raw_value_body, Token, AnnotationKind,
}
use codescan.Grammar.Keywords.{Keyword, lookup_keyword}
use codescan.Grammar.Block.{BaseBlock}
use codescan.Grammar.Typing.{Services}
use codescan.Grammar.Emit.{
  is_extension_name, Action, skip, inline, raw_block, raw_value, yaml, stray, action_of,
  add_extension, with_extensions, with_security, typed_extensions, collect_extensions_from_body,
  emit_inline_keyword, emit_raw_block, emit_raw_value, consume_as, inline_with, raw_block_with,
  raw_value_with, block_property, add_extensions, consume_body_token,
}
use codescan.Grammar.Parser.{is_operation, operation_as, operation_step, finalise_base}

-- The keyword that a token of a body stands for.
abbrev keyword_as : Platform → Token → Action → Option Keyword
keyword_as u t inline = lookup_keyword u t.name
keyword_as u t raw_block = lookup_keyword u t.parent
keyword_as u t raw_value = lookup_keyword u t.parent
keyword_as u t _ = none

abbrev pub add_known : Option Keyword → List Keyword → List Keyword
add_known none kws = kws
add_known (some kw) kws = kw ∷ kws

-- The keyword that a token names, by its kind: a keyword of one line by its own name, a body of lines
-- or a raw value by the name of the keyword above it.
abbrev pub named_by_kind : Platform → Token → TokenKind → Option Keyword
named_by_kind u t keyword = lookup_keyword u t.name
named_by_kind u t raw_block_body = lookup_keyword u t.parent
named_by_kind u t raw_value_body = lookup_keyword u t.parent
named_by_kind u t _ = none

abbrev pub known_keywords : Platform → List Token → List Keyword
known_keywords u [] = []
known_keywords u (t ∷ ts) = add_known (named_by_kind u t t.kind) (known_keywords u ts)

-- The parser's switch takes each kind as that.
keyword_as-named_by_kind :
    (u : Platform) (t : Token) (k : TokenKind) → keyword_as u t (action_of k) ≡ named_by_kind u t k
unfolding action_of
keyword_as-named_by_kind u t keyword = refl
keyword_as-named_by_kind u t raw_block_body = refl
keyword_as-named_by_kind u t raw_value_body = refl
keyword_as-named_by_kind u t _ = refl

module _ {F I V : Type 0} where
  abbrev pub keywords_of : BaseBlock F I V → List Keyword
  keywords_of b = map (λ p. p.keyword) b.properties

  -- Two blocks of one kind and position, with the same properties.
  abbrev pub Agree : BaseBlock F I V → BaseBlock F I V → Type 0
  Agree b c = (c.kind ≡ b.kind) × (c.properties ≡ b.properties)

  abbrev pub Adds : Option Keyword → BaseBlock F I V → BaseBlock F I V → Type 0
  Adds kw b c = (c.kind ≡ b.kind) × (keywords_of c ≡ keywords_of b ++ add_known kw [])

  if-Agree :
      (b x y : BaseBlock F I V) (c : Bool) → Agree b x → Agree b y → Agree b (if c then x else y)
  if-Agree b x y true hx hy = hx
  if-Agree b x y false hx hy = hy

  Agree-trans : (a b c : BaseBlock F I V) → Agree a b → Agree b c → Agree a c
  Agree-trans a b c h k = (k.0 ∙ h.0, k.1 ∙ h.1)

  Adds-Agree :
      (kw : Option Keyword) (a b c : BaseBlock F I V) → Adds kw a b → Agree b c → Adds kw a c
  Adds-Agree kw a b c h k = (k.0 ∙ h.0, ap (λ ps. map (λ p. p.keyword) ps) k.1 ∙ h.1)

  Agree-Adds : (b c : BaseBlock F I V) → Agree b c → Adds none b c
  Agree-Adds b c k =
      (k.0, ap (λ ps. map (λ p. p.keyword) ps) k.1 ∙ sym (append-nil (keywords_of b)))

module _ {F I V : Type 0} (sv : Services F I V) (u : Platform) (single : Bool) where
  abbrev Base : Type 0
  Base = BaseBlock F I V

  add_extension-Agree :
      (source : Text) (p : Position) (b : Base) (e : Text × V)
      → Agree b (add_extension sv u single source p b e)
  add_extension-Agree source p b (name, value) =
      if-Agree b _ _ (is_extension_name name) (refl, refl) (refl, refl)

  collect_each-Agree :
      (source : Text) (p : Position) (b : Base) (es : List (Text × V))
      → Agree b (foldl (add_extension sv u single source p) b es)
  collect_each-Agree source p b [] = (refl, refl)
  collect_each-Agree source p b (e ∷ es) =
      Agree-trans b (add_extension sv u single source p b e)
        (foldl (add_extension sv u single source p) (add_extension sv u single source p b e) es)
        (add_extension-Agree source p b e)
        (collect_each-Agree source p (add_extension sv u single source p b e) es)

  add_extensions-Agree :
      (b : Base) (t : Token) (source : Text) (es : Option (List (Text × V)))
      → Agree b (add_extensions sv u single b t source es)
  add_extensions-Agree b t source none = (refl, refl)
  add_extensions-Agree b t source (some es) = collect_each-Agree source t.pos b es

  collect-Agree :
      (b : Base) (t : Token) (source : Text)
      → Agree b (collect_extensions_from_body sv u single b t source)
  unfolding collect_extensions_from_body
  collect-Agree b t source = add_extensions-Agree b t source (typed_extensions sv u single t.body)

  after_block-Agree :
      (kw : Keyword) (t : Token) (b : BaseBlock F I V)
      → Agree b (with_security sv u single kw t (with_extensions sv u single kw t b))
  after_block-Agree kw t b =
      Agree-trans b (with_extensions sv u single kw t b)
        (with_security sv u single kw t (with_extensions sv u single kw t b))
        (if-Agree b (collect_extensions_from_body sv u single b t kw.name) b
          (text_eq kw.name (codes "extensions") || text_eq kw.name (codes "infoExtensions"))
          (collect-Agree b t kw.name) (refl, refl))
        (if-Agree (with_extensions sv u single kw t b) _ _ (text_eq kw.name (codes "security"))
          (refl, refl) (refl, refl))

  inline_with-Adds :
      (kind : AnnotationKind) (b : Base) (t : Token) (kw : Option Keyword)
      → Adds kw b (inline_with sv u single b t kind kw)
  inline_with-Adds kind b t none = Agree-Adds b b (refl, refl)
  inline_with-Adds kind b t (some kw) = (refl, map-append (λ p. p.keyword) b.properties _)

  raw_block_with-Adds :
      (kind : AnnotationKind) (b : Base) (t : Token) (kw : Option Keyword)
      → Adds kw b (raw_block_with sv u single b t kind kw)
  raw_block_with-Adds kind b t none = Agree-Adds b b (refl, refl)
  raw_block_with-Adds kind b t (some kw) =
      Adds-Agree (some kw) b (block_property sv u single b t kind kw)
        (with_security sv u single kw t
          (with_extensions sv u single kw t (block_property sv u single b t kind kw)))
        (refl, map-append (λ p. p.keyword) b.properties _)
        (after_block-Agree kw t (block_property sv u single b t kind kw))

  raw_value_with-Adds :
      (kind : AnnotationKind) (b : Base) (t : Token) (kw : Option Keyword)
      → Adds kw b (raw_value_with sv u single b t kind kw)
  raw_value_with-Adds kind b t none = Agree-Adds b b (refl, refl)
  raw_value_with-Adds kind b t (some kw) = (refl, map-append (λ p. p.keyword) b.properties _)

  consume_as-Adds :
      (kind : AnnotationKind) (b : Base) (t : Token) (a : Action)
      → Adds (keyword_as u t a) b (consume_as sv u single kind b t a)
  unfolding emit_inline_keyword emit_raw_block emit_raw_value
  consume_as-Adds kind b t inline = inline_with-Adds kind b t (lookup_keyword u t.name)
  consume_as-Adds kind b t raw_block = raw_block_with-Adds kind b t (lookup_keyword u t.parent)
  consume_as-Adds kind b t raw_value = raw_value_with-Adds kind b t (lookup_keyword u t.parent)
  consume_as-Adds kind b t skip = Agree-Adds b b (refl, refl)
  consume_as-Adds kind b t yaml = Agree-Adds b (consume_as sv u single kind b t yaml) (refl, refl)
  consume_as-Adds kind b t stray = Agree-Adds b (consume_as sv u single kind b t stray) (refl, refl)

  operation_as-Adds :
      (kind : AnnotationKind) (b : Base) (t : Token) (a : Action)
      → Adds (keyword_as u t a) b (operation_as sv u single kind b t a)
  operation_as-Adds kind b t yaml =
      Agree-Adds b (operation_as sv u single kind b t yaml)
        (if-Agree b _ _ (is_operation kind) (refl, refl) (refl, refl))
  operation_as-Adds kind b t skip = consume_as-Adds kind b t skip
  operation_as-Adds kind b t inline = consume_as-Adds kind b t inline
  operation_as-Adds kind b t raw_block = consume_as-Adds kind b t raw_block
  operation_as-Adds kind b t raw_value = consume_as-Adds kind b t raw_value
  operation_as-Adds kind b t stray = consume_as-Adds kind b t stray

  abbrev pub AddsAll : List Token → Base → Base → Type 0
  AddsAll ts b c = (c.kind ≡ b.kind) × (keywords_of c ≡ keywords_of b ++ known_keywords u ts)

  add_known-append :
      (kw : Option Keyword) (xs ys : List Keyword)
      → (xs ++ add_known kw []) ++ ys ≡ xs ++ add_known kw ys
  add_known-append none xs ys = ap (λ zs. zs ++ ys) (append-nil xs)
  add_known-append (some kw) xs ys = append_assoc xs (kw ∷ []) ys

  pub foldl-AddsAll :
      (f : Base → Token → Base)
      → ((b : Base) (t : Token) → Adds (named_by_kind u t t.kind) b (f b t))
      → (b : Base) (ts : List Token) → AddsAll ts b (foldl f b ts)
  foldl-AddsAll f h b [] = (refl, sym (append-nil (keywords_of b)))
  foldl-AddsAll f h b (t ∷ ts) = (
    (foldl-AddsAll f h (f b t) ts).0 ∙ (h b t).0,
    (foldl-AddsAll f h (f b t) ts).1
        ∙ ap (λ kws. kws ++ known_keywords u ts) (h b t).1
        ∙ add_known-append (named_by_kind u t t.kind) (keywords_of b) (known_keywords u ts),
  )

  pub consume-Adds :
      (kind : AnnotationKind) (b : Base) (t : Token)
      → Adds (named_by_kind u t t.kind) b (consume_body_token sv u single kind b t)
  unfolding consume_body_token
  consume-Adds kind b t =
      subst (λ kw. Adds kw b (consume_body_token sv u single kind b t))
        (keyword_as-named_by_kind u t t.kind) (consume_as-Adds kind b t (action_of t.kind))

  pub operation_step-Adds :
      (kind : AnnotationKind) (b : Base) (t : Token)
      → Adds (named_by_kind u t t.kind) b (operation_step sv u single kind b t)
  operation_step-Adds kind b t =
      subst (λ kw. Adds kw b (operation_step sv u single kind b t))
        (keyword_as-named_by_kind u t t.kind) (operation_as-Adds kind b t (action_of t.kind))

  pub finalise-Agree : (ts : List Token) (b : Base) → Agree b (finalise_base sv u single ts b)
  unfolding finalise_base
  finalise-Agree ts b = (refl, refl)
