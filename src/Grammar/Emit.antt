-- ===== src/Grammar/Emit.antt =====
-- parser.go: what each token of a body adds to a block.
use codescan.Prelude.{
  Text, codes, List, [], ◌∷◌, ◌++◌, foldl, Option, none, some, Bool, false, ◌&&◌, ◌||◌, text_eq,
  ◌==◌, if◌then◌else◌,
}
use codescan.Grammar.Strings.{Platform}
use codescan.Grammar.Token.{
  Position, TokenKind, eof, blank, title, desc, annotation, keyword, raw_block_body, raw_value_body,
  opaque_yaml, Token, AnnotationKind,
}
use codescan.Grammar.Keywords.{Keyword, lookup_keyword}
use codescan.Grammar.Block.{
  Diagnostic, errorf, warnf, BaseBlock, block_body, value_body, unexpected_token, context_invalid,
  unterminated_yaml, invalid_yaml_extensions, invalid_annotation,
}
use codescan.Grammar.Typing.{Services, context_legal, type_inline_value}
use codescan.Yaml.Dedent.{normalise_extension_body}
use codescan.Yaml.Security

-- `isExtensionName`
unfoldable pub is_extension_name : Text → Bool
is_extension_name (a ∷ b ∷ c ∷ s) = (a == b'x' || a == b'X') && b == b'-'
is_extension_name _ = false

-- The cases of `consumeBodyToken`.
pub data Action : Type 0 where
  skip inline raw_block raw_value yaml stray : Action

unfoldable pub action_of : TokenKind → Action
action_of eof = skip
action_of blank = skip
action_of title = skip
action_of desc = skip
action_of annotation = skip
action_of keyword = inline
action_of raw_block_body = raw_block
action_of raw_value_body = raw_value
action_of opaque_yaml = yaml
action_of _ = stray

module _ {F I V : Type 0} (sv : Services F I V) (u : Platform) (single : Bool) where
  abbrev Base : Type 0
  Base = BaseBlock F I V

  -- `emit`
  abbrev pub emit : List Diagnostic → Base → Base
  emit ds b = record b { diagnostics = b.diagnostics ++ ds }

  abbrev pub check_context : Keyword → AnnotationKind → Position → List Diagnostic
  check_context kw kind p = if context_legal kw kind then [] else warnf p context_invalid ∷ []

  -- `emitInlineKeyword`
  abbrev pub inline_with : Base → Token → AnnotationKind → Option Keyword → Base
  inline_with b t kind none = b
  inline_with b t kind (some kw) =
      let (typed, raised) = type_inline_value sv kw t in
      record b {
        diagnostics = b.diagnostics ++ (check_context kw kind t.pos ++ raised);
        properties =
            b.properties
            ++ record {
              keyword = kw;
              pos = t.pos;
              value = t.text;
              body = [];
              raw = [];
              typed = typed;
              items_depth = t.items_depth;
            }
              ∷ [];
      }

  unfoldable pub emit_inline_keyword : Base → Token → AnnotationKind → Base
  emit_inline_keyword b t kind = inline_with b t kind (lookup_keyword u t.name)

  -- One entry of the body of an extensions block.
  abbrev pub add_extension : Text → Position → Base → Text × V → Base
  add_extension source p b (name, value) =
      if is_extension_name name
      then record b {
        extensions =
            b.extensions ++ record { name = name; source = source; pos = p; value = value } ∷ [];
      }
      else emit (warnf p invalid_annotation ∷ []) b

  -- `TypedExtensions` (yaml.go), and `collectExtensionsFromBody`.
  unfoldable pub typed_extensions : Text → Option (List (Text × V))
  typed_extensions body =
      if text_eq body [] then some [] else sv.decode_extensions (normalise_extension_body body)

  abbrev pub add_extensions : Base → Token → Text → Option (List (Text × V)) → Base
  add_extensions b t source none = emit (warnf t.pos invalid_yaml_extensions ∷ []) b
  add_extensions b t source (some entries) = foldl (add_extension source t.pos) b entries

  unfoldable pub collect_extensions_from_body : Base → Token → Text → Base
  collect_extensions_from_body b t source = add_extensions b t source (typed_extensions t.body)

  abbrev pub with_extensions : Keyword → Token → Base → Base
  with_extensions kw t b =
      if text_eq kw.name (codes "extensions") || text_eq kw.name (codes "infoExtensions")
      then collect_extensions_from_body b t kw.name
      else b

  abbrev pub with_security : Keyword → Token → Base → Base
  with_security kw t b =
      if text_eq kw.name (codes "security")
      then record b { security = Security.parse sv.decode t.body }
      else b

  -- `emitRawBlock`
  abbrev pub block_property : Base → Token → AnnotationKind → Keyword → Base
  block_property b t kind kw = record b {
    diagnostics = b.diagnostics ++ check_context kw kind t.pos;
    properties =
        b.properties
        ++ record {
          keyword = kw;
          pos = t.pos;
          value = [];
          body = t.body;
          raw = t.raw;
          typed = block_body;
          items_depth = t.items_depth;
        }
          ∷ [];
  }

  abbrev pub raw_block_with : Base → Token → AnnotationKind → Option Keyword → Base
  raw_block_with b t kind none = b
  raw_block_with b t kind (some kw) =
      with_security kw t (with_extensions kw t (block_property b t kind kw))

  unfoldable pub emit_raw_block : Base → Token → AnnotationKind → Base
  emit_raw_block b t kind = raw_block_with b t kind (lookup_keyword u t.parent)

  -- `emitRawValue`
  abbrev pub raw_value_with : Base → Token → AnnotationKind → Option Keyword → Base
  raw_value_with b t kind none = b
  raw_value_with b t kind (some kw) = record b {
    diagnostics = b.diagnostics ++ check_context kw kind t.pos;
    properties =
        b.properties
        ++ record {
          keyword = kw;
          pos = t.pos;
          value = t.body;
          body = t.body;
          raw = t.raw;
          typed = value_body;
          items_depth = t.items_depth;
        }
          ∷ [];
  }

  unfoldable pub emit_raw_value : Base → Token → AnnotationKind → Base
  emit_raw_value b t kind = raw_value_with b t kind (lookup_keyword u t.parent)

  abbrev pub add_yaml : Base → Token → Base
  add_yaml b t = record b {
    yaml_blocks =
        b.yaml_blocks ++ record { pos = t.pos; text = t.body; truncated = t.truncated } ∷ [];
    diagnostics =
        b.diagnostics ++ (if t.truncated then errorf t.pos unterminated_yaml ∷ [] else []);
  }

  -- `consumeBodyToken`
  abbrev pub consume_as : AnnotationKind → Base → Token → Action → Base
  consume_as kind b t skip = b
  consume_as kind b t inline = emit_inline_keyword b t kind
  consume_as kind b t raw_block = emit_raw_block b t kind
  consume_as kind b t raw_value = emit_raw_value b t kind
  consume_as kind b t yaml = add_yaml b t
  consume_as kind b t stray = emit (warnf t.pos unexpected_token ∷ []) b

  unfoldable pub consume_body_token : AnnotationKind → Base → Token → Base
  consume_body_token kind b t = consume_as kind b t (action_of t.kind)
