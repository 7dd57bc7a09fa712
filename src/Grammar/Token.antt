-- ===== src/Grammar/Token.antt =====
-- token.go and annotations.go: positions, token kinds, tokens, annotation kinds.
-- A token's `Args` hold tokens that carry a kind, a position and a text: they are `Arg`.
use codescan.Prelude.{
  Text, codes, ℕ, ◌+◌, List, [], ◌∷◌, Bool, true, false, not, ◌&&◌, text_eq, if◌then◌else◌,
}

-- go/token.Position
pub record Position : Type 0 where
  pub filename : Text
  pub offset : ℕ
  pub line : ℕ
  pub column : ℕ

abbrev pub advance : Position → ℕ → Position
advance p n = record p { offset = p.offset + n; column = p.column + n }

abbrev pub no_position : Position
no_position = record { filename = []; offset = 0; line = 0; column = 0 }

pub record Line : Type 0 where
  pub text : Text
  pub raw : Text
  pub pos : Position

pub data TokenKind : Type 0 where
  eof blank title desc annotation keyword ident_name json_value raw_value type_ref http_method :
      TokenKind
  url_path wildcard number_value int_value bool_value string_value comma_list_value : TokenKind
  enum_option raw_block_body raw_value_body opaque_yaml : TokenKind
  yaml_fence text_line keyword_pre raw_line directive : TokenKind

pub record Arg : Type 0 where
  pub kind : TokenKind
  pub pos : Position
  pub text : Text

pub record Token : Type 0 where
  pub kind : TokenKind
  pub pos : Position
  pub name : Text
  pub source_name : Text
  pub text : Text
  pub args : List Arg
  pub items_depth : ℕ
  pub parent : Text
  pub body : Text
  pub raw : Text
  pub truncated : Bool

-- A token with a kind and a position, its other fields zero.
abbrev pub bare : TokenKind → Position → Token
bare k p = record {
  kind = k;
  pos = p;
  name = [];
  source_name = [];
  text = [];
  args = [];
  items_depth = 0;
  parent = [];
  body = [];
  raw = [];
  truncated = false;
}

abbrev pub is_annotation : TokenKind → Bool
is_annotation annotation = true
is_annotation _ = false

abbrev pub is_fence : TokenKind → Bool
is_fence yaml_fence = true
is_fence _ = false

abbrev pub is_text : TokenKind → Bool
is_text text_line = true
is_text _ = false

abbrev pub is_blank : TokenKind → Bool
is_blank blank = true
is_blank _ = false

abbrev pub is_raw_line : TokenKind → Bool
is_raw_line raw_line = true
is_raw_line _ = false

-- What stage 1 emits, one token for a line.
abbrev pub is_line_kind : TokenKind → Bool
is_line_kind blank = true
is_line_kind annotation = true
is_line_kind yaml_fence = true
is_line_kind text_line = true
is_line_kind keyword_pre = true
is_line_kind raw_line = true
is_line_kind directive = true
is_line_kind _ = false

abbrev pub all_line_kinds : List Token → Bool
all_line_kinds [] = true
all_line_kinds (t ∷ ts) = is_line_kind t.kind && all_line_kinds ts

-- What stage 2 may emit: what the parser reads, and prose.
abbrev pub is_bodied : TokenKind → Bool
is_bodied blank = true
is_bodied title = true
is_bodied desc = true
is_bodied annotation = true
is_bodied keyword = true
is_bodied raw_block_body = true
is_bodied raw_value_body = true
is_bodied opaque_yaml = true
is_bodied text_line = true
is_bodied _ = false

abbrev pub all_bodied : List Token → Bool
all_bodied [] = true
all_bodied (t ∷ ts) = is_bodied t.kind && all_bodied ts

-- What the parser reads before the end of input.
abbrev pub is_public : TokenKind → Bool
is_public k = is_bodied k && not (is_text k)

abbrev pub all_public : List Token → Bool
all_public [] = true
all_public (t ∷ ts) = is_public t.kind && all_public ts

pub data AnnotationKind : Type 0 where
  ann_unknown ann_model ann_response ann_parameters ann_route ann_operation ann_meta :
      AnnotationKind
  ann_strfmt ann_alias ann_name ann_all_of ann_enum ann_ignore ann_omit ann_default_name :
      AnnotationKind
  ann_type ann_file ann_additional_properties ann_pattern_properties ann_title : AnnotationKind
  ann_description : AnnotationKind

abbrev pub annotation_prefix : Text
annotation_prefix = codes "swagger:"

abbrev pub label_route : Text
label_route = codes "route"

abbrev pub label_description : Text
label_description = codes "description"

abbrev named : Text → List (Text × AnnotationKind) → AnnotationKind
named name [] = ann_unknown
named name ((label, kind) ∷ rest) = if text_eq label name then kind else named name rest

unfoldable pub annotation_kind_from_name : Text → AnnotationKind
annotation_kind_from_name name = named name (
    (codes "model", ann_model)
    ∷ (codes "response", ann_response)
    ∷ (codes "parameters", ann_parameters)
    ∷ (codes "route", ann_route)
    ∷ (codes "operation", ann_operation)
    ∷ (codes "meta", ann_meta)
    ∷ (codes "strfmt", ann_strfmt)
    ∷ (codes "alias", ann_alias)
    ∷ (codes "name", ann_name)
    ∷ (codes "allOf", ann_all_of)
    ∷ (codes "enum", ann_enum)
    ∷ (codes "ignore", ann_ignore)
    ∷ (codes "omit", ann_omit)
    ∷ (codes "default", ann_default_name)
    ∷ (codes "type", ann_type)
    ∷ (codes "file", ann_file)
    ∷ (codes "additionalProperties", ann_additional_properties)
    ∷ (codes "patternProperties", ann_pattern_properties)
    ∷ (codes "title", ann_title)
    ∷ (codes "description", ann_description)
    ∷ [])
