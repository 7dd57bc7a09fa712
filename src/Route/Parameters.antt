-- ===== src/Route/Parameters.antt =====
-- internal/parsers/routebody/parameters.go, and in_normalize.go and synthetic.go of the grammar.
-- A chunk in flight is its head and its properties; its block is built when it is committed.
pub mod Locations
pub mod Counts
use codescan.Prelude.{
  Text, codes, ℕ, ◌+◌, List, [], ◌∷◌, ◌++◌, map, Option, none, some, Bool, true, false, ◌&&◌, ◌||◌,
  text_eq, contains, split, ◌==◌, if◌then◌else◌,
}
use codescan.Grammar.Strings.{Platform, trim_space, cut, equal_fold}
use codescan.Grammar.Token.{Position, ann_unknown}
use codescan.Grammar.Keywords
use codescan.Grammar.Keywords.{Keyword, ValueShape, lookup_keyword}
use codescan.Grammar.Block.{
  Diagnostic, Property, BaseBlock, TypedValue, untyped, number, integer, boolean, option,
  new_base_block,
}
use codescan.Grammar.Typing.{Services, match_option}
use codescan.Route.Responses.{offset_pos, raise}

-- `NormalizeIn`
abbrev pub in_locations : List Text
in_locations = codes "query" ∷ codes "path" ∷ codes "header" ∷ codes "body" ∷ codes "formData" ∷ []

abbrev pub or_form : Text → Bool → Option Text → Option Text
or_form s allow_form_alias (some allowed) = some allowed
or_form s allow_form_alias none =
    if allow_form_alias && equal_fold s (codes "form") then some (codes "formData") else none

unfoldable pub normalize_in : Text → Bool → Option Text
normalize_in raw allow_form_alias =
    let s = trim_space raw in
    if text_eq s [] then none else or_form s allow_form_alias (match_option in_locations s)

-- The fields of `ParamDecl` that a chunk fills.
pub record Head : Type 0 where
  pub name : Text
  pub location : Text
  pub type_ref : Text
  pub format : Text
  pub description : Text
  pub required : Bool
  pub allow_empty : Bool
  pub pos : Position

abbrev pub new_head : Position → Head
new_head p = record {
  name = [];
  location = [];
  type_ref = [];
  format = [];
  description = [];
  required = false;
  allow_empty = false;
  pos = p;
}

pub record ParamDecl (F I V : Type 0) : Type 0 where
  pub head : Head
  pub block : BaseBlock F I V

-- `isChunkSigil`
unfoldable pub is_chunk_sigil : Text → Bool
is_chunk_sigil [] = false
is_chunk_sigil (c ∷ s) = c == b'+' || c == b'-'

abbrev pub after_sigil : Text → Text
after_sigil [] = []
after_sigil (c ∷ s) = trim_space s

-- `splitKeyValue`
unfoldable pub split_key_value : Text → Option (Text × Text)
split_key_value line = elim (cut b':' line) [
  | none ↦ none
  | some (before, after) ↦
      if text_eq (trim_space before) [] then none else some (trim_space before, trim_space after)
]

-- The keys that `applyParamLine` tells apart.
pub data Key : Type 0 where
  name_key in_key type_key format_key description_key required_key empty_key other_key : Key

unfoldable pub key_of : Text → Key
key_of k =
    if text_eq k (codes "name")
    then name_key
    else if text_eq k (codes "in")
    then in_key
    else if text_eq k (codes "type")
    then type_key
    else if text_eq k (codes "format")
    then format_key
    else if text_eq k (codes "description")
    then description_key
    else if text_eq k (codes "required")
    then required_key
    else if text_eq k (codes "allowempty") || text_eq k (codes "allowemptyvalue")
    then empty_key
    else other_key

-- `NewSyntheticBlock`
unfoldable pub new_synthetic_block :
    {F I V : Type 0} → Position → Text → Text → List (Property F I) → BaseBlock F I V
new_synthetic_block p title description props = record (new_base_block ann_unknown p) {
  title = title;
  description = description;
  preamble_title = title;
  preamble_description = description;
  properties = props;
}

module _ {F I : Type 0} where
  -- `isEmptyChunk`
  abbrev no_property : List (Property F I) → Bool
  no_property [] = true
  no_property (p ∷ ps) = false

  unfoldable pub is_empty_chunk : Head → List (Property F I) → Bool
  is_empty_chunk h props =
      text_eq h.name []
      && text_eq h.location []
      && text_eq h.type_ref []
      && text_eq h.format []
      && text_eq h.description []
      && no_property props

-- `chunkParseState`, with the declarations and the diagnostics so far.
pub record ChunkState (F I V : Type 0) : Type 0 where
  pub cur : Option Head
  pub props : List (Property F I)
  pub out : List (ParamDecl F I V)
  pub raised : List Diagnostic

module _ {F I V : Type 0} where
  -- `commitChunk`
  abbrev pub commit_head : ChunkState F I V → Option Head → ChunkState F I V
  commit_head s none = s
  commit_head s (some h) =
      if is_empty_chunk h s.props
      then record s { cur = none; props = []; raised = s.raised ++ raise h.pos }
      else record s {
        cur = none;
        props = [];
        out =
            s.out
            ++ record { head = h; block = new_synthetic_block h.pos h.name h.description s.props }
              ∷ [];
      }

  unfoldable pub commit_chunk : ChunkState F I V → ChunkState F I V
  commit_chunk s = commit_head s s.cur

  abbrev pub start_chunk : Position → ChunkState F I V → ChunkState F I V
  start_chunk p s = record (commit_chunk s) { cur = some (new_head p); props = [] }

module _ {F I V : Type 0} (sv : Services F I V) (u : Platform) where
  -- `buildProperty`: none where a value does not parse.
  abbrev typed_as {ℓ} : {A : Type ℓ} → (A → TypedValue F I) → Option A → Option (TypedValue F I)
  typed_as f none = none
  typed_as f (some a) = some (f a)

  unfoldable pub typed_value : ValueShape → List Text → Text → Option (TypedValue F I)
  typed_value Keywords.ValueShape.number allowed raw =
      typed_as (λ n. number [] n) (sv.parse_float raw)
  typed_value Keywords.ValueShape.int allowed raw = typed_as (λ i. integer i) (sv.parse_int raw)
  typed_value Keywords.ValueShape.bool allowed raw =
      typed_as (λ b. boolean b) (sv.parse_go_bool raw)
  typed_value Keywords.ValueShape.enum_option allowed raw =
      some (if contains allowed raw then option raw else untyped)
  typed_value _ allowed raw = some untyped

  unfoldable pub build_property : Keyword → Text → Position → Option (Property F I)
  build_property kw raw p = elim (typed_value kw.shape kw.values raw) [
    | none ↦ none
    | some v ↦ some (record {
      keyword = kw;
      pos = p;
      value = raw;
      body = [];
      raw = [];
      typed = v;
      items_depth = 0;
    })
  ]

  -- `applyParamLine`: the head, the properties that it adds and the diagnostics.
  abbrev Applied : Type 0
  Applied = Head × (List (Property F I) × List Diagnostic)

  abbrev pub set_flag : Head → Position → (Bool → Head) → Option Bool → Applied
  set_flag h p f none = (h, ([], raise p))
  set_flag h p f (some b) = (f b, ([], []))

  abbrev pub set_location : Head → Position → Option Text → Applied
  set_location h p none = (h, ([], raise p))
  set_location h p (some l) = (record h { location = l }, ([], []))

  abbrev pub add_property : Head → Position → Option (Property F I) → Applied
  add_property h p none = (h, ([], raise p))
  add_property h p (some prop) = (h, (prop ∷ [], []))

  abbrev pub known_line : Head → Text → Position → Option Keyword → Applied
  known_line h value p none = (h, ([], raise p))
  known_line h value p (some kw) = add_property h p (build_property kw value p)

  abbrev pub apply_key : Head → Text → Text → Position → Key → Applied
  apply_key h key value p name_key = (record h { name = value }, ([], []))
  apply_key h key value p in_key = set_location h p (normalize_in value true)
  apply_key h key value p type_key = (record h { type_ref = value }, ([], []))
  apply_key h key value p format_key = (record h { format = value }, ([], []))
  apply_key h key value p description_key = (record h { description = value }, ([], []))
  apply_key h key value p required_key =
      set_flag h p (λ b. record h { required = b }) (sv.parse_go_bool value)
  apply_key h key value p empty_key =
      set_flag h p (λ b. record h { allow_empty = b }) (sv.parse_go_bool value)
  apply_key h key value p other_key = known_line h value p (lookup_keyword u key)

  unfoldable pub apply_param_line : Head → Text → Text → Position → Applied
  apply_param_line h key value p = apply_key h key value p (key_of (map u.to_lower key))

  -- A line `key: value` after the sigil is dealt with.
  abbrev pub keyed_with : Position → ChunkState F I V → Text → Text → Option Head → ChunkState F I V
  keyed_with p s key value none = record s { raised = s.raised ++ raise p }
  keyed_with p s key value (some h) =
      let (h2, (props, ds)) = apply_param_line h key value p in
      record s { cur = some h2; props = s.props ++ props; raised = s.raised ++ ds }

  abbrev pub property_with : Position → ChunkState F I V → Option (Text × Text) → ChunkState F I V
  property_with p s none = s
  property_with p s (some (key, value)) = keyed_with p s key value s.cur

  unfoldable pub property_line : Position → ChunkState F I V → Text → ChunkState F I V
  property_line p s line = property_with p s (split_key_value line)

  unfoldable pub param_line : Position → ChunkState F I V → Text → ChunkState F I V
  param_line p s raw =
      let line = trim_space raw in
      if text_eq line []
      then s
      else if is_chunk_sigil line
      then property_line p (start_chunk p s) (after_sigil line)
      else property_line p s line

  unfoldable pub param_lines : Position → ℕ → ChunkState F I V → List Text → ChunkState F I V
  param_lines base line_no s [] = s
  param_lines base line_no s (raw ∷ rest) =
      param_lines base (line_no + 1) (param_line (offset_pos base line_no) s raw) rest

  abbrev pub no_chunk : ChunkState F I V
  no_chunk = record { cur = none; props = []; out = []; raised = [] }

  -- `ParseParameters`
  unfoldable pub parse_parameters : Text → Position → List (ParamDecl F I V) × List Diagnostic
  parse_parameters body base =
      if text_eq (trim_space body) []
      then ([], [])
      else let s = commit_chunk (param_lines base 1 no_chunk (split 10 body)) in (s.out, s.raised)
