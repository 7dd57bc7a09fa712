-- ===== src/Tests/Parsing.antt =====
-- The parser of comments on small tokens, and its theorems at work.
use codescan.Prelude.{
  keep, length, ◌≤◌, true, Text, codes, ℕ, ◌+◌, ◌*◌, ◌-◌, ◌≡◌, refl, List, [], ◌∷◌, ◌++◌, map,
  Option, none, some, false, All, leb, ◌&&◌, if◌then◌else◌,
}
use codescan.Grammar.Token.{
  no_position, title, annotation, keyword, eof, ident_name, number_value, Arg, Token, bare,
}
use codescan.Grammar.Keywords
use codescan.Grammar.Keywords.{Keyword, lookup_keyword}
use codescan.Grammar.Comments.{Comment, strip_comment}
use codescan.Grammar.Comments.Positions.{Located, strip_comment-Located}
use codescan.Grammar.Walker.{Walker, walk}
use codescan.Grammar.Walker.Visits.{visited, is_visited, visited-walk}
use codescan.Grammar.Pipeline.{parse_all}
use codescan.Grammar.Pipeline.Returns.{Calm, parse_all-returns}
use codescan.Grammar.Block.{Block}
use codescan.Grammar.Typing.{Services, type_inline_value}
use codescan.Grammar.Typing.Sound.{Typed, type_inline_value-Typed}
use codescan.Grammar.Extract.{distinct_args}
use codescan.Grammar.Extract.Arguments.{KeptOnce, distinct_args-KeptOnce}
use codescan.Grammar.Groups.{token_groups}
use codescan.Grammar.Groups.Chunks.{chunks, flatten, token_groups-chunks, token_groups-flatten}
use codescan.Grammar.Groups.Counts.{Grouped, token_groups-one_each}
use codescan.Grammar.Parser.{family, parse_tokens, parse_all_tokens}
use codescan.Grammar.Parser.Properties.{keywords_of}
use codescan.Grammar.Parser.Kinds.{
  first_kind, is_classifier, expected, annotation_kinds, or_unknown, parse_tokens-Keeps,
  parse_all_tokens-kinds,
}
use codescan.Yaml.Node.{scalar}
use codescan.Tests.Samples.{ascii}

-- Whole numbers only.
abbrev digits_from : ℕ → Text → Option ℕ
digits_from n [] = some n
digits_from n (c ∷ s) =
    if leb b'0' c && leb c b'9' then digits_from (n * 10 + (c - b'0')) s else none

abbrev pub digits : Text → Option ℕ
digits [] = none
digits (c ∷ s) = digits_from 0 (c ∷ s)

-- A document that is one scalar, and no extensions.
abbrev pub services : Services ℕ ℕ Text
services = record {
  parse_float = digits;
  parse_int = digits;
  parse_go_bool = λ s. none;
  decode = λ s. some (scalar s ∷ []);
  decode_extensions = λ s. none;
}

abbrev ident : Text → Arg
ident s = record { kind = ident_name; pos = no_position; text = s }

abbrev annotated : Text → Token
annotated name = record (bare annotation no_position) { name = name }

abbrev maximum : Token
maximum = record (bare keyword no_position) {
  name = codes "maximum";
  args = record { kind = number_value; pos = no_position; text = codes "<=12" } ∷ [];
}

abbrev maximum_keyword : Keyword
maximum_keyword = record {
  name = codes "maximum";
  aliases = codes "max" ∷ [];
  shape = Keywords.ValueShape.number;
  values = [];
  contexts = Keywords.KeywordContext.schema ∷ [];
}

-- Two annotations, prose before the first and a keyword after it.
abbrev both : List Token
both =
    record (bare title no_position) { text = codes "A pet." }
    ∷ annotated (codes "model")
    ∷ maximum
    ∷ annotated (codes "meta")
    ∷ bare eof no_position
    ∷ []

token_groups-chunks_example : token_groups both ≡ chunks both
token_groups-chunks_example = token_groups-chunks both

token_groups-flatten_example : flatten (token_groups both) ≡ both
token_groups-flatten_example = token_groups-flatten both

token_groups-one_each_example : Grouped 2 both (token_groups both)
token_groups-one_each_example = token_groups-one_each both

parse_tokens-Keeps_example :
    ((parse_tokens services ascii false both).base.kind ≡ first_kind both)
    × (keywords_of (parse_tokens services ascii false both).base
        ≡ expected services ascii false (is_classifier (first_kind both)) both)
parse_tokens-Keeps_example = parse_tokens-Keeps services ascii false both

parse_all_tokens-kinds_example :
    map (λ b. b.base.kind) (parse_all_tokens services ascii false both)
    ≡ or_unknown (annotation_kinds both)
parse_all_tokens-kinds_example = parse_all_tokens-kinds services ascii false both

type_inline_value-Typed_example :
    Typed Keywords.ValueShape.number []
      (record { kind = number_value; pos = no_position; text = codes "<=12" })
      (type_inline_value services maximum_keyword maximum)
type_inline_value-Typed_example =
    type_inline_value-Typed services maximum_keyword maximum
      (record { kind = number_value; pos = no_position; text = codes "<=12" }) [] refl

abbrev twice : List Arg
twice = ident (codes "a") ∷ ident (codes "b") ∷ ident (codes "a") ∷ []

distinct_args-KeptOnce_example : KeptOnce [] twice (distinct_args [] twice)
distinct_args-KeptOnce_example = distinct_args-KeptOnce [] twice

abbrev block_comment : Text
block_comment = codes "/*" ++ 10 ∷ codes " * A pet." ++ 10 ∷ codes " */"

strip_comment-Located_example :
    All (λ l. Located block_comment no_position l) (strip_comment block_comment no_position)
strip_comment-Located_example = strip_comment-Located block_comment no_position

abbrev group : List Comment
group =
    record { text = codes "// A pet."; slash = no_position }
    ∷ record { text = codes "// swagger:model Pet"; slash = no_position }
    ∷ []

parse_all-returns_example :
    (blocks : List (Block ℕ ℕ Text)) × ((parse_all services ascii false group ≡ some blocks)
      × ((1 ≤ length blocks) × All (λ b. Calm (family b.base.kind) b.base) blocks))
parse_all-returns_example = parse_all-returns services ascii false group

abbrev schema_walker : Walker
schema_walker = record {
  on_title = true;
  on_description = true;
  on_number = true;
  on_integer = false;
  on_bool = true;
  on_string = true;
  on_raw = true;
  on_unknown = false;
  on_extension = true;
  on_diagnostic = true;
  depth = some 0;
}

visited-walk_example :
    visited (walk 0 0 schema_walker (parse_tokens services ascii false both).base)
    ≡ keep (is_visited schema_walker) (parse_tokens services ascii false both).base.properties
visited-walk_example =
    visited-walk Text 0 0 schema_walker (parse_tokens services ascii false both).base
