-- ===== src/Tests/Bodies.antt =====
-- Bodies of keywords on small inputs, and their theorems at work.
use codescan.Prelude.{
  has_prefix, len, contains, Text, codes, ℕ, ◌≤◌, ◌≡◌, refl, List, [], ◌∷◌, ◌++◌, map, length, none,
  some, arith, Option, inl, has_code, join, true, false, All, text_eq, split, insert, lookup,
}
use codescan.Grammar.Strings.{is_space, trim_space, span}
use codescan.Grammar.Token.{no_position}
use codescan.Yaml.Node.{mapping, scalar, Pairs, end, pair}
use codescan.Yaml.Dedent.{
  strip_indent, drop_bytes, remove_indent, retab_leading, expand_tabs, leading_indent,
}
use codescan.Yaml.Dedent.Nesting.{
  Row, empty, content, source, margin, Indented, dedented, remove_indent-relative,
}
use codescan.Yaml.Dedupe.{dedupe_pairs, drop_duplicates, latest, keep_latest}
use codescan.Yaml.Dedupe.Unique.{unique, drop_duplicates-unique}
use codescan.Yaml.Security.{parse}
use codescan.Yaml.Security.Clean.{Clean, parse-Clean}
use codescan.Route.Responses.{parse_responses, strip_array_prefixes}
use codescan.Route.Responses.Exclusive.{
  OneEach, Stripped, filled, strip_array_prefixes-brackets, parse_responses-OneEach,
}
use codescan.Route.Parameters.{parse_parameters}
use codescan.Route.Parameters.Counts.{Committed, sigils, parse_parameters-Committed}
use codescan.Grammar.MetaInfo.{split_url, index}
use codescan.Validate.{is_legal_for_type, Decoders, Value, integer, text, coerce_value, coerce_enum}
use codescan.Validate.Conform.{Reads, integers, an_integer, no_integer, coerce_value-Reads}
use codescan.Validate.Enums.{Member, IsMember, Spells, in_brackets, coerce_enum-Spells}
use codescan.Tests.Samples.{ascii}
use codescan.Tests.Parsing.{digits, services}

abbrev doubled : Pairs
doubled = pair (scalar (codes "a")) (scalar (codes "1")) (
    pair (scalar (codes "b")) (scalar (codes "2"))
      (pair (scalar (codes "a")) (scalar (codes "3")) end))

dedupe-doubled :
    dedupe_pairs doubled
    ≡ pair
        (scalar (codes "b"))
        (scalar (codes "2"))
        (pair (scalar (codes "a")) (scalar (codes "3")) end)
unfolding dedupe_pairs text_eq latest insert keep_latest lookup
dedupe-doubled = refl

drop_duplicates-unique_example : unique (drop_duplicates (mapping doubled)) ≡ true
drop_duplicates-unique_example = drop_duplicates-unique (mapping doubled)

abbrev nested : List Row
nested =
    empty
    ∷ content (b'\t' ∷ []) b'g' (codes "et:")
    ∷ empty
    ∷ content (codes "    ") b's' (codes "ummary: x")
    ∷ []

nested-Indented : All (Indented (margin nested)) nested
unfolding is_space
nested-Indented = (
  tt,
  (
    ((refl, tt), refl, omega arith),
    (tt, (((refl, (refl, (refl, (refl, tt)))), refl, omega arith), tt)),
  ),
)

remove_indent-relative_example :
    remove_indent (map source nested) ≡ map (dedented (margin nested)) nested
remove_indent-relative_example = remove_indent-relative nested nested-Indented refl

parse-Clean_example : Clean (parse (λ s. some (scalar s ∷ [])) (codes " key "))
parse-Clean_example = parse-Clean (λ s. some (scalar s ∷ [])) (codes " key ")

strip_array_prefixes-brackets_example :
    Stripped (codes "[][]Pet") (strip_array_prefixes (codes "[][]Pet"))
strip_array_prefixes-brackets_example = strip_array_prefixes-brackets (codes "[][]Pet")

abbrev answers : Text
answers = codes "200: body:[]Pet All of them" ++ 10 ∷ codes "404: gone" ++ 10 ∷ codes "oops"

answers-given : text_eq (trim_space answers) [] ≡ false
unfolding text_eq trim_space
answers-given = refl

parse_responses-OneEach_example :
    OneEach (filled (split 10 answers)) (parse_responses answers no_position)
parse_responses-OneEach_example = parse_responses-OneEach answers no_position answers-given

abbrev inputs : Text
inputs = codes "+ name: limit" ++ 10 ∷ codes "  in: query" ++ 10 ∷ codes "+"

parse_parameters-Committed_example :
    All Committed (parse_parameters services ascii inputs no_position).0
    × (length (parse_parameters services ascii inputs no_position).0 ≤ sigils (split 10 inputs))
parse_parameters-Committed_example = parse_parameters-Committed services ascii inputs no_position

abbrev decoders : Decoders ℕ ℕ Text
decoders = record {
  atoi = digits;
  parse_bool = λ s. none;
  parse_float = digits;
  unquote = λ s. none;
  json_object = λ s. none;
  json_array = λ s. none;
  json_value = λ s. none;
  json_elements = λ s. none;
}

abbrev one : Option (Value ℕ ℕ Text)
one = some (integer 1)

one_read : Reads decoders integers (codes "1") one
one_read = an_integer refl

x_read : Reads decoders integers (codes "x") none
x_read = no_integer refl

coerce_value-Reads_example : coerce_value decoders (codes "1") (some (codes "integer")) ≡ one
coerce_value-Reads_example =
    coerce_value-Reads decoders (some (codes "integer")) integers (codes "1") one (inl refl)
      one_read

abbrev first_member : Member ℕ ℕ Text
first_member = record { left = []; core = codes "1"; right = codes " "; value = one }

abbrev second_member : Member ℕ ℕ Text
second_member = record { left = codes " "; core = codes "x"; right = []; value = none }

both-IsMember : All (IsMember decoders integers) (first_member ∷ second_member ∷ [])
unfolding is_space has_code
both-IsMember = (
  (tt, (refl, tt), (refl, refl), refl, one_read),
  (((refl, tt), tt, (refl, refl), refl, x_read), tt),
)

abbrev bracketed_list : Text
bracketed_list = codes "[1 , x]"

bracketed_list-Spells : Spells decoders integers bracketed_list (integer 1 ∷ text (codes "x") ∷ [])
unfolding join
bracketed_list-Spells = in_brackets first_member (second_member ∷ []) both-IsMember refl refl refl

coerce_enum-Spells_example :
    coerce_enum decoders bracketed_list (some (codes "integer")) ≡ integer 1 ∷ text (codes "x") ∷ []
coerce_enum-Spells_example =
    coerce_enum-Spells decoders (some (codes "integer")) integers bracketed_list
      (integer 1 ∷ text (codes "x") ∷ []) (inl refl) bracketed_list-Spells

-- A line that is indented less than the first loses characters of its content.
remove_indent_less :
    remove_indent (codes "  a: 1" ∷ codes "b: 2" ∷ []) ≡ codes "a: 1" ∷ codes " 2" ∷ []
unfolding remove_indent text_eq trim_space retab_leading expand_tabs span leading_indent
    strip_indent len drop_bytes
remove_indent_less = refl

legal_pattern : is_legal_for_type (codes "pattern") (codes "integer") ≡ false
unfolding is_legal_for_type lookup text_eq contains
legal_pattern = refl

-- The keyword of the grammar has no rule, so that it is legal on every type.
legal_unique : is_legal_for_type (codes "unique") (codes "string") ≡ true
unfolding is_legal_for_type lookup text_eq
legal_unique = refl

split_url_license : split_url (codes "MIT https://a.b") ≡ (codes "MIT", codes "https://a.b")
unfolding split_url index trim_space has_prefix
split_url_license = refl
