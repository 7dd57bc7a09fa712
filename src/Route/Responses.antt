-- ===== src/Route/Responses.antt =====
-- internal/parsers/routebody/responses.go and diag.go. What the sink is given comes beside the result.
pub mod Exclusive
use codescan.Prelude.{
  Text, codes, ℕ, suc, ◌+◌, ◌-◌, List, [], ◌∷◌, ◌++◌, Option, none, some, Bool, true, false, ◌&&◌,
  ◌||◌, text_eq, join, split, ◌==◌, if◌then◌else◌,
}
use codescan.Grammar.Strings.{trim_space, cut, is_space}
use codescan.Grammar.Token.{Position}
use codescan.Grammar.Block.{Diagnostic, warnf, invalid_annotation}

-- `offsetPos`
unfoldable pub offset_pos : Position → ℕ → Position
offset_pos base line_no = record base { line = base.line + line_no - 1 }

-- `emitDiagf`
abbrev pub raise : Position → List Diagnostic
raise p = warnf p invalid_annotation ∷ []

pub record ResponseDecl : Type 0 where
  pub code : Text
  pub body_type_ref : Text
  pub response_ref : Text
  pub arrays : ℕ
  pub description : Text
  pub pos : Position

-- strings.Fields: the runs of characters that are no space.
abbrev pub push_field : ℕ → Text → List Text → List Text
push_field c [] [] = (c ∷ []) ∷ []
push_field c [] (w ∷ ws) = (c ∷ []) ∷ w ∷ ws
push_field c (d ∷ s) [] = (c ∷ []) ∷ []
push_field c (d ∷ s) (w ∷ ws) = if is_space d then (c ∷ []) ∷ w ∷ ws else (c ∷ w) ∷ ws

unfoldable pub fields : Text → List Text
fields [] = []
fields (c ∷ s) = let rest = fields s in if is_space c then rest else push_field c s rest

-- `stripArrayPrefixes`
abbrev pub one_more : Text × ℕ → Text × ℕ
one_more (name, n) = (name, suc n)

unfoldable pub strip_array_prefixes : Text → Text × ℕ
strip_array_prefixes (c ∷ d ∷ s) =
    let rest = strip_array_prefixes s in
    if c == b'[' && d == b']' then one_more rest else (c ∷ d ∷ s, 0)
strip_array_prefixes s = (s, 0)

-- What `parseResponseValue` makes of one token, by `splitTagToken`.
pub data Tagged : Type 0 where
  body_tag response_tag description_tag : Text → Tagged
  unknown_tag mistyped first_ref prose : Tagged

abbrev pub untagged : Bool → Text → Tagged
untagged true tok =
    if text_eq tok (codes "body") || text_eq tok (codes "response") then mistyped else first_ref
untagged false tok = prose

abbrev pub tag_with : Bool → Text → Option (Text × Text) → Tagged
tag_with first tok none = untagged first tok
tag_with first tok (some (tag, val)) =
    if text_eq tag (codes "body")
    then body_tag val
    else if text_eq tag (codes "response")
    then response_tag val
    else if text_eq tag (codes "description")
    then description_tag val
    else unknown_tag

unfoldable pub tag_of : Bool → Text → Tagged
tag_of first tok = tag_with first tok (cut b':' tok)

abbrev pub words : Text → List Text
words [] = []
words (c ∷ s) = (c ∷ s) ∷ []

abbrev pub describe : List Text → ResponseDecl → ResponseDecl
describe [] decl = decl
describe (d ∷ ds) decl = record decl { description = join (codes " ") (d ∷ ds) }

abbrev pub set_body : Text → ResponseDecl → ResponseDecl
set_body ref decl =
    let (name, n) = strip_array_prefixes ref in record decl { body_type_ref = name; arrays = n }

abbrev pub set_response : Text → ResponseDecl → ResponseDecl
set_response ref decl =
    let (name, n) = strip_array_prefixes ref in record decl { response_ref = name; arrays = n }

-- The loop of `parseResponseValue`: none where the line is dropped, always with one diagnostic.
-- `go` is the rest of the loop.
abbrev pub response_token :
    Bool
    → List Text
    → ResponseDecl
    → Text
    → List Text
    → (Bool → List Text → ResponseDecl → Option ResponseDecl)
    → Tagged
    → Option ResponseDecl
response_token true descs decl tok toks go (body_tag val) = none
response_token false descs decl tok toks go (body_tag val) = go true descs (set_body val decl)
response_token true descs decl tok toks go (response_tag val) = none
response_token false descs decl tok toks go (response_tag val) =
    go true descs (set_response val decl)
response_token seen descs decl tok toks go (description_tag val) =
    some (record decl { description = join (codes " ") (descs ++ (words val ++ toks)) })
response_token seen descs decl tok toks go unknown_tag = none
response_token seen descs decl tok toks go mistyped = none
response_token seen descs decl tok toks go first_ref = go true descs (set_response tok decl)
response_token seen descs decl tok toks go prose = go seen (descs ++ tok ∷ []) decl

unfoldable pub response_tokens :
    Bool → Bool → List Text → ResponseDecl → List Text → Option ResponseDecl
response_tokens first seen descs decl [] = some (describe descs decl)
response_tokens first seen descs decl (tok ∷ toks) =
    response_token seen descs decl tok toks (λ s ds d. response_tokens false s ds d toks)
      (tag_of first tok)

-- `parseResponseValue`
abbrev pub plain_response : Text → Position → ResponseDecl
plain_response code p = record {
  code = code;
  body_type_ref = [];
  response_ref = [];
  arrays = 0;
  description = [];
  pos = p;
}

unfoldable pub parse_response_value : Text → Text → Position → Option ResponseDecl
parse_response_value code value p =
    if text_eq value []
    then some (plain_response code p)
    else response_tokens true false [] (plain_response code p) (fields value)

-- One line: at most one declaration or one diagnostic.
abbrev pub or_raise : Position → Option ResponseDecl → List ResponseDecl × List Diagnostic
or_raise p none = ([], raise p)
or_raise p (some decl) = (decl ∷ [], [])

abbrev pub coded_line : Position → Option (Text × Text) → List ResponseDecl × List Diagnostic
coded_line p none = ([], raise p)
coded_line p (some (before, after)) =
    if text_eq (trim_space before) []
    then ([], raise p)
    else or_raise p (parse_response_value (trim_space before) (trim_space after) p)

unfoldable pub response_line : Position → Text → List ResponseDecl × List Diagnostic
response_line p raw =
    let line = trim_space raw in if text_eq line [] then ([], []) else coded_line p (cut b':' line)

unfoldable pub response_lines : Position → ℕ → List Text → List ResponseDecl × List Diagnostic
response_lines base line_no [] = ([], [])
response_lines base line_no (raw ∷ rest) =
    let (decls, ds) = response_line (offset_pos base line_no) raw in
    let (more, es) = response_lines base (line_no + 1) rest in (decls ++ more, ds ++ es)

-- `ParseResponses`
unfoldable pub parse_responses : Text → Position → List ResponseDecl × List Diagnostic
parse_responses body base =
    if text_eq (trim_space body) [] then ([], []) else response_lines base 1 (split 10 body)
