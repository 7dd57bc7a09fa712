-- ===== src/Route/Responses/Exclusive.antt =====
-- Each line of a body of responses gives one declaration or one diagnostic, and a declaration has a
-- code and at most one reference.
use codescan.Prelude.{
  Text, ℕ, zero, suc, ◌+◌, ◌≡◌, refl, sym, ap, subst, ◌∙◌, inl, inr, List, [], ◌∷◌, ◌++◌, length,
  length-append, Option, none, some, Bool, true, false, not, ◌&&◌, ◌||◌, text_eq, split,
  if◌then◌else◌, All, All-append, Bool-cases, and-elim, ◌==◌, ==_iff, arith,
}
use codescan.Grammar.Strings.{trim_space, cut}
use codescan.Grammar.Token.{Position}
use codescan.Grammar.Block.{Diagnostic}
use codescan.Route.Responses.{
  ResponseDecl, Tagged, body_tag, response_tag, description_tag, unknown_tag, mistyped, first_ref,
  prose, tag_with, tag_of, describe, raise, offset_pos, one_more, set_body, set_response,
  strip_array_prefixes, response_tokens, response_token, plain_response, parse_response_value,
  or_raise, response_line, coded_line, response_lines, parse_responses, fields,
}

abbrev brackets : ℕ → Text
brackets zero = []
brackets (suc n) = b'[' ∷ b']' ∷ brackets n

abbrev opens_array : Text → Bool
opens_array (c ∷ d ∷ s) = c == b'[' && d == b']'
opens_array _ = false

abbrev pub Stripped : Text → Text × ℕ → Type 0
Stripped ref (name, n) = (ref ≡ brackets n ++ name) × (opens_array name ≡ false)

opened-Stripped :
    (c d : ℕ) (s : Text) (r : Text × ℕ)
    → (c == b'[' && d == b']') ≡ true
    → Stripped s r
    → Stripped (c ∷ d ∷ s) (one_more r)
opened-Stripped c d s (name, n) e h =
    let both = and-elim (c == b'[') (d == b']') e in
    (
      ap (λ x. x ∷ d ∷ s) ((==_iff c b'[').0 both.0)
          ∙ ap (λ x. b'[' ∷ x ∷ s) ((==_iff d b']').0 both.1)
          ∙ ap (λ t. b'[' ∷ b']' ∷ t) h.0,
      h.1,
    )

-- A reference is the brackets that were counted and the name, which opens with no more of them.
pub strip_array_prefixes-brackets : (ref : Text) → Stripped ref (strip_array_prefixes ref)
unfolding strip_array_prefixes
strip_array_prefixes-brackets [] = (refl, refl)
strip_array_prefixes-brackets (c ∷ []) = (refl, refl)
strip_array_prefixes-brackets (c ∷ d ∷ s) = elim (Bool-cases (c == b'[' && d == b']')) [
  | inl e ↦
      subst
        (λ b.
          Stripped (c ∷ d ∷ s) (if b then one_more (strip_array_prefixes s) else (c ∷ d ∷ s, 0)))
        (sym e) (opened-Stripped c d s (strip_array_prefixes s) e (strip_array_prefixes-brackets s))
  | inr e ↦
      subst
        (λ b.
          Stripped (c ∷ d ∷ s) (if b then one_more (strip_array_prefixes s) else (c ∷ d ∷ s, 0)))
        (sym e) (refl, e)
]

-- A code, and at most one reference.
abbrev pub exclusive : ResponseDecl → Bool
exclusive d = not (text_eq d.code []) && (text_eq d.body_type_ref [] || text_eq d.response_ref [])

abbrev unreferenced : ResponseDecl → Bool
unreferenced d =
    not (text_eq d.code []) && (text_eq d.body_type_ref [] && text_eq d.response_ref [])

abbrev Kept : Option ResponseDecl → Type 0
Kept none = Unit
Kept (some d) = exclusive d ≡ true

-- The state of the loop: no reference until one has been seen.
abbrev fits : Bool → ResponseDecl → Bool
fits true d = exclusive d
fits false d = unreferenced d

fits-exclusive : (seen : Bool) (d : ResponseDecl) → fits seen d ≡ true → exclusive d ≡ true
fits-exclusive true d h = h
fits-exclusive false d h = ground (arith, h)

describe-exclusive :
    (descs : List Text) (d : ResponseDecl)
    → exclusive d ≡ true
    → exclusive (describe descs d) ≡ true
describe-exclusive [] d h = h
describe-exclusive (w ∷ ws) d h = h

set_body-exclusive :
    (ref : Text) (d : ResponseDecl) → unreferenced d ≡ true → exclusive (set_body ref d) ≡ true
set_body-exclusive ref d h = ground (arith, h)

set_response-exclusive :
    (ref : Text) (d : ResponseDecl) → unreferenced d ≡ true → exclusive (set_response ref d) ≡ true
set_response-exclusive ref d h = ground (arith, h)

abbrev is_first_ref : Tagged → Bool
is_first_ref first_ref = true
is_first_ref _ = false

tag_with-first :
    (first : Bool) (tok : Text) (o : Option (Text × Text))
    → is_first_ref (tag_with first tok o) ≡ true
    → first ≡ true
tag_with-first true tok o h = refl
tag_with-first false tok none h = h
tag_with-first false tok (some (tag, val)) h = ground (arith, h)

abbrev Loop : Type 0
Loop = Bool → List Text → ResponseDecl → Option ResponseDecl

response_token-Kept :
    (seen : Bool) (descs : List Text) (d : ResponseDecl) (tok : Text) (toks : List Text) (go : Loop)
    (tag : Tagged)
    → ((s : Bool) (ds : List Text) (e : ResponseDecl) → fits s e ≡ true → Kept (go s ds e))
    → (is_first_ref tag ≡ true → seen ≡ false)
    → fits seen d ≡ true
    → Kept (response_token seen descs d tok toks go tag)
response_token-Kept true descs d tok toks go (body_tag val) k f h = tt
response_token-Kept false descs d tok toks go (body_tag val) k f h =
    k true descs (set_body val d) (set_body-exclusive val d h)
response_token-Kept true descs d tok toks go (response_tag val) k f h = tt
response_token-Kept false descs d tok toks go (response_tag val) k f h =
    k true descs (set_response val d) (set_response-exclusive val d h)
response_token-Kept true descs d tok toks go (description_tag val) k f h = h
response_token-Kept false descs d tok toks go (description_tag val) k f h = fits-exclusive false d h
response_token-Kept true descs d tok toks go unknown_tag k f h = tt
response_token-Kept false descs d tok toks go unknown_tag k f h = tt
response_token-Kept true descs d tok toks go mistyped k f h = tt
response_token-Kept false descs d tok toks go mistyped k f h = tt
response_token-Kept true descs d tok toks go first_ref k f h = absurd (cc (f refl))
response_token-Kept false descs d tok toks go first_ref k f h =
    k true descs (set_response tok d) (set_response-exclusive tok d h)
response_token-Kept true descs d tok toks go prose k f h = k true (descs ++ tok ∷ []) d h
response_token-Kept false descs d tok toks go prose k f h = k false (descs ++ tok ∷ []) d h

response_tokens-Kept :
    (first seen : Bool) (descs : List Text) (d : ResponseDecl) (toks : List Text)
    → (first ≡ true → seen ≡ false)
    → fits seen d ≡ true
    → Kept (response_tokens first seen descs d toks)
unfolding response_tokens
response_tokens-Kept first seen descs d [] f h =
    describe-exclusive descs d (fits-exclusive seen d h)
response_tokens-Kept first seen descs d (tok ∷ toks) f h =
    response_token-Kept seen descs d tok toks (λ s ds e. response_tokens false s ds e toks)
      (tag_of first tok) (λ s ds e k. response_tokens-Kept false s ds e toks (λ x. cc x) k)
      (λ e. f (tag_with-first first tok (cut b':' tok) (unfold tag_of in e))) h

-- Declarations that are exclusive, one for the line or a diagnostic in its place.
abbrev pub OneEach : ℕ → List ResponseDecl × List Diagnostic → Type 0
OneEach n (decls, ds) = (length decls + length ds ≡ n) × All (λ d. exclusive d ≡ true) decls

or_raise-OneEach : (p : Position) (o : Option ResponseDecl) → Kept o → OneEach 1 (or_raise p o)
or_raise-OneEach p none h = (refl, tt)
or_raise-OneEach p (some d) h = (refl, (h, tt))

if-Kept : (b : Bool) (x y : Option ResponseDecl) → Kept x → Kept y → Kept (if b then x else y)
if-Kept true x y hx hy = hx
if-Kept false x y hx hy = hy

plain-unreferenced :
    (code : Text) (p : Position)
    → text_eq code [] ≡ false
    → unreferenced (plain_response code p) ≡ true
plain-unreferenced code p e = unfold text_eq in ground (arith, e)

plain-exclusive :
    (code : Text) (p : Position)
    → text_eq code [] ≡ false
    → exclusive (plain_response code p) ≡ true
plain-exclusive code p e =
    fits-exclusive false (plain_response code p) (plain-unreferenced code p e)

abbrev valued : Position → Text → Text → List ResponseDecl × List Diagnostic
valued p before after = or_raise p (parse_response_value (trim_space before) (trim_space after) p)

value-Kept :
    (code value : Text) (p : Position)
    → text_eq code [] ≡ false
    → Kept (parse_response_value code value p)
unfolding parse_response_value
value-Kept code value p e =
    if-Kept (text_eq value []) (some (plain_response code p))
      (response_tokens true false [] (plain_response code p) (fields value))
      (plain-exclusive code p e)
      (response_tokens-Kept true false [] (plain_response code p) (fields value) (λ x. refl)
        (plain-unreferenced code p e))

coded_line-OneEach : (p : Position) (o : Option (Text × Text)) → OneEach 1 (coded_line p o)
coded_line-OneEach p none = (refl, tt)
coded_line-OneEach p (some (before, after)) = elim (Bool-cases (text_eq (trim_space before) [])) [
  | inl e ↦
      subst (λ b. OneEach 1 (if b then ([], raise p) else valued p before after)) (sym e) (refl, tt)
  | inr e ↦
      subst (λ b. OneEach 1 (if b then ([], raise p) else valued p before after)) (sym e)
        (or_raise-OneEach p (parse_response_value (trim_space before) (trim_space after) p)
          (value-Kept (trim_space before) (trim_space after) p e))
]

abbrev pub filled : List Text → ℕ
filled [] = 0
filled (l ∷ ls) = if text_eq (trim_space l) [] then filled ls else suc (filled ls)

OneEach-append :
    (m n : ℕ) (r q : List ResponseDecl × List Diagnostic)
    → OneEach m r
    → OneEach n q
    → OneEach (m + n) (r.0 ++ q.0, r.1 ++ q.1)
OneEach-append m n r q h k = (
  omega (arith, length-append r.0 q.0, length-append r.1 q.1, h.0, k.0),
  All-append (λ d. exclusive d ≡ true) r.0 q.0 h.1 k.1,
)

if-OneEach :
    (b : Bool) (r : List ResponseDecl × List Diagnostic)
    → OneEach 1 r
    → OneEach (if b then 0 else 1) (if b then ([], []) else r)
if-OneEach true r h = (refl, tt)
if-OneEach false r h = h

response_line-OneEach :
    (p : Position) (raw : Text)
    → OneEach (if text_eq (trim_space raw) [] then 0 else 1) (response_line p raw)
unfolding response_line
response_line-OneEach p raw =
    if-OneEach (text_eq (trim_space raw) []) (coded_line p (cut b':' (trim_space raw)))
      (coded_line-OneEach p (cut b':' (trim_space raw)))

add_line : (b : Bool) (n : ℕ) → (if b then 0 else 1) + n ≡ (if b then n else suc n)
add_line true n = omega arith
add_line false n = omega arith

response_lines-OneEach :
    (base : Position) (n : ℕ) (lines : List Text)
    → OneEach (filled lines) (response_lines base n lines)
unfolding response_lines
response_lines-OneEach base n [] = (refl, tt)
response_lines-OneEach base n (raw ∷ rest) =
    subst (λ k. OneEach k (response_lines base n (raw ∷ rest)))
      (add_line (text_eq (trim_space raw) []) (filled rest))
      (OneEach-append (if text_eq (trim_space raw) [] then 0 else 1) (filled rest)
        (response_line (offset_pos base n) raw) (response_lines base (n + 1) rest)
        (response_line-OneEach (offset_pos base n) raw) (response_lines-OneEach base (n + 1) rest))

-- Each line that is not blank gives one declaration or one diagnostic. A declaration has a code, and
-- not both a type of its body and a reference to a response.
pub parse_responses-OneEach :
    (body : Text) (base : Position)
    → text_eq (trim_space body) [] ≡ false
    → OneEach (filled (split 10 body)) (parse_responses body base)
unfolding parse_responses
parse_responses-OneEach body base e =
    subst
      (λ b.
        OneEach (filled (split 10 body))
          (if b then ([], []) else response_lines base 1 (split 10 body)))
      (sym e) (response_lines-OneEach base 1 (split 10 body))
