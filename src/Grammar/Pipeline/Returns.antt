-- ===== src/Grammar/Pipeline/Returns.antt =====
-- Every comment is parsed, and its tokens all have their place.
use codescan.Prelude.{
  Text, ◌≤◌, length, length-map, arith, ◌≡◌, refl, sym, ap, subst, ◌∙◌, inl, inr, List, [], ◌∷◌,
  ◌++◌, map, Option, none, some, Bool, true, false, if◌then◌else◌, text_eq, All, and-intro,
  and-elim, Bool-cases,
}
use codescan.Grammar.Strings.{Platform}
use codescan.Grammar.Token.{
  Position, TokenKind, blank, title, desc, annotation, keyword, raw_block_body, raw_value_body,
  opaque_yaml, Token, Arg, AnnotationKind, ann_unknown, ann_meta, ann_parameters, ann_name,
  is_public, all_public, is_annotation, annotation_kind_from_name,
}
use codescan.Grammar.Comments.{Comment, preprocess}
use codescan.Grammar.Bodies.{eof_token}
use codescan.Grammar.Lexer.Clean.{lex-public}
use codescan.Grammar.Block.{
  Diagnostic, errorf, BaseBlock, Block, new_base_block, missing_required_arg, malformed_operation,
}
use codescan.Grammar.Typing.{Services}
use codescan.Grammar.Extract.{
  Split, push_before, split_annotation, take_arg, is_method, is_path, is_ident, last_of,
  operation_args_of, parse_operation_args, first_ident_arg, first_meaningful_pos,
}
use codescan.Grammar.Groups.{token_groups}
use codescan.Grammar.Groups.Chunks.{
  flatten, cut_at, glue_or, chunks, token_groups-chunks, token_groups-flatten,
}
use codescan.Grammar.Emit.{action_of, emit, consume_body_token}
use codescan.Grammar.Parser.{
  Family, unknown_family, schema_family, operation_family, meta_family, classifier_family, family,
  schema_argument, no_args, operation_step, parse_unbound_block, parse_schema_block,
  parse_operation_block, parse_meta_block, parse_family, parse_split, parse_tokens,
  parse_all_tokens,
}
use codescan.Grammar.Parser.Kinds.{parse_tokens-Keeps, first_kind, SplitOf, split-SplitOf}
use codescan.Grammar.Parser.Quiet.{
  quiet, has_place, all_placed, quiet-append, if-quiet, Quiet, body-Quiet, consume-Quiet,
  operation-Quiet,
}
use codescan.Grammar.Pipeline.{after_lex, parse_all}

-- What the lexer emits has its place.
public-placed : (k : TokenKind) → is_public k ≡ true → has_place (action_of k) ≡ true
unfolding action_of
public-placed blank h = refl
public-placed title h = refl
public-placed desc h = refl
public-placed annotation h = refl
public-placed keyword h = refl
public-placed raw_block_body h = refl
public-placed raw_value_body h = refl
public-placed opaque_yaml h = refl
public-placed _ h = absurd (cc h)

all_public-placed :
    (ts : List Token) → all_public ts ≡ true → all_placed (ts ++ eof_token ∷ []) ≡ true
all_public-placed [] h = unfold action_of in refl
all_public-placed (t ∷ ts) h =
    let both = and-elim (is_public t.kind) (all_public ts) h in
    and-intro (has_place (action_of t.kind)) (all_placed (ts ++ eof_token ∷ []))
      (public-placed t.kind both.0) (all_public-placed ts both.1)

placed-append :
    (xs ys : List Token)
    → all_placed (xs ++ ys) ≡ true
    → (all_placed xs ≡ true) × (all_placed ys ≡ true)
placed-append [] ys h = (refl, h)
placed-append (t ∷ xs) ys h =
    let both = and-elim (has_place (action_of t.kind)) (all_placed (xs ++ ys)) h in
    let parts = placed-append xs ys both.1 in
    (and-intro (has_place (action_of t.kind)) (all_placed xs) both.0 parts.0, parts.1)

groups-placed :
    (groups : List (List Token))
    → all_placed (flatten groups) ≡ true
    → All (λ g. all_placed g ≡ true) groups
groups-placed [] h = tt
groups-placed (g ∷ groups) h =
    let parts = placed-append g (flatten groups) h in (parts.0, groups-placed groups parts.1)

abbrev PlacedAround : Option Split → Type 0
PlacedAround none = Unit
PlacedAround (some (before, (ann, after))) = all_placed (before ++ after) ≡ true

push_before-placed :
    (t : Token) (o : Option Split)
    → has_place (action_of t.kind) ≡ true
    → PlacedAround o
    → PlacedAround (push_before t o)
push_before-placed t none e h = tt
push_before-placed t (some (before, (ann, after))) e h =
    and-intro (has_place (action_of t.kind)) (all_placed (before ++ after)) e h

if-placed :
    (b : Bool) (x y : Option Split)
    → PlacedAround x
    → PlacedAround y
    → PlacedAround (if b then x else y)
if-placed true x y hx hy = hx
if-placed false x y hx hy = hy

split-placed : (ts : List Token) → all_placed ts ≡ true → PlacedAround (split_annotation ts)
split-placed [] h = tt
split-placed (t ∷ ts) h =
    let both = and-elim (has_place (action_of t.kind)) (all_placed ts) h in
    if-placed (is_annotation t.kind) (some ([], (t, ts))) (push_before t (split_annotation ts))
      both.1 (push_before-placed t (split_annotation ts) both.0 (split-placed ts both.1))

-- The arguments of an annotation raise errors only.
schema_argument-quiet : (kind : AnnotationKind) (t : Token) → quiet (schema_argument kind t) ≡ true
schema_argument-quiet ann_parameters t =
    if-quiet (no_args t.args) (errorf t.pos missing_required_arg ∷ []) [] refl refl
schema_argument-quiet ann_name t =
    if-quiet (text_eq (first_ident_arg t.args) []) (errorf t.pos missing_required_arg ∷ []) [] refl
      refl
schema_argument-quiet _ t = refl

abbrev taken : Arg → List Arg → Position → Bool → Text × (List Arg × List Diagnostic)
taken a args p b =
    if b then (a.text, (args, [])) else ([], (a ∷ args, errorf p malformed_operation ∷ []))

take_arg-quiet :
    (wanted : TokenKind → Bool) (p : Position) (args : List Arg)
    → quiet (take_arg wanted p args).1.1 ≡ true
take_arg-quiet wanted p [] = refl
take_arg-quiet wanted p (a ∷ args) = elim (Bool-cases (wanted a.kind)) [
  | inl e ↦ ap (λ b. quiet (taken a args p b).1.1) e
  | inr e ↦ ap (λ b. quiet (taken a args p b).1.1) e
]

operation_args-quiet :
    (p : Position) (method path : Text) (ds : List Diagnostic) (args : List Arg)
    → quiet ds ≡ true
    → quiet (operation_args_of p method path ds args).raised ≡ true
operation_args-quiet p method path ds [] h =
    quiet-append ds (errorf p malformed_operation ∷ []) h refl
operation_args-quiet p method path ds (a ∷ others) h = quiet-append ds _ h (
    if-quiet (is_ident (last_of a others).kind) []
      (errorf (last_of a others).pos malformed_operation ∷ []) refl refl)

raised-quiet : (t : Token) → quiet (parse_operation_args t).raised ≡ true
unfolding parse_operation_args
raised-quiet t =
    let rest = (take_arg is_method t.pos t.args).1.0 in
    operation_args-quiet t.pos _ _ _ (take_arg is_path t.pos rest).1.0 (
      quiet-append (take_arg is_method t.pos t.args).1.1 (take_arg is_path t.pos rest).1.1
        (take_arg-quiet is_method t.pos t.args) (take_arg-quiet is_path t.pos rest))

glued_one : (pre : List Token) (groups : List (List Token)) → 1 ≤ length (glue_or pre groups)
glued_one pre [] = omega arith
glued_one pre (g ∷ groups) = omega arith

groups_one : (ts : List Token) (groups : List (List Token)) → groups ≡ chunks ts → 1 ≤ length groups
groups_one ts groups e = subst (λ gs. 1 ≤ length gs) (sym e) (glued_one (cut_at ts).0 (cut_at ts).1)

module _ {F I V : Type 0} where
  -- Under a classifier a token of a body may be out of place; elsewhere none is.
  abbrev pub Calm : Family → BaseBlock F I V → Type 0
  Calm classifier_family b = Unit
  Calm _ b = Quiet b

module _ {F I V : Type 0} (sv : Services F I V) (u : Platform) (single : Bool) where
  unbound-Quiet :
      (ts : List Token) → all_placed ts ≡ true → Quiet (parse_unbound_block sv u single ts).base
  unfolding parse_unbound_block
  unbound-Quiet ts h =
      body-Quiet sv u single (consume_body_token sv u single ann_unknown)
        (consume-Quiet sv u single ann_unknown)
        (new_base_block ann_unknown (first_meaningful_pos ts)) ts ts h refl

  family-Calm :
      (ts before : List Token) (ann : Token) (after : List Token) (kind : AnnotationKind)
      (fam : Family)
      → all_placed ts ≡ true
      → all_placed (before ++ after) ≡ true
      → Calm fam (parse_family sv u single ts before ann after kind fam).base
  unfolding parse_schema_block parse_operation_block parse_meta_block
  family-Calm ts before ann after kind unknown_family h e = unbound-Quiet ts h
  family-Calm ts before ann after kind schema_family h e =
      body-Quiet sv u single (consume_body_token sv u single kind) (consume-Quiet sv u single kind)
        (emit sv u single (schema_argument kind ann) (new_base_block kind ann.pos)) ts
        (before ++ after) e (schema_argument-quiet kind ann)
  family-Calm ts before ann after kind operation_family h e =
      body-Quiet sv u single (operation_step sv u single kind) (operation-Quiet sv u single kind)
        (emit sv u single (parse_operation_args ann).raised (new_base_block kind ann.pos)) ts
        (before ++ after) e (raised-quiet ann)
  family-Calm ts before ann after kind meta_family h e =
      body-Quiet sv u single (consume_body_token sv u single ann_meta)
        (consume-Quiet sv u single ann_meta) (new_base_block ann_meta ann.pos) ts (before ++ after)
        e refl
  family-Calm ts before ann after kind classifier_family h e = tt

  split-Calm :
      (ts : List Token) (o : Option Split)
      → all_placed ts ≡ true
      → PlacedAround o
      → SplitOf u ts o
      → Calm (family (first_kind ts)) (parse_split sv u single ts o).base
  split-Calm ts none h p e =
      subst (λ k. Calm (family k) (parse_unbound_block sv u single ts).base) (sym e)
        (unfold family in unbound-Quiet ts h)
  split-Calm ts (some (before, (ann, after))) h p e =
      let kind = annotation_kind_from_name ann.name in
      subst
        (λ k.
          Calm (family k) (parse_family sv u single ts before ann after kind (family kind)).base)
        (sym e.0) (family-Calm ts before ann after kind (family kind) h p)

  parse_tokens-Calm :
      (ts : List Token)
      → all_placed ts ≡ true
      → Calm (family (parse_tokens sv u single ts).base.kind) (parse_tokens sv u single ts).base
  parse_tokens-Calm ts h =
      subst (λ k. Calm (family k) (parse_tokens sv u single ts).base)
        (sym (parse_tokens-Keeps sv u single ts).0)
        (unfold parse_tokens in
          split-Calm ts (split_annotation ts) h (split-placed ts h) (split-SplitOf u ts))

  each-Calm :
      (groups : List (List Token))
      → All (λ g. all_placed g ≡ true) groups
      → All (λ b. Calm (family b.base.kind) b.base) (map (parse_tokens sv u single) groups)
  each-Calm [] h = tt
  each-Calm (g ∷ groups) h = (parse_tokens-Calm g h.0, each-Calm groups h.1)

  blocks-Calm :
      (ts : List Token)
      → all_placed ts ≡ true
      → All (λ b. Calm (family b.base.kind) b.base) (parse_all_tokens sv u single ts)
  unfolding parse_all_tokens
  blocks-Calm ts h =
      each-Calm (token_groups ts)
        (groups-placed (token_groups ts) (ap all_placed (token_groups-flatten ts) ∙ h))

  one_block : (ts : List Token) → 1 ≤ length (parse_all_tokens sv u single ts)
  unfolding parse_all_tokens
  one_block ts = omega (
    arith,
    length-map (parse_tokens sv u single) (token_groups ts),
    groups_one ts (token_groups ts) (token_groups-chunks ts),
  )

  -- Every group of comments is parsed, into one block at least, and no block but a classifier's
  -- warns of a token that has no place in it: the parser knows all that the lexer emits.
  pub parse_all-returns :
      (cs : List Comment)
      → (blocks : List (Block F I V)) × ((parse_all sv u single cs ≡ some blocks)
          × ((1 ≤ length blocks) × All (λ b. Calm (family b.base.kind) b.base) blocks))
  unfolding parse_all
  parse_all-returns cs =
      let (out, public, lexed) = lex-public u (preprocess cs) in
      let ts = out ++ eof_token ∷ [] in
      (
        parse_all_tokens sv u single ts,
        (
          ap (after_lex (parse_all_tokens sv u single)) lexed,
          (one_block ts, blocks-Calm ts (all_public-placed out public)),
        ),
      )
