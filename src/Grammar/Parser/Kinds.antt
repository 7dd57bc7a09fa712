-- ===== src/Grammar/Parser/Kinds.antt =====
-- The kinds of the blocks of a comment, and the keywords of their properties.
use mathlib.Core.Bool.{false≢true}
use codescan.Prelude.{
  ◌≡◌, refl, sym, ap, subst, ◌∙◌, inl, inr, List, [], ◌∷◌, ◌++◌, map, foldl, Option, none, some,
  Bool, true, false, if◌then◌else◌, append-nil, Bool-cases,
}
use codescan.Grammar.Strings.{Platform}
use codescan.Grammar.Token.{
  TokenKind, annotation, Token, AnnotationKind, ann_unknown, ann_meta, ann_model, ann_route,
  ann_strfmt, ann_alias, ann_all_of, ann_enum, ann_ignore, ann_omit, ann_default_name, ann_type,
  ann_file, ann_additional_properties, ann_pattern_properties, is_annotation,
  annotation_kind_from_name,
}
use codescan.Grammar.Keywords.{Keyword}
use codescan.Grammar.Block.{BaseBlock}
use codescan.Grammar.Typing.{Services}
use codescan.Grammar.Extract.{Split, push_before, split_annotation}
use codescan.Grammar.Groups.{token_groups}
use codescan.Grammar.Groups.Chunks.{
  add_to_cut-true, add_to_cut-false, cut_at, glue_or, token_groups-chunks,
}
use codescan.Grammar.Emit.{consume_body_token}
use codescan.Grammar.Parser.{
  parse_all_tokens, Family, unknown_family, schema_family, operation_family, meta_family,
  classifier_family, family, parse_family, parse_split, parse_tokens, finalise_base, operation_step,
  parse_unbound_block, parse_schema_block, parse_operation_block, parse_meta_block,
  parse_classifier_block,
}
use codescan.Grammar.Parser.Properties.{
  named_by_kind, add_known, known_keywords, keywords_of, Adds, foldl-AddsAll, consume-Adds,
  operation_step-Adds, finalise-Agree,
}

-- The kind of the first annotation.
abbrev pub first_kind : List Token → AnnotationKind
first_kind [] = ann_unknown
first_kind (t ∷ ts) =
    let rest = first_kind ts in
    if is_annotation t.kind then annotation_kind_from_name t.name else rest

annotation-names_none :
    (u : Platform) (t : Token) (k : TokenKind) → is_annotation k ≡ true → named_by_kind u t k ≡ none
annotation-names_none u t annotation h = refl
annotation-names_none u t _ h = absurd (false≢true h)

-- The annotations whose block has no properties.
abbrev pub is_classifier : AnnotationKind → Bool
is_classifier ann_strfmt = true
is_classifier ann_alias = true
is_classifier ann_all_of = true
is_classifier ann_enum = true
is_classifier ann_ignore = true
is_classifier ann_omit = true
is_classifier ann_default_name = true
is_classifier ann_type = true
is_classifier ann_file = true
is_classifier ann_additional_properties = true
is_classifier ann_pattern_properties = true
is_classifier _ = false

abbrev classifies : Family → Bool
classifies classifier_family = true
classifies _ = false

family-classifies : (k : AnnotationKind) → classifies (family k) ≡ is_classifier k
unfolding family
family-classifies ann_unknown = refl
family-classifies ann_model = refl
family-classifies ann_route = refl
family-classifies ann_meta = refl
family-classifies ann_enum = refl
family-classifies _ = refl

unknown_family-ann_unknown : (k : AnnotationKind) → family k ≡ unknown_family → k ≡ ann_unknown
unfolding family
unknown_family-ann_unknown ann_unknown h = refl
unknown_family-ann_unknown _ h = cc h

meta_family-ann_meta : (k : AnnotationKind) → family k ≡ meta_family → k ≡ ann_meta
unfolding family
meta_family-ann_meta ann_meta h = refl
meta_family-ann_meta _ h = cc h

module _ (u : Platform) where
  -- What the first annotation and the tokens around it have to do with the whole.
  abbrev pub SplitOf : List Token → Option Split → Type 0
  SplitOf ts none = first_kind ts ≡ ann_unknown
  SplitOf ts (some (before, (ann, after))) =
      (first_kind ts ≡ annotation_kind_from_name ann.name)
      × (known_keywords u (before ++ after) ≡ known_keywords u ts)

  push_before-SplitOf :
      (t : Token) (ts : List Token) (o : Option Split)
      → first_kind (t ∷ ts) ≡ first_kind ts
      → SplitOf ts o
      → SplitOf (t ∷ ts) (push_before t o)
  push_before-SplitOf t ts none e h = e ∙ h
  push_before-SplitOf t ts (some (before, (ann, after))) e h =
      (e ∙ h.0, ap (λ kws. add_known (named_by_kind u t t.kind) kws) h.1)

  annotation-SplitOf :
      (t : Token) (ts : List Token)
      → is_annotation t.kind ≡ true
      → SplitOf (t ∷ ts) (some ([], (t, ts)))
  annotation-SplitOf t ts e = (
    ap (λ b. if b then annotation_kind_from_name t.name else first_kind ts) e,
    sym (ap (λ o. add_known o (known_keywords u ts)) (annotation-names_none u t t.kind e)),
  )

  pub split-SplitOf : (ts : List Token) → SplitOf ts (split_annotation ts)
  split-SplitOf [] = refl
  split-SplitOf (t ∷ ts) = elim (Bool-cases (is_annotation t.kind)) [
    | inl e ↦
        subst
          (λ b.
            SplitOf (t ∷ ts)
              (if b then some ([], (t, ts)) else push_before t (split_annotation ts)))
          (sym e) (annotation-SplitOf t ts e)
    | inr e ↦
        subst
          (λ b.
            SplitOf (t ∷ ts)
              (if b then some ([], (t, ts)) else push_before t (split_annotation ts)))
          (sym e)
          (push_before-SplitOf t ts (split_annotation ts)
            (ap (λ b. if b then annotation_kind_from_name t.name else first_kind ts) e)
            (split-SplitOf ts))
  ]

module _ {F I V : Type 0} (sv : Services F I V) (u : Platform) (single : Bool) where
  -- The keywords of a block's properties: those of the tokens, or none under a classifier.
  abbrev pub expected : Bool → List Token → List Keyword
  expected true ts = []
  expected false ts = known_keywords u ts

  abbrev Keeps : AnnotationKind → List Keyword → BaseBlock F I V → Type 0
  Keeps kind kws b = (b.kind ≡ kind) × (keywords_of b ≡ kws)

  folded-Keeps :
      (f : BaseBlock F I V → Token → BaseBlock F I V)
      → ((b : BaseBlock F I V) (t : Token) → Adds (named_by_kind u t t.kind) b (f b t))
      → (b : BaseBlock F I V) (ts body : List Token) → keywords_of b ≡ []
      → Keeps b.kind (known_keywords u body) (finalise_base sv u single ts (foldl f b body))
  folded-Keeps f h b ts body e =
      let k = foldl-AddsAll sv u single f h b body in
      let a = finalise-Agree sv u single ts (foldl f b body) in
      (
        a.0 ∙ k.0,
        ap (λ ps. map (λ p. p.keyword) ps) a.1 ∙ k.1 ∙ ap (λ kws. kws ++ known_keywords u body) e,
      )

  unbound-Keeps :
      (ts : List Token)
      → Keeps ann_unknown (known_keywords u ts) (parse_unbound_block sv u single ts).base
  unfolding parse_unbound_block
  unbound-Keeps ts = folded-Keeps _ (consume-Adds sv u single ann_unknown) _ ts ts refl

  family-Keeps :
      (ts before : List Token) (ann : Token) (after : List Token) (kind : AnnotationKind)
      (fam : Family)
      → family kind ≡ fam
      → known_keywords u (before ++ after) ≡ known_keywords u ts
      → Keeps kind
          (expected (classifies fam) ts)
          (parse_family sv u single ts before ann after kind fam).base
  unfolding parse_schema_block parse_operation_block parse_meta_block parse_classifier_block
  family-Keeps ts before ann after kind unknown_family h e =
      subst (λ k. Keeps k (known_keywords u ts) (parse_unbound_block sv u single ts).base)
        (sym (unknown_family-ann_unknown kind h)) (unbound-Keeps ts)
  family-Keeps ts before ann after kind schema_family h e =
      subst (λ kws. Keeps kind kws (parse_schema_block sv u single ts before ann after kind).base) e
        (folded-Keeps (consume_body_token sv u single kind) (consume-Adds sv u single kind) _ ts
          (before ++ after) refl)
  family-Keeps ts before ann after kind operation_family h e =
      subst
        (λ kws. Keeps kind kws (parse_operation_block sv u single ts before ann after kind).base) e
        (folded-Keeps (operation_step sv u single kind) (operation_step-Adds sv u single kind) _ ts
          (before ++ after) refl)
  family-Keeps ts before ann after kind meta_family h e =
      subst
        (λ k. Keeps k (known_keywords u ts) (parse_meta_block sv u single ts before ann after).base)
        (sym (meta_family-ann_meta kind h))
        (subst (λ kws. Keeps ann_meta kws (parse_meta_block sv u single ts before ann after).base) e
          (folded-Keeps (consume_body_token sv u single ann_meta)
            (consume-Adds sv u single ann_meta) _ ts (before ++ after) refl))
  family-Keeps ts before ann after kind classifier_family h e = unfold finalise_base in (refl, refl)

  split-Keeps :
      (ts : List Token) (o : Option Split)
      → SplitOf u ts o
      → Keeps
          (first_kind ts)
          (expected (is_classifier (first_kind ts)) ts)
          (parse_split sv u single ts o).base
  split-Keeps ts none e =
      subst (λ k. Keeps k (expected (is_classifier k) ts) (parse_unbound_block sv u single ts).base)
        (sym e) (unbound-Keeps ts)
  split-Keeps ts (some (before, (ann, after))) e =
      let kind = annotation_kind_from_name ann.name in
      subst
        (λ k.
          Keeps k (expected (is_classifier k) ts)
            (parse_family sv u single ts before ann after kind (family kind)).base)
        (sym e.0)
        (subst
          (λ b.
            Keeps kind (expected b ts)
              (parse_family sv u single ts before ann after kind (family kind)).base)
          (family-classifies kind) (family-Keeps ts before ann after kind (family kind) refl e.1))

  -- A block has the kind of the first annotation of its tokens. Unless that is a classifier's, its
  -- properties have, in order, the keywords that the tokens name: a keyword of one line by its own
  -- name, a body of lines or a raw value by the name of the keyword above it, and a token of
  -- another kind or with an unknown name none. Under a classifier there are none.
  pub parse_tokens-Keeps :
      (ts : List Token)
      → ((parse_tokens sv u single ts).base.kind ≡ first_kind ts)
        × (keywords_of (parse_tokens sv u single ts).base
            ≡ expected (is_classifier (first_kind ts)) ts)
  unfolding parse_tokens
  parse_tokens-Keeps ts = split-Keeps ts (split_annotation ts) (split-SplitOf u ts)

-- The kinds of all annotations; one unknown kind where there is none.
abbrev pub annotation_kinds : List Token → List AnnotationKind
annotation_kinds [] = []
annotation_kinds (t ∷ ts) =
    let rest = annotation_kinds ts in
    if is_annotation t.kind then annotation_kind_from_name t.name ∷ rest else rest

abbrev pub or_unknown : List AnnotationKind → List AnnotationKind
or_unknown [] = ann_unknown ∷ []
or_unknown (k ∷ ks) = k ∷ ks

-- The cut before the annotations keeps their kinds.
abbrev KindsOf : List Token → List Token × List (List Token) → Type 0
KindsOf ts (pre, groups) =
    ((r : List Token) → first_kind (pre ++ r) ≡ first_kind r)
    × (map first_kind groups ≡ annotation_kinds ts)

cut_at-KindsOf : (ts : List Token) → KindsOf ts (cut_at ts)
cut_at-KindsOf [] = ((λ r. refl), refl)
cut_at-KindsOf (t ∷ ts) = elim (Bool-cases (is_annotation t.kind)) [
  | inl e ↦
      subst (λ c. KindsOf (t ∷ ts) c) (sym (add_to_cut-true t (cut_at ts) e))
        (
          (λ r. refl),
          ap
                (λ b.
                  (if b then annotation_kind_from_name t.name else first_kind (cut_at ts).0)
                  ∷ map first_kind (cut_at ts).1)
                e
              ∙ ap (λ ks. annotation_kind_from_name t.name ∷ ks) (cut_at-KindsOf ts).1
              ∙ sym (
                  ap
                    (λ b.
                      if b
                      then annotation_kind_from_name t.name ∷ annotation_kinds ts
                      else annotation_kinds ts)
                    e),
        )
  | inr e ↦
      subst (λ c. KindsOf (t ∷ ts) c) (sym (add_to_cut-false t (cut_at ts) e))
        (
          (λ r.
              ap
                (λ b.
                  if b then annotation_kind_from_name t.name else first_kind ((cut_at ts).0 ++ r))
                e
              ∙ (cut_at-KindsOf ts).0 r),
          (cut_at-KindsOf ts).1
              ∙ sym (
                  ap
                    (λ b.
                      if b
                      then annotation_kind_from_name t.name ∷ annotation_kinds ts
                      else annotation_kinds ts)
                    e),
        )
]

glue_or-kinds :
    (ts pre : List Token) (groups : List (List Token))
    → KindsOf ts (pre, groups)
    → map first_kind (glue_or pre groups) ≡ or_unknown (annotation_kinds ts)
glue_or-kinds ts pre [] h =
    ap (λ k. k ∷ []) (ap first_kind (sym (append-nil pre)) ∙ h.0 []) ∙ ap or_unknown h.1
glue_or-kinds ts pre (g ∷ groups) h =
    ap (λ k. k ∷ map first_kind groups) (h.0 g) ∙ ap or_unknown h.1

module _ {F I V : Type 0} (sv : Services F I V) (u : Platform) (single : Bool) where
  map-kinds :
      (groups : List (List Token))
      → map (λ b. b.base.kind) (map (parse_tokens sv u single) groups) ≡ map first_kind groups
  map-kinds [] = refl
  map-kinds (g ∷ groups) =
      ap (λ k. k ∷ map (λ b. b.base.kind) (map (parse_tokens sv u single) groups))
        (parse_tokens-Keeps sv u single g).0
      ∙ ap (λ ks. first_kind g ∷ ks) (map-kinds groups)

  -- The blocks of a comment have the kinds of its annotations, one block for each and in their order;
  -- a comment without annotation is one block of the unknown kind.
  pub parse_all_tokens-kinds :
      (ts : List Token)
      → map (λ b. b.base.kind) (parse_all_tokens sv u single ts) ≡ or_unknown (annotation_kinds ts)
  unfolding parse_all_tokens
  parse_all_tokens-kinds ts =
      map-kinds (token_groups ts)
      ∙ ap (λ gs. map first_kind gs) (token_groups-chunks ts)
      ∙ glue_or-kinds ts (cut_at ts).0 (cut_at ts).1 (cut_at-KindsOf ts)
