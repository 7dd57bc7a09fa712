-- ===== src/Grammar/Prose/Runs.antt =====
-- lexer.go, stage 3: `classifyProse` types every prose line, and keeps every token in its place.
use codescan.Prelude.{
  Text, ℕ, zero, suc, ◌≤◌, ◌≡◌, refl, sym, ap, arith, ◌∙◌, List, [], ◌∷◌, ◌++◌, map, length, Option,
  none, some, Bool, true, false, ◌&&◌, subst, inl, inr, Option-cases, Bool-cases, if◌then◌else◌,
  map-append, append_assoc, and-intro, and-elim,
}
use codescan.Grammar.Strings.{Platform}
use codescan.Grammar.Token.{
  Position, TokenKind, title, desc, Token, is_text, is_blank, is_bodied, all_bodied, is_public,
  all_public,
}
use codescan.Grammar.Prose.{
  is_prose, retype, retype_one, has_text, divide, with_heading, strip_atx_heading, ends_with_punct,
  classify_from_text, classify_title_desc_run, prose_prefix, classify_runs,
}

-- What stage 3 leaves of a token: its line and its place.
abbrev pub origin : Token → Text × Position
origin t = (t.raw, t.pos)

all_public-append :
    (xs ys : List Token) (left : all_public xs ≡ true) (right : all_public ys ≡ true)
    → all_public (xs ++ ys) ≡ true
all_public-append [] ys left right = right
all_public-append (x ∷ xs) ys left right =
    let (here, later) = and-elim (is_public x.kind) (all_public xs) left in
    and-intro (is_public x.kind) (all_public (xs ++ ys)) here (all_public-append xs ys later right)

all_bodied-append :
    (xs ys : List Token) (bodied : all_bodied (xs ++ ys) ≡ true)
    → (all_bodied xs ≡ true) × (all_bodied ys ≡ true)
all_bodied-append [] ys bodied = (refl, bodied)
all_bodied-append (x ∷ xs) ys bodied =
    let (here, later) = and-elim (is_bodied x.kind) (all_bodied (xs ++ ys)) bodied in
    let (left, right) = all_bodied-append xs ys later in
    (and-intro (is_bodied x.kind) (all_bodied xs) here left, right)

retype_one-public :
    (k : TokenKind) (t : Token) (typed : is_public k ≡ true) (bodied : is_bodied t.kind ≡ true)
    → is_public (retype_one k t).kind ≡ true
retype_one-public k t typed bodied = elim (Bool-cases (is_text t.kind)) [
  | inl e ↦ rw e typed
  | inr e ↦ rw (e, bodied, e) refl
]

retype-public :
    (k : TokenKind) (ts : List Token) (typed : is_public k ≡ true) (bodied : all_bodied ts ≡ true)
    → all_public (retype k ts) ≡ true
retype-public k [] typed bodied = refl
retype-public k (t ∷ ts) typed bodied =
    let (here, later) = and-elim (is_bodied t.kind) (all_bodied ts) bodied in
    and-intro (is_public (retype_one k t).kind) (all_public (retype k ts))
      (retype_one-public k t typed here) (retype-public k ts typed later)

retype_one-origin : (k : TokenKind) (t : Token) → origin (retype_one k t) ≡ origin t
retype_one-origin k t = elim (Bool-cases (is_text t.kind)) [ inl e ↦ rw e refl | inr e ↦ rw e refl ]

retype-origin : (k : TokenKind) (ts : List Token) → map origin (retype k ts) ≡ map origin ts
retype-origin k [] = refl
retype-origin k (t ∷ ts) = rw (retype_one-origin k t, retype-origin k ts) refl

with_heading-bodied :
    (t : Token) (bodied : is_bodied t.kind ≡ true) → is_bodied (with_heading t).kind ≡ true
with_heading-bodied t bodied = elim (Option-cases (strip_atx_heading t.text)) [
  | inl e ↦ rw (e, with_heading) bodied
  | inr (rest, e) ↦ rw (e, with_heading) bodied
]

with_heading-origin : (t : Token) → origin (with_heading t) ≡ origin t
with_heading-origin t = elim (Option-cases (strip_atx_heading t.text)) [
  | inl e ↦ rw (e, with_heading) refl
  | inr (rest, e) ↦ rw (e, with_heading) refl
]

-- The two parts that `divide` finds are the whole.
abbrev Divides : List Token → Option (List Token × List Token) → Type 0
Divides ts none = Unit
Divides ts (some (before, after)) = before ++ after ≡ ts

divide-Divides : (ts : List Token) → Divides ts (divide ts)
unfolding divide
divide-Divides [] = tt
divide-Divides (t ∷ ts) = elim (Bool-cases (is_blank t.kind && has_text ts)) [
  | inl e ↦ rw (e, divide) refl
  | inr e ↦ elim (Option-cases (divide ts)) [
    | inl d ↦ rw (e, d, divide) tt
    | inr ((before, after), d) ↦
        rw (e, d, divide) (ap (λ xs. t ∷ xs) (subst (Divides ts) d (divide-Divides ts)))
  ]
]

prose_prefix-append : (ts : List Token) → (prose_prefix ts).0 ++ (prose_prefix ts).1 ≡ ts
unfolding prose_prefix
prose_prefix-append [] = refl
prose_prefix-append (t ∷ ts) = elim (Bool-cases (is_prose t.kind)) [
  | inl e ↦ rw (e, prose_prefix) (ap (λ xs. t ∷ xs) (prose_prefix-append ts))
  | inr e ↦ rw (e, prose_prefix) refl
]

prose_prefix-length : (ts : List Token) → length (prose_prefix ts).1 ≤ length ts
unfolding prose_prefix
prose_prefix-length [] = omega arith
prose_prefix-length (t ∷ ts) = elim (Bool-cases (is_prose t.kind)) [
  | inl e ↦ rw (e, prose_prefix) (omega (arith, prose_prefix-length ts))
  | inr e ↦ rw (e, prose_prefix) (omega arith)
]

prose_prefix-eof :
    (ts : List Token) (e : Token) (last : is_prose e.kind ≡ false)
    → prose_prefix (ts ++ e ∷ []) ≡ ((prose_prefix ts).0, (prose_prefix ts).1 ++ e ∷ [])
unfolding prose_prefix
prose_prefix-eof [] e last = rw (last, prose_prefix) refl
prose_prefix-eof (t ∷ ts) e last = elim (Bool-cases (is_prose t.kind)) [
  | inl h ↦ rw (h, prose_prefix, prose_prefix-eof ts e last) refl
  | inr h ↦ rw (h, prose_prefix) refl
]

-- Tokens for the parser, in the place of the tokens that are given.
abbrev pub Typed : List Token → List Token → Type 0
Typed xs ts = (all_public xs ≡ true) × (map origin xs ≡ map origin ts)

Typed-append :
    (xs xs' ys ys' : List Token) (left : Typed xs xs') (right : Typed ys ys')
    → Typed (xs ++ ys) (xs' ++ ys')
Typed-append xs xs' ys ys' left right = (
  all_public-append xs ys left.0 right.0,
  rw (map-append origin xs ys, map-append origin xs' ys', left.1, right.1) refl,
)

Typed-cons :
    (x x' : Token) (ys ys' : List Token) (public : is_public x.kind ≡ true)
    (same : origin x ≡ origin x') (right : Typed ys ys')
    → Typed (x ∷ ys) (x' ∷ ys')
Typed-cons x x' ys ys' public same right =
    (and-intro (is_public x.kind) (all_public ys) public right.0, rw (same, right.1) refl)

retype-Typed :
    (k : TokenKind) (ts : List Token) (typed : is_public k ≡ true) (bodied : all_bodied ts ≡ true)
    → Typed (retype k ts) ts
retype-Typed k ts typed bodied = (retype-public k ts typed bodied, retype-origin k ts)

retype_one-Typed :
    (k : TokenKind) (t t' : Token) (ys ys' : List Token) (typed : is_public k ≡ true)
    (bodied : is_bodied t.kind ≡ true) (same : origin t ≡ origin t') (right : Typed ys ys')
    → Typed (retype_one k t ∷ ys) (t' ∷ ys')
retype_one-Typed k t t' ys ys' typed bodied same right =
    Typed-cons (retype_one k t) t' ys ys' (retype_one-public k t typed bodied)
      (retype_one-origin k t ∙ same) right

classify_from_text-Typed :
    (u : Platform) (first : Token) (more : List Token) (here : is_bodied first.kind ≡ true)
    (later : all_bodied more ≡ true)
    → Typed (classify_from_text u first more) (first ∷ more)
unfolding classify_from_text
classify_from_text-Typed u first more here later =
    let below = retype-Typed desc more refl later in
    elim (Option-cases (divide more)) [
      | inr ((before, after), d) ↦
          let whole : before ++ after ≡ more = subst (Divides more) d (divide-Divides more) in
          let (left, right) = all_bodied-append before after (rw whole later) in
          rw (d, sym whole, classify_from_text)
            (retype_one-Typed title (with_heading first) first _ _ refl
              (with_heading-bodied first here) (with_heading-origin first)
              (Typed-append (retype title before) before (retype desc after) after
                (retype-Typed title before refl left) (retype-Typed desc after refl right)))
      | inl d ↦ elim (Bool-cases (ends_with_punct u first.text)) [
        | inl e ↦
            rw (d, e, classify_from_text)
              (retype_one-Typed title first first _ more refl here refl below)
        | inr e ↦ elim (Option-cases (strip_atx_heading first.text)) [
          | inl h ↦
              rw (d, e, h, classify_from_text)
                (retype_one-Typed desc first first _ more refl here refl below)
          | inr (rest, h) ↦
              rw (d, e, h, classify_from_text)
                (retype_one-Typed title (record first { text = rest }) first _ more refl here refl
                  below)
        ]
      ]
    ]

-- Prose tokens only.
abbrev all_prose : List Token → Bool
all_prose [] = true
all_prose (t ∷ ts) = is_prose t.kind && all_prose ts

blank-public :
    (k : TokenKind) (bodied : is_bodied k ≡ true) (plain : is_text k ≡ false) → is_public k ≡ true
blank-public k bodied plain = rw (bodied, plain) refl

classify_title_desc_run-Typed :
    (u : Platform) (ts : List Token) (bodied : all_bodied ts ≡ true)
    → Typed (classify_title_desc_run u ts) ts
unfolding classify_title_desc_run
classify_title_desc_run-Typed u [] bodied = (refl, refl)
classify_title_desc_run-Typed u (t ∷ ts) bodied =
    let (here, later) = and-elim (is_bodied t.kind) (all_bodied ts) bodied in
    elim (Bool-cases (is_text t.kind)) [
      | inl e ↦ rw (e, classify_title_desc_run) (classify_from_text-Typed u t ts here later)
      | inr e ↦
          rw (e, classify_title_desc_run)
            (Typed-cons t t _ ts (blank-public t.kind here e) refl
              (classify_title_desc_run-Typed u ts later))
    ]

first_or_later-Typed :
    (u : Platform) (first : Bool) (ts : List Token) (bodied : all_bodied ts ≡ true)
    → Typed (if first then classify_title_desc_run u ts else retype desc ts) ts
first_or_later-Typed u true ts bodied = classify_title_desc_run-Typed u ts bodied
first_or_later-Typed u false ts bodied = retype-Typed desc ts refl bodied

prose-text : (k : TokenKind) (plain : is_prose k ≡ false) → is_text k ≡ false
prose-text k plain = ground arith

pub classify_runs-Typed :
    (u : Platform) (fuel : ℕ) (first : Bool) (ts : List Token) (bodied : all_bodied ts ≡ true)
    (enough : length ts ≤ fuel)
    → Typed (classify_runs u fuel first ts) ts
unfolding classify_runs
classify_runs-Typed u zero first [] bodied enough = (refl, refl)
classify_runs-Typed u zero first (t ∷ ts) bodied enough = ground arith
classify_runs-Typed u (suc fuel) first [] bodied enough = (refl, refl)
classify_runs-Typed u (suc fuel) first (t ∷ ts) bodied enough =
    let (here, later) = and-elim (is_bodied t.kind) (all_bodied ts) bodied in
    elim (Bool-cases (is_prose t.kind)) [
      | inr e ↦
          rw (e, classify_runs)
            (Typed-cons t t _ ts (blank-public t.kind here (prose-text t.kind e)) refl
              (classify_runs-Typed u fuel first ts later (omega arith)))
      | inl e ↦
          let whole = prose_prefix-append ts in
          let (left, right) =
            all_bodied-append (prose_prefix ts).0 (prose_prefix ts).1 (rw whole later) in
          rw (e, classify_runs)
            (subst
              (λ xs.
                Typed
                  ((if first
                      then classify_title_desc_run u (t ∷ (prose_prefix ts).0)
                      else retype desc (t ∷ (prose_prefix ts).0))
                    ++ classify_runs u fuel false (prose_prefix ts).1)
                  (t ∷ xs))
              whole
              (Typed-append _ (t ∷ (prose_prefix ts).0) _ (prose_prefix ts).1
                (first_or_later-Typed u first (t ∷ (prose_prefix ts).0)
                  (and-intro (is_bodied t.kind) (all_bodied (prose_prefix ts).0) here left))
                (classify_runs-Typed u fuel false (prose_prefix ts).1 right
                  (omega (arith, prose_prefix-length ts)))))
    ]

pub classify_runs-eof :
    (u : Platform) (fuel : ℕ) (first : Bool) (ts : List Token) (e : Token)
    (last : is_prose e.kind ≡ false) (enough : suc (length ts) ≤ fuel)
    → classify_runs u fuel first (ts ++ e ∷ []) ≡ classify_runs u fuel first ts ++ e ∷ []
unfolding classify_runs
classify_runs-eof u zero first ts e last enough = ground arith
classify_runs-eof u (suc zero) first [] e last enough = rw (last, classify_runs) refl
classify_runs-eof u (suc (suc fuel)) first [] e last enough = rw (last, classify_runs) refl
classify_runs-eof u (suc fuel) first (t ∷ ts) e last enough = elim (Bool-cases (is_prose t.kind)) [
  | inr h ↦
      rw (h, classify_runs)
        (ap (λ xs. t ∷ xs) (classify_runs-eof u fuel first ts e last (omega arith)))
  | inl h ↦
      rw (h, prose_prefix-eof ts e last, classify_runs)
        (rw
          (classify_runs-eof u fuel false (prose_prefix ts).1 e last
            (omega (arith, prose_prefix-length ts)))
          (sym (append_assoc _ (classify_runs u fuel false (prose_prefix ts).1) (e ∷ []))))
]
