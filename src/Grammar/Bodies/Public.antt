-- ===== src/Grammar/Bodies/Public.antt =====
-- Every token that stage 2 emits is one that the parser reads, or prose for stage 3; and the loop
-- ends within one round for each token.
use codescan.Prelude.{
  Text, ℕ, zero, suc, ◌≤◌, ◌≡◌, refl, ap, List, [], ◌∷◌, ◌++◌, Option, none, some, Bool, true,
  false, length, arith, Option-cases, inl, inr,
}
use codescan.Grammar.Strings.{Platform}
use codescan.Grammar.Token.{Position, Token, is_line_kind, all_line_kinds, is_bodied, all_bodied}
use codescan.Grammar.Keywords.{Keyword, ValueShape}
use codescan.Grammar.Bodies.{
  prose_run, collect_description_body, raw_run, collect_description_literal, collect_fenced_yaml,
  collect_keyword, finalise_inline_keyword, round, emitted, accumulate, accumulate_bodies,
  eof_token, keyword_of,
}
use codescan.Grammar.Blocks.{
  Body, raw_block_step, raw_value_step, opening, collect_raw_block, collect_value_lines,
  collect_raw_value,
}

abbrev nothing : Body
nothing = record { text = []; raw = []; pending = 0 }

-- The tokens left are no more than those that were there.
length-prose_run : (ts : List Token) → length (prose_run ts).1 ≤ length ts
unfolding prose_run
length-prose_run [] = omega arith
length-prose_run (t ∷ ts) = ground (arith, length-prose_run ts)

length-raw_run : (ts : List Token) → length (raw_run ts).1 ≤ length ts
unfolding raw_run
length-raw_run [] = omega arith
length-raw_run (t ∷ ts) = ground (arith, length-raw_run ts)

length-fenced :
    (p : Position) (body raw : List Text) (ts : List Token)
    → length (collect_fenced_yaml p body raw ts).1 ≤ length ts
unfolding collect_fenced_yaml
length-fenced p body raw [] = omega arith
length-fenced p body raw (t ∷ ts) = ground (
  arith,
  length-fenced p (body ++ t.text ∷ []) (raw ++ t.raw ∷ []) ts,
  length-fenced p body raw ts,
)

length-collect_raw_block :
    (u : Platform) (kw : Keyword) (head : Token) (inside : Bool) (b : Body) (ts : List Token)
    → length (collect_raw_block u kw head inside b ts).1 ≤ length ts
unfolding collect_raw_block
length-collect_raw_block u kw head inside b [] = omega arith
length-collect_raw_block u kw head inside b (t ∷ ts) =
    elim (Option-cases (raw_block_step u kw head inside b t)) [
      | inl e ↦ rw (e, collect_raw_block) (omega arith)
      | inr ((i, b'), e) ↦
          rw (e, collect_raw_block) (ground (arith, length-collect_raw_block u kw head i b' ts))
    ]

length-collect_value_lines :
    (u : Platform) (kw : Keyword) (head : Token) (b : Body) (ts : List Token)
    → length (collect_value_lines u kw head b ts).1 ≤ length ts
unfolding collect_value_lines
length-collect_value_lines u kw head b [] = omega arith
length-collect_value_lines u kw head b (t ∷ ts) = elim (Option-cases (raw_value_step u kw b t)) [
  | inl e ↦ rw (e, collect_value_lines) (omega arith)
  | inr (b', e) ↦
      rw (e, collect_value_lines) (ground (arith, length-collect_value_lines u kw head b' ts))
]

length-collect_keyword :
    (u : Platform) (t : Token) (ts : List Token) (kw : Keyword) (shape : ValueShape)
    → length (collect_keyword u t ts kw shape).1 ≤ length ts
unfolding collect_keyword collect_raw_value
length-collect_keyword u t ts kw shape = ground (
  arith,
  length-collect_raw_block u kw t false (opening t) ts,
  length-collect_value_lines u kw t nothing ts,
)

pub length-round :
    (u : Platform) (t : Token) (ts : List Token) → length (round u t ts).1 ≤ length ts
unfolding round collect_description_literal collect_description_body
length-round u t ts = ground (
  arith,
  length-fenced t.pos [] [] ts,
  length-collect_keyword u t ts (keyword_of u t) (keyword_of u t).shape,
  length-raw_run ts,
  length-prose_run ts,
)

all_line_kinds-prose_run :
    (ts : List Token) (clean : all_line_kinds ts ≡ true) → all_line_kinds (prose_run ts).1 ≡ true
unfolding prose_run
all_line_kinds-prose_run [] clean = refl
all_line_kinds-prose_run (t ∷ ts) clean = ground (arith, all_line_kinds-prose_run ts)

all_line_kinds-raw_run :
    (ts : List Token) (clean : all_line_kinds ts ≡ true) → all_line_kinds (raw_run ts).1 ≡ true
unfolding raw_run
all_line_kinds-raw_run [] clean = refl
all_line_kinds-raw_run (t ∷ ts) clean = ground (arith, all_line_kinds-raw_run ts)

all_line_kinds-fenced :
    (p : Position) (body raw : List Text) (ts : List Token) (clean : all_line_kinds ts ≡ true)
    → all_line_kinds (collect_fenced_yaml p body raw ts).1 ≡ true
unfolding collect_fenced_yaml
all_line_kinds-fenced p body raw [] clean = refl
all_line_kinds-fenced p body raw (t ∷ ts) clean = ground (
  arith,
  all_line_kinds-fenced p (body ++ t.text ∷ []) (raw ++ t.raw ∷ []) ts,
  all_line_kinds-fenced p body raw ts,
)

all_line_kinds-collect_raw_block :
    (u : Platform) (kw : Keyword) (head : Token) (inside : Bool) (b : Body) (ts : List Token)
    (clean : all_line_kinds ts ≡ true)
    → all_line_kinds (collect_raw_block u kw head inside b ts).1 ≡ true
unfolding collect_raw_block
all_line_kinds-collect_raw_block u kw head inside b [] clean = clean
all_line_kinds-collect_raw_block u kw head inside b (t ∷ ts) clean =
    elim (Option-cases (raw_block_step u kw head inside b t)) [
      | inl e ↦ rw (e, collect_raw_block) (clean)
      | inr ((i, b'), e) ↦
          rw (e, collect_raw_block)
            (all_line_kinds-collect_raw_block u kw head i b' ts (ground arith))
    ]

all_line_kinds-collect_value_lines :
    (u : Platform) (kw : Keyword) (head : Token) (b : Body) (ts : List Token)
    (clean : all_line_kinds ts ≡ true)
    → all_line_kinds (collect_value_lines u kw head b ts).1 ≡ true
unfolding collect_value_lines
all_line_kinds-collect_value_lines u kw head b [] clean = clean
all_line_kinds-collect_value_lines u kw head b (t ∷ ts) clean =
    elim (Option-cases (raw_value_step u kw b t)) [
      | inl e ↦ rw (e, collect_value_lines) (clean)
      | inr (b', e) ↦
          rw (e, collect_value_lines)
            (all_line_kinds-collect_value_lines u kw head b' ts (ground arith))
    ]

all_line_kinds-collect_keyword :
    (u : Platform) (t : Token) (ts : List Token) (kw : Keyword) (shape : ValueShape)
    (clean : all_line_kinds ts ≡ true)
    → all_line_kinds (collect_keyword u t ts kw shape).1 ≡ true
unfolding collect_keyword collect_raw_value
all_line_kinds-collect_keyword u t ts kw shape clean = ground (
  arith,
  all_line_kinds-collect_raw_block u kw t false (opening t) ts,
  all_line_kinds-collect_value_lines u kw t nothing ts,
)

all_line_kinds-round :
    (u : Platform) (t : Token) (ts : List Token) (clean : all_line_kinds ts ≡ true)
    → all_line_kinds (round u t ts).1 ≡ true
unfolding round collect_description_literal collect_description_body
all_line_kinds-round u t ts clean = ground (
  arith,
  all_line_kinds-fenced t.pos [] [] ts,
  all_line_kinds-collect_keyword u t ts (keyword_of u t) (keyword_of u t).shape,
  all_line_kinds-raw_run ts,
  all_line_kinds-prose_run ts,
)

bodied-fenced :
    (p : Position) (body raw : List Text) (ts : List Token)
    → is_bodied (collect_fenced_yaml p body raw ts).0.kind ≡ true
unfolding collect_fenced_yaml
bodied-fenced p body raw [] = refl
bodied-fenced p body raw (t ∷ ts) = ground (
  arith,
  bodied-fenced p (body ++ t.text ∷ []) (raw ++ t.raw ∷ []) ts,
  bodied-fenced p body raw ts,
)

bodied-collect_raw_block :
    (u : Platform) (kw : Keyword) (head : Token) (inside : Bool) (b : Body) (ts : List Token)
    → is_bodied (collect_raw_block u kw head inside b ts).0.kind ≡ true
unfolding collect_raw_block
bodied-collect_raw_block u kw head inside b [] = refl
bodied-collect_raw_block u kw head inside b (t ∷ ts) =
    elim (Option-cases (raw_block_step u kw head inside b t)) [
      | inl e ↦ rw (e, collect_raw_block) (refl)
      | inr ((i, b'), e) ↦ rw (e, collect_raw_block) (bodied-collect_raw_block u kw head i b' ts)
    ]

bodied-collect_value_lines :
    (u : Platform) (kw : Keyword) (head : Token) (b : Body) (ts : List Token)
    → is_bodied (collect_value_lines u kw head b ts).0.kind ≡ true
unfolding collect_value_lines
bodied-collect_value_lines u kw head b [] = refl
bodied-collect_value_lines u kw head b (t ∷ ts) = elim (Option-cases (raw_value_step u kw b t)) [
  | inl e ↦ rw (e, collect_value_lines) (refl)
  | inr (b', e) ↦ rw (e, collect_value_lines) (bodied-collect_value_lines u kw head b' ts)
]

bodied-collect_keyword :
    (u : Platform) (t : Token) (ts : List Token) (kw : Keyword) (shape : ValueShape)
    → is_bodied (collect_keyword u t ts kw shape).0.kind ≡ true
unfolding collect_keyword collect_raw_value finalise_inline_keyword
bodied-collect_keyword u t ts kw shape = ground (
  arith,
  bodied-collect_raw_block u kw t false (opening t) ts,
  bodied-collect_value_lines u kw t nothing ts,
)

bodied-round :
    (u : Platform) (t : Token) (ts : List Token) (out : List Token)
    (clean : is_line_kind t.kind ≡ true) (rest : all_bodied out ≡ true)
    → all_bodied (emitted (round u t ts).0 out) ≡ true
unfolding round collect_description_literal collect_description_body
bodied-round u t ts out clean rest = ground (
  arith,
  bodied-fenced t.pos [] [] ts,
  bodied-collect_keyword u t ts (keyword_of u t) (keyword_of u t).shape,
)

-- What the loop returns: tokens for the parser, and the end of input.
abbrev pub Closes : Option (List Token) → Type 0
Closes result = (out : List Token) × all_bodied out ≡ true × result ≡ some (out ++ eof_token ∷ [])

emitted-append : (o : Option Token) (xs ys : List Token) → emitted o (xs ++ ys) ≡ emitted o xs ++ ys
emitted-append none xs ys = refl
emitted-append (some t) xs ys = refl

accumulate-Closes :
    (u : Platform) (fuel : ℕ) (ts : List Token) (clean : all_line_kinds ts ≡ true)
    (enough : length ts ≤ fuel)
    → Closes (accumulate u fuel ts)
unfolding accumulate
accumulate-Closes u fuel [] clean enough = ([], refl, refl)
accumulate-Closes u zero (t ∷ ts) clean enough = ground arith
accumulate-Closes u (suc fuel) (t ∷ ts) clean enough =
    let later : all_line_kinds ts ≡ true = ground arith in
    let here : is_line_kind t.kind ≡ true = ground arith in
    let (out, bodied, found) =
      accumulate-Closes u fuel (round u t ts).1 (all_line_kinds-round u t ts later)
        (ground (arith, length-round u t ts)) in
    (
      emitted (round u t ts).0 out,
      bodied-round u t ts out here bodied,
      rw (found, accumulate) (ap some (emitted-append (round u t ts).0 out (eof_token ∷ []))),
    )

-- On any tokens of the kinds of stage 1, `accumulateBodies` returns, and its result is the end of
-- input after tokens that are blank, prose, titled, an annotation, a keyword, a body or YAML.
pub accumulate_bodies-Closes :
    (u : Platform) (ts : List Token) (clean : all_line_kinds ts ≡ true)
    → Closes (accumulate_bodies u ts)
unfolding accumulate_bodies
accumulate_bodies-Closes u ts clean = accumulate-Closes u (length ts) ts clean (omega arith)
