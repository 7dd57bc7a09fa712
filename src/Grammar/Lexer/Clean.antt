-- ===== src/Grammar/Lexer/Clean.antt =====
-- lexer.go, `Lex`: what the parser may rely on.
use codescan.Prelude.{
  suc, ◌≡◌, refl, ap, arith, List, [], ◌∷◌, ◌++◌, keep, length, some, true, inl, inr, ◌≤◌,
  Bool-cases, and-intro, and-elim, length-append,
}
use codescan.Grammar.Strings.{Platform}
use codescan.Grammar.Token.{Line, Token, is_bodied, all_bodied, all_public}
use codescan.Grammar.Lines.{classify_lines}
use codescan.Grammar.Lines.OneToken.{classify_lines-one_token}
use codescan.Grammar.Bodies.{eof_token}
use codescan.Grammar.Bodies.Public.{accumulate_bodies-Closes}
use codescan.Grammar.Prose.{classify_prose, classify_runs, no_marker}
use codescan.Grammar.Prose.Runs.{Typed, classify_runs-Typed, classify_runs-eof}
use codescan.Grammar.Lexer.{lex}

keep-bodied :
    (ts : List Token) (bodied : all_bodied ts ≡ true) → all_bodied (keep no_marker ts) ≡ true
keep-bodied [] bodied = refl
keep-bodied (t ∷ ts) bodied =
    let (here, later) = and-elim (is_bodied t.kind) (all_bodied ts) bodied in
    elim (Bool-cases (no_marker t)) [
      | inl e ↦ rw e (
          and-intro (is_bodied t.kind) (all_bodied (keep no_marker ts)) here (keep-bodied ts later))
      | inr e ↦ rw e (keep-bodied ts later)
    ]

keep-eof :
    (ts : List Token) → keep no_marker (ts ++ eof_token ∷ []) ≡ keep no_marker ts ++ eof_token ∷ []
keep-eof [] = refl
keep-eof (t ∷ ts) = elim (Bool-cases (no_marker t)) [
  | inl e ↦ rw e (ap (λ xs. t ∷ xs) (keep-eof ts))
  | inr e ↦ rw e (keep-eof ts)
]

-- `classifyProse` on the output of stage 2 keeps every token but the marker comments, with its raw
-- line and its position and in its place; no line of prose is left untyped, and the end of input
-- stays last.
pub classify_prose-Typed :
    (u : Platform) (ts : List Token) (bodied : all_bodied ts ≡ true)
    → (out : List Token) × Typed out (keep no_marker ts)
      × classify_prose u (ts ++ eof_token ∷ []) ≡ out ++ eof_token ∷ []
unfolding classify_prose
classify_prose-Typed u ts bodied =
    let marked = keep no_marker ts in
    let fuel = length (marked ++ eof_token ∷ []) in
    let enough : suc (length marked) ≤ fuel =
      omega (arith, length-append marked (eof_token ∷ [])) in
    (
      classify_runs u fuel true marked,
      classify_runs-Typed u fuel true marked (keep-bodied ts bodied) (omega arith),
      rw (keep-eof ts) (classify_runs-eof u fuel true marked eof_token refl enough),
    )

-- `Lex` returns on any lines, and its result is the end of input after tokens that the parser reads:
-- blank, title, description, annotation, keyword, body or YAML.
pub lex-public :
    (u : Platform) (lines : List Line)
    → (out : List Token) × all_public out ≡ true × lex u lines ≡ some (out ++ eof_token ∷ [])
unfolding lex
lex-public u lines =
    let (bodied, clean, stage2) =
      accumulate_bodies-Closes u (classify_lines u lines) (classify_lines-one_token u lines).1 in
    let (out, typed, stage3) = classify_prose-Typed u bodied clean in
    (out, typed.0, rw (stage2, lex) (ap some stage3))
