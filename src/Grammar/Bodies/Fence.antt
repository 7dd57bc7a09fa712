-- ===== src/Grammar/Bodies/Fence.antt =====
-- lexer.go, stages 1 and 2: a fenced YAML body, from the lines to the token.
use codescan.Prelude.{
  Text, ℕ, zero, suc, ◌≤◌, ◌≡◌, refl, sym, ◌∙◌, ap, arith, List, [], ◌∷◌, ◌++◌, map, Option, none,
  some, true, false, length, length-append, append_assoc, append-nil,
}
use codescan.Grammar.Strings.{Platform}
use codescan.Grammar.Token.{Position, yaml_fence, Line, Token, bare}
use codescan.Grammar.Lines.{raw_token, classify_lines}
use codescan.Grammar.Lines.Literal.{fence_line, no_fence, classify_lines-fenced}
use codescan.Grammar.Bodies.{
  collect_fenced_yaml, yaml_token, round, emitted, accumulate, accumulate_bodies,
}
use codescan.Grammar.Bodies.Public.{length-round}

abbrev raws : List Line → List Text
raws lines = map (λ line. line.raw) lines

collect_fenced_yaml-raws :
    (p q : Position) (body raw : List Text) (lines : List Line) (rest : List Token)
    → collect_fenced_yaml p body raw (map raw_token lines ++ bare yaml_fence q ∷ rest)
      ≡ (yaml_token p (body ++ raws lines) (raw ++ raws lines) false, rest)
unfolding collect_fenced_yaml
collect_fenced_yaml-raws p q body raw [] rest = rw (append-nil body, append-nil raw) refl
collect_fenced_yaml-raws p q body raw (line ∷ lines) rest =
    rw
      (
        sym (append_assoc body (line.raw ∷ []) (raws lines)),
        sym (append_assoc raw (line.raw ∷ []) (raws lines)),
      )
      (collect_fenced_yaml-raws p q (body ++ line.raw ∷ []) (raw ++ line.raw ∷ []) lines rest)

-- Any number of rounds that is enough gives the same result.
accumulate-fuel :
    (u : Platform) (f g : ℕ) (ts : List Token) (hf : length ts ≤ f) (hg : length ts ≤ g)
    → accumulate u f ts ≡ accumulate u g ts
unfolding accumulate
accumulate-fuel u f g [] hf hg = refl
accumulate-fuel u zero g (t ∷ ts) hf hg = ground arith
accumulate-fuel u (suc f) zero (t ∷ ts) hf hg = ground arith
accumulate-fuel u (suc f) (suc g) (t ∷ ts) hf hg =
    rw
      (
        accumulate-fuel u f g (round u t ts).1 (ground (arith, length-round u t ts))
            (ground (arith, length-round u t ts)),
        accumulate,
      )
      refl

-- A token in front of the tokens that there are.
abbrev pub onto : Token → Option (List Token) → Option (List Token)
onto t none = none
onto t (some ts) = some (t ∷ ts)

round-fence :
    (u : Platform) (p q : Position) (lines : List Line) (rest : List Token)
    → round u (bare yaml_fence p) (map raw_token lines ++ bare yaml_fence q ∷ rest)
      ≡ (some (yaml_token p (raws lines) (raws lines) false), rest)
unfolding round
round-fence u p q lines rest = rw (collect_fenced_yaml-raws p q [] [] lines rest, round) refl

abbrev after_round : Option Token → Option (List Token) → Option (List Token)
after_round o rest = elim rest [ none ↦ none | some out ↦ some (emitted o out) ]

after_round-onto : (t : Token) (o : Option (List Token)) → after_round (some t) o ≡ onto t o
after_round-onto t none = refl
after_round-onto t (some ts) = refl

accumulate_bodies-fence :
    (u : Platform) (p q : Position) (lines : List Line) (rest : List Token)
    → accumulate_bodies u (bare yaml_fence p ∷ map raw_token lines ++ bare yaml_fence q ∷ rest)
      ≡ onto (yaml_token p (raws lines) (raws lines) false) (accumulate_bodies u rest)
unfolding accumulate_bodies accumulate
accumulate_bodies-fence u p q lines rest =
    let ts = map raw_token lines ++ bare yaml_fence q ∷ rest in
    let enough : length rest ≤ length ts =
      omega (arith, length-append (map raw_token lines) (bare yaml_fence q ∷ rest)) in
    let t = yaml_token p (raws lines) (raws lines) false in
    ap (λ r. after_round r.0 (accumulate u (length ts) r.1)) (round-fence u p q lines rest)
    ∙ ap (after_round (some t))
        (accumulate-fuel u (length ts) (length rest) rest enough (omega arith))
    ∙ after_round-onto t (accumulate u (length rest) rest)

-- A fence, lines of which none is a fence, and a fence again give one YAML token, whatever the
-- lines look like: its body is the raw lines joined by newlines, it is not truncated, and the
-- lines after it give what they give by themselves.
pub fenced_lines-verbatim :
    (u : Platform) (opener : Line) (lines : List Line) (closer : Line) (rest : List Line)
    (opens : fence_line opener ≡ true) (plain : no_fence lines ≡ true)
    (closes : fence_line closer ≡ true)
    → accumulate_bodies u (classify_lines u (opener ∷ lines ++ closer ∷ rest))
      ≡ onto
          (yaml_token opener.pos
            (map (λ line. line.raw) lines)
            (map (λ line. line.raw) lines)
            false)
          (accumulate_bodies u (classify_lines u rest))
fenced_lines-verbatim u opener lines closer rest opens plain closes =
    rw (classify_lines-fenced u opener lines closer rest opens plain closes)
      (accumulate_bodies-fence u opener.pos closer.pos lines (classify_lines u rest))
