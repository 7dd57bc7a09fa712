-- ===== src/Grammar/Groups/Counts.antt =====
-- How many groups there are, and what each has: one annotation.
use codescan.Prelude.{
  ℕ, suc, ◌+◌, ◌≡◌, refl, sym, ap, subst, ◌∙◌, ◌⊎◌, inl, inr, List, [], ◌∷◌, ◌++◌, length, true,
  false, if◌then◌else◌, All, arith, append-nil, Bool-cases,
}
use codescan.Grammar.Token.{Token, is_annotation}
use codescan.Grammar.Groups.{token_groups}
use codescan.Grammar.Groups.Chunks.{
  cut_at, glue_or, flatten, flatten-chunks, add_to_cut-true, add_to_cut-false, token_groups-chunks,
}

abbrev pub annotations : List Token → ℕ
annotations [] = 0
annotations (t ∷ ts) = let rest = annotations ts in if is_annotation t.kind then suc rest else rest

annotations-true :
    (t : Token) (ts : List Token)
    → is_annotation t.kind ≡ true
    → annotations (t ∷ ts) ≡ suc (annotations ts)
annotations-true t ts e = ap (λ b. if b then suc (annotations ts) else annotations ts) e

annotations-false :
    (t : Token) (ts : List Token)
    → is_annotation t.kind ≡ false
    → annotations (t ∷ ts) ≡ annotations ts
annotations-false t ts e = ap (λ b. if b then suc (annotations ts) else annotations ts) e

annotations-append : (xs ys : List Token) → annotations (xs ++ ys) ≡ annotations xs + annotations ys
annotations-append [] ys = omega arith
annotations-append (t ∷ xs) ys = elim (Bool-cases (is_annotation t.kind)) [
  | inl e ↦
      rw (annotations-true t (xs ++ ys) e, annotations-true t xs e)
        (omega (arith, annotations-append xs ys))
  | inr e ↦
      rw (annotations-false t (xs ++ ys) e, annotations-false t xs e) (annotations-append xs ys)
]

abbrev OneEach : List (List Token) → Type 0
OneEach groups = All (λ g. annotations g ≡ 1) groups

-- The cut has as many groups as there are annotations, each with one, and none stands before them.
abbrev IsCut : ℕ → List Token × List (List Token) → Type 0
IsCut n (pre, groups) = (annotations pre ≡ 0) × ((length groups ≡ n) × OneEach groups)

cut_at-IsCut : (ts : List Token) → IsCut (annotations ts) (cut_at ts)
cut_at-IsCut [] = (refl, (refl, tt))
cut_at-IsCut (t ∷ ts) = elim (Bool-cases (is_annotation t.kind)) [
  | inl e ↦
      subst (λ c. IsCut (annotations (t ∷ ts)) c) (sym (add_to_cut-true t (cut_at ts) e))
        (
          refl,
          (
            ap suc (cut_at-IsCut ts).1.0 ∙ sym (annotations-true t ts e),
            (
              annotations-true t (cut_at ts).0 e ∙ ap suc (cut_at-IsCut ts).0,
              (cut_at-IsCut ts).1.1,
            ),
          ),
        )
  | inr e ↦
      subst (λ c. IsCut (annotations (t ∷ ts)) c) (sym (add_to_cut-false t (cut_at ts) e))
        (
          annotations-false t (cut_at ts).0 e ∙ (cut_at-IsCut ts).0,
          ((cut_at-IsCut ts).1.0 ∙ sym (annotations-false t ts e), (cut_at-IsCut ts).1.1),
        )
]

abbrev pub Grouped : ℕ → List Token → List (List Token) → Type 0
Grouped n ts groups = ((n ≡ 0) × (groups ≡ ts ∷ [])) ⊎ ((length groups ≡ n) × OneEach groups)

glue_or-Grouped :
    (n : ℕ) (ts pre : List Token) (groups : List (List Token))
    → IsCut n (pre, groups)
    → flatten (glue_or pre groups) ≡ ts
    → Grouped n ts (glue_or pre groups)
glue_or-Grouped n ts pre [] h hf = inl (sym h.1.0, ap (λ r. r ∷ []) (sym (append-nil pre) ∙ hf))
glue_or-Grouped n ts pre (g ∷ groups) h hf =
    inr (h.1.0, (annotations-append pre g ∙ omega (arith, h.0, h.1.1.0), h.1.1.1))

-- A comment without annotation is one group. Any other has a group for each annotation, and each
-- group has just one annotation.
pub token_groups-one_each : (ts : List Token) → Grouped (annotations ts) ts (token_groups ts)
token_groups-one_each ts =
    subst (λ gs. Grouped (annotations ts) ts gs) (sym (token_groups-chunks ts))
      (glue_or-Grouped (annotations ts) ts (cut_at ts).0 (cut_at ts).1 (cut_at-IsCut ts)
        (flatten-chunks ts))
