-- ===== src/Grammar/Groups/Chunks.antt =====
-- The groups of tokens, against a cut before every annotation but the first.
use codescan.Prelude.{
  ℕ, suc, ◌+◌, ◌-◌, ◌≡◌, refl, sym, ap, subst, ◌∙◌, inl, inr, List, [], ◌∷◌, ◌++◌, take, drop,
  length, true, false, if◌then◌else◌, leb, arith, length-append, append_assoc, append-nil,
  Bool-cases,
}
use codescan.Grammar.Token.{Token, is_annotation}
use codescan.Grammar.Groups.{ann_indices, slices, token_groups}

-- What stands before the first annotation, and a group from each annotation to the next.
abbrev pub add_to_cut : Token → List Token × List (List Token) → List Token × List (List Token)
add_to_cut t (pre, groups) =
    if is_annotation t.kind then ([], (t ∷ pre) ∷ groups) else (t ∷ pre, groups)

abbrev pub cut_at : List Token → List Token × List (List Token)
cut_at [] = ([], [])
cut_at (t ∷ ts) = add_to_cut t (cut_at ts)

-- The first group has what stands before it too.
abbrev glue : List Token → List (List Token) → List (List Token)
glue pre [] = []
glue pre (g ∷ groups) = (pre ++ g) ∷ groups

abbrev pub glue_or : List Token → List (List Token) → List (List Token)
glue_or pre [] = pre ∷ []
glue_or pre (g ∷ groups) = (pre ++ g) ∷ groups

abbrev pub chunks : List Token → List (List Token)
chunks ts = glue_or (cut_at ts).0 (cut_at ts).1

abbrev pub flatten : List (List Token) → List Token
flatten [] = []
flatten (g ∷ groups) = g ++ flatten groups

drop-append : (xs ys : List Token) → drop (length xs) (xs ++ ys) ≡ ys
drop-append [] ys = refl
drop-append (x ∷ xs) ys = drop-append xs ys

take-append : (xs ys : List Token) → take (length xs) (xs ++ ys) ≡ xs
take-append [] ys = refl
take-append (x ∷ xs) ys = ap (λ zs. x ∷ zs) (take-append xs ys)

pub add_to_cut-true :
    (t : Token) (c : List Token × List (List Token))
    → is_annotation t.kind ≡ true
    → add_to_cut t c ≡ ([], (t ∷ c.0) ∷ c.1)
add_to_cut-true t c e = ap (λ b. if b then ([], (t ∷ c.0) ∷ c.1) else (t ∷ c.0, c.1)) e

pub add_to_cut-false :
    (t : Token) (c : List Token × List (List Token))
    → is_annotation t.kind ≡ false
    → add_to_cut t c ≡ (t ∷ c.0, c.1)
add_to_cut-false t c e = ap (λ b. if b then ([], (t ∷ c.0) ∷ c.1) else (t ∷ c.0, c.1)) e

ann_indices-true :
    (i : ℕ) (t : Token) (ts : List Token)
    → is_annotation t.kind ≡ true
    → ann_indices i (t ∷ ts) ≡ i ∷ ann_indices (i + 1) ts
unfolding ann_indices
ann_indices-true i t ts e =
    ap (λ b. if b then i ∷ ann_indices (i + 1) ts else ann_indices (i + 1) ts) e

ann_indices-false :
    (i : ℕ) (t : Token) (ts : List Token)
    → is_annotation t.kind ≡ false
    → ann_indices i (t ∷ ts) ≡ ann_indices (i + 1) ts
unfolding ann_indices
ann_indices-false i t ts e =
    ap (λ b. if b then i ∷ ann_indices (i + 1) ts else ann_indices (i + 1) ts) e

minus_left : (a b : ℕ) → (a + b) - a ≡ b
minus_left a b = omega arith

-- The current group is what lies between the two indices.
take_cur :
    (before cur ts : List Token)
    → take
        ((length before + length cur) - length before)
        (drop (length before) (before ++ (cur ++ ts)))
      ≡ cur
take_cur before cur ts =
    rw (drop-append before (cur ++ ts), minus_left (length before) (length cur))
      (take-append cur ts)

shift_all :
    (before cur : List Token) (t : Token) (ts : List Token)
    → before ++ (cur ++ t ∷ ts) ≡ (before ++ cur) ++ (t ∷ [] ++ ts)
shift_all before cur t ts = sym (append_assoc before cur (t ∷ ts))

step_length :
    (before cur : List Token) (t : Token)
    → length before + length cur + 1 ≡ length before + length (cur ++ t ∷ [])
step_length before cur t = omega (arith, length-append cur (t ∷ []))

slices-one : (all : List Token) (start k : ℕ) → slices all start (k ∷ []) ≡ drop start all ∷ []
unfolding slices
slices-one all start k = refl

slices-two :
    (all : List Token) (start k i : ℕ) (rest : List ℕ)
    → slices all start (k ∷ i ∷ rest) ≡ take (i - start) (drop start all) ∷ slices all i (i ∷ rest)
unfolding slices
slices-two all start k i rest = refl

slices-open :
    (before cur ts : List Token) (k : ℕ)
    → slices
        (before ++ (cur ++ ts))
        (length before)
        (k ∷ ann_indices (length before + length cur) ts)
      ≡ (cur ++ (cut_at ts).0) ∷ (cut_at ts).1
unfolding ann_indices
slices-open before cur [] k =
    rw (slices-one (before ++ (cur ++ [])) (length before) k, drop-append before (cur ++ [])) refl
slices-open before cur (t ∷ ts) k = elim (Bool-cases (is_annotation t.kind)) [
  | inl e ↦
      rw
        (
          ann_indices-true (length before + length cur) t ts e,
          slices-two (before ++ (cur ++ t ∷ ts)) (length before) k (length before + length cur)
              (ann_indices (length before + length cur + 1) ts),
          add_to_cut-true t (cut_at ts) e,
          append-nil cur,
          take_cur before cur (t ∷ ts),
          shift_all before cur t ts,
          sym (length-append before cur),
        )
        (ap (λ gs. cur ∷ gs) (slices-open (before ++ cur) (t ∷ []) ts (length (before ++ cur))))
  | inr e ↦
      rw
        (
          ann_indices-false (length before + length cur) t ts e,
          add_to_cut-false t (cut_at ts) e,
          sym (append_assoc cur (t ∷ []) ts),
          sym (append_assoc cur (t ∷ []) (cut_at ts).0),
          step_length before cur t,
        )
        (slices-open before (cur ++ t ∷ []) ts k)
]

length-snoc : (cur : List Token) (t : Token) → length cur + 1 ≡ length (cur ++ t ∷ [])
length-snoc cur t = omega (arith, length-append cur (t ∷ []))

zero_add : (n : ℕ) → 0 + n ≡ n
zero_add n = omega arith

slices-open_front :
    (cur ts : List Token) (k : ℕ)
    → slices (cur ++ ts) 0 (k ∷ ann_indices (length cur) ts)
      ≡ (cur ++ (cut_at ts).0) ∷ (cut_at ts).1
slices-open_front cur ts k =
    subst
      (λ n. slices (cur ++ ts) 0 (k ∷ ann_indices n ts) ≡ (cur ++ (cut_at ts).0) ∷ (cut_at ts).1)
      (zero_add (length cur)) (slices-open [] cur ts k)

-- While no annotation has been met.
slices-glue :
    (cur ts : List Token)
    → slices (cur ++ ts) 0 (ann_indices (length cur) ts) ≡ glue (cur ++ (cut_at ts).0) (cut_at ts).1
unfolding ann_indices slices
slices-glue cur [] = refl
slices-glue cur (t ∷ ts) = elim (Bool-cases (is_annotation t.kind)) [
  | inl e ↦
      rw
        (
          ann_indices-true (length cur) t ts e,
          add_to_cut-true t (cut_at ts) e,
          append-nil cur,
          sym (append_assoc cur (t ∷ []) ts),
          sym (append_assoc cur (t ∷ []) (cut_at ts).0),
          length-snoc cur t,
        )
        (slices-open_front (cur ++ t ∷ []) ts (length cur))
  | inr e ↦
      rw
        (
          ann_indices-false (length cur) t ts e,
          add_to_cut-false t (cut_at ts) e,
          sym (append_assoc cur (t ∷ []) ts),
          sym (append_assoc cur (t ∷ []) (cut_at ts).0),
          length-snoc cur t,
        )
        (slices-glue (cur ++ t ∷ []) ts)
]

-- What the cut keeps.
flatten-cut : (ts : List Token) → (cut_at ts).0 ++ flatten (cut_at ts).1 ≡ ts
flatten-cut [] = refl
flatten-cut (t ∷ ts) = elim (Bool-cases (is_annotation t.kind)) [
  | inl e ↦ rw (add_to_cut-true t (cut_at ts) e) (ap (λ r. t ∷ r) (flatten-cut ts))
  | inr e ↦ rw (add_to_cut-false t (cut_at ts) e) (ap (λ r. t ∷ r) (flatten-cut ts))
]

length-ann_indices : (i : ℕ) (ts : List Token) → length (ann_indices i ts) ≡ length (cut_at ts).1
unfolding ann_indices
length-ann_indices i [] = refl
length-ann_indices i (t ∷ ts) = elim (Bool-cases (is_annotation t.kind)) [
  | inl e ↦
      rw (ann_indices-true i t ts e, add_to_cut-true t (cut_at ts) e)
        (ap suc (length-ann_indices (i + 1) ts))
  | inr e ↦
      rw (ann_indices-false i t ts e, add_to_cut-false t (cut_at ts) e)
        (length-ann_indices (i + 1) ts)
]

flatten-glue_or :
    (pre : List Token) (groups : List (List Token))
    → flatten (glue_or pre groups) ≡ pre ++ flatten groups
flatten-glue_or pre [] = refl
flatten-glue_or pre (g ∷ groups) = append_assoc pre g (flatten groups)

pub flatten-chunks : (ts : List Token) → flatten (chunks ts) ≡ ts
flatten-chunks ts = flatten-glue_or (cut_at ts).0 (cut_at ts).1 ∙ flatten-cut ts

several :
    (m : ℕ) (one got : List (List Token)) (n : ℕ)
    → n ≡ suc (suc m)
    → (if leb n 1 then one else got) ≡ got
several m one got n h = ground (arith, h)

-- One group is the whole, several are those of the cut.
choose :
    (ts pre : List Token) (groups got : List (List Token)) (n : ℕ)
    → got ≡ glue pre groups
    → n ≡ length groups
    → flatten (glue_or pre groups) ≡ ts
    → (if leb n 1 then ts ∷ [] else got) ≡ glue_or pre groups
choose ts pre [] got n hg hn hf = rw (hn) (ap (λ r. r ∷ []) (sym (sym (append-nil pre) ∙ hf)))
choose ts pre (g ∷ []) got n hg hn hf =
    rw (hn) (ap (λ r. r ∷ []) (sym (sym (append-nil (pre ++ g)) ∙ hf)))
choose ts pre (g ∷ g2 ∷ groups) got n hg hn hf = several (length groups) (ts ∷ []) got n hn ∙ hg

-- The groups of `parseAllTokens` are those that begin at every annotation but the first.
pub token_groups-chunks : (ts : List Token) → token_groups ts ≡ chunks ts
unfolding token_groups
token_groups-chunks ts =
    choose ts (cut_at ts).0 (cut_at ts).1 (slices ts 0 (ann_indices 0 ts))
      (length (ann_indices 0 ts)) (slices-glue [] ts) (length-ann_indices 0 ts) (flatten-chunks ts)

-- The groups of a comment, one behind the other, are its tokens.
pub token_groups-flatten : (ts : List Token) → flatten (token_groups ts) ≡ ts
token_groups-flatten ts = ap flatten (token_groups-chunks ts) ∙ flatten-chunks ts
