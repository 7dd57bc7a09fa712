-- ===== src/Grammar/Comments/Positions.antt =====
-- The offset of a line is that of its text in the comment.
use codescan.Prelude.{
  Text, codes, ℕ, ◌+◌, ◌-◌, ◌≡◌, refl, sym, ap, ◌∙◌, ◌⊎◌, inl, inr, List, [], ◌∷◌, ◌++◌, Option,
  none, some, Bool, true, false, ◌&&◌, len, cut_prefix, split, push_head, join, ◌==◌, if◌then◌else◌,
  All, append_assoc, append-nil, Bool-cases, ==_iff, arith,
}
use codescan.Grammar.Strings.{is_space, is_blank_code, trim_left}
use codescan.Grammar.Token.{Position, advance, Line}
use codescan.Grammar.Comments.{
  trim_closer, normalize_bullet, trim_bar, is_decoration, plain_strip, trim_decoration,
  trim_content_prefix, after_star, star_or, strip_block_continuation, strip_line, block_position,
  block_lines, block_or_whole, line_or_block, strip_comment,
}

len-append : (s t : Text) → len (s ++ t) ≡ len s + len t
unfolding len
len-append [] t = omega arith
len-append (c ∷ s) t = ground (arith, len-append s t)

-- A text is what was cut from its front, and the rest.
abbrev CutFrom : Text → Text → Type 0
CutFrom s r = (before : Text) × (s ≡ before ++ r)

CutFrom-trans : (s r q : Text) → CutFrom s r → CutFrom r q → CutFrom s q
CutFrom-trans s r q h k = (h.0 ++ k.0, h.1 ∙ ap (λ t. h.0 ++ t) k.1 ∙ sym (append_assoc h.0 k.0 q))

if-CutFrom : (s x y : Text) (b : Bool) → CutFrom s x → CutFrom s y → CutFrom s (if b then x else y)
if-CutFrom s x y true hx hy = hx
if-CutFrom s x y false hx hy = hy

drop_one-CutFrom : (c : ℕ) (s : Text) (b : Bool) → CutFrom (c ∷ s) (if b then s else c ∷ s)
drop_one-CutFrom c s b = if-CutFrom (c ∷ s) s (c ∷ s) b (c ∷ [], refl) ([], refl)

trim_left-CutFrom : (p : ℕ → Bool) (s : Text) → CutFrom s (trim_left p s)
unfolding trim_left
trim_left-CutFrom p [] = ([], refl)
trim_left-CutFrom p (c ∷ s) =
    let h = trim_left-CutFrom p s in
    if-CutFrom (c ∷ s) (trim_left p s) (c ∷ s) (p c) (c ∷ h.0, ap (λ t. c ∷ t) h.1) ([], refl)

trim_bar-CutFrom : (s : Text) → CutFrom s (trim_bar s)
trim_bar-CutFrom [] = ([], refl)
trim_bar-CutFrom (c ∷ s) = drop_one-CutFrom c s (c == b'|')

trim_decoration-CutFrom : (s : Text) → CutFrom s (trim_decoration s)
unfolding trim_decoration
trim_decoration-CutFrom s =
    let t = trim_left is_decoration s in
    CutFrom-trans s t (trim_left is_blank_code (trim_bar t)) (trim_left-CutFrom is_decoration s) (
      CutFrom-trans t (trim_bar t) (trim_left is_blank_code (trim_bar t)) (trim_bar-CutFrom t)
        (trim_left-CutFrom is_blank_code (trim_bar t)))

after_star-CutFrom : (c : ℕ) (s : Text) → CutFrom (c ∷ s) (after_star s)
after_star-CutFrom c [] = (c ∷ [], refl)
after_star-CutFrom c (d ∷ s) =
    if-CutFrom (c ∷ d ∷ s) s (d ∷ s) (is_space d) (c ∷ d ∷ [], refl) (c ∷ [], refl)

star_or-CutFrom : (s r : Text) → CutFrom s r → CutFrom s (star_or s r)
star_or-CutFrom s [] h = ([], refl)
star_or-CutFrom s (c ∷ r) h =
    if-CutFrom s (after_star r) s (c == b'*')
      (CutFrom-trans s (c ∷ r) (after_star r) h (after_star-CutFrom c r)) ([], refl)

block-CutFrom : (s : Text) → CutFrom s (strip_block_continuation s)
unfolding strip_block_continuation
block-CutFrom s = star_or-CutFrom s (trim_left is_space s) (trim_left-CutFrom is_space s)

len-normalize_bullet : (s : Text) → len (normalize_bullet s) ≡ len s
unfolding len normalize_bullet
len-normalize_bullet [] = refl
len-normalize_bullet (c ∷ []) = refl
len-normalize_bullet (c ∷ d ∷ s) = ground arith

push_head-join :
    (c : ℕ) (ws : List Text) → join (codes "\n") (push_head c ws) ≡ c ∷ join (codes "\n") ws
unfolding join
push_head-join c [] = refl
push_head-join c (w ∷ []) = refl
push_head-join c (w ∷ v ∷ ws) = refl

abbrev Cons : List Text → Type 0
Cons ws = (w : Text) × ((vs : List Text) × (ws ≡ w ∷ vs))

push_head-Cons : (c : ℕ) (ws : List Text) → Cons (push_head c ws)
push_head-Cons c [] = (c ∷ [], ([], refl))
push_head-Cons c (w ∷ ws) = (c ∷ w, (ws, refl))

if-Cons : (b : Bool) (x y : List Text) → Cons y → Cons (if b then [] ∷ x else y)
if-Cons true x y h = ([], (x, refl))
if-Cons false x y h = h

split-Cons : (s : Text) → Cons (split 10 s)
unfolding split
split-Cons [] = ([], ([], refl))
split-Cons (c ∷ s) =
    if-Cons (c == 10) (split 10 s) (push_head c (split 10 s)) (push_head-Cons c (split 10 s))

join-nil_head : (ws : List Text) → Cons ws → join (codes "\n") ([] ∷ ws) ≡ 10 ∷ join (codes "\n") ws
unfolding join
join-nil_head [] h = absurd (cc h.1.1)
join-nil_head (w ∷ ws) h = refl

join-split : (s : Text) → join (codes "\n") (split 10 s) ≡ s
unfolding split
join-split [] = unfold join in refl
join-split (c ∷ s) = elim (Bool-cases (c == 10)) [
  | inl e ↦
      ap (λ b. join (codes "\n") (if b then [] ∷ split 10 s else push_head c (split 10 s))) e
      ∙ join-nil_head (split 10 s) (split-Cons s)
      ∙ ap (λ t. 10 ∷ t) (join-split s)
      ∙ ap (λ n. n ∷ s) (sym ((==_iff c 10).0 e))
  | inr e ↦
      ap (λ b. join (codes "\n") (if b then [] ∷ split 10 s else push_head c (split 10 s))) e
      ∙ push_head-join c (split 10 s)
      ∙ ap (λ t. c ∷ t) (join-split s)
]

-- The text of a line is a piece of the comment, up to its bullet, and its offset that of the piece.
abbrev pub Located : Text → Position → Line → Type 0
Located text base l =
    (before : Text) × ((seg : Text) × ((after : Text) × ((text ≡ before ++ (seg ++ after))
          × (((l.text ≡ seg) ⊎ (l.text ≡ normalize_bullet seg))
              × (l.pos.offset ≡ base.offset + len before)))))

regroup : (pre b d post : Text) → pre ++ ((b ++ d) ++ post) ≡ (pre ++ b) ++ (d ++ post)
regroup pre b d post =
    ap (λ t. pre ++ t) (append_assoc b d post) ∙ sym (append_assoc pre b (d ++ post))

offset-cut : (o p b d n : ℕ) → p ≡ o + n → p + ((b + d) - d) ≡ o + (n + b)
offset-cut o p b d n h = omega (arith, h)

strip_line-Located :
    (raw : Text → Text) (text : Text) (base : Position) (pre seg post : Text) (p : Position)
    → CutFrom seg (raw seg)
    → text ≡ pre ++ (seg ++ post)
    → p.offset ≡ base.offset + len pre
    → Located text base (strip_line raw seg p)
unfolding strip_line trim_content_prefix
strip_line-Located raw text base pre seg post p h e o =
    let d = trim_decoration (raw seg) in
    let cut = CutFrom-trans seg (raw seg) d h (trim_decoration-CutFrom (raw seg)) in
    (
      pre ++ cut.0,
      (
        d,
        (
          post,
          (
            e ∙ ap (λ t. pre ++ (t ++ post)) cut.1 ∙ regroup pre cut.0 d post,
            (
              inr refl,
              ap (λ n. p.offset + (n - len (normalize_bullet d)))
                    (ap len cut.1 ∙ len-append cut.0 d)
                  ∙ ap (λ n. p.offset + ((len cut.0 + len d) - n)) (len-normalize_bullet d)
                  ∙ offset-cut base.offset p.offset (len cut.0) (len d) (len pre) o
                  ∙ ap (λ n. base.offset + n) (sym (len-append pre cut.0)),
            ),
          ),
        ),
      ),
    )

block-offset :
    (base : Position) (idx offset n : ℕ)
    → n ≡ 2 + offset
    → ((idx == 0) ≡ true → offset ≡ 0)
    → (block_position base idx offset).offset ≡ base.offset + n
block-offset base idx offset n h z = elim (Bool-cases (idx == 0)) [
  | inl e ↦ ground (arith, e, h, z e)
  | inr e ↦ ground (arith, e, h)
]

next_line :
    (pre seg rest post : Text)
    → pre ++ ((seg ++ (10 ∷ rest)) ++ post) ≡ (pre ++ (seg ++ 10 ∷ [])) ++ (rest ++ post)
next_line pre seg rest post =
    ap (λ t. pre ++ (t ++ post)) (sym (append_assoc seg (10 ∷ []) rest))
    ∙ regroup pre (seg ++ 10 ∷ []) rest post

next_offset : (n offset k : ℕ) → n ≡ 2 + offset → n + (k + len (10 ∷ [])) ≡ 2 + (offset + (k + 1))
next_offset n offset k h = unfold len in omega (arith, h)

-- The lines of the body of a block comment, from some line on.
block_lines-Located :
    (text : Text) (base : Position) (pre post : Text) (idx offset : ℕ) (segs : List Text)
    → text ≡ pre ++ (join (codes "\n") segs ++ post)
    → len pre ≡ 2 + offset
    → ((idx == 0) ≡ true → offset ≡ 0)
    → All (λ l. Located text base l) (block_lines base idx offset segs)
unfolding block_lines join
block_lines-Located text base pre post idx offset [] e n z = tt
block_lines-Located text base pre post idx offset (seg ∷ []) e n z = (
  strip_line-Located strip_block_continuation text base pre seg post
      (block_position base idx offset) (block-CutFrom seg) e
      (block-offset base idx offset (len pre) n z),
  tt,
)
block_lines-Located text base pre post idx offset (seg ∷ next ∷ segs) e n z =
    let rest = join (codes "\n") (next ∷ segs) in
    (
      strip_line-Located strip_block_continuation text base pre seg (10 ∷ (rest ++ post))
          (block_position base idx offset) (block-CutFrom seg)
          (e ∙ ap (λ t. pre ++ t) (append_assoc seg (10 ∷ rest) post))
          (block-offset base idx offset (len pre) n z),
      block_lines-Located text base (pre ++ (seg ++ 10 ∷ [])) post (idx + 1)
          (offset + (len seg + 1)) (next ∷ segs) (e ∙ next_line pre seg rest post)
          (len-append pre (seg ++ 10 ∷ [])
            ∙ ap (λ k. len pre + k) (len-append seg (10 ∷ []))
            ∙ next_offset (len pre) offset (len seg) n)
          (λ h. absurd (ground (arith, h))),
    )

abbrev After : Text → Text → Option Text → Type 0
After p s none = Unit
After p s (some rest) = s ≡ p ++ rest

if-After :
    (p s : Text) (b : Bool) (o : Option Text)
    → (b ≡ true → After p s o)
    → After p s (if b then o else none)
if-After p s true o h = h refl
if-After p s false o h = tt

cons-After :
    (c d : ℕ) (p s : Text) (o : Option Text) → c ≡ d → After p s o → After (c ∷ p) (d ∷ s) o
cons-After c d p s none e h = tt
cons-After c d p s (some rest) e h = ap (λ x. x ∷ s) (sym e) ∙ ap (λ t. c ∷ t) h

cut_prefix-After : (p s : Text) → After p s (cut_prefix p s)
unfolding cut_prefix
cut_prefix-After [] s = refl
cut_prefix-After (c ∷ p) [] = tt
cut_prefix-After (c ∷ p) (d ∷ s) =
    if-After (c ∷ p) (d ∷ s) (c == d) (cut_prefix p s)
      (λ e. cons-After c d p s (cut_prefix p s) ((==_iff c d).0 e) (cut_prefix-After p s))

abbrev CutBack : Text → Text → Type 0
CutBack s r = (after : Text) × (s ≡ r ++ after)

if-CutBack : (b : Bool) (s : Text) → CutBack s (if b then [] else s)
if-CutBack true s = (s, refl)
if-CutBack false s = ([], sym (append-nil s))

trim_closer-CutBack : (s : Text) → CutBack s (trim_closer s)
unfolding trim_closer
trim_closer-CutBack [] = ([], refl)
trim_closer-CutBack (c ∷ []) = ([], refl)
trim_closer-CutBack (c ∷ d ∷ []) = if-CutBack (c == b'*' && d == b'/') (c ∷ d ∷ [])
trim_closer-CutBack (c ∷ d ∷ e ∷ s) =
    let h = trim_closer-CutBack (d ∷ e ∷ s) in (h.0, ap (λ t. c ∷ t) h.1)

block-Located :
    (text : Text) (base : Position) (o : Option Text)
    → After (codes "/*") text o
    → All (λ l. Located text base l) (block_or_whole text base o)
block-Located text base none h =
    (([], (text, ([], (sym (append-nil text), (inl refl, unfold len in omega arith))))), tt)
block-Located text base (some rest) h =
    let back = trim_closer-CutBack rest in
    block_lines-Located text base (codes "/*") back.0 0 0 (split 10 (trim_closer rest))
      (h
        ∙ ap (λ t. codes "/*" ++ t)
            (back.1 ∙ ap (λ t. t ++ back.0) (sym (join-split (trim_closer rest)))))
      (unfold len in refl) (λ e. refl)

line-Located :
    (text : Text) (base : Position) (o : Option Text)
    → After (codes "//") text o
    → All (λ l. Located text base l) (line_or_block text base o)
line-Located text base none h =
    block-Located text base (cut_prefix (codes "/*") text) (cut_prefix-After (codes "/*") text)
line-Located text base (some rest) h = (
  strip_line-Located plain_strip text base (codes "//") rest [] (advance base 2) ([], refl)
      (h ∙ ap (λ t. codes "//" ++ t) (sym (append-nil rest))) (unfold len in omega arith),
  tt,
)

-- Each line of a comment has as its text a piece of the comment, in which a bullet is written with a
-- dash, and its offset is that of the comment and of that piece in it.
pub strip_comment-Located :
    (text : Text) (base : Position) → All (λ l. Located text base l) (strip_comment text base)
unfolding strip_comment
strip_comment-Located text base =
    line-Located text base (cut_prefix (codes "//") text) (cut_prefix-After (codes "//") text)
