-- ===== src/Yaml/Dedent/Nesting.antt =====
-- What `RemoveIndent` leaves of a body: each line's indent relative to the first.
use codescan.Prelude.{
  Text, ℕ, zero, suc, ◌+◌, ◌-◌, ◌≤◌, ◌≡◌, refl, ap, ◌∙◌, inl, inr, List, [], ◌∷◌, ◌++◌, map, Bool,
  true, false, ◌||◌, text_eq, len, length, ltb, ◌==◌, if◌then◌else◌, All, Bool-cases, append_assoc,
  arith,
}
use codescan.Grammar.Strings.{is_space, is_blank_code, trim_left, trim_right, trim_space, span}
use codescan.Yaml.Dedent.{
  is_blank_line, is_slash, expand_tabs, retab_leading, leading_indent, expand_line, first_indent,
  drop_at, replacement, drop_bytes, strip_indent, remove_indent,
}

abbrev pub blanks : ℕ → Text
blanks zero = []
blanks (suc n) = b' ' ∷ blanks n

-- A line that is empty, or its blanks and tabs, its first character, and the rest.
pub data Row : Type 0 where
  empty : Row
  content : (white : Text) (first : ℕ) (rest : Text) → Row

abbrev pub source : Row → Text
source empty = []
source (content white first rest) = white ++ first ∷ rest

-- The columns of blanks and tabs: two for a tab.
abbrev pub width : Text → ℕ
width [] = 0
width (c ∷ s) = if c == b'\t' then suc (suc (width s)) else suc (width s)

-- The width of the first line that is not empty, and whether a slash stands there.
abbrev pub margin : List Row → ℕ
margin [] = 0
margin (empty ∷ rows) = margin rows
margin (content white first rest ∷ rows) = width white

abbrev pub slashed : List Row → Bool
slashed [] = false
slashed (empty ∷ rows) = slashed rows
slashed (content white first rest ∷ rows) = first == b'/'

-- A line that is indented at least so far.
abbrev pub Indented : ℕ → Row → Type 0
Indented n empty = Unit
Indented n (content white first rest) =
    All (λ c. (c == b' ' || c == b'\t') ≡ true) white × (is_space first ≡ false) × (n ≤ width white)

-- The line with so much less indent, in blanks.
abbrev pub dedented : ℕ → Row → Text
dedented n empty = []
dedented n (content white first rest) = blanks (width white - n) ++ first ∷ rest

drop_bytes-zero : (s : Text) → drop_bytes 0 s ≡ s
unfolding drop_bytes
drop_bytes-zero [] = refl
drop_bytes-zero (c ∷ s) = refl

not_zero : (n : ℕ) → (suc n == 0) ≡ false
not_zero n = ground arith

not_within : (n : ℕ) → ltb (suc n) 1 ≡ false
not_within n = ground arith

less_one : (n : ℕ) → suc n - 1 ≡ n
less_one n = omega arith

drop_blank : (n : ℕ) (s : Text) → drop_bytes (suc n) (b' ' ∷ s) ≡ drop_bytes n s
unfolding drop_bytes
drop_blank n s =
    ap
      (λ b.
        drop_at b (ltb (suc n) 1) (b' ' ∷ s) (replacement (1 - suc n) ++ s)
          (drop_bytes (suc n - 1) s))
      (not_zero n)
    ∙ ap (λ b. drop_at false b (b' ' ∷ s) (replacement (1 - suc n) ++ s) (drop_bytes (suc n - 1) s))
        (not_within n)
    ∙ ap (λ k. drop_bytes k s) (less_one n)

drop_bytes-blanks : (n : ℕ) (s : Text) → drop_bytes n (blanks n ++ s) ≡ s
drop_bytes-blanks zero s = drop_bytes-zero s
drop_bytes-blanks (suc n) s = drop_blank n (blanks n ++ s) ∙ drop_bytes-blanks n s

len-blanks : (n : ℕ) (s : Text) → n ≤ len (blanks n ++ s)
unfolding len
len-blanks zero s = omega arith
len-blanks (suc n) s = omega (arith, len-blanks n s)

strip_indent-blanks : (n : ℕ) (s : Text) → strip_indent n (blanks n ++ s) ≡ s
unfolding strip_indent
strip_indent-blanks n s = elim (Bool-cases (ltb (len (blanks n ++ s)) n)) [
  | inl e ↦ absurd (ground (arith, e, len-blanks n s))
  | inr e ↦
      ap (λ b. if b then blanks n ++ s else drop_bytes n (blanks n ++ s)) e ∙ drop_bytes-blanks n s
]

-- Lines that begin with blanks and tabs, and go on with a character that is no space.
abbrev White : Text → Type 0
White = All (λ c. (c == b' ' || c == b'\t') ≡ true)

White-blanks : (n : ℕ) → White (blanks n)
White-blanks zero = tt
White-blanks (suc n) = (refl, White-blanks n)

white-space : (c : ℕ) → is_blank_code c ≡ true → is_space c ≡ true
unfolding is_space
white-space c h = ground arith

not_white : (c : ℕ) → is_space c ≡ false → is_blank_code c ≡ false
not_white c h = elim (Bool-cases (is_blank_code c)) [
  | inl e ↦ absurd (ground (arith, white-space c e))
  | inr e ↦ e
]

trim_left-White :
    (w : Text) (c : ℕ) (s : Text)
    → White w
    → is_space c ≡ false
    → trim_left is_space (w ++ c ∷ s) ≡ c ∷ s
unfolding trim_left
trim_left-White [] c s h e = ap (λ b. if b then trim_left is_space s else c ∷ s) e
trim_left-White (x ∷ w) c s h e =
    ap (λ b. if b then trim_left is_space (w ++ c ∷ s) else x ∷ (w ++ c ∷ s)) (white-space x h.0)
    ∙ trim_left-White w c s h.1 e

trim_right-filled :
    (c : ℕ) (s : Text) → is_space c ≡ false → text_eq (trim_right is_space (c ∷ s)) [] ≡ false
unfolding trim_right text_eq
trim_right-filled c s e = ground arith

filled :
    (w : Text) (c : ℕ) (s : Text)
    → White w
    → is_space c ≡ false
    → is_blank_line (w ++ c ∷ s) ≡ false
unfolding trim_space
filled w c s h e =
    ap (λ t. text_eq (trim_right is_space t) []) (trim_left-White w c s h e)
    ∙ trim_right-filled c s e

span-White :
    (w : Text) (c : ℕ) (s : Text)
    → White w
    → is_blank_code c ≡ false
    → span is_blank_code (w ++ c ∷ s) ≡ (w, c ∷ s)
unfolding span
span-White [] c s h e = rw (e, span) refl
span-White (x ∷ w) c s h e = rw (h.0, span-White w c s h.1 e, span) refl

expand_tabs-White : (w : Text) → White w → expand_tabs w ≡ blanks (width w)
unfolding expand_tabs
expand_tabs-White [] h = refl
expand_tabs-White (c ∷ w) h = elim (Bool-cases (c == b'\t')) [
  | inl e ↦ rw (e, expand_tabs) (ap (λ t. b' ' ∷ b' ' ∷ t) (expand_tabs-White w h.1))
  | inr e ↦
      let blank : c ≡ b' ' = ground (arith, h.0, e) in
      rw (e, blank, expand_tabs) (ap (λ t. b' ' ∷ t) (expand_tabs-White w h.1))
]

-- The first pass gives each line its width in blanks.
abbrev widened : Row → Text
widened empty = []
widened (content w c s) = blanks (width w) ++ c ∷ s

expand_line-row : (n : ℕ) (r : Row) → Indented n r → expand_line (source r) ≡ widened r
unfolding retab_leading trim_space trim_left trim_right text_eq
expand_line-row n empty h = refl
expand_line-row n (content w c s) h =
    ap (λ b. if b then w ++ c ∷ s else retab_leading (w ++ c ∷ s)) (filled w c s h.0 h.1)
    ∙ ap (λ p. expand_tabs p.0 ++ p.1) (span-White w c s h.0 (not_white c h.1))
    ∙ ap (λ t. t ++ c ∷ s) (expand_tabs-White w h.0)

length-blanks : (n : ℕ) → length (blanks n) ≡ n
length-blanks zero = refl
length-blanks (suc n) = ap suc (length-blanks n)

span-none : (p : ℕ → Bool) (c : ℕ) (s : Text) → p c ≡ false → span p (c ∷ s) ≡ ([], c ∷ s)
unfolding span
span-none p c s e = rw (e, span) refl

-- The steps of `leadingIndent`, each on what the one before leaves.
abbrev more_blanks : ℕ → Text × Text → ℕ
more_blanks n p = elim p.1 [ [] ↦ 0 | _ ∷ _ ↦ n + length p.0 ]

abbrev after_slashes : ℕ → Text × Text → ℕ
after_slashes n p = more_blanks (n + length p.0) (span is_blank_code p.1)

abbrev after_blanks : Text × Text → ℕ
after_blanks p = after_slashes (length p.0) (span is_slash p.1)

leading_indent-steps : (l : Text) → leading_indent l ≡ after_blanks (span is_blank_code l)
unfolding leading_indent
leading_indent-steps l = ground arith

leading_indent-blanks :
    (n c : ℕ) (s : Text)
    → is_blank_code c ≡ false
    → (c == b'/') ≡ false
    → leading_indent (blanks n ++ c ∷ s) ≡ n
leading_indent-blanks n c s e slash =
    leading_indent-steps (blanks n ++ c ∷ s)
    ∙ ap after_blanks (span-White (blanks n) c s (White-blanks n) e)
    ∙ ap (after_slashes (length (blanks n))) (span-none is_slash c s slash)
    ∙ ap (more_blanks (length (blanks n) + 0)) (span-none is_blank_code c s e)
    ∙ omega (arith, length-blanks n)

first_indent-margin :
    (n : ℕ) (rows : List Row)
    → All (Indented n) rows
    → slashed rows ≡ false
    → first_indent (map widened rows) ≡ margin rows
unfolding trim_space trim_left trim_right text_eq
first_indent-margin n [] h e = refl
first_indent-margin n (empty ∷ rows) h e = first_indent-margin n rows h.1 e
first_indent-margin n (content w c s ∷ rows) h e =
    ap
      (λ b.
        if b then first_indent (map widened rows) else leading_indent (blanks (width w) ++ c ∷ s))
      (filled (blanks (width w)) c s (White-blanks (width w)) h.0.1)
    ∙ leading_indent-blanks (width w) c s (not_white c h.0.1) e

-- The second pass takes the margin off.
blanks-split : (n m : ℕ) → n ≤ m → blanks m ≡ blanks n ++ blanks (m - n)
blanks-split zero m h = ap blanks less_none
  where
    less_none : m ≡ m - 0
    less_none = omega arith
blanks-split (suc n) zero h = absurd (omega arith)
blanks-split (suc n) (suc m) h = ap (λ t. b' ' ∷ t) (blanks-split n m (omega arith)) ∙ one_less
  where
    one_less : b' ' ∷ (blanks n ++ blanks (m - n)) ≡ blanks (suc n) ++ blanks (suc m - suc n)
    one_less = let e : m - n ≡ suc m - suc n = omega arith in rw e refl

strip_indent-nil : (n : ℕ) → strip_indent n [] ≡ []
unfolding strip_indent drop_bytes len
strip_indent-nil n = ground arith

strip_row : (n : ℕ) (r : Row) → Indented n r → strip_indent n (widened r) ≡ dedented n r
strip_row n empty h = strip_indent-nil n
strip_row n (content w c s) h =
    ap (λ t. strip_indent n (t ++ c ∷ s)) (blanks-split n (width w) h.2)
    ∙ ap (strip_indent n) (append_assoc (blanks n) (blanks (width w - n)) (c ∷ s))
    ∙ strip_indent-blanks n (blanks (width w - n) ++ c ∷ s)

no_margin : (r : Row) → widened r ≡ dedented 0 r
no_margin empty = refl
no_margin (content w c s) =
    let e : width w ≡ width w - 0 = omega arith in ap (λ n. blanks n ++ c ∷ s) e

module _ {ℓ} {A B : Type ℓ} (P : A → Type 0) (f g : A → B) where
  map-agree : ((a : A) → P a → f a ≡ g a) → (xs : List A) → All P xs → map f xs ≡ map g xs
  map-agree h [] ps = refl
  map-agree h (x ∷ xs) ps =
      ap (λ b. b ∷ map f xs) (h x ps.0) ∙ ap (λ bs. g x ∷ bs) (map-agree h xs ps.1)

strip_each :
    (n : ℕ) (rows : List Row)
    → All (Indented n) rows
    → (if n == 0 then map widened rows else map (strip_indent n) (map widened rows))
      ≡ map (dedented n) rows
strip_each zero rows h = map-agree (Indented 0) widened (dedented 0) (λ r p. no_margin r) rows h
strip_each (suc n) rows h =
    ap (λ b. if b then map widened rows else map (strip_indent (suc n)) (map widened rows))
      (not_zero n)
    ∙ map-map rows
    ∙ map-agree (Indented (suc n)) (λ r. strip_indent (suc n) (widened r)) (dedented (suc n))
        (strip_row (suc n)) rows h
  where
    map-map :
        (rs : List Row)
        → map (strip_indent (suc n)) (map widened rs)
          ≡ map (λ r. strip_indent (suc n) (widened r)) rs
    map-map [] = refl
    map-map (r ∷ rs) = ap (λ ls. strip_indent (suc n) (widened r) ∷ ls) (map-map rs)

-- Take lines that are each empty, or blanks and tabs followed by a character that is no space. If
-- the blanks and tabs of each are at least as wide as those of the first line that is not empty, a
-- tab being two columns wide, and the character on that line is no slash, then an empty line stays
-- empty, and any other keeps its text from that character on, behind blanks for the columns that it
-- is indented further than that first line.
pub remove_indent-relative :
    (rows : List Row)
    → All (Indented (margin rows)) rows
    → slashed rows ≡ false
    → remove_indent (map source rows) ≡ map (dedented (margin rows)) rows
unfolding remove_indent
remove_indent-relative rows h e =
    ap (λ ls. if first_indent ls == 0 then ls else map (strip_indent (first_indent ls)) ls)
      (expand_each rows h)
    ∙ ap (λ n. if n == 0 then map widened rows else map (strip_indent n) (map widened rows))
        (first_indent-margin (margin rows) rows h e)
    ∙ strip_each (margin rows) rows h
  where
    expand_each :
        (rs : List Row)
        → All (Indented (margin rows)) rs
        → map expand_line (map source rs) ≡ map widened rs
    expand_each [] ps = refl
    expand_each (r ∷ rs) ps =
        ap (λ l. l ∷ map expand_line (map source rs)) (expand_line-row (margin rows) r ps.0)
        ∙ ap (λ ls. widened r ∷ ls) (expand_each rs ps.1)
