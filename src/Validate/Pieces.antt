-- ===== src/Validate/Pieces.antt =====
-- Trimming, splitting and taking brackets off, on texts put together from pieces.
use codescan.Prelude.{
  Text, ℕ, ◌≡◌, refl, sym, ap, ◌∙◌, List, [], ◌∷◌, ◌++◌, true, false, has_code, split, join,
  if◌then◌else◌, All, last_or, append-nil, arith,
}
use codescan.Grammar.Strings.{is_space, trim_left, trim_right, trim_space}
use codescan.Validate.{delimited, inner, without_last, strip_brackets}
use codescan.Validate.Conform.{delimited-between}

-- The spaces around a text.
abbrev pub Spaces : Text → Type 0
Spaces = All (λ c. is_space c ≡ true)

abbrev pub Tight : Text → Type 0
Tight [] = Unit
Tight (c ∷ s) = (is_space c ≡ false) × (is_space (last_or c s) ≡ false)

trim_left-Spaces : (l s : Text) → Spaces l → trim_left is_space (l ++ s) ≡ trim_left is_space s
unfolding trim_left
trim_left-Spaces [] s h = refl
trim_left-Spaces (c ∷ l) s h =
    ap (λ b. if b then trim_left is_space (l ++ s) else c ∷ (l ++ s)) h.0 ∙ trim_left-Spaces l s h.1

trim_right-nil : (r : Text) → Spaces r → trim_right is_space r ≡ []
unfolding trim_right
trim_right-nil [] h = refl
trim_right-nil (c ∷ r) h = rw (trim_right-nil r h.1, h.0, trim_right) refl

trim_right-Spaces : (s r : Text) → Spaces r → trim_right is_space (s ++ r) ≡ trim_right is_space s
unfolding trim_right
trim_right-Spaces [] r h = trim_right-nil r h
trim_right-Spaces (c ∷ s) r h = rw (trim_right-Spaces s r h, trim_right) refl

trim_right-last :
    (c : ℕ) (s : Text) → is_space (last_or c s) ≡ false → trim_right is_space (c ∷ s) ≡ c ∷ s
unfolding trim_right
trim_right-last c [] h = rw (h, trim_right) refl
trim_right-last c (x ∷ s) h = rw (trim_right-last x s h, trim_right) refl

pub trim_space-Tight :
    (l s r : Text) → Spaces l → Tight s → Spaces r → trim_space (l ++ (s ++ r)) ≡ s
unfolding trim_space
trim_space-Tight l [] r hl hs hr =
    ap (trim_right is_space) (trim_left-Spaces l r hl ∙ trim_left-nil r hr) ∙ trim_right-nil [] tt
  where
    trim_left-nil : (t : Text) → Spaces t → trim_left is_space t ≡ []
    trim_left-nil [] h = refl
    trim_left-nil (c ∷ t) h =
        ap (λ b. if b then trim_left is_space t else c ∷ t) h.0 ∙ trim_left-nil t h.1
trim_space-Tight l (c ∷ s) r hl hs hr =
    ap (trim_right is_space) (
      trim_left-Spaces l (c ∷ (s ++ r)) hl
      ∙ ap (λ b. if b then trim_left is_space (s ++ r) else c ∷ (s ++ r)) hs.0)
    ∙ trim_right-Spaces (c ∷ s) r hr
    ∙ trim_right-last c s hs.1

-- Splitting what was joined.
split-end : (c : ℕ) (s : Text) → has_code c s ≡ false → split c s ≡ s ∷ []
unfolding split has_code
split-end c [] h = refl
split-end c (x ∷ s) h = ground (arith, split-end c s)

split-next :
    (c : ℕ) (s rest : Text) → has_code c s ≡ false → split c (s ++ c ∷ rest) ≡ s ∷ split c rest
unfolding split has_code
split-next c [] rest h = ground arith
split-next c (x ∷ s) rest h = ground (arith, split-next c s rest)

pub split-join :
    (c : ℕ) (w : Text) (ws : List Text)
    → All (λ s. has_code c s ≡ false) (w ∷ ws)
    → split c (join (c ∷ []) (w ∷ ws)) ≡ w ∷ ws
unfolding join
split-join c w [] h = split-end c w h.0
split-join c w (v ∷ ws) h =
    split-next c w (join (c ∷ []) (v ∷ ws)) h.0 ∙ ap (λ vs. w ∷ vs) (split-join c v ws h.1)

pub no_comma : (w : Text) → Spaces w → has_code b',' w ≡ false
unfolding has_code is_space
no_comma [] h = refl
no_comma (c ∷ w) h = ground (arith, no_comma w h.1, h.0)

-- Brackets around a list.
without_last-append : (c : ℕ) (s : Text) → without_last (s ++ c ∷ []) ≡ s
without_last-append c [] = refl
without_last-append c (x ∷ []) = refl
without_last-append c (x ∷ y ∷ s) = ap (λ t. x ∷ t) (without_last-append c (y ∷ s))

abbrev pub bracketed : Text → Text
bracketed s = b'[' ∷ (s ++ b']' ∷ [])

last_or-append : (a c : ℕ) (s : Text) → last_or a (s ++ c ∷ []) ≡ c
last_or-append a c [] = refl
last_or-append a c (x ∷ s) = last_or-append x c s

trim_space-bracketed : (s : Text) → trim_space (bracketed s) ≡ bracketed s
trim_space-bracketed s =
    ap (λ t. trim_space t) (sym (append-nil (bracketed s)))
    ∙ trim_space-Tight [] (bracketed s) [] tt tight tt
  where
    bracket_open : is_space b'[' ≡ false
    bracket_open = unfold is_space in refl

    tight : Tight (bracketed s)
    tight = (bracket_open, ap is_space (last_or-append b'[' b']' s) ∙ unfold is_space in refl)

pub strip_brackets-bracketed : (s : Text) → strip_brackets (bracketed s) ≡ s
unfolding strip_brackets
strip_brackets-bracketed s =
    rw (trim_space-bracketed s, delimited-between b'[' b']' s, strip_brackets)
      (without_last-append b']' s)

pub strip_brackets-plain :
    (s : Text) → delimited b'[' b']' (trim_space s) ≡ false → strip_brackets s ≡ s
unfolding strip_brackets
strip_brackets-plain s e = ap (λ b. if b then inner (trim_space s) else s) e
