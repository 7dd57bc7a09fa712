-- ===== src/Route/Parameters/Counts.antt =====
-- What holds of the parameters that are committed, and how many there are.
use codescan.Prelude.{
  Text, ℕ, suc, ◌+◌, ◌≤◌, ◌≡◌, refl, subst, List, [], ◌∷◌, ◌++◌, length, length-append, Option,
  none, some, Bool, true, false, text_eq, split, if◌then◌else◌, All, All-append, map, arith,
}
use codescan.Grammar.Strings.{Platform, trim_space}
use codescan.Grammar.Token.{Position}
use codescan.Grammar.Block.{Diagnostic}
use codescan.Grammar.Typing.{Services}
use codescan.Route.Responses.{offset_pos}
use codescan.Route.Parameters.Locations.{located, apply_key-located}
use codescan.Route.Parameters.{
  Head, ParamDecl, is_chunk_sigil, after_sigil, split_key_value, key_of, new_synthetic_block,
  is_empty_chunk, ChunkState, commit_chunk, commit_head, start_chunk, apply_param_line, keyed_with,
  property_line, property_with, param_line, param_lines, no_chunk, parse_parameters,
}

abbrev InFlight : Option Head → Type 0
InFlight none = Unit
InFlight (some h) = located h ≡ true

abbrev in_flight : Option Head → ℕ
in_flight none = 0
in_flight (some h) = 1

module _ {F I V : Type 0} where
  -- A committed parameter is not empty, and its block repeats its name and description.
  abbrev pub Committed : ParamDecl F I V → Type 0
  Committed p =
      (located p.head ≡ true)
      × ((is_empty_chunk p.head p.block.properties ≡ false)
          × (p.block
              ≡ new_synthetic_block p.head.pos p.head.name p.head.description p.block.properties))

  -- `n` chunks have been opened.
  abbrev Good : ℕ → ChunkState F I V → Type 0
  Good n s = InFlight s.cur × (All Committed s.out × (length s.out + in_flight s.cur ≤ n))

module _ {F I V : Type 0} (sv : Services F I V) (u : Platform) where
  abbrev State : Type 0
  State = ChunkState F I V

  keyed_with-Good :
      (n : ℕ) (p : Position) (s : State) (key value : Text) (cur : Option Head)
      → s.cur ≡ cur
      → Good n s
      → Good n (keyed_with sv u p s key value cur)
  unfolding apply_param_line
  keyed_with-Good n p s key value none e g = g
  keyed_with-Good n p s key value (some head) e g = (
    apply_key-located sv u head key value p (key_of (map u.to_lower key)) (subst InFlight e g.0),
    (g.1.0, subst (λ c. length s.out + in_flight c ≤ n) e g.1.1),
  )

  property_with-Good :
      (n : ℕ) (p : Position) (s : State) (o : Option (Text × Text))
      → Good n s
      → Good n (property_with sv u p s o)
  property_with-Good n p s none g = g
  property_with-Good n p s (some (key, value)) g = keyed_with-Good n p s key value s.cur refl g

  property_line-Good :
      (n : ℕ) (p : Position) (s : State) (line : Text)
      → Good n s
      → Good n (property_line sv u p s line)
  unfolding property_line
  property_line-Good n p s line g = property_with-Good n p s (split_key_value line) g

drop_flight : (a b n : ℕ) → a + b ≤ n → a ≤ n
drop_flight a b n h = omega (arith, h)

one_flight : (a n : ℕ) → a ≤ n → a + 1 ≤ suc n
one_flight a n h = omega (arith, h)

length_snoc :
    {A : Type 0} (xs : List A) (x : A) (n : ℕ) → length xs + 1 ≤ n → length (xs ++ x ∷ []) ≤ n
length_snoc xs x n h = omega (arith, length-append xs (x ∷ []), h)

-- After a commit no chunk is in flight.
module _ {F I V : Type 0} where
  abbrev Closed : ℕ → ChunkState F I V → Type 0
  Closed n s = (s.cur ≡ none) × (All Committed s.out × (length s.out ≤ n))

  if-Closed :
      (n : ℕ) (b : Bool) (x y : ChunkState F I V)
      → Closed n x
      → (b ≡ false → Closed n y)
      → Closed n (if b then x else y)
  if-Closed n true x y hx hy = hx
  if-Closed n false x y hx hy = hy refl

  commit_head-Closed :
      (n : ℕ) (s : ChunkState F I V) (cur : Option Head)
      → s.cur ≡ cur
      → Good n s
      → Closed n (commit_head s cur)
  commit_head-Closed n s none e g = (
    e,
    (g.1.0, drop_flight (length s.out) 0 n (subst (λ c. length s.out + in_flight c ≤ n) e g.1.1)),
  )
  commit_head-Closed n s (some h) e g =
      let full = subst (λ c. length s.out + in_flight c ≤ n) e g.1.1 in
      if-Closed n (is_empty_chunk h s.props) _ _
        (refl, (g.1.0, drop_flight (length s.out) 1 n full))
        (λ filled. (
          refl,
          (
            All-append Committed s.out _ g.1.0 (
              (
                subst InFlight e g.0,
                (unfold new_synthetic_block in filled, unfold new_synthetic_block in refl),
              ),
              tt,
            ),
            length_snoc s.out _ n full,
          ),
        ))

  commit_chunk-Closed : (n : ℕ) (s : ChunkState F I V) → Good n s → Closed n (commit_chunk s)
  unfolding commit_chunk
  commit_chunk-Closed n s g = commit_head-Closed n s s.cur refl g

  start_chunk-Good :
      (n : ℕ) (p : Position) (s : ChunkState F I V) → Good n s → Good (suc n) (start_chunk p s)
  start_chunk-Good n p s g =
      let c = commit_chunk-Closed n s g in
      (unfold text_eq in refl, (c.1.0, one_flight (length (commit_chunk s).out) n c.1.1))

  Good-more : (n : ℕ) (s : ChunkState F I V) → Good n s → Good (suc n) s
  Good-more n s g = (g.0, (g.1.0, omega (arith, g.1.1)))

plus_zero : (n : ℕ) → n ≡ n + 0
plus_zero n = omega arith

zero_plus : (n : ℕ) → 0 + n ≡ n
zero_plus n = omega arith

abbrev unless_blank :
    {F I V : Type 0} → Bool → ChunkState F I V → List (ParamDecl F I V) × List Diagnostic
unless_blank b s = if b then ([], []) else (s.out, s.raised)

if-out :
    {F I V : Type 0} (b : Bool) (n : ℕ) (s : ChunkState F I V)
    → Closed n s
    → All Committed (unless_blank b s).0 × (length (unless_blank b s).0 ≤ n)
if-out true n s c = (tt, omega arith)
if-out false n s c = c.1

-- The lines that open a chunk.
abbrev pub sigils : List Text → ℕ
sigils [] = 0
sigils (l ∷ ls) = if is_chunk_sigil (trim_space l) then suc (sigils ls) else sigils ls

module _ {F I V : Type 0} (sv : Services F I V) (u : Platform) where
  sigil-Good :
      (n : ℕ) (p : Position) (s : ChunkState F I V) (line : Text) (b : Bool)
      → Good n s
      → Good (if b then suc n else n) (
          if b
          then property_line sv u p (start_chunk p s) (after_sigil line)
          else property_line sv u p s line)
  sigil-Good n p s line true g =
      property_line-Good sv u (suc n) p (start_chunk p s) (after_sigil line)
        (start_chunk-Good n p s g)
  sigil-Good n p s line false g = property_line-Good sv u n p s line g

  if-Good :
      (n : ℕ) (b : Bool) (s r : ChunkState F I V)
      → Good n s
      → Good n r
      → Good n (if b then s else r)
  if-Good n true s r hs hr = hs
  if-Good n false s r hs hr = hr

  more-Good : (n : ℕ) (b : Bool) (s : ChunkState F I V) → Good n s → Good (if b then suc n else n) s
  more-Good n true s g = Good-more n s g
  more-Good n false s g = g

  param_line-Good :
      (n : ℕ) (p : Position) (s : ChunkState F I V) (raw : Text)
      → Good n s
      → Good (if is_chunk_sigil (trim_space raw) then suc n else n) (param_line sv u p s raw)
  unfolding param_line
  param_line-Good n p s raw g =
      let opens = is_chunk_sigil (trim_space raw) in
      if-Good (if opens then suc n else n) (text_eq (trim_space raw) []) s _ (more-Good n opens s g)
        (sigil-Good n p s (trim_space raw) opens g)

  add_sigil : (b : Bool) (n k : ℕ) → (if b then suc n else n) + k ≡ n + (if b then suc k else k)
  add_sigil true n k = omega arith
  add_sigil false n k = refl

  param_lines-Good :
      (base : Position) (line_no n : ℕ) (s : ChunkState F I V) (lines : List Text)
      → Good n s
      → Good (n + sigils lines) (param_lines sv u base line_no s lines)
  unfolding param_lines
  param_lines-Good base line_no n s [] g = subst (λ k. Good k s) (plus_zero n) g
  param_lines-Good base line_no n s (raw ∷ rest) g =
      let opens = is_chunk_sigil (trim_space raw) in
      subst (λ k. Good k (param_lines sv u base line_no s (raw ∷ rest)))
        (add_sigil opens n (sigils rest))
        (param_lines-Good base (line_no + 1) (if opens then suc n else n)
          (param_line sv u (offset_pos base line_no) s raw) rest
          (param_line-Good n (offset_pos base line_no) s raw g))

  -- At most one parameter is committed for each line that opens a chunk. Each has something in it, a
  -- location that is one of the known ones if it has any, and a block that repeats its name and
  -- description.
  pub parse_parameters-Committed :
      (body : Text) (base : Position)
      → All Committed (parse_parameters sv u body base).0
        × (length (parse_parameters sv u body base).0 ≤ sigils (split 10 body))
  unfolding parse_parameters
  parse_parameters-Committed body base =
      if-out (text_eq (trim_space body) []) (sigils (split 10 body))
        (commit_chunk (param_lines sv u base 1 (no_chunk sv u) (split 10 body)))
        (commit_chunk-Closed (sigils (split 10 body))
          (param_lines sv u base 1 (no_chunk sv u) (split 10 body))
          (subst (λ k. Good k (param_lines sv u base 1 (no_chunk sv u) (split 10 body)))
            (zero_plus (sigils (split 10 body)))
            (param_lines-Good base 1 0 (no_chunk sv u) (split 10 body) (tt, (tt, omega arith)))))
