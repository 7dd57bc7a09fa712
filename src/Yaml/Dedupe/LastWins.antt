-- ===== src/Yaml/Dedupe/LastWins.antt =====
-- The pairs that `dedupePairs` keeps, against the definition: a pair goes when its key comes again.
use codescan.Prelude.{
  Text, ℕ, suc, ◌+◌, ◌≤◌, ◌≡◌, refl, sym, ap, subst, ◌∙◌, inl, inr, List, [], ◌∷◌, Option, none,
  some, Bool, true, false, not, ◌||◌, text_eq, text_eq_iff, text_eq_refl, length, lookup, insert,
  has_key, has_key-insert, lookup-insert, ltb, ◌==◌, if◌then◌else◌, Bool-cases, arith,
}
use codescan.Yaml.Node.{Node, Pairs, end, pair}
use codescan.Yaml.Dedupe.{key_of, size, latest, is_at, keep_latest, dedupe_pairs}

abbrev pub occurs : Text → Pairs → Bool
occurs key end = false
occurs key (pair k v ps) = text_eq (key_of k) key || occurs key ps

abbrev pub last_wins : Pairs → Pairs
last_wins end = end
last_wins (pair k v ps) =
    let rest = last_wins ps in if occurs (key_of k) ps then rest else pair k v rest

abbrev Index : Type 0
Index = List (Text × ℕ)

abbrev AtLeast : ℕ → Option ℕ → Type 0
AtLeast i none = ⊥
AtLeast i (some j) = i ≤ j

AtLeast-weaken : (i j : ℕ) (o : Option ℕ) → j ≤ i → AtLeast i o → AtLeast j o
AtLeast-weaken i j none h k = k
AtLeast-weaken i j (some n) h k = omega (arith, h, k)

at_self : (i : ℕ) → AtLeast i (some i)
at_self i = omega arith

-- A key that does not occur keeps its index.
lookup-latest-absent :
    (key : Text) (i : ℕ) (m : Index) (ps : Pairs)
    → occurs key ps ≡ false
    → lookup key (latest i m ps) ≡ lookup key m
unfolding latest
lookup-latest-absent key i m end h = refl
lookup-latest-absent key i m (pair k v ps) h =
    lookup-latest-absent key (i + 1) (insert (key_of k) i m) ps (ground (arith, h))
    ∙ lookup-insert (key_of k) key i m
    ∙ ground (arith, h)

found_here :
    (key : Text) (i : ℕ) (m : Index) (k v : Node) (ps : Pairs)
    → occurs key (pair k v ps) ≡ true
    → occurs key ps ≡ false
    → lookup key (insert (key_of k) i m) ≡ some i
found_here key i m k v ps h e = lookup-insert (key_of k) key i m ∙ ground (arith, h, e)

-- A key that occurs gets the index of an occurrence.
lookup-latest-present :
    (key : Text) (i : ℕ) (m : Index) (ps : Pairs)
    → occurs key ps ≡ true
    → AtLeast i (lookup key (latest i m ps))
unfolding latest
lookup-latest-present key i m end h = cc h
lookup-latest-present key i m (pair k v ps) h = elim (Bool-cases (occurs key ps)) [
  | inl e ↦
      AtLeast-weaken (i + 1) i (lookup key (latest (i + 1) (insert (key_of k) i m) ps))
        (omega arith) (lookup-latest-present key (i + 1) (insert (key_of k) i m) ps e)
  | inr e ↦
      subst (λ o. AtLeast i o)
        (sym (
          lookup-latest-absent key (i + 1) (insert (key_of k) i m) ps e
          ∙ found_here key i m k v ps h e))
        (at_self i)
]

is_at-later : (i : ℕ) (o : Option ℕ) → AtLeast (i + 1) o → is_at o i ≡ false
is_at-later i none h = refl
is_at-later i (some j) h = ground (arith, h)

is_at_self : (i : ℕ) → is_at (some i) i ≡ true
is_at_self i = ground arith

-- The index of the first pair is the latest of its key unless the key comes again.
is_at-latest :
    (i : ℕ) (m : Index) (k v : Node) (ps : Pairs)
    → is_at (lookup (key_of k) (latest i m (pair k v ps))) i ≡ not (occurs (key_of k) ps)
unfolding latest
is_at-latest i m k v ps = elim (Bool-cases (occurs (key_of k) ps)) [
  | inl e ↦
      is_at-later i (lookup (key_of k) (latest (i + 1) (insert (key_of k) i m) ps))
        (lookup-latest-present (key_of k) (i + 1) (insert (key_of k) i m) ps e)
      ∙ ap not (sym e)
  | inr e ↦
      ap (λ o. is_at o i)
        (lookup-latest-absent (key_of k) (i + 1) (insert (key_of k) i m) ps e
          ∙ lookup-insert (key_of k) (key_of k) i m
          ∙ ap (λ b. if b then some i else lookup (key_of k) m) (text_eq_refl (key_of k)))
      ∙ is_at_self i
      ∙ ap not (sym e)
]

if-not : (b : Bool) (x y : Pairs) → (if not b then x else y) ≡ (if b then y else x)
if-not true x y = refl
if-not false x y = refl

keep_latest-last_wins :
    (i : ℕ) (m : Index) (ps : Pairs) → keep_latest (latest i m ps) i ps ≡ last_wins ps
unfolding keep_latest latest
keep_latest-last_wins i m end = refl
keep_latest-last_wins i m (pair k v ps) =
    ap
      (λ rest.
        if is_at (lookup (key_of k) (latest i m (pair k v ps))) i then pair k v rest else rest)
      (keep_latest-last_wins (i + 1) (insert (key_of k) i m) ps)
    ∙ ap (λ b. if b then pair k v (last_wins ps) else last_wins ps) (is_at-latest i m k v ps)
    ∙ if-not (occurs (key_of k) ps) (pair k v (last_wins ps)) (last_wins ps)

length-insert :
    (k : Text) (i : ℕ) (m : Index)
    → length (insert k i m) ≡ (if has_key k m then length m else suc (length m))
unfolding insert has_key
length-insert k i [] = refl
length-insert k i ((j, w) ∷ m) = ground (arith, length-insert k i m)

-- The index grows by one for each pair at most.
length-latest : (i : ℕ) (m : Index) (ps : Pairs) → length (latest i m ps) ≤ length m + size ps
unfolding latest
length-latest i m end = omega arith
length-latest i m (pair k v ps) =
    ground (arith, length-latest (i + 1) (insert (key_of k) i m) ps, length-insert (key_of k) i m)

not_again : (b c : Bool) → (b ≡ true → c ≡ false) → c ≡ true → b ≡ false
not_again true c h e = sym e ∙ h refl
not_again false c h e = refl

fresh_key :
    (i : ℕ) (m : Index) (k v : Node) (ps : Pairs)
    → length (latest i m (pair k v ps)) ≡ length m + size (pair k v ps)
    → (has_key (key_of k) m ≡ false)
      × (length (latest (i + 1) (insert (key_of k) i m) ps)
          ≡ length (insert (key_of k) i m) + size ps)
unfolding latest
fresh_key i m k v ps h = (
  ground (arith, h, length-latest (i + 1) (insert (key_of k) i m) ps, length-insert (key_of k) i m),
  ground (arith, h, length-latest (i + 1) (insert (key_of k) i m) ps, length-insert (key_of k) i m),
)

fresh_later :
    (key : Text) (i : ℕ) (m : Index) (k : Node) (ps : Pairs)
    → has_key (key_of k) m ≡ false
    → (occurs key ps ≡ true → has_key key (insert (key_of k) i m) ≡ false)
    → (text_eq (key_of k) key || occurs key ps) ≡ true
    → has_key key m ≡ false
fresh_later key i m k ps h later e = elim (Bool-cases (text_eq (key_of k) key)) [
  | inl same ↦ subst (λ x. has_key x m ≡ false) ((text_eq_iff (key_of k) key).0 same) h
  | inr other ↦ ground (arith, has_key-insert (key_of k) key i m, later (ground (arith, e, other)))
]

-- Where it grows that much, no key comes again.
full-last_wins :
    (i : ℕ) (m : Index) (ps : Pairs)
    → length (latest i m ps) ≡ length m + size ps
    → (last_wins ps ≡ ps) × ((key : Text) → occurs key ps ≡ true → has_key key m ≡ false)
unfolding latest
full-last_wins i m end h = (refl, λ key e. cc e)
full-last_wins i m (pair k v ps) h =
    let new = fresh_key i m k v ps h in
    let rest = full-last_wins (i + 1) (insert (key_of k) i m) ps new.1 in
    let absent = rest.1 (key_of k) in
    (
      ap (λ b. if b then last_wins ps else pair k v (last_wins ps))
            (not_again (occurs (key_of k) ps) (has_key (key_of k) (insert (key_of k) i m)) absent (
              has_key-insert (key_of k) (key_of k) i m
              ∙ ap (λ b. b || has_key (key_of k) m) (text_eq_refl (key_of k))))
          ∙ ap (λ r. pair k v r) rest.0,
      λ key e. fresh_later key i m k ps new.0 (rest.1 key) e,
    )

short-last_wins : (ps : Pairs) → ltb (size ps) 2 ≡ true → last_wins ps ≡ ps
short-last_wins end h = refl
short-last_wins (pair k v end) h = refl
short-last_wins (pair k v (pair k2 v2 ps)) h = absurd (ground (arith, h))

full_index-last_wins :
    (ps : Pairs) → (length (latest 0 [] ps) == size ps) ≡ true → last_wins ps ≡ ps
full_index-last_wins ps h = (full-last_wins 0 [] ps (ground (arith, h))).0

pub dedupe_pairs-last_wins : (ps : Pairs) → dedupe_pairs ps ≡ last_wins ps
unfolding dedupe_pairs
dedupe_pairs-last_wins ps = elim (Bool-cases (ltb (size ps) 2)) [
  | inl e ↦ rw (e) (sym (short-last_wins ps e))
  | inr e ↦ rw (e) (elim (Bool-cases (length (latest 0 [] ps) == size ps)) [
    | inl f ↦ rw (f) (sym (full_index-last_wins ps f))
    | inr f ↦ rw (f) (keep_latest-last_wins 0 [] ps)
  ])
]
