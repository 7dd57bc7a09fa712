-- ===== src/Spec/Reduce/Fresh.antt =====
-- The names chosen for a group are new: none is taken, and no two are the same.
use codescan.Prelude.{
  Text, ℕ, zero, suc, ◌+◌, ◌<◌, ◌≡◌, refl, sym, ap, ◌∙◌, List, [], ◌∷◌, ◌++◌, Option, some, true,
  false, ◌||◌, contains, length, drop, arith, Bool-cases, Option-cases, inl, inr, contains-append,
  pigeonhole, length-append, keys,
}
use codescan.Prelude.Decimal.{itoa, itoa-injective, length-itoa}
use codescan.Spec.Reduce.{
  Names, segments, concat_name, first_free, attempt, shallowest, suffixed, resolve_collision_group,
  max_depth,
}

-- Each name is free when it is reached, and taken from then on.
abbrev pub Fresh : List Text → Names → Type 0
Fresh taken [] = Unit
Fresh taken ((k, name) ∷ cand) = (contains taken name ≡ false) × Fresh (name ∷ taken) cand

drop-append {ℓ} : {A : Type ℓ} (xs ys : List A) → drop (length xs) (xs ++ ys) ≡ ys
drop-append [] ys = refl
drop-append (x ∷ xs) ys = drop-append xs ys

-- The names that the fallback tries for one key.
abbrev candidate : Text → ℕ → Text
candidate base zero = base
candidate base (suc j) = base ++ itoa (2 + j)

candidate-injective : (base : Text) (i j : ℕ) → candidate base i ≡ candidate base j → i ≡ j
candidate-injective base zero zero e = refl
candidate-injective base zero (suc j) e =
    absurd (omega (arith, ap length e, length-append base (itoa (2 + j)), length-itoa (2 + j)))
candidate-injective base (suc i) zero e =
    absurd (omega (arith, ap length e, length-append base (itoa (2 + i)), length-itoa (2 + i)))
candidate-injective base (suc i) (suc j) e = omega (arith, itoa-injective (2 + i) (2 + j) tails)
  where
    tails : itoa (2 + i) ≡ itoa (2 + j)
    tails =
        sym (drop-append base (itoa (2 + i)))
        ∙ ap (drop (length base)) e
        ∙ drop-append base (itoa (2 + j))

-- A name that clashes comes back only if all that were tried clash.
first_free-clash :
    (taken seen : List Text) (base : Text) (fuel i : ℕ) (name : Text)
    → contains (seen ++ taken) (first_free taken seen base fuel i name) ≡ true
    → (contains (seen ++ taken) name ≡ true)
      × ((j : ℕ) → j < fuel → contains (seen ++ taken) (base ++ itoa (i + j)) ≡ true)
unfolding first_free
first_free-clash taken seen base zero i name h = (h, λ j lt. elim lt [ ])
first_free-clash taken seen base (suc fuel) i name h =
    elim (Bool-cases (contains taken name || contains seen name)) [
      | inl clash ↦
          let later =
            first_free-clash taken seen base fuel (i + 1) (base ++ itoa i)
              (rw (clash, first_free) at h) in
          (ground (arith, contains-append seen taken name), others later)
      | inr free ↦ absurd (ground (arith, contains-append seen taken name))
    ]
  where
    others :
        ((contains (seen ++ taken) (base ++ itoa i) ≡ true)
          × ((j : ℕ) → j < fuel → contains (seen ++ taken) (base ++ itoa (i + 1 + j)) ≡ true))
        → (j : ℕ) → j < suc fuel
        → contains (seen ++ taken) (base ++ itoa (i + j)) ≡ true
    others later zero lt = let e : i + 0 ≡ i = omega arith in rw e later.0
    others later (suc j) lt =
        let e : i + suc j ≡ i + 1 + j = omega arith in rw e (later.1 j (omega arith))

-- The suffix loop ends with a name that is neither taken nor seen.
pub first_free-free :
    (taken seen : List Text) (base : Text)
    → contains
        (seen ++ taken)
        (first_free taken seen base (suc (length taken + length seen)) 2 base)
      ≡ false
first_free-free taken seen base = elim (Bool-cases (contains (seen ++ taken) result)) [
  | inl clash ↦
      let all = first_free-clash taken seen base (suc (length taken + length seen)) 2 base clash in
      absurd (
        omega (
          arith,
          pigeonhole (candidate base) (candidate-injective base)
              (suc (suc (length taken + length seen))) (seen ++ taken) (used all),
          length-append seen taken,
        ))
  | inr free ↦ free
]
  where
    result : Text
    result = first_free taken seen base (suc (length taken + length seen)) 2 base

    used :
        ((contains (seen ++ taken) base ≡ true)
          × ((j : ℕ)
              → j < suc (length taken + length seen)
              → contains (seen ++ taken) (base ++ itoa (2 + j)) ≡ true))
        → (i : ℕ) → i < suc (suc (length taken + length seen))
        → contains (seen ++ taken) (candidate base i) ≡ true
    used all zero lt = all.0
    used all (suc j) lt = all.1 j (omega arith)

module _ (to_go_name : Text → Text) (taken : List Text) where
  abbrev pub try_depth : ℕ → List Text → List Text → Option Names
  try_depth = attempt to_go_name taken

  pub attempt-Fresh :
      (d : ℕ) (seen ks : List Text) (cand : Names)
      → try_depth d seen ks ≡ some cand
      → Fresh (seen ++ taken) cand × (keys cand ≡ ks)
  unfolding attempt keys
  attempt-Fresh d seen [] cand e = ground arith
  attempt-Fresh d seen (k ∷ ks) cand e = elim (Option-cases (try_depth d (name ∷ seen) ks)) [
    | inl stuck ↦ absurd (ground (arith, stuck))
    | inr (rest, e') ↦
        ground (arith, attempt-Fresh d (name ∷ seen) ks rest e', contains-append seen taken name)
  ]
    where
      name : Text
      name = concat_name to_go_name (segments k) d

  shallowest-Fresh :
      (rounds d : ℕ) (ks : List Text) (cand : Names) (score : ℕ)
      → shallowest to_go_name taken rounds d ks ≡ some (cand, score)
      → Fresh taken cand × (keys cand ≡ ks)
  unfolding shallowest
  shallowest-Fresh zero d ks cand score e = absurd (ground arith)
  shallowest-Fresh (suc rounds) d ks cand score e = elim (Option-cases (try_depth d [] ks)) [
    | inl none' ↦ shallowest-Fresh rounds (d + 1) ks cand score (rw (none', shallowest) at e)
    | inr (found, e') ↦ ground (arith, attempt-Fresh d [] ks found e', (rw (e', shallowest) at e))
  ]

  suffixed-Fresh :
      (d : ℕ) (seen ks : List Text)
      → Fresh (seen ++ taken) (suffixed to_go_name taken d seen ks)
        × (keys (suffixed to_go_name taken d seen ks) ≡ ks)
  unfolding suffixed keys
  suffixed-Fresh d seen [] = (tt, refl)
  suffixed-Fresh d seen (k ∷ ks) =
      let base = concat_name to_go_name (segments k) d in
      let name = first_free taken seen base (suc (length taken + length seen)) 2 base in
      let later = suffixed-Fresh d (name ∷ seen) ks in
      ((first_free-free taken seen base, later.0), ap (◌∷◌ k) later.1)

  -- The names of a group are new, and there is one for each key.
  pub resolve_collision_group-Fresh :
      (ks : List Text)
      → Fresh taken (resolve_collision_group to_go_name taken ks).0
        × (keys (resolve_collision_group to_go_name taken ks).0 ≡ ks)
  unfolding resolve_collision_group
  resolve_collision_group-Fresh ks =
      elim (Option-cases (shallowest to_go_name taken (max_depth 0 ks) 1 ks)) [
        | inl deep ↦ rw (deep, resolve_collision_group) (suffixed-Fresh (max_depth 0 ks) [] ks)
        | inr ((cand, score), e) ↦
            rw (e, resolve_collision_group) (shallowest-Fresh _ 1 ks cand score e)
      ]
