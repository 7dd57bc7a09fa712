-- ===== src/Spec/Reduce/Numbered.antt =====
-- The fallback of `resolveCollisionGroup`: whole paths, with a number where a name is in use.
use Prim.Native.Nat.{max}
use codescan.Prelude.{
  Text, codes, ℕ, zero, suc, ◌+◌, ◌-◌, ◌≤◌, ◌<◌, ◌≡◌, refl, sym, ap, subst, ◌∙◌, List, [], ◌∷◌,
  ◌++◌, true, false, ◌||◌, ◌⊎◌, inl, inr, Bool-cases, All, arith, contains, contains-append, split,
  join, length, drop,
}
use codescan.Prelude.Decimal.{itoa}
use codescan.Spec.Reduce.{
  Names, segments, concat_parts, concat_name, first_free, suffixed, resolve_collision_group,
  max_depth,
}
use codescan.Spec.Reduce.Fresh.{first_free-free}
use codescan.Spec.Reduce.Depth.{Suits, shallowest-none}

-- The base with a number, the least from `from` on that is not in use.
abbrev pub LeastNumber : List Text → Text → ℕ → Text → Type 0
LeastNumber used base from name =
    (n : ℕ) × (from ≤ n)
    × (name ≡ base ++ itoa n)
    × (contains used name ≡ false)
    × ((i : ℕ) → from ≤ i → i < n → contains used (base ++ itoa i) ≡ true)

-- The base itself where it is not in use; else the base with the least number from two on.
abbrev pub Picked : List Text → Text → Text → Type 0
Picked used base name =
    ((contains used base ≡ false) × (name ≡ base))
    ⊎ ((contains used base ≡ true) × LeastNumber used base 2 name)

module _ (taken seen : List Text) (base : Text) where
  first_LeastNumber :
      (i : ℕ) (name : Text)
      → contains (seen ++ taken) (base ++ itoa i) ≡ false
      → name ≡ base ++ itoa i
      → LeastNumber (seen ++ taken) base i name
  first_LeastNumber i name free e =
      (i, omega arith, e, ap (contains (seen ++ taken)) e ∙ free, λ j lo lt. absurd (omega arith))

  later_LeastNumber :
      (i : ℕ) (name : Text)
      → contains (seen ++ taken) (base ++ itoa i) ≡ true
      → LeastNumber (seen ++ taken) base (i + 1) name
      → LeastNumber (seen ++ taken) base i name
  later_LeastNumber i name used (n, lo, e, free, below) = (
    n,
    omega arith,
    e,
    free,
    λ j le lt. elim (first_or_later j le) [
      | inl here ↦ ap (λ k. contains (seen ++ taken) (base ++ itoa k)) (sym here) ∙ used
      | inr later ↦ below j later lt
    ],
  )
    where
      first_or_later : (j : ℕ) → i ≤ j → (i ≡ j) ⊎ (i + 1 ≤ j)
      first_or_later j le = ground arith

  -- The name that the loop ends with, once it is known to be free.
  first_free-LeastNumber :
      (fuel i : ℕ) (name : Text)
      → contains (seen ++ taken) (first_free taken seen base fuel i name) ≡ false
      → ((contains (seen ++ taken) name ≡ false) × (first_free taken seen base fuel i name ≡ name))
        ⊎ ((contains (seen ++ taken) name ≡ true)
            × LeastNumber (seen ++ taken) base i (first_free taken seen base fuel i name))
  unfolding first_free
  first_free-LeastNumber zero i name h = inl (h, refl)
  first_free-LeastNumber (suc fuel) i name h =
      elim (Bool-cases (contains taken name || contains seen name)) [
        | inl clash ↦
            rw (clash, first_free)
              (inr (
                ground (arith, contains-append seen taken name),
                elim (first_free-LeastNumber fuel (i + 1) (base ++ itoa i)
                    (rw (clash, first_free) at h)) [
                      | inl (free, e) ↦ first_LeastNumber i _ free e
                      | inr (used, least) ↦ later_LeastNumber i _ used least
                    ],
              ))
        | inr open_name ↦
            rw (open_name, first_free) (inl (ground (arith, contains-append seen taken name), refl))
      ]

  first_free-Picked :
      Picked
        (seen ++ taken)
        base
        (first_free taken seen base (suc (length taken + length seen)) 2 base)
  first_free-Picked =
      first_free-LeastNumber (suc (length taken + length seen)) 2 base
        (first_free-free taken seen base)

-- At the largest depth all segments of a key are taken.
max_depth-least : (m : ℕ) (ks : List Text) → m ≤ max_depth m ks
max_depth-least m [] = omega arith
max_depth-least m (k ∷ ks) = ground (arith, max_depth-least (max m (length (segments k) - 1)) ks)

abbrev Within : ℕ → Text → Type 0
Within d k = length (segments k) - 1 ≤ d

max_depth-Within : (m : ℕ) (ks : List Text) → All (Within (max_depth m ks)) ks
max_depth-Within m [] = tt
max_depth-Within m (k ∷ ks) = (
  ground (arith, max_depth-least (max m (length (segments k) - 1)) ks),
  max_depth-Within (max m (length (segments k) - 1)) ks,
)

concat_parts-whole : (segs : List Text) (d : ℕ) → length segs - 1 ≤ d → concat_parts segs d ≡ segs
unfolding concat_parts
concat_parts-whole segs d h = ap (λ n. drop n segs) none_left
  where
    none_left : length segs - d - 1 ≡ 0
    none_left = omega arith

module _ (to_go_name : Text → Text) (taken : List Text) where
  -- Each key in its order, with the name picked for its whole path; the names picked before it are in
  -- use.
  abbrev pub Numbered : List Text → List Text → Names → Type 0
  Numbered used [] [] = Unit
  Numbered used (k ∷ ks) ((key, name) ∷ cand) =
      (key ≡ k)
      × Picked used (to_go_name (join (codes " ") (split b'/' k))) name
      × Numbered (name ∷ used) ks cand
  Numbered used _ _ = ⊥

  suffixed-Numbered :
      (d : ℕ) (seen ks : List Text)
      → All (Within d) ks
      → Numbered (seen ++ taken) ks (suffixed to_go_name taken d seen ks)
  unfolding suffixed concat_name segments
  suffixed-Numbered d seen [] h = tt
  suffixed-Numbered d seen (k ∷ ks) h =
      let base = concat_name to_go_name (segments k) d in
      let name = first_free taken seen base (suc (length taken + length seen)) 2 base in
      (
        refl,
        subst (λ parts. Picked (seen ++ taken) (to_go_name (join (codes " ") parts)) name)
            (concat_parts-whole (segments k) d h.0) (first_free-Picked taken seen base),
        suffixed-Numbered d (name ∷ seen) ks h.1,
      )

  -- If no depth suits, each key is given, in its order, the name made of its whole path, or that
  -- name with the least number from two on, where the name is in use or was given to an earlier
  -- key.
  pub resolve-Numbered :
      (ks : List Text)
      → ((i : ℕ) → 1 ≤ i → i ≤ max_depth 0 ks → ¬ Suits to_go_name taken i ks)
      → Numbered taken ks (resolve_collision_group to_go_name taken ks).0
  unfolding resolve_collision_group
  resolve-Numbered ks never =
      rw
        (
          shallowest-none to_go_name taken (max_depth 0 ks) 1 ks
              (λ i lo hi. never i lo (omega arith)),
          resolve_collision_group,
        )
        (suffixed-Numbered (max_depth 0 ks) [] ks (max_depth-Within 0 ks))
