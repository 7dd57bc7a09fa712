-- ===== src/Spec/Reduce/Depth.antt =====
-- The names of a colliding group come from the shallowest depth that will do.
use codescan.Prelude.{
  Text, ℕ, zero, suc, ◌+◌, ◌≤◌, ◌<◌, ◌≡◌, refl, List, [], ◌∷◌, ◌++◌, none, some, arith,
  Option-cases, inl, inr, contains-append, ◌⊎◌,
}
use codescan.Spec.Reduce.{
  Names, segments, concat_name, attempt, shallowest, resolve_collision_group, max_depth,
  group_worst_score,
}
use codescan.Spec.Reduce.Fresh.{Fresh, attempt-Fresh}

module _ (to_go_name : Text → Text) (taken : List Text) where
  -- Every key with its nearest parents at one depth.
  abbrev pub names_at : ℕ → List Text → Names
  names_at d [] = []
  names_at d (k ∷ ks) = (k, concat_name to_go_name (segments k) d) ∷ names_at d ks

  attempt-of_Fresh :
      (d : ℕ) (seen ks : List Text)
      → Fresh (seen ++ taken) (names_at d ks)
      → attempt to_go_name taken d seen ks ≡ some (names_at d ks)
  unfolding attempt
  attempt-of_Fresh d seen [] f = refl
  attempt-of_Fresh d seen (k ∷ ks) f = ground (
    arith,
    attempt-of_Fresh d (concat_name to_go_name (segments k) d ∷ seen) ks f.1,
    contains-append seen taken (concat_name to_go_name (segments k) d),
    f.0,
  )

  attempt-names_at :
      (d : ℕ) (seen ks : List Text) (cand : Names)
      → attempt to_go_name taken d seen ks ≡ some cand
      → cand ≡ names_at d ks
  unfolding attempt
  attempt-names_at d seen [] cand e = ground arith
  attempt-names_at d seen (k ∷ ks) cand e =
      elim (Option-cases (attempt to_go_name taken d (name ∷ seen) ks)) [
        | inl stuck ↦ absurd (ground (arith, stuck))
        | inr (rest, e') ↦ ground (arith, attempt-names_at d (name ∷ seen) ks rest e')
      ]
    where
      name : Text
      name = concat_name to_go_name (segments k) d

  -- A depth at which the names are free and differ.
  abbrev pub Suits : ℕ → List Text → Type 0
  Suits d ks = Fresh taken (names_at d ks)

  attempt-none : (d : ℕ) (ks : List Text) → ¬ Suits d ks → attempt to_go_name taken d [] ks ≡ none
  attempt-none d ks h = elim (Option-cases (attempt to_go_name taken d [] ks)) [
    | inl stuck ↦ stuck
    | inr (cand, e) ↦
        let suits = (attempt-Fresh to_go_name taken d [] ks cand e).0 in
        absurd (h (rw (attempt-names_at d [] ks cand e) at suits))
  ]

  shallowest-least :
      (rounds from d : ℕ) (ks : List Text)
      → from ≤ d
      → d < from + rounds
      → Suits d ks
      → ((i : ℕ) → from ≤ i → i < d → ¬ Suits i ks)
      → shallowest to_go_name taken rounds from ks
        ≡ some (names_at d ks, group_worst_score (names_at d ks) d 0)
  unfolding shallowest
  shallowest-least zero from d ks lo hi f least = absurd (omega arith)
  shallowest-least (suc rounds) from d ks lo hi f least = elim (split lo) [
    | inl here ↦ rw here (rw (attempt-of_Fresh d [] ks f, shallowest))
    | inr later ↦
        rw (attempt-none from ks (least from (omega arith) later), shallowest)
          (shallowest-least rounds (from + 1) d ks (omega arith) (omega arith) f
            (λ i h. least i (omega arith)))
  ]
    where
      split : from ≤ d → (from ≡ d) ⊎ (from < d)
      split h = ground arith

  pub shallowest-none :
      (rounds from : ℕ) (ks : List Text)
      → ((i : ℕ) → from ≤ i → i < from + rounds → ¬ Suits i ks)
      → shallowest to_go_name taken rounds from ks ≡ none
  unfolding shallowest
  shallowest-none zero from ks h = refl
  shallowest-none (suc rounds) from ks h =
      rw (attempt-none from ks (h from (omega arith) (omega arith)), shallowest)
        (shallowest-none rounds (from + 1) ks (λ i lo hi. h i (omega arith) (omega arith)))

  -- If the names at a depth are free and differ, and at no smaller depth from one on, the names of
  -- that depth are given, with the worst of their scores.
  pub resolve-shallowest :
      (ks : List Text) (d : ℕ)
      → 1 ≤ d
      → d ≤ max_depth 0 ks
      → Suits d ks
      → ((i : ℕ) → 1 ≤ i → i < d → ¬ Suits i ks)
      → resolve_collision_group to_go_name taken ks
        ≡ (names_at d ks, group_worst_score (names_at d ks) d 0)
  unfolding resolve_collision_group
  resolve-shallowest ks d lo hi f least =
      rw
        (shallowest-least (max_depth 0 ks) 1 d ks lo (omega arith) f least, resolve_collision_group)
