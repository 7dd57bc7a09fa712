-- ===== src/Spec/Reduce/Distinct.antt =====
-- Without hierarchical names no two definitions end with the same name.
use codescan.Prelude.{
  Text, ◌≡◌, refl, sym, ap, ◌∙◌, List, [], ◌∷◌, Bool, true, false, ◌&&◌, ◌||◌, contains,
  if◌then◌else◌, arith, Bool-cases, inl, inr, contains-cons, keys, text_eq, text_eq_iff,
  text_eq_refl, foldl, lookup, insert, lookup-insert, not-contains-nil, sort, contains-sort,
}
use codescan.Spec.Reduce.{
  Names, Options, Reduction, leaf_name, group_of, reserve_all, rename_flat, deconflict,
  resolve_collision_group, compute_name_reductions, no_reduction,
}
use codescan.Spec.Reduce.Fresh.{Fresh, resolve_collision_group-Fresh}
use codescan.Spec.Reduce.Groups.{
  final, groups_of, contains-group_of, contains-groups, Settled, pass-Settled, pass-collides,
}

-- The keys that `P` says are named: their names are taken, and differ.
record Inv (s : Reduction) (P : Text → Bool) : Type 0 where
  used : (k : Text) → P k ≡ true → contains s.taken (final s k) ≡ true
  distinct : (j k : Text) → P j ≡ true → P k ≡ true → final s j ≡ final s k → j ≡ k

Inv-weaken :
    (s : Reduction) (P Q : Text → Bool) → ((k : Text) → Q k ≡ true → P k ≡ true) → Inv s P → Inv s Q
Inv-weaken s P Q sub h = record {
  used = λ k q. h.used k (sub k q);
  distinct = λ j k qj qk e. h.distinct j k (sub j qj) (sub k qk) e;
}

abbrev name_one : Reduction → Text → Text → Reduction
name_one s k name = record s { renames = insert k name s.renames; taken = name ∷ s.taken }

final-name_one :
    (s : Reduction) (k name j : Text)
    → final (name_one s k name) j ≡ (if text_eq k j then name else final s j)
final-name_one s k name j = ground (arith, lookup-insert k j name s.renames)

Inv-name_one :
    (s : Reduction) (P : Text → Bool) (k name : Text)
    → contains s.taken name ≡ false
    → Inv s P
    → Inv (name_one s k name) (λ j. P j || text_eq k j)
Inv-name_one s P k name free h = record {
  used = λ j p. ground (
    arith,
    final-name_one s k name j,
    contains-cons name s.taken (final (name_one s k name) j),
    text_eq_refl name,
    h.used j,
  );
  distinct = λ i j pi pj e. ground (
    arith,
    final-name_one s k name i,
    final-name_one s k name j,
    h.used i,
    h.used j,
    h.distinct i j,
    text_eq_iff k i,
    text_eq_iff k j,
  );
}

rename_flat-Inv :
    (s : Reduction) (P : Text → Bool) (cand : Names)
    → Fresh s.taken cand
    → Inv s P
    → Inv (rename_flat s cand) (λ k. P k || contains (keys cand) k)
unfolding rename_flat keys
rename_flat-Inv s P [] f h = Inv-weaken s P _ (λ k q. ground (arith, not-contains-nil k)) h
rename_flat-Inv s P ((k, name) ∷ cand) f h =
    Inv-weaken _ (λ j. (P j || text_eq k j) || contains (keys cand) j) _
      (λ j q. ground (arith, contains-cons k (keys cand) j))
      (rename_flat-Inv (name_one s k name) (λ j. P j || text_eq k j) cand f.1
        (Inv-name_one s P k name f.0 h))

module _ (to_go_name : Text → Text) (o : Options) (flat : o.hierarchical_names ≡ false)
    (ks : List Text) where
  abbrev group : Text → List Text
  group leaf = group_of leaf (groups_of ks)

  abbrev resolve_leaf : Reduction → Text → Reduction
  resolve_leaf = deconflict to_go_name o (groups_of ks)

  deconflict-Inv :
      (s : Reduction) (P : Text → Bool) (leaf : Text)
      → Inv s P
      → Inv (resolve_leaf s leaf) (λ k. P k || contains (group leaf) k)
  unfolding deconflict
  deconflict-Inv s P leaf h = rw flat (record {
    used = λ k q. named.used k (covers k q);
    distinct = λ j k qj qk e. named.distinct j k (covers j qj) (covers k qk) e;
  })
    where
      cand : Names
      cand = (resolve_collision_group to_go_name s.taken (sort (group leaf))).0

      fresh : Fresh s.taken cand × (keys cand ≡ sort (group leaf))
      fresh = resolve_collision_group-Fresh to_go_name s.taken (sort (group leaf))

      named : Inv (rename_flat s cand) (λ k. P k || contains (keys cand) k)
      named = rename_flat-Inv s P cand fresh.0 h

      covers :
          (k : Text)
          → (P k || contains (group leaf) k) ≡ true
          → (P k || contains (keys cand) k) ≡ true
      covers k q = ground (arith, ap (λ ns. contains ns k) fresh.1, contains-sort (group leaf) k)

  abbrev in_groups : List Text → Text → Bool
  in_groups [] k = false
  in_groups (c ∷ cs) k = contains (group c) k || in_groups cs k

  resolve_all-Inv :
      (s : Reduction) (P : Text → Bool) (cs : List Text)
      → Inv s P
      → Inv (foldl resolve_leaf s cs) (λ k. P k || in_groups cs k)
  resolve_all-Inv s P [] h = Inv-weaken s P _ (λ k q. ground arith) h
  resolve_all-Inv s P (c ∷ cs) h =
      Inv-weaken _ (λ k. (P k || contains (group c) k) || in_groups cs k) _ (λ k q. ground arith)
        (resolve_all-Inv (resolve_leaf s c) _ cs (deconflict-Inv s P c h))

  in_groups-leaf :
      (cs : List Text) (leaf k : Text)
      → contains cs leaf ≡ true
      → contains (group leaf) k ≡ true
      → in_groups cs k ≡ true
  in_groups-leaf [] leaf k h m = cc (h, not-contains-nil leaf)
  in_groups-leaf (c ∷ cs) leaf k h m = elim (Bool-cases (text_eq c leaf)) [
    | inl here ↦ rw ((text_eq_iff c leaf).0 here) (rw m)
    | inr other ↦ ground (arith, contains-cons c cs leaf, in_groups-leaf cs leaf k)
  ]

  -- A key is alone in its group.
  abbrev sole : List Text → Text → Bool
  sole (x ∷ []) k = text_eq x k
  sole _ k = false

  sole-eq : (g : List Text) (k : Text) → sole g k ≡ true → g ≡ k ∷ []
  sole-eq [] k h = cc
  sole-eq (x ∷ []) k h = ap (λ (y : Text). y ∷ []) ((text_eq_iff x k).0 h)
  sole-eq (x ∷ y ∷ g) k h = cc

  own_leaf : (leaf k : Text) → contains (group leaf) k ≡ true → leaf_name k ≡ leaf
  own_leaf leaf k h = ground (arith, contains-group_of ks leaf k, text_eq_iff (leaf_name k) leaf)

  abbrev pub reserved : Reduction
  reserved = reserve_all (groups_of ks) (keys (groups_of ks))

  abbrev pub lifted : Text → Bool
  lifted k = contains ks k && sole (group (leaf_name k)) k

  pub lifted-Settled : (k : Text) → lifted k ≡ true → Settled reserved k
  unfolding reserve_all
  lifted-Settled k h =
      pass-Settled group own_leaf no_reduction (keys (groups_of ks)) k
        (sole-eq (group (leaf_name k)) k (ground arith)) (contains-groups ks k (ground arith))
        (λ j name e. absurd (unfold lookup in cc e))

  Inv-reserved : Inv reserved lifted
  Inv-reserved = record {
    used = λ k p. let s = lifted-Settled k p in rw s.name s.reserved;
    distinct = λ j k pj pk e.
        same_group j k pj pk (sym (lifted-Settled j pj).name ∙ e ∙ (lifted-Settled k pk).name);
  }
    where
      same_group :
          (j k : Text) → lifted j ≡ true → lifted k ≡ true → leaf_name j ≡ leaf_name k → j ≡ k
      same_group j k pj pk e =
          let alone_j = sole-eq (group (leaf_name j)) j (ground arith) in
          let alone_k = sole-eq (group (leaf_name k)) k (ground arith) in
          cc (sym alone_j ∙ ap group e ∙ alone_k)

  member : (k : Text) → contains ks k ≡ true → contains (group (leaf_name k)) k ≡ true
  member k h = contains-group_of ks (leaf_name k) k ∙ rw (h, text_eq_refl (leaf_name k))

  -- Every key is lifted or in a colliding group.
  covered :
      (k : Text) (g : List Text)
      → g ≡ group (leaf_name k)
      → contains ks k ≡ true
      → (lifted k || in_groups (sort reserved.collisions) k) ≡ true
  unfolding reserve_all
  covered k [] e h = cc (not-contains-nil k, ap (λ m. contains m k) e, member k h)
  covered k (x ∷ []) e h = ground (
    arith,
    contains-cons x [] k,
    not-contains-nil k,
    ap (λ m. contains m k) e,
    ap (λ m. sole m k) e,
    member k h,
  )
  covered k (x ∷ y ∷ g) e h =
      let collides =
        pass-collides group own_leaf no_reduction (keys (groups_of ks)) (leaf_name k) x y g (sym e)
          (contains-groups ks k h) in
      ground (
        arith,
        in_groups-leaf (sort reserved.collisions) (leaf_name k) k
            (contains-sort reserved.collisions (leaf_name k) ∙ collides) (member k h),
      )

  -- Without hierarchical names, two keys of the document that end with the same name are the same
  -- key.
  pub final-distinct :
      (j k : Text)
      → contains ks j ≡ true
      → contains ks k ≡ true
      → final (compute_name_reductions to_go_name o ks) j
        ≡ final (compute_name_reductions to_go_name o ks) k
      → j ≡ k
  unfolding compute_name_reductions
  final-distinct j k hj hk =
      all.distinct j k (covered j (group (leaf_name j)) refl hj)
        (covered k (group (leaf_name k)) refl hk)
    where
      all :
          Inv
            (foldl resolve_leaf reserved (sort reserved.collisions))
            (λ k. lifted k || in_groups (sort reserved.collisions) k)
      all = resolve_all-Inv reserved lifted (sort reserved.collisions) Inv-reserved
