-- ===== src/Spec/Reduce/Lifted.antt =====
-- Keys with a leaf of their own: pass 2 leaves the names that pass 1 gives them.
use codescan.Prelude.{
  Text, ◌≡◌, refl, ap, ◌∙◌, List, [], ◌∷◌, ◌++◌, none, some, true, false, arith, contains, keys,
  lookup, insert, lookup-insert, text_eq, text_eq_iff, text_eq_refl, Bool-cases, inl, inr, foldl,
  sort, contains-cons, contains-append, contains-sort, not-contains-nil,
}
use codescan.Spec.Reduce.{
  Names, Options, Reduction, leaf_name, group_of, reserve, reserve_all, rename_flat, deconflict,
  resolve_collision_group, compute_name_reductions, no_reduction,
}
use codescan.Spec.Reduce.Fresh.{resolve_collision_group-Fresh}
use codescan.Spec.Reduce.Groups.{Settled, final, groups_of, contains-group_of}
use codescan.Spec.Reduce.Distinct.{lifted-Settled}

lookup-rename_flat :
    (s : Reduction) (cand : Names) (k : Text)
    → contains (keys cand) k ≡ false
    → lookup k (rename_flat s cand).renames ≡ lookup k s.renames
unfolding rename_flat keys
lookup-rename_flat s [] k out = refl
lookup-rename_flat s ((j, name) ∷ cand) k out = ground (
  arith,
  lookup-rename_flat (record s { renames = insert j name s.renames; taken = name ∷ s.taken }) cand
      k,
  contains-cons j (keys cand) k,
  lookup-insert j k name s.renames,
)

added-false :
    (cs : List Text) (l leaf : Text)
    → text_eq l leaf ≡ false
    → contains cs leaf ≡ false
    → contains (cs ++ l ∷ []) leaf ≡ false
added-false cs l leaf other h =
    ground (arith, contains-append cs (l ∷ []) leaf, contains-cons l [] leaf, not-contains-nil leaf)

-- A leaf with one key does not collide.
reserve-no_collision :
    (s : Reduction) (l leaf k : Text) (g : List Text)
    → (l ≡ leaf → g ≡ k ∷ [])
    → contains s.collisions leaf ≡ false
    → contains (reserve s l g).collisions leaf ≡ false
unfolding reserve
reserve-no_collision s l leaf k [] own h = elim (Bool-cases (text_eq l leaf)) [
  | inl same ↦ cc (own ((text_eq_iff l leaf).0 same))
  | inr other ↦ added-false s.collisions l leaf other h
]
reserve-no_collision s l leaf k (x ∷ []) own h = h
reserve-no_collision s l leaf k (x ∷ y ∷ g) own h = elim (Bool-cases (text_eq l leaf)) [
  | inl same ↦ cc (own ((text_eq_iff l leaf).0 same))
  | inr other ↦ added-false s.collisions l leaf other h
]

pass-no_collision :
    (g : Text → List Text) (s : Reduction) (leaves : List Text) (leaf k : Text)
    → g leaf ≡ k ∷ []
    → contains s.collisions leaf ≡ false
    → contains (foldl (λ s l. reserve s l (g l)) s leaves).collisions leaf ≡ false
pass-no_collision g s [] leaf k alone h = h
pass-no_collision g s (l ∷ leaves) leaf k alone h =
    pass-no_collision g (reserve s l (g l)) leaves leaf k alone
      (reserve-no_collision s l leaf k (g l) (λ e. ap g e ∙ alone) h)

module _ (to_go_name : Text → Text) (o : Options) (flat : o.hierarchical_names ≡ false)
    (ks : List Text) where
  abbrev pub members : Text → List Text
  members leaf = group_of leaf (groups_of ks)

  -- Pass 2 renames the keys of a colliding group only.
  lookup-deconflict :
      (s : Reduction) (leaf k : Text)
      → text_eq leaf (leaf_name k) ≡ false
      → lookup k (deconflict to_go_name o (groups_of ks) s leaf).renames ≡ lookup k s.renames
  unfolding deconflict
  lookup-deconflict s leaf k other = rw flat (
      lookup-rename_flat s (resolve_collision_group to_go_name s.taken (sort (members leaf))).0 k (
        ground (
          arith,
          ap (λ ns. contains ns k)
              (resolve_collision_group-Fresh to_go_name s.taken (sort (members leaf))).1,
          contains-sort (members leaf) k,
          contains-group_of ks leaf k,
          text_eq_iff leaf (leaf_name k),
          text_eq_iff (leaf_name k) leaf,
        )))

  lookup-resolve_all :
      (s : Reduction) (cs : List Text) (k : Text)
      → contains cs (leaf_name k) ≡ false
      → lookup k (foldl (deconflict to_go_name o (groups_of ks)) s cs).renames ≡ lookup k s.renames
  lookup-resolve_all s [] k out = refl
  lookup-resolve_all s (c ∷ cs) k out =
      lookup-resolve_all (deconflict to_go_name o (groups_of ks) s c) cs k
        (ground (arith, contains-cons c cs (leaf_name k)))
      ∙ lookup-deconflict s c k (ground (arith, contains-cons c cs (leaf_name k)))

  -- Without hierarchical names, a key of the document whose leaf no other key has ends with its
  -- leaf as its name, whatever names the other keys are given.
  pub final-leaf :
      (k : Text)
      → contains ks k ≡ true
      → members (leaf_name k) ≡ k ∷ []
      → final (compute_name_reductions to_go_name o ks) k ≡ leaf_name k
  unfolding compute_name_reductions reserve_all
  final-leaf k member alone =
      ap (λ found. elim found [ none ↦ k | some name ↦ name ]) same ∙ settled.name
    where
      first : Reduction
      first = reserve_all (groups_of ks) (keys (groups_of ks))

      free : contains (sort first.collisions) (leaf_name k) ≡ false
      free =
          contains-sort first.collisions (leaf_name k)
          ∙ pass-no_collision members no_reduction (keys (groups_of ks)) (leaf_name k) k alone
              (not-contains-nil (leaf_name k))

      same :
          lookup k
            (foldl (deconflict to_go_name o (groups_of ks)) first (sort first.collisions)).renames
          ≡ lookup k first.renames
      same = lookup-resolve_all first (sort first.collisions) k free

      settled : Settled first k
      settled = lifted-Settled to_go_name o flat ks k (rw (member, alone) (text_eq_refl k))
