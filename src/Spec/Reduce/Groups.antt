-- ===== src/Spec/Reduce/Groups.antt =====
-- The grouping by leaf name, and pass 1: a key alone in its group is lifted to its leaf, and the
-- other leaves are left for pass 2.
use mathlib.Core.List.{append_assoc, append-nil}
use codescan.Prelude.{
  Text, ◌≡◌, refl, sym, ap, ◌∙◌, List, [], ◌∷◌, ◌++◌, none, some, Bool, true, ◌&&◌, ◌||◌, contains,
  if◌then◌else◌, arith, Bool-cases, Option-cases, inl, inr, contains-append, contains-cons, keys,
  text_eq, text_eq_iff, text_eq_refl, keep, foldl, lookup, has_key, lookup-insert, has_key-insert,
  contains-keep, contains-keys, not-contains-nil,
}
use codescan.Spec.Reduce.{leaf_name, group_of, add_to_group, Reduction, reserve}

abbrev same_leaf : Text → Text → Bool
same_leaf leaf k = text_eq (leaf_name k) leaf

group_of-add_to_group :
    (groups : List (Text × List Text)) (leaf k : Text)
    → group_of leaf (add_to_group groups k)
      ≡ (if same_leaf leaf k then group_of leaf groups ++ k ∷ [] else group_of leaf groups)
unfolding add_to_group
group_of-add_to_group groups leaf k = elim (Bool-cases (same_leaf leaf k)) [
  | inl same ↦
      rw (lookup-insert (leaf_name k) leaf, same, group_of)
        (rw ((text_eq_iff (leaf_name k) leaf).0 same))
  | inr other ↦ rw (lookup-insert (leaf_name k) leaf, other, group_of)
]

group_of-foldl :
    (ks : List Text) (groups : List (Text × List Text)) (leaf : Text)
    → group_of leaf (foldl add_to_group groups ks)
      ≡ group_of leaf groups ++ keep (same_leaf leaf) ks
group_of-foldl [] groups leaf = sym (append-nil _)
group_of-foldl (k ∷ ks) groups leaf =
    group_of-foldl ks (add_to_group groups k) leaf ∙ elim (Bool-cases (same_leaf leaf k)) [
      | inl same ↦ rw (group_of-add_to_group groups leaf k, same, append_assoc)
      | inr other ↦ rw (group_of-add_to_group groups leaf k, other)
    ]

abbrev pub groups_of : List Text → List (Text × List Text)
groups_of ks = foldl add_to_group [] ks

-- A group holds the keys with its leaf name.
pub contains-group_of :
    (ks : List Text) (leaf k : Text)
    → contains (group_of leaf (groups_of ks)) k ≡ (contains ks k && text_eq (leaf_name k) leaf)
contains-group_of ks leaf k =
    ap (λ g. contains g k) (group_of-foldl ks [] leaf ∙ refl_nil)
    ∙ contains-keep (same_leaf leaf) ks k
  where
    refl_nil : group_of leaf [] ++ keep (same_leaf leaf) ks ≡ keep (same_leaf leaf) ks
    refl_nil = unfold lookup in refl

has_key-foldl :
    (ks : List Text) (groups : List (Text × List Text)) (k : Text)
    → (has_key (leaf_name k) groups || contains ks k) ≡ true
    → has_key (leaf_name k) (foldl add_to_group groups ks) ≡ true
unfolding add_to_group contains
has_key-foldl [] groups k h = ground arith
has_key-foldl (j ∷ ks) groups k h = has_key-foldl ks (add_to_group groups j) k (
    ground (
      arith,
      has_key-insert (leaf_name j) (leaf_name k) (group_of (leaf_name j) groups ++ j ∷ []) groups,
      text_eq_iff j k,
      text_eq_refl (leaf_name k),
    ))

-- Every key has its group.
pub contains-groups :
    (ks : List Text) (k : Text)
    → contains ks k ≡ true
    → contains (keys (groups_of ks)) (leaf_name k) ≡ true
contains-groups ks k h =
    contains-keys (leaf_name k) (groups_of ks) ∙ has_key-foldl ks [] k (ground arith)

-- The name that a key ends with.
abbrev pub final : Reduction → Text → Text
final s k = elim (lookup k s.renames) [ none ↦ k | some name ↦ name ]

-- In pass 1 a rename leads to the leaf name.
abbrev Lifts : Reduction → Type 0
Lifts s = (k name : Text) → lookup k s.renames ≡ some name → name ≡ leaf_name k

pub record Settled (s : Reduction) (k : Text) : Type 0 where
  pub name : final s k ≡ leaf_name k
  pub reserved : contains s.taken (leaf_name k) ≡ true

-- A group's keys have its leaf name.
abbrev OfLeaf : Text → List Text → Type 0
OfLeaf leaf ks = (k : Text) → contains ks k ≡ true → leaf_name k ≡ leaf

contains_self : (k : Text) (ks : List Text) → contains (k ∷ ks) k ≡ true
contains_self k ks = ground (arith, contains-cons k ks k, text_eq_refl k)

reserve-Lifts :
    (s : Reduction) (leaf : Text) (ks : List Text)
    → OfLeaf leaf ks
    → Lifts s
    → Lifts (reserve s leaf ks)
unfolding reserve
reserve-Lifts s leaf [] own h = h
reserve-Lifts s leaf (x ∷ []) own h = λ k name e.
    ground (
      arith,
      lookup-insert x k leaf s.renames,
      text_eq_iff x k,
      own x (contains_self x []),
      h k name,
    )
reserve-Lifts s leaf (x ∷ y ∷ ks) own h = h

reserve-keeps-Settled :
    (s : Reduction) (leaf : Text) (ks : List Text) (k : Text)
    → OfLeaf leaf ks
    → Settled s k
    → Settled (reserve s leaf ks) k
unfolding reserve
reserve-keeps-Settled s leaf [] k own h = record { name = h.name; reserved = h.reserved }
reserve-keeps-Settled s leaf (x ∷ []) k own h = record {
  name = ground (
    arith,
    lookup-insert x k leaf s.renames,
    text_eq_iff x k,
    own x (contains_self x []),
    h.name,
  );
  reserved = ground (arith, contains-cons leaf s.taken (leaf_name k), h.reserved);
}
reserve-keeps-Settled s leaf (x ∷ y ∷ ks) k own h = record { name = h.name; reserved = h.reserved }

reserve-Settled :
    (s : Reduction) (leaf k : Text)
    → leaf_name k ≡ leaf
    → Lifts s
    → Settled (reserve s leaf (k ∷ [])) k
unfolding reserve
reserve-Settled s leaf k own h = record {
  name =
      ground
        (arith, lookup-insert k k leaf s.renames, text_eq_iff k leaf, text_eq_refl k, unrenamed);
  reserved =
      ground (arith, contains-cons leaf s.taken (leaf_name k), text_eq_iff leaf (leaf_name k));
}
  where
    unrenamed : k ≡ leaf → final s k ≡ leaf
    unrenamed e = elim (Option-cases (lookup k s.renames)) [
      | inl plain ↦ rw (plain, final) e
      | inr (name, found) ↦ rw (found, final) (h k name found ∙ own)
    ]

-- Pass 1 over some leaves, with the group of each.
module _ (group : Text → List Text) (own : (leaf : Text) → OfLeaf leaf (group leaf)) where
  abbrev pub pass : Reduction → List Text → Reduction
  pass = foldl (λ s leaf. reserve s leaf (group leaf))

  pass-keeps-Settled :
      (s : Reduction) (leaves : List Text) (k : Text) → Settled s k → Settled (pass s leaves) k
  pass-keeps-Settled s [] k h = h
  pass-keeps-Settled s (l ∷ leaves) k h =
      pass-keeps-Settled (reserve s l (group l)) leaves k
        (reserve-keeps-Settled s l (group l) k (own l) h)

  -- A key alone in its group is settled.
  pub pass-Settled :
      (s : Reduction) (leaves : List Text) (k : Text)
      → group (leaf_name k) ≡ k ∷ []
      → contains leaves (leaf_name k) ≡ true
      → Lifts s
      → Settled (pass s leaves) k
  pass-Settled s [] k alone h lifts = cc (h, not-contains-nil (leaf_name k))
  pass-Settled s (l ∷ leaves) k alone h lifts = elim (Bool-cases (text_eq l (leaf_name k))) [
    | inl here ↦ pass-keeps-Settled _ leaves k (settle ((text_eq_iff l (leaf_name k)).0 here))
    | inr other ↦
        pass-Settled (reserve s l (group l)) leaves k alone
          (ground (arith, contains-cons l leaves (leaf_name k)))
          (reserve-Lifts s l (group l) (own l) lifts)
  ]
    where
      settle : l ≡ leaf_name k → Settled (reserve s l (group l)) k
      settle e = rw (e, alone) (reserve-Settled s (leaf_name k) k refl lifts)

  reserve-keeps-collisions :
      (s : Reduction) (l leaf : Text) (ks : List Text)
      → contains s.collisions leaf ≡ true
      → contains (reserve s l ks).collisions leaf ≡ true
  unfolding reserve
  reserve-keeps-collisions s l leaf [] h =
      ground (arith, contains-append s.collisions (l ∷ []) leaf)
  reserve-keeps-collisions s l leaf (x ∷ []) h = h
  reserve-keeps-collisions s l leaf (x ∷ y ∷ ks) h =
      ground (arith, contains-append s.collisions (l ∷ []) leaf)

  pass-keeps-collisions :
      (s : Reduction) (leaves : List Text) (leaf : Text)
      → contains s.collisions leaf ≡ true
      → contains (pass s leaves).collisions leaf ≡ true
  pass-keeps-collisions s [] leaf h = h
  pass-keeps-collisions s (l ∷ leaves) leaf h =
      pass-keeps-collisions (reserve s l (group l)) leaves leaf
        (reserve-keeps-collisions s l leaf (group l) h)

  reserve-collides :
      (s : Reduction) (leaf x y : Text) (ks : List Text)
      → contains (reserve s leaf (x ∷ y ∷ ks)).collisions leaf ≡ true
  unfolding reserve
  reserve-collides s leaf x y ks =
      ground (arith, contains-append s.collisions (leaf ∷ []) leaf, contains_self leaf [])

  -- A leaf that two keys share is left for pass 2.
  pub pass-collides :
      (s : Reduction) (leaves : List Text) (leaf x y : Text) (ks : List Text)
      → group leaf ≡ x ∷ y ∷ ks
      → contains leaves leaf ≡ true
      → contains (pass s leaves).collisions leaf ≡ true
  pass-collides s [] leaf x y ks e h = cc (h, not-contains-nil leaf)
  pass-collides s (l ∷ leaves) leaf x y ks e h = elim (Bool-cases (text_eq l leaf)) [
    | inl here ↦ pass-keeps-collisions _ leaves leaf (collide ((text_eq_iff l leaf).0 here))
    | inr other ↦
        pass-collides (reserve s l (group l)) leaves leaf x y ks e
          (ground (arith, contains-cons l leaves leaf))
  ]
    where
      collide : l ≡ leaf → contains (reserve s l (group l)).collisions leaf ≡ true
      collide at_leaf = rw (at_leaf, e) (reserve-collides s leaf x y ks)
