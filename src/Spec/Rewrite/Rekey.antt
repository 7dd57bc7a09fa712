-- ===== src/Spec/Rewrite/Rekey.antt =====
-- Where a definition stands after `reduceDefinitionNames`.
use codescan.Prelude.{
  Text, ◌≡◌, refl, sym, ap, ◌∙◌, List, [], ◌∷◌, map, Option, none, some, Bool, true, false, ◌&&◌,
  contains, if◌then◌else◌, arith, Bool-cases, Option-cases, inl, inr, has_code, keys, lookup,
  insert, has_key, lookup-insert, lookup-erase, has_key-lookup, contains-keys, text_eq, text_eq_iff,
  text_eq_refl, contains-cons, not-contains-nil,
}
use codescan.Spec.Document.{Schema, Swagger, rewrite_schema_refs}
use codescan.Spec.Reduce.{Options, slash, compute_name_reductions}
use codescan.Spec.Reduce.Groups.{final}
use codescan.Spec.Reduce.Distinct.{final-distinct}
use codescan.Spec.Reduce.Targets.{DistinctKeys, Sound, compute_name_reductions-Sound}
use codescan.Spec.Rewrite.{
  repointer, rewrite_all_refs, rekey_one, rekey_definitions, place_one, place_hierarchical,
  reduce_definition_names,
}

-- The names that a rename map leads to.
abbrev targets : List (Text × Text) → List Text
targets [] = []
targets ((k, name) ∷ m) = name ∷ targets m

-- Keys have a slash and names none, names are new, and no two are the same.
abbrev Movable : List (Text × Schema) → List (Text × Text) → Type 0
Movable defs [] = Unit
Movable defs ((k, name) ∷ m) =
    (has_code slash k ≡ true)
    × (has_code slash name ≡ false)
    × (has_key name defs ≡ false)
    × (contains (targets m) name ≡ false)
    × Movable defs m

lookup-rekey_one :
    (defs : List (Text × Schema)) (k name j : Text)
    → has_code slash name ≡ false
    → has_key name defs ≡ false
    → lookup j (rekey_one defs k name) ≡ (
        if text_eq k j
        then none
        else if text_eq name j && has_key k defs
        then lookup k defs
        else lookup j defs)
unfolding rekey_one
lookup-rekey_one defs k name j plain new = elim (Option-cases (lookup k defs)) [
  | inl absent ↦ ground (arith, absent, text_eq_iff k j, has_key-lookup k defs)
  | inr (sch, found) ↦ ground (
    arith,
    found,
    lookup-erase k j (insert name sch defs),
    lookup-insert name j sch defs,
    has_key-lookup k defs,
  )
]

Movable-change :
    (defs defs' : List (Text × Schema)) (m : List (Text × Text))
    → ((x : Text)
        → contains (targets m) x ≡ true
        → has_key x defs ≡ false
        → has_key x defs' ≡ false)
    → Movable defs m
    → Movable defs' m
Movable-change defs defs' [] same h = tt
Movable-change defs defs' ((k, name) ∷ m) same h = (
  h.0,
  h.1,
  same name (ground (arith, contains-cons name (targets m) name, text_eq_refl name)) h.2,
  h.3,
  Movable-change defs defs' m (λ x c. same x (ground (arith, contains-cons name (targets m) x)))
      h.4,
)

Movable-rekey_one :
    (defs : List (Text × Schema)) (k name : Text) (m : List (Text × Text))
    → Movable defs ((k, name) ∷ m)
    → Movable (rekey_one defs k name) m
Movable-rekey_one defs k name m h =
    Movable-change defs (rekey_one defs k name) m
      (λ x c new. ground (
        arith,
        lookup-rekey_one defs k name x h.1 h.2,
        has_key-lookup x (rekey_one defs k name),
        has_key-lookup x defs,
        text_eq_iff name x,
        h.3,
      ))
      h.4

plain-no_key :
    (defs : List (Text × Schema)) (m : List (Text × Text)) (x : Text)
    → has_code slash x ≡ false
    → Movable defs m
    → has_key x m ≡ false
unfolding has_key
plain-no_key defs [] x plain h = refl
plain-no_key defs ((k, name) ∷ m) x plain h = ground (
  arith,
  plain-no_key (rekey_one defs k name) m x,
  Movable-rekey_one defs k name m h,
  text_eq_iff k x,
  h.0,
)

slashed-no_target :
    (defs : List (Text × Schema)) (m : List (Text × Text)) (x : Text)
    → has_code slash x ≡ true
    → Movable defs m
    → contains (targets m) x ≡ false
slashed-no_target defs [] x slashed h = not-contains-nil x
slashed-no_target defs ((k, name) ∷ m) x slashed h = ground (
  arith,
  slashed-no_target (rekey_one defs k name) m x,
  Movable-rekey_one defs k name m h,
  text_eq_iff name x,
  contains-cons name (targets m) x,
  h.1,
)

-- What is neither renamed nor a target keeps its definition.
rekey-keeps :
    (defs : List (Text × Schema)) (m : List (Text × Text)) (x : Text)
    → has_key x m ≡ false
    → contains (targets m) x ≡ false
    → Movable defs m
    → lookup x (rekey_definitions defs m) ≡ lookup x defs
unfolding rekey_definitions has_key
rekey-keeps defs [] x old out h = refl
rekey-keeps defs ((k, name) ∷ m) x old out h =
    rekey-keeps (rekey_one defs k name) m x (ground arith)
      (ground (arith, contains-cons name (targets m) x)) (Movable-rekey_one defs k name m h)
    ∙ ground (arith, lookup-rekey_one defs k name x h.1 h.2, contains-cons name (targets m) x)

-- A definition is found under the name that its key is renamed to.
rekey-moves :
    (defs : List (Text × Schema)) (m : List (Text × Text)) (k name : Text) (sch : Schema)
    → lookup k m ≡ some name
    → lookup k defs ≡ some sch
    → has_code slash k ≡ true
    → Movable defs m
    → lookup name (rekey_definitions defs m) ≡ some sch
unfolding rekey_definitions
rekey-moves defs [] k name sch e found slashed h = absurd (unfold lookup in cc e)
rekey-moves defs ((k0, n0) ∷ m) k name sch e found slashed h = elim (Bool-cases (text_eq k0 k)) [
  | inl same ↦ here ((text_eq_iff k0 k).0 same) (unfold lookup in rw same at e)
  | inr other ↦
      rekey-moves (rekey_one defs k0 n0) m k name sch (unfold lookup in rw other at e)
        (ground (arith, lookup-rekey_one defs k0 n0 k h.1 h.2, other, text_eq_iff n0 k, h.1))
        slashed (Movable-rekey_one defs k0 n0 m h)
]
  where
    here :
        k0 ≡ k
        → some n0 ≡ some name
        → lookup name (rekey_definitions defs ((k0, n0) ∷ m)) ≡ some sch
    here at_k at_name =
        ap (λ x. lookup x (rekey_definitions defs ((k0, n0) ∷ m)))
          (let same : name ≡ n0 = cc in same)
        ∙ rekey-keeps (rekey_one defs k0 n0) m n0
            (plain-no_key (rekey_one defs k0 n0) m n0 h.1 (Movable-rekey_one defs k0 n0 m h)) h.3
            (Movable-rekey_one defs k0 n0 m h)
        ∙ ground (
          arith,
          lookup-rekey_one defs k0 n0 n0 h.1 h.2,
          text_eq_refl n0,
          text_eq_iff k0 n0,
          has_key-lookup k0 defs,
          h.0,
        )

lookup-head : (k name : Text) (m : List (Text × Text)) → lookup k ((k, name) ∷ m) ≡ some name
unfolding lookup
lookup-head k name m = rw (text_eq_refl k)

lookup-tail :
    (k name j n : Text) (m : List (Text × Text))
    → has_key k m ≡ false
    → lookup j m ≡ some n
    → lookup j ((k, name) ∷ m) ≡ some n
unfolding lookup
lookup-tail k name j n m d e = ground (arith, has_key-lookup k m, text_eq_iff k j, e)

target-key :
    (m : List (Text × Text)) (x : Text)
    → DistinctKeys m
    → contains (targets m) x ≡ true
    → (j : Text) × (lookup j m ≡ some x)
target-key [] x d c = absurd (cc (c, not-contains-nil x))
target-key ((k, name) ∷ m) x d c = elim (Bool-cases (text_eq name x)) [
  | inl same ↦ (k, lookup-head k name m ∙ ap some ((text_eq_iff name x).0 same))
  | inr other ↦
      let (j, e) = target-key m x d.1 (ground (arith, contains-cons name (targets m) x)) in
      (j, lookup-tail k name j x m d.0 e)
]

abbrev Injective : List (Text × Text) → Type 0
Injective m = (j k name : Text) → lookup j m ≡ some name → lookup k m ≡ some name → j ≡ k

module _ (defs : List (Text × Schema)) where
  abbrev Moves : List (Text × Text) → Type 0
  Moves m =
      (k name : Text)
      → lookup k m ≡ some name
      → (has_code slash k ≡ true) × (has_code slash name ≡ false) × (has_key name defs ≡ false)

  Movable-of : (m : List (Text × Text)) → DistinctKeys m → Moves m → Injective m → Movable defs m
  Movable-of [] d h i = tt
  Movable-of ((k, name) ∷ m) d h i =
      let now = h k name (lookup-head k name m) in
      (
        now.0,
        now.1,
        now.2,
        elim (Bool-cases (contains (targets m) name)) [
          | inl clash ↦
              let (j, e) = target-key m name d.1 clash in
              let same = i j k name (lookup-tail k name j name m d.0 e) (lookup-head k name m) in
              absurd (ground (arith, has_key-lookup k m, d.0, same, e))
          | inr free ↦ free
        ],
        Movable-of m d.1 (λ j n e. h j n (lookup-tail k name j n m d.0 e))
            (λ a b n ea eb.
              i a b n (lookup-tail k name a n m d.0 ea) (lookup-tail k name b n m d.0 eb)),
      )

-- With no name that holds a slash nothing is placed in a container.
place_hierarchical-flat :
    (skip : Bool) (defs base : List (Text × Schema)) (m : List (Text × Text))
    → Movable base m
    → place_hierarchical skip defs m ≡ defs
unfolding place_hierarchical place_one
place_hierarchical-flat skip defs base [] h = refl
place_hierarchical-flat skip defs base ((k, name) ∷ m) h = rw h.1 (
    place_hierarchical-flat skip defs (rekey_one base k name) m (Movable-rekey_one base k name m h))

lookup-map :
    (f : Schema → Schema) (k : Text) (defs : List (Text × Schema))
    → lookup k (map (λ (key, sch). (key, f sch)) defs)
      ≡ elim (lookup k defs) [ none ↦ none | some sch ↦ some (f sch) ]
unfolding lookup
lookup-map f k [] = refl
lookup-map f k ((j, sch) ∷ defs) = elim (Bool-cases (text_eq j k)) [
  | inl same ↦ rw same
  | inr other ↦ rw other (lookup-map f k defs)
]

module _ (to_go_name : Text → Text) (plain : (t : Text) → has_code slash (to_go_name t) ≡ false)
    (new_ref : Text → Option Text) (o : Options) (flat : o.hierarchical_names ≡ false) (skip : Bool)
    (doc : Swagger)
    (slashed : (k : Text) → has_key k doc.definitions ≡ true → has_code slash k ≡ true) where
  abbrev renames : List (Text × Text)
  renames = (compute_name_reductions to_go_name o (keys doc.definitions)).renames

  abbrev rewritten : Schema → Schema
  rewritten = rewrite_schema_refs (repointer new_ref renames)

  abbrev repointed : List (Text × Schema)
  repointed = map (λ (key, sch). (key, rewritten sch)) doc.definitions

  has_key-repointed : (k : Text) → has_key k repointed ≡ has_key k doc.definitions
  has_key-repointed k = ground (
    arith,
    has_key-lookup k repointed,
    has_key-lookup k doc.definitions,
    lookup-map rewritten k doc.definitions,
  )

  sound : Sound (keys doc.definitions) renames
  sound = compute_name_reductions-Sound to_go_name plain o flat (keys doc.definitions)

  renames-Movable : Movable repointed renames
  renames-Movable = Movable-of repointed renames sound.once moves injective
    where
      known : (k name : Text) → lookup k renames ≡ some name → has_key k doc.definitions ≡ true
      known k name e = sym (contains-keys k doc.definitions) ∙ sound.of_key k name e

      moves : Moves repointed renames
      moves k name e = (
        slashed k (known k name e),
        sound.to_plain k name e,
        ground (arith, has_key-repointed name, slashed name, sound.to_plain k name e),
      )

      injective : Injective renames
      injective j k name ej ek =
          final-distinct to_go_name o flat (keys doc.definitions) j k (sound.of_key j name ej)
            (sound.of_key k name ek) (rw (ej, final) (rw (ek, final)))

  -- Without hierarchical names, where the mangler gives no slash and every key of the document has
  -- one, each definition is found under its final name, with its references rewritten.
  pub reduce-relocates :
      (k : Text) (sch : Schema)
      → lookup k doc.definitions ≡ some sch
      → lookup
          (final (compute_name_reductions to_go_name o (keys doc.definitions)) k)
          (reduce_definition_names to_go_name new_ref o skip doc).0.definitions
        ≡ some (rewritten sch)
  unfolding reduce_definition_names rewrite_all_refs
  reduce-relocates k sch found =
      rw
        (place_hierarchical-flat skip (rekey_definitions repointed renames) repointed renames
          renames-Movable)
        (elim (Option-cases (lookup k renames)) [
          | inl same ↦
              rw (same, final)
                (rekey-keeps repointed renames k (has_key-lookup k renames ∙ rw same)
                    (slashed-no_target repointed renames k slash_k renames-Movable) renames-Movable
                  ∙ lookup-map rewritten k doc.definitions
                  ∙ rw found)
          | inr (name, e) ↦
              rw (e, final)
                (rekey-moves repointed renames k name (rewritten sch) e
                  (lookup-map rewritten k doc.definitions ∙ rw found) slash_k renames-Movable)
        ])
    where
      slash_k : has_code slash k ≡ true
      slash_k = slashed k (has_key-lookup k doc.definitions ∙ rw found)
