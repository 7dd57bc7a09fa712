-- ===== src/Spec/Prune/Kept.antt =====
-- What the document holds after `pruneUnusedModels`.
use mathlib.Core.Path.{subst}
use codescan.Prelude.{
  Text, ◌≡◌, refl, ◌∙◌, sym, ap, List, [], ◌∷◌, ◌++◌, none, some, true, not, contains, keys, lookup,
  has_key, if◌then◌else◌, arith, keep, foldl, sort, lookup-erase, contains-keys, contains-append,
  contains-sort, contains-keep, has_key-lookup, Bool-cases, inl, inr,
}
use codescan.Spec.Document.{Schema, collect_def_refs, is_discriminated}
use codescan.Spec.Prune.{
  Builder, tell, prune_definition, prune_definitions, unreachable, reach, lookup_schema,
  prune_shared_objects, prune_unused_models, subtype_keys_of, shared_params, shared_responses,
}
use codescan.Spec.Prune.Marking.{is_node}
use codescan.Spec.Prune.Closure.{Reachable, by_step, targets, reach-Reachable}
use codescan.Spec.Prune.Shared.{
  gone, kept, shared-parameters, shared-responses, shared-definitions, shared-paths,
}

lookup-prune_each :
    (b : Builder) (ks : List Text) (k : Text)
    → lookup k (foldl prune_definition b ks).input.definitions ≡ gone ks k b.input.definitions
unfolding contains prune_definition tell
lookup-prune_each b [] k = refl
lookup-prune_each b (j ∷ ks) k =
    ground
      (arith, lookup-prune_each (prune_definition b j) ks k, lookup-erase j k b.input.definitions)

prune_each_frame :
    (b : Builder) (ks : List Text)
    → ((foldl prune_definition b ks).input.parameters ≡ b.input.parameters)
      × ((foldl prune_definition b ks).input.responses ≡ b.input.responses)
      × ((foldl prune_definition b ks).input.paths ≡ b.input.paths)
unfolding prune_definition tell
prune_each_frame b [] = (refl, refl, refl)
prune_each_frame b (j ∷ ks) = ground (arith, prune_each_frame (prune_definition b j) ks)

lookup-prune_definitions :
    (b : Builder) (k : Text)
    → lookup k (prune_definitions b).input.definitions
      ≡ (if contains (reach b).reachable k then lookup k b.input.definitions else none)
unfolding prune_definitions unreachable
lookup-prune_definitions b k =
    lookup-prune_each b (sort (unreachable b)) k
    ∙ ground (
      arith,
      contains-sort
          (keep (λ key. not (contains (reach b).reachable key)) (keys b.input.definitions)) k,
      contains-keep (λ key. not (contains (reach b).reachable key)) (keys b.input.definitions) k,
      contains-keys k b.input.definitions,
      has_key-lookup k b.input.definitions,
    )

lookup_schema-eq :
    (j : Text) (sch : Schema) (defs : List (Text × Schema))
    → lookup j defs ≡ some sch
    → lookup_schema j defs ≡ sch
lookup_schema-eq j sch defs e = rw (e, lookup_schema)

module _ (b : Builder) (on : b.prune_unused ≡ true) (models : b.scan_models ≡ true) where
  both_stages : prune_unused_models b ≡ prune_definitions (prune_shared_objects b)
  unfolding prune_unused_models
  both_stages = ground arith

  kept_value :
      (k : Text)
      → lookup k (prune_definitions (prune_shared_objects b)).input.definitions ≡ (
          if contains (reach (prune_shared_objects b)).reachable k
          then lookup k (prune_shared_objects b).input.definitions
          else none)
  kept_value = lookup-prune_definitions (prune_shared_objects b)

  -- With both options set, a definition that is reachable once the unused shared objects are gone
  -- is kept with its schema.
  pub prune-keeps-Reachable :
      (k : Text)
      → Reachable (prune_shared_objects b) k
      → lookup k (prune_unused_models b).input.definitions ≡ lookup k b.input.definitions
  prune-keeps-Reachable k r = rw both_stages (
      kept_value k
      ∙ rw ((reach-Reachable (prune_shared_objects b) k).1 r)
          (ap (lookup k) (shared-definitions b)))

  -- With both options set, a definition that is not reachable once the unused shared objects are
  -- gone is absent.
  pub prune-drops-unreachable :
      (k : Text)
      → ¬ Reachable (prune_shared_objects b) k
      → lookup k (prune_unused_models b).input.definitions ≡ none
  prune-drops-unreachable k n = rw both_stages (
      kept_value k ∙ elim (Bool-cases (contains (reach (prune_shared_objects b)).reachable k)) [
        | inl m ↦ absurd (n ((reach-Reachable (prune_shared_objects b) k).0 m))
        | inr out ↦ rw out
      ])

  -- With both options set, a shared parameter or response is kept with its value if it is pinned or
  -- referenced by an operation or a path item, and is absent otherwise; the paths are left alone.
  pub prune-keeps-shared :
      (k : Text)
      → (lookup k (prune_unused_models b).input.parameters
          ≡ kept b.pinned_params (shared_params b.input) k b.input.parameters)
        × (lookup k (prune_unused_models b).input.responses
            ≡ kept b.pinned_responses (shared_responses b.input) k b.input.responses)
        × ((prune_unused_models b).input.paths ≡ b.input.paths)
  unfolding prune_definitions
  prune-keeps-shared k = rw both_stages (
    ap (lookup k) frame.0 ∙ shared-parameters b k,
    ap (lookup k) frame.1 ∙ shared-responses b k,
    frame.2 ∙ shared-paths b,
  )
    where
      b' : Builder
      b' = prune_shared_objects b

      frame :
          ((prune_definitions b').input.parameters ≡ b'.input.parameters)
          × ((prune_definitions b').input.responses ≡ b'.input.responses)
          × ((prune_definitions b').input.paths ≡ b'.input.paths)
      frame = prune_each_frame b' (sort (unreachable b'))

  Reachable-has_key :
      (k : Text)
      → Reachable (prune_shared_objects b) k
      → is_node b.input.definitions k ≡ true
      → has_key k (prune_unused_models b).input.definitions ≡ true
  Reachable-has_key k r n = ground (
    arith,
    prune-keeps-Reachable k r,
    has_key-lookup k (prune_unused_models b).input.definitions,
    has_key-lookup k b.input.definitions,
  )

  kept-Reachable :
      (j : Text) (sch : Schema)
      → lookup j (prune_unused_models b).input.definitions ≡ some sch
      → Reachable (prune_shared_objects b) j
        × (lookup j (prune_shared_objects b).input.definitions ≡ some sch)
  kept-Reachable j sch e = elim (Bool-cases (contains (reach b').reachable j)) [
    | inl m ↦ ((reach-Reachable b' j).0 m, ground (arith, value, after))
    | inr out ↦ absurd (ground (arith, value, after))
  ]
    where
      b' : Builder
      b' = prune_shared_objects b

      value :
          lookup j (prune_definitions b').input.definitions
          ≡ (if contains (reach b').reachable j then lookup j b'.input.definitions else none)
      value = lookup-prune_definitions b' j

      after : lookup j (prune_definitions b').input.definitions ≡ some sch
      after = sym (ap (λ (x : Builder). lookup j x.input.definitions) both_stages) ∙ e

  shared_node :
      (k : Text)
      → is_node b.input.definitions k ≡ true
      → is_node (prune_shared_objects b).input.definitions k ≡ true
  shared_node k n = rw (shared-definitions b) n

  -- With both options set, a definition with a key that is not empty is still there if a definition
  -- of the pruned document refers to it.
  pub prune-no_dangling :
      (j k : Text) (sch : Schema)
      → is_node b.input.definitions k ≡ true
      → lookup j (prune_unused_models b).input.definitions ≡ some sch
      → contains (collect_def_refs sch) k ≡ true
      → has_key k (prune_unused_models b).input.definitions ≡ true
  prune-no_dangling j k sch n e c =
      let (r, found) = kept-Reachable j sch e in
      Reachable-has_key k (by_step r (leads found) (shared_node k n)) n
    where
      b' : Builder
      b' = prune_shared_objects b

      leads : lookup j b'.input.definitions ≡ some sch → contains (targets b' j) k ≡ true
      leads found =
          subst
            (λ x.
              contains
                (collect_def_refs x ++ (if is_discriminated x then subtype_keys_of b' j else [])) k
              ≡ true)
            (sym (lookup_schema-eq j sch b'.input.definitions found))
            (contains-append (collect_def_refs sch) _ k ∙ rw c)
