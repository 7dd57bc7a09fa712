-- ===== src/Tests/Naming.antt =====
-- Short names for the sample document.
use codescan.Prelude.{
  Text, codes, ℕ, ◌≤◌, ◌≡◌, refl, List, [], ◌∷◌, map, some, Bool, true, false, ◌&&◌, arith,
  contains, keys, lookup, has_key, erase, insert, sort, insert_sorted, text_le, text_eq,
  text_eq_iff, cut_prefix, cut_last, has_code, split, join, len, Bool-cases, inl, inr,
}
use codescan.Spec.Document.{
  collect_def_refs, rewrite_schema_refs, rewrite_opt, rewrite_schemas, rewrite_fields,
  rewrite_additional,
}
use codescan.Spec.Reduce.{
  slash, leaf_name, package_of, segments, concat_parts, concat_score, concat_budget,
  group_worst_score, max_depth, concat_name, attempt, shallowest, suffixed, resolve_collision_group,
  attempt_paths, shallowest_paths, resolve_hierarchical_group, add_to_group, reserve, rename_flat,
  rename_nested, deconflict, reserve_all, compute_name_reductions,
}
use codescan.Spec.Reduce.Fresh.{Fresh, resolve_collision_group-Fresh}
use codescan.Spec.Reduce.Depth.{names_at, Suits, resolve-shallowest}
use codescan.Spec.Reduce.Numbered.{Numbered, resolve-Numbered}
use codescan.Spec.Reduce.Groups.{final}
use codescan.Spec.Reduce.Distinct.{final-distinct}
use codescan.Spec.Reduce.Lifted.{members, final-leaf}
use codescan.Spec.Reduce.Targets.{rename-plain}
use codescan.Spec.Rewrite.{
  repointer, rewrite_all_refs, rekey_one, rekey_definitions, place_one, place_hierarchical,
  reduce_definition_names,
}
use codescan.Spec.Rewrite.Collect.{renamed, collect-rewrite_schema_refs}
use codescan.Spec.Rewrite.Rekey.{reduce-relocates}
use codescan.Tests.Samples.{sample, pet, tag, dog, other_tag, pet_schema, to_name, flat_options}

abbrev two_tags : List Text
two_tags = tag ∷ other_tag ∷ []

abbrev all_keys : List Text
all_keys = pet ∷ tag ∷ dog ∷ other_tag ∷ []

-- The names that are shared get the package in front, the others are the leaf alone.
renames :
    (compute_name_reductions to_name flat_options all_keys).renames
    ≡ (pet, codes "Pet") ∷ (dog, codes "Dog") ∷ (tag, codes "aTag") ∷ (other_tag, codes "bTag") ∷ []
unfolding compute_name_reductions leaf_name package_of segments concat_parts concat_score
    concat_budget concat_name attempt shallowest suffixed resolve_collision_group attempt_paths
    shallowest_paths resolve_hierarchical_group add_to_group reserve rename_flat rename_nested
    deconflict reserve_all contains keys lookup has_key insert sort insert_sorted text_le text_eq
    cut_prefix cut_last has_code split join len
renames = refl

-- The definitions of the sample document, under their new names.
reduced_keys :
    keys (reduce_definition_names to_name some flat_options false sample).0.definitions
    ≡ codes "Pet" ∷ codes "Dog" ∷ codes "aTag" ∷ codes "bTag" ∷ []
unfolding reduce_definition_names rewrite_all_refs rekey_one rekey_definitions place_one
    place_hierarchical repointer rewrite_schema_refs rewrite_schemas rewrite_fields rewrite_opt
    rewrite_additional erase compute_name_reductions leaf_name package_of segments concat_parts
    concat_score concat_budget concat_name attempt shallowest suffixed resolve_collision_group
    attempt_paths shallowest_paths resolve_hierarchical_group add_to_group reserve rename_flat
    rename_nested deconflict reserve_all contains keys lookup has_key insert sort insert_sorted
    text_le text_eq cut_prefix cut_last has_code split join len
reduced_keys = refl

final-tag : final (compute_name_reductions to_name flat_options all_keys) tag ≡ codes "aTag"
unfolding compute_name_reductions leaf_name package_of segments concat_parts concat_score
    concat_budget concat_name attempt shallowest suffixed resolve_collision_group attempt_paths
    shallowest_paths resolve_hierarchical_group add_to_group reserve rename_flat rename_nested
    deconflict reserve_all contains keys lookup has_key insert sort insert_sorted text_le text_eq
    cut_prefix cut_last has_code split join len
final-tag = refl

tag_renamed :
    lookup tag (compute_name_reductions to_name flat_options all_keys).renames ≡ some (codes "aTag")
unfolding compute_name_reductions leaf_name package_of segments concat_parts concat_score
    concat_budget concat_name attempt shallowest suffixed resolve_collision_group attempt_paths
    shallowest_paths resolve_hierarchical_group add_to_group reserve rename_flat rename_nested
    deconflict reserve_all contains keys lookup has_key insert sort insert_sorted text_le text_eq
    cut_prefix cut_last has_code split join len
tag_renamed = refl

member : contains all_keys tag ≡ true
unfolding contains text_eq
member = refl

to_name-slash : (t : Text) → has_code slash (to_name t) ≡ false
unfolding has_code
to_name-slash [] = refl
to_name-slash (c ∷ s) = ground (arith, to_name-slash s)

abbrev all_slashed {ℓ} : {V : Type ℓ} → List (Text × V) → Bool
all_slashed [] = true
all_slashed ((k, v) ∷ m) = has_code slash k && all_slashed m

slashed_keys {ℓ} :
    {V : Type ℓ} (m : List (Text × V)) (all : all_slashed m ≡ true) (k : Text)
    (h : has_key k m ≡ true)
    → has_code slash k ≡ true
unfolding has_key
slashed_keys [] all k h = ground arith
slashed_keys ((j, v) ∷ m) all k h = elim (Bool-cases (text_eq j k)) [
  | inl same ↦ ground (arith, (text_eq_iff j k).0 same)
  | inr other ↦ slashed_keys m (ground arith) k (ground arith)
]

sample_slashed : all_slashed sample.definitions ≡ true
unfolding has_code
sample_slashed = refl

tag_found : lookup pet sample.definitions ≡ some pet_schema
unfolding lookup text_eq
tag_found = refl

final-distinct_example : tag ≡ tag
final-distinct_example =
    final-distinct to_name flat_options refl all_keys tag tag member member refl

pet_alone : members to_name flat_options refl all_keys (leaf_name pet) ≡ pet ∷ []
unfolding compute_name_reductions leaf_name package_of segments concat_parts concat_score
    concat_budget concat_name attempt shallowest suffixed resolve_collision_group attempt_paths
    shallowest_paths resolve_hierarchical_group add_to_group reserve rename_flat rename_nested
    deconflict reserve_all contains keys lookup has_key insert sort insert_sorted text_le text_eq
    cut_prefix cut_last has_code split join len
pet_alone = refl

pet_member : contains all_keys pet ≡ true
unfolding contains text_eq
pet_member = refl

final-leaf_example :
    final (compute_name_reductions to_name flat_options all_keys) pet ≡ leaf_name pet
final-leaf_example = final-leaf to_name flat_options refl all_keys pet pet_member pet_alone

rename-plain_example : (contains all_keys tag ≡ true) × (has_code slash (codes "aTag") ≡ false)
rename-plain_example =
    rename-plain to_name to_name-slash flat_options refl all_keys tag (codes "aTag") tag_renamed

resolve_collision_group-Fresh_example :
    Fresh (codes "aTag" ∷ []) (resolve_collision_group to_name (codes "aTag" ∷ []) two_tags).0
    × (keys (resolve_collision_group to_name (codes "aTag" ∷ []) two_tags).0 ≡ two_tags)
resolve_collision_group-Fresh_example =
    resolve_collision_group-Fresh to_name (codes "aTag" ∷ []) two_tags

tags_suit : Suits to_name [] 1 two_tags
unfolding compute_name_reductions leaf_name package_of segments concat_parts concat_score
    concat_budget concat_name attempt shallowest suffixed resolve_collision_group attempt_paths
    shallowest_paths resolve_hierarchical_group add_to_group reserve rename_flat rename_nested
    deconflict reserve_all contains keys lookup has_key insert sort insert_sorted text_le text_eq
    cut_prefix cut_last has_code split join len
tags_suit = (refl, (refl, tt))

one_deep : 1 ≤ max_depth 0 two_tags
unfolding compute_name_reductions leaf_name package_of segments concat_parts concat_score
    concat_budget concat_name attempt shallowest suffixed resolve_collision_group attempt_paths
    shallowest_paths resolve_hierarchical_group add_to_group reserve rename_flat rename_nested
    deconflict reserve_all contains keys lookup has_key insert sort insert_sorted text_le text_eq
    cut_prefix cut_last has_code split join len
one_deep = omega arith

resolve-shallowest_example :
    resolve_collision_group to_name [] two_tags
    ≡ (names_at to_name [] 1 two_tags, group_worst_score (names_at to_name [] 1 two_tags) 1 0)
resolve-shallowest_example =
    resolve-shallowest to_name [] two_tags 1 (omega arith) one_deep tags_suit
      (λ i lo hi. absurd (omega arith))

abbrev same_name : Text → Text
same_name t = codes "X"

never-Suits : (i : ℕ) → 1 ≤ i → i ≤ max_depth 0 two_tags → ¬ Suits same_name [] i two_tags
unfolding concat_name contains text_eq
never-Suits i lo hi suits = ground (arith, suits.1.0)

resolve-Numbered_example :
    Numbered same_name [] [] two_tags (resolve_collision_group same_name [] two_tags).0
resolve-Numbered_example = resolve-Numbered same_name [] two_tags never-Suits

reduce-relocates_example :
    lookup
      (final (compute_name_reductions to_name flat_options all_keys) pet)
      (reduce_definition_names to_name some flat_options false sample).0.definitions
    ≡ some (
        rewrite_schema_refs
          (repointer some (compute_name_reductions to_name flat_options all_keys).renames)
          pet_schema)
unfolding keys
reduce-relocates_example =
    reduce-relocates to_name to_name-slash some flat_options refl false sample
      (slashed_keys sample.definitions sample_slashed) pet pet_schema tag_found

collect-rewrite_schema_refs_example :
    collect_def_refs (rewrite_schema_refs (repointer some ((tag, codes "aTag") ∷ [])) pet_schema)
    ≡ map (renamed ((tag, codes "aTag") ∷ [])) (collect_def_refs pet_schema)
collect-rewrite_schema_refs_example =
    collect-rewrite_schema_refs some ((tag, codes "aTag") ∷ []) (λ k name e. refl) pet_schema
