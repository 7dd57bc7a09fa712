-- ===== src/Tests/Pruning.antt =====
-- Pruning the sample document.
use codescan.Prelude.{
  codes, ◌≡◌, refl, ◌↔◌, [], ◌∷◌, none, some, true, false, arith, contains, keys, lookup, has_key,
  erase, sort, insert_sorted, text_le, text_eq, cut_prefix,
}
use codescan.Spec.Document.{
  operations_of, collect_def_refs, collect_schemas, collect_fields, collect_opt, collect_additional,
  is_discriminated, any_discriminated,
}
use codescan.Spec.Prune.{
  parameter_pruned, response_pruned, definition_pruned, tell, mark, mark_all, subtype_keys_of,
  expand, close, root_refs, overlay_keys, start, reach, prune_definition, unreachable,
  prune_definitions, shared_ref_name, shared_params, shared_responses, prune_parameter,
  prune_response, unused, prune_shared_objects, prune_unused_models,
}
use codescan.Spec.Prune.Marking.{is_node}
use codescan.Spec.Prune.Closure.{Reachable, reach-Reachable, reach-queue}
use codescan.Spec.Prune.Shared.{kept}
use codescan.Spec.Prune.Kept.{
  prune-keeps-Reachable, prune-drops-unreachable, prune-keeps-shared, prune-no_dangling,
}
use codescan.Tests.Samples.{
  sample, sample_builder, pet, tag, dog, other_tag, limit, junk, pet_schema,
}

-- The unused parameter, response and definition are gone; the dog is kept as a subtype.
pruned_keys :
    (keys (prune_unused_models sample_builder).input.definitions ≡ pet ∷ tag ∷ dog ∷ [])
    × (keys (prune_unused_models sample_builder).input.parameters ≡ limit ∷ [])
    × (keys (prune_unused_models sample_builder).input.responses ≡ [])
unfolding prune_unused_models prune_definitions prune_definition unreachable mark mark_all
    subtype_keys_of expand close root_refs overlay_keys start reach shared_ref_name shared_params
    shared_responses unused prune_shared_objects prune_parameter prune_response tell operations_of
    collect_def_refs collect_schemas collect_fields collect_opt collect_additional is_discriminated
    any_discriminated contains keys lookup has_key erase sort insert_sorted text_le text_eq
    cut_prefix
pruned_keys = (refl, refl, refl)

hints :
    (prune_unused_models sample_builder).hints
    ≡ parameter_pruned junk ∷ response_pruned (codes "gone") ∷ definition_pruned other_tag ∷ []
unfolding prune_unused_models prune_definitions prune_definition unreachable mark mark_all
    subtype_keys_of expand close root_refs overlay_keys start reach shared_ref_name shared_params
    shared_responses unused prune_shared_objects prune_parameter prune_response tell operations_of
    collect_def_refs collect_schemas collect_fields collect_opt collect_additional is_discriminated
    any_discriminated contains keys lookup has_key erase sort insert_sorted text_le text_eq
    cut_prefix
hints = refl

dog_marked : contains (reach (prune_shared_objects sample_builder)).reachable dog ≡ true
unfolding mark mark_all subtype_keys_of expand close root_refs overlay_keys start reach
    shared_ref_name shared_params shared_responses unused prune_shared_objects prune_parameter
    prune_response tell operations_of collect_def_refs collect_schemas collect_fields collect_opt
    collect_additional is_discriminated any_discriminated contains keys lookup has_key erase sort
    insert_sorted text_le text_eq cut_prefix
dog_marked = refl

other_tag_unmarked :
    contains (reach (prune_shared_objects sample_builder)).reachable other_tag ≡ false
unfolding mark mark_all subtype_keys_of expand close root_refs overlay_keys start reach
    shared_ref_name shared_params shared_responses unused prune_shared_objects prune_parameter
    prune_response tell operations_of collect_def_refs collect_schemas collect_fields collect_opt
    collect_additional is_discriminated any_discriminated contains keys lookup has_key erase sort
    insert_sorted text_le text_eq cut_prefix
other_tag_unmarked = refl

dog-Reachable : Reachable (prune_shared_objects sample_builder) dog
dog-Reachable = (reach-Reachable (prune_shared_objects sample_builder) dog).0 dog_marked

other_tag_unreachable : ¬ Reachable (prune_shared_objects sample_builder) other_tag
other_tag_unreachable r =
    let marked = (reach-Reachable (prune_shared_objects sample_builder) other_tag).1 r in
    ground (arith, marked, other_tag_unmarked)

pet_kept : lookup pet (prune_unused_models sample_builder).input.definitions ≡ some pet_schema
unfolding prune_unused_models prune_definitions prune_definition unreachable mark mark_all
    subtype_keys_of expand close root_refs overlay_keys start reach shared_ref_name shared_params
    shared_responses unused prune_shared_objects prune_parameter prune_response tell operations_of
    collect_def_refs collect_schemas collect_fields collect_opt collect_additional is_discriminated
    any_discriminated contains keys lookup has_key erase sort insert_sorted text_le text_eq
    cut_prefix
pet_kept = refl

tag_node : is_node sample.definitions tag ≡ true
unfolding has_key text_eq
tag_node = refl

tag_ref : contains (collect_def_refs pet_schema) tag ≡ true
unfolding contains collect_def_refs collect_schemas collect_fields collect_opt collect_additional
    cut_prefix text_eq
tag_ref = refl

reach-Reachable_example :
    (contains (reach sample_builder).reachable dog ≡ true) ↔ Reachable sample_builder dog
reach-Reachable_example = reach-Reachable sample_builder dog

reach-queue_example : (reach sample_builder).queue ≡ []
reach-queue_example = reach-queue sample_builder

prune-keeps-Reachable_example :
    lookup dog (prune_unused_models sample_builder).input.definitions
    ≡ lookup dog sample.definitions
prune-keeps-Reachable_example = prune-keeps-Reachable sample_builder refl refl dog dog-Reachable

prune-drops-unreachable_example :
    lookup other_tag (prune_unused_models sample_builder).input.definitions ≡ none
prune-drops-unreachable_example =
    prune-drops-unreachable sample_builder refl refl other_tag other_tag_unreachable

prune-keeps-shared_example :
    (lookup limit (prune_unused_models sample_builder).input.parameters
      ≡ kept [] (shared_params sample) limit sample.parameters)
    × (lookup limit (prune_unused_models sample_builder).input.responses
        ≡ kept [] (shared_responses sample) limit sample.responses)
    × ((prune_unused_models sample_builder).input.paths ≡ sample.paths)
prune-keeps-shared_example = prune-keeps-shared sample_builder refl refl limit

prune-no_dangling_example :
    has_key tag (prune_unused_models sample_builder).input.definitions ≡ true
prune-no_dangling_example =
    prune-no_dangling sample_builder refl refl pet tag pet_schema tag_node pet_kept tag_ref
