-- ===== src/Spec/Prune/Shared.antt =====
-- `pruneUnusedSharedObjects`: what is left of the shared parameters and responses.
use codescan.Prelude.{
  Text, ◌≡◌, refl, ◌∙◌, ap, List, [], ◌∷◌, Option, none, ◌&&◌, ◌||◌, not, contains, keys, lookup,
  sort, if◌then◌else◌, arith, keep, foldl, lookup-erase, contains-sort, contains-keep,
  contains-keys, has_key-lookup,
}
use codescan.Spec.Prune.{
  Builder, tell, prune_parameter, prune_response, prune_shared_objects, shared_params,
  shared_responses, unused,
}

-- What deleting a list of parameters, or of responses, changes.
abbrev pub gone {ℓ} : {V : Type ℓ} → List Text → Text → List (Text × V) → Option V
gone ks k m = if contains ks k then none else lookup k m

pub lookup-prune_parameters :
    (b : Builder) (ns : List Text) (k : Text)
    → lookup k (foldl prune_parameter b ns).input.parameters ≡ gone ns k b.input.parameters
unfolding contains prune_parameter tell
lookup-prune_parameters b [] k = refl
lookup-prune_parameters b (n ∷ ns) k =
    ground (
      arith,
      lookup-prune_parameters (prune_parameter b n) ns k,
      lookup-erase n k b.input.parameters,
    )

pub lookup-prune_responses :
    (b : Builder) (ns : List Text) (k : Text)
    → lookup k (foldl prune_response b ns).input.responses ≡ gone ns k b.input.responses
unfolding contains prune_response tell
lookup-prune_responses b [] k = refl
lookup-prune_responses b (n ∷ ns) k =
    ground
      (arith, lookup-prune_responses (prune_response b n) ns k, lookup-erase n k b.input.responses)

-- What the two passes leave alone.
prune_parameters_frame :
    (b : Builder) (ns : List Text)
    → ((foldl prune_parameter b ns).input.responses ≡ b.input.responses)
      × ((foldl prune_parameter b ns).input.definitions ≡ b.input.definitions)
      × ((foldl prune_parameter b ns).input.paths ≡ b.input.paths)
      × ((foldl prune_parameter b ns).pinned_responses ≡ b.pinned_responses)
unfolding prune_parameter tell
prune_parameters_frame b [] = (refl, refl, refl, refl)
prune_parameters_frame b (n ∷ ns) = ground (arith, prune_parameters_frame (prune_parameter b n) ns)

prune_responses_frame :
    (b : Builder) (ns : List Text)
    → ((foldl prune_response b ns).input.parameters ≡ b.input.parameters)
      × ((foldl prune_response b ns).input.definitions ≡ b.input.definitions)
      × ((foldl prune_response b ns).input.paths ≡ b.input.paths)
unfolding prune_response tell
prune_responses_frame b [] = (refl, refl, refl)
prune_responses_frame b (n ∷ ns) = ground (arith, prune_responses_frame (prune_response b n) ns)

-- A key that is `unused` is absent, and the others keep their value.
abbrev pub kept {ℓ} : {V : Type ℓ} → List Text → List Text → Text → List (Text × V) → Option V
kept pinned used k m = if contains pinned k || contains used k then lookup k m else none

gone-unused {ℓ} :
    {V : Type ℓ} (pinned used : List Text) (k : Text) (m : List (Text × V))
    → gone (sort (unused (keys m) pinned used)) k m ≡ kept pinned used k m
unfolding unused
gone-unused pinned used k m = ground (
  arith,
  contains-sort (keep (λ n. not (contains pinned n) && not (contains used n)) (keys m)) k,
  contains-keep (λ n. not (contains pinned n) && not (contains used n)) (keys m) k,
  contains-keys k m,
  has_key-lookup k m,
)

module _ (b : Builder) where
  abbrev gone_params : List Text
  gone_params = sort (unused (keys b.input.parameters) b.pinned_params (shared_params b.input))

  abbrev gone_responses : List Text
  gone_responses =
      sort (unused (keys b.input.responses) b.pinned_responses (shared_responses b.input))

  abbrev without_params : Builder
  without_params = foldl prune_parameter b gone_params

  -- A shared parameter stays if it is pinned or referenced.
  pub shared-parameters :
      (k : Text)
      → lookup k (prune_shared_objects b).input.parameters
        ≡ kept b.pinned_params (shared_params b.input) k b.input.parameters
  unfolding prune_shared_objects
  shared-parameters k =
      ap (lookup k) (prune_responses_frame without_params gone_responses).0
      ∙ lookup-prune_parameters b gone_params k
      ∙ gone-unused b.pinned_params (shared_params b.input) k b.input.parameters

  -- A shared response stays if it is pinned or referenced.
  pub shared-responses :
      (k : Text)
      → lookup k (prune_shared_objects b).input.responses
        ≡ kept b.pinned_responses (shared_responses b.input) k b.input.responses
  unfolding prune_shared_objects
  shared-responses k =
      lookup-prune_responses without_params gone_responses k
      ∙ ap (gone gone_responses k) (prune_parameters_frame b gone_params).0
      ∙ gone-unused b.pinned_responses (shared_responses b.input) k b.input.responses

  pub shared-definitions : (prune_shared_objects b).input.definitions ≡ b.input.definitions
  unfolding prune_shared_objects
  shared-definitions =
      (prune_responses_frame without_params gone_responses).1
      ∙ (prune_parameters_frame b gone_params).1

  pub shared-paths : (prune_shared_objects b).input.paths ≡ b.input.paths
  unfolding prune_shared_objects
  shared-paths =
      (prune_responses_frame without_params gone_responses).2
      ∙ (prune_parameters_frame b gone_params).2
