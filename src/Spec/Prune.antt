-- ===== src/Spec/Prune.antt =====
-- internal/builders/spec/prune.go, with `subtypeKeysOf` (subtypes.go), `sharedRefName` (spec.go).
-- Go's maps are association lists, and what the code does for every key in any order is done in
-- the order of the list. `onDiag` is `listening`, a call of it one more hint at the end of a list.
pub mod Marking
pub mod Closure
pub mod Kept
pub mod Shared
use codescan.Prelude.{
  Text, codes, ℕ, zero, suc, List, [], ◌∷◌, ◌++◌, map, foldl, Option, none, some, Bool, true, false,
  ◌&&◌, not, text_eq, cut_prefix, contains, keys, lookup, has_key, erase, sort, length, keep,
  if◌then◌else◌,
}
use codescan.Spec.Document.{
  Schema, zero_schema, null, at, OptSchema, Parameter, Response, Operation, Responses, PathItem,
  Swagger, operations_of, collect_def_refs, collect_opt, is_discriminated,
}

pub data Hint : Type 0 where
  no_effect : Hint
  parameter_pruned response_pruned definition_pruned : Text → Hint

-- The fields of the builder and of its scan context that this stage reads or writes.
pub record Builder : Type 0 where
  pub prune_unused : Bool
  pub scan_models : Bool
  pub listening : Bool
  pub input : Swagger
  pub built : List Text
  pub decl_identity : List (Text × Text)
  pub subtype_index : List (Text × List Text)
  pub pinned_params : List Text
  pub pinned_responses : List Text
  pub hints : List Hint
  pub dropped_definitions : List Text
  pub dropped_responses : List Text

unfoldable pub tell : Hint → Builder → Builder
tell h b = if b.listening then record b { hints = b.hints ++ h ∷ [] } else b

-- The worklist: the keys marked so far, and those still to be expanded.
pub record Marks : Type 0 where
  pub reachable : List Text
  pub queue : List Text

-- The closure `mark` of the source, over the definitions.
unfoldable pub mark : List (Text × Schema) → Marks → Text → Marks
mark defs s key =
    if text_eq key []
    then s
    else if contains s.reachable key
    then s
    else if has_key key defs
    then record { reachable = key ∷ s.reachable; queue = s.queue ++ key ∷ [] }
    else s

unfoldable pub mark_all : List (Text × Schema) → Marks → List Text → Marks
mark_all defs = foldl (mark defs)

unfoldable pub subtype_keys_of : Builder → Text → List Text
subtype_keys_of b key = elim (lookup key b.decl_identity) [
  | none ↦ []
  | some identity ↦ elim (lookup identity b.subtype_index) [ none ↦ [] | some subs ↦ subs ]
]

abbrev pub lookup_schema : Text → List (Text × Schema) → Schema
lookup_schema key defs = elim (lookup key defs) [ none ↦ zero_schema | some sch ↦ sch ]

-- The body of the `for len(queue) > 0` loop, after `cur` left the queue.
unfoldable pub expand : Builder → Marks → Text → List Text → Marks
expand b s cur rest =
    let defs = b.input.definitions in
    let sch = lookup_schema cur defs in
    let walked = mark_all defs (record s { queue = rest }) (collect_def_refs sch) in
    if is_discriminated sch then mark_all defs walked (subtype_keys_of b cur) else walked

unfoldable pub close : Builder → ℕ → Marks → Marks
close b zero s = s
close b (suc fuel) s = elim s.queue [ [] ↦ s | cur ∷ rest ↦ close b fuel (expand b s cur rest) ]

abbrev pub each {ℓ κ} : {A : Type ℓ} {B : Type κ} → (A → List B) → List A → List B
each f [] = []
each f (x ∷ xs) = f x ++ each f xs

abbrev pub from_option {ℓ κ} : {A : Type ℓ} {B : Type κ} → (A → List B) → Option A → List B
from_option f none = []
from_option f (some x) = f x

abbrev pub response_refs : Response → List Text
response_refs r = collect_opt r.body

abbrev pub operation_refs : Operation → List Text
operation_refs op =
    each (λ p. collect_opt p.body) op.parameters
    ++ from_option
        (λ rs.
          from_option response_refs rs.fallback
          ++ each (λ (code, r). response_refs r) rs.status_codes)
        op.responses

unfoldable pub root_refs : Builder → List Text
root_refs b =
    each (λ (name, p). collect_opt p.body) b.input.parameters
    ++ (each (λ (name, r). response_refs r) b.input.responses
        ++ each (λ (path, item). each operation_refs (operations_of item)) b.input.paths)

-- Definitions that were built from no source declaration.
unfoldable pub overlay_keys : Builder → List Text
overlay_keys b = keep (λ key. not (contains b.built key)) (keys b.input.definitions)

unfoldable pub start : Builder → Marks
start b =
    let defs = b.input.definitions in
    let seeded = mark_all defs (record { reachable = []; queue = [] }) (root_refs b) in
    mark_all defs seeded (overlay_keys b)

unfoldable pub reach : Builder → Marks
reach b = close b (length b.input.definitions) (start b)

unfoldable pub prune_definition : Builder → Text → Builder
prune_definition b key = tell (definition_pruned key) (record b {
  input = let doc = b.input in record doc { definitions = erase key doc.definitions };
  dropped_definitions = b.dropped_definitions ++ key ∷ [];
})

unfoldable pub unreachable : Builder → List Text
unreachable b = keep (λ key. not (contains (reach b).reachable key)) (keys b.input.definitions)

unfoldable pub prune_definitions : Builder → Builder
prune_definitions b = foldl prune_definition b (sort (unreachable b))

unfoldable pub shared_ref_name : Text → Text → Option Text
shared_ref_name prefix ref = elim (cut_prefix prefix ref) [
  | none ↦ none
  | some after ↦ if text_eq after [] then none else some after
]

abbrev pub shared_name : Text → Text → List Text
shared_name prefix ref = from_option (λ name. name ∷ []) (shared_ref_name prefix ref)

abbrev pub param_names : List Parameter → List Text
param_names = each (λ p. shared_name (codes "#/parameters/") p.ref)

abbrev pub response_names : Response → List Text
response_names r = shared_name (codes "#/responses/") r.ref

unfoldable pub shared_params : Swagger → List Text
shared_params doc =
    each
      (λ (path, item).
        param_names item.parameters ++ each (λ op. param_names op.parameters) (operations_of item))
      doc.paths

unfoldable pub shared_responses : Swagger → List Text
shared_responses doc =
    each
      (λ (path, item).
        each
          (λ op.
            from_option
              (λ rs.
                from_option response_names rs.fallback
                ++ each (λ (code, r). response_names r) rs.status_codes)
              op.responses)
          (operations_of item))
      doc.paths

unfoldable pub prune_parameter : Builder → Text → Builder
prune_parameter b name = tell (parameter_pruned name) (record b {
  input = let doc = b.input in record doc { parameters = erase name doc.parameters };
})

unfoldable pub prune_response : Builder → Text → Builder
prune_response b name = tell (response_pruned name) (record b {
  input = let doc = b.input in record doc { responses = erase name doc.responses };
  dropped_responses = b.dropped_responses ++ name ∷ [];
})

-- What is neither pinned nor referenced.
unfoldable pub unused : List Text → List Text → List Text → List Text
unused names pinned used =
    keep (λ name. not (contains pinned name) && not (contains used name)) names

-- The references are collected before anything is deleted.
unfoldable pub prune_shared_objects : Builder → Builder
prune_shared_objects b =
    let params = sort (unused (keys b.input.parameters) b.pinned_params (shared_params b.input)) in
    let b' = foldl prune_parameter b params in
    let responses =
      sort (unused (keys b.input.responses) b.pinned_responses (shared_responses b.input)) in
    foldl prune_response b' responses

unfoldable pub prune_unused_models : Builder → Builder
prune_unused_models b =
    if not b.prune_unused
    then b
    else if not b.scan_models
    then tell no_effect b
    else prune_definitions (prune_shared_objects b)
