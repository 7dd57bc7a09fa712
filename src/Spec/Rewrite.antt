-- ===== src/Spec/Rewrite.antt =====
-- internal/builders/spec/reduce.go, the change of the document: `repointer`, `rewriteAllRefs`,
-- `rekeyDefinitions`, `placeHierarchical` and the stage that runs them, `reduceDefinitionNames`.
-- `oaispec.NewRef` with `String` is the parameter `new_ref`, `none` where it fails.
pub mod Collect
pub mod Rekey
use codescan.Prelude.{
  Text, codes, ℕ, List, [], ◌∷◌, ◌++◌, map, foldl, Option, none, some, Bool, true, false, not,
  text_eq, cut_prefix, split, keys, keep, contains, lookup, insert, erase, has_key, has_code, sort,
  if◌then◌else◌,
}
use codescan.Spec.Document.{
  Schema, schema, zero_schema, Schemas, Fields, end, field, OptSchema, null, at, Additional, unset,
  allows, Parameter, Response, Responses, Operation, PathItem, Swagger, rewrite_schema_refs,
  rewrite_opt, def_ref_prefix,
}
use codescan.Spec.Reduce.{Options, Reduction, compute_name_reductions, leaf_name, package_of, slash}

unfoldable pub repointer : (Text → Option Text) → List (Text × Text) → Text → Option Text
repointer new_ref renames ref = elim (cut_prefix def_ref_prefix ref) [
  | none ↦ none
  | some key ↦ elim (lookup key renames) [
    | none ↦ none
    | some name ↦ new_ref (def_ref_prefix ++ name)
  ]
]

module _ (repoint : Text → Option Text) where
  abbrev rewrite_parameter : Parameter → Parameter
  rewrite_parameter p = record p { body = rewrite_opt repoint p.body }

  abbrev rewrite_response : Response → Response
  rewrite_response r = record r { body = rewrite_opt repoint r.body }

  abbrev rewrite_responses : Responses → Responses
  rewrite_responses rs = record {
    fallback = elim rs.fallback [ none ↦ none | some r ↦ some (rewrite_response r) ];
    status_codes = map (λ (code, r). (code, rewrite_response r)) rs.status_codes;
  }

  abbrev rewrite_operation : Operation → Operation
  rewrite_operation op = record {
    parameters = map rewrite_parameter op.parameters;
    responses = elim op.responses [ none ↦ none | some rs ↦ some (rewrite_responses rs) ];
  }

  abbrev rewrite_present : Option Operation → Option Operation
  rewrite_present none = none
  rewrite_present (some op) = some (rewrite_operation op)

  -- The parameters of the path item itself are skipped.
  abbrev rewrite_path_item : PathItem → PathItem
  rewrite_path_item item = record {
    parameters = item.parameters;
    get = rewrite_present item.get;
    put = rewrite_present item.put;
    post = rewrite_present item.post;
    delete = rewrite_present item.delete;
    options = rewrite_present item.options;
    head = rewrite_present item.head;
    patch = rewrite_present item.patch;
  }

  unfoldable pub rewrite_all_refs : Swagger → Swagger
  rewrite_all_refs doc = record {
    definitions = map (λ (key, sch). (key, rewrite_schema_refs repoint sch)) doc.definitions;
    parameters = map (λ (name, p). (name, rewrite_parameter p)) doc.parameters;
    responses = map (λ (name, r). (name, rewrite_response r)) doc.responses;
    paths = map (λ (path, item). (path, rewrite_path_item item)) doc.paths;
  }

-- The body of the loop of `rekeyDefinitions`.
unfoldable pub rekey_one : List (Text × Schema) → Text → Text → List (Text × Schema)
rekey_one defs old name = if has_code slash name then defs else elim (lookup old defs) [
  | none ↦ defs
  | some sch ↦ if has_key name defs then defs else erase old (insert name sch defs)
]

unfoldable pub rekey_definitions : List (Text × Schema) → List (Text × Text) → List (Text × Schema)
rekey_definitions = foldl (λ defs (old, name). rekey_one defs old name)

-- Containers.
abbrev child_in : Text → Fields → Schema
child_in key end = zero_schema
child_in key (field k s fs) = if text_eq k key then s else child_in key fs

abbrev set_field : Text → Schema → Fields → Fields
set_field key s end = field key s end
set_field key s (field k t fs) =
    let rest = set_field key s fs in if text_eq k key then field key s fs else field k t rest

-- `ensureContainer`; a SchemaOrBool that is set is left alone.
unfoldable pub ensure_container : Schema → Schema
ensure_container (schema r d ps pps al an on nt it tu unset ai defs xs g) =
    schema r d ps pps al an on nt it tu (allows true null) ai defs xs g
ensure_container (schema r d ps pps al an on nt it tu (allows b o) ai defs xs g) =
    schema r d ps pps al an on nt it tu (allows b o) ai defs xs g

unfoldable pub stamp_go_package : Schema → Text → Bool → Schema
stamp_go_package (schema r d ps pps al an on nt it tu ap ai defs xs g) path skip =
    schema r d ps pps al an on nt it tu ap ai defs xs (if skip then g else some path)

unfoldable pub set_container_child : Schema → Text → Schema → Schema
set_container_child (schema r d ps pps al an on nt it tu ap ai defs xs g) key child =
    schema r d ps pps al an on nt it tu ap ai defs (set_field key child xs) g

unfoldable pub child_schema : Schema → Text → Schema
child_schema (schema r d ps pps al an on nt it tu ap ai defs xs g) key = child_in key xs

-- `placeNested` and `placeNestedExtra`: what becomes of the container at the head of the path.
-- A path has two segments at least, since its name holds a slash.
unfoldable pub place_in : Schema → List Text → Schema → Text → Bool → Schema
place_in container [] model path skip = container
place_in container (leaf ∷ []) model path skip =
    stamp_go_package (set_container_child (ensure_container container) leaf model) path skip
place_in container (head ∷ next ∷ rest) model path skip =
    let parent = ensure_container container in
    set_container_child parent head
      (place_in (child_schema parent head) (next ∷ rest) model path skip)

unfoldable pub place_nested :
    List (Text × Schema) → List Text → Schema → Text → Bool → List (Text × Schema)
place_nested defs [] model path skip = defs
place_nested defs (root ∷ rest) model path skip =
    let container : Schema = elim (lookup root defs) [ none ↦ zero_schema | some sch ↦ sch ] in
    insert root (place_in container rest model path skip) defs

unfoldable pub place_one : Bool → List (Text × Schema) → Text → Text → List (Text × Schema)
place_one skip defs old name = if not (has_code slash name) then defs else elim (lookup old defs) [
  | none ↦ defs
  | some sch ↦ erase old (place_nested defs (split slash name) sch (package_of old) skip)
]

unfoldable pub place_hierarchical :
    Bool → List (Text × Schema) → List (Text × Text) → List (Text × Schema)
place_hierarchical skip = foldl (λ defs (old, name). place_one skip defs old name)

-- The keys whose rename is no plain lift.
abbrev renamed_keys : List (Text × Text) → List Text
renamed_keys [] = []
renamed_keys ((key, name) ∷ renames) =
    let rest = renamed_keys renames in if text_eq name (leaf_name key) then rest else key ∷ rest

-- `diagnoseRenames`: the keys that get a hint, given those that have a declaration.
unfoldable pub diagnose_renames : List Text → List (Text × Text) → List Text
diagnose_renames declared renames = keep (contains declared) (sort (renamed_keys renames))

-- `reduceDefinitionNames`: the document, and the renames that were applied.
unfoldable pub reduce_definition_names :
    (Text → Text) → (Text → Option Text) → Options → Bool → Swagger → Swagger × List (Text × Text)
reduce_definition_names to_go_name new_ref o skip doc =
    let renames = (compute_name_reductions to_go_name o (keys doc.definitions)).renames in
    let repointed = rewrite_all_refs (repointer new_ref renames) doc in
    let moved = place_hierarchical skip (rekey_definitions repointed.definitions renames) renames in
    (record repointed { definitions = moved }, renames)
