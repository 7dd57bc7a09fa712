-- ===== src/Spec/Document.antt =====
-- The parts of the go-openapi/spec document that internal/builders/spec reads and writes, and the
-- two walks over a schema: `collectDefRefs` (prune.go) and `rewriteSchemaRefs` (reduce.go).
-- A nil `Items` and one with no schema are the same to both walks, so `Items` is its two fields.
use codescan.Prelude.{
  Text, codes, ℕ, List, [], ◌∷◌, ◌++◌, Option, none, some, Bool, false, ◌||◌, not, text_eq,
  cut_prefix,
}

mutual
  pub data Schema : Type 0 where
    schema :
        (ref discriminator : Text) (properties pattern_properties : Fields)
        (all_of any_of one_of : Schemas) (not_schema : OptSchema) (items : OptSchema)
        (tuple : Schemas) (additional_properties : Additional) (additional_items : Additional)
        (definitions : Fields) (extra_props : Fields) (go_package : Option Text)
        → Schema

  -- []Schema
  pub data Schemas : Type 0 where
    nil : Schemas
    cons : Schema → Schemas → Schemas

  -- map[string]Schema
  pub data Fields : Type 0 where
    end : Fields
    field : Text → Schema → Fields → Fields

  -- *Schema
  pub data OptSchema : Type 0 where
    null : OptSchema
    at : Schema → OptSchema

  -- *SchemaOrBool: nil, or the pair of `Allows` and `Schema`
  pub data Additional : Type 0 where
    unset : Additional
    allows : Bool → OptSchema → Additional

-- The zero value of spec.Schema.
abbrev pub zero_schema : Schema
zero_schema = schema [] [] end end nil nil nil null null nil unset unset end end none

pub record Parameter : Type 0 where
  pub ref : Text
  pub body : OptSchema

pub record Response : Type 0 where
  pub ref : Text
  pub body : OptSchema

pub record Responses : Type 0 where
  pub fallback : Option Response
  pub status_codes : List (ℕ × Response)

pub record Operation : Type 0 where
  pub parameters : List Parameter
  pub responses : Option Responses

pub record PathItem : Type 0 where
  pub parameters : List Parameter
  pub get : Option Operation
  pub put : Option Operation
  pub post : Option Operation
  pub delete : Option Operation
  pub options : Option Operation
  pub head : Option Operation
  pub patch : Option Operation

-- `Paths` is nil or a map; a nil map has no items, which is all that the walks see.
pub record Swagger : Type 0 where
  pub definitions : List (Text × Schema)
  pub parameters : List (Text × Parameter)
  pub responses : List (Text × Response)
  pub paths : List (Text × PathItem)

-- The non-nil operations of a path item, in `operationsOf`'s order.
abbrev pub present {ℓ} : {A : Type ℓ} → List (Option A) → List A
present [] = []
present (none ∷ os) = present os
present (some o ∷ os) = o ∷ present os

unfoldable pub operations_of : PathItem → List Operation
operations_of p = present (p.get ∷ p.put ∷ p.post ∷ p.delete ∷ p.options ∷ p.head ∷ p.patch ∷ [])

abbrev pub def_ref_prefix : Text
def_ref_prefix = codes "#/definitions/"

-- The key that a reference marks, if it points at a definition.
abbrev pub ref_keys : Text → List Text
ref_keys ref = elim (cut_prefix def_ref_prefix ref) [ none ↦ [] | some key ↦ key ∷ [] ]

-- `collectDefRefs`: the keys in the order in which it calls `mark`.
unfoldable mutual
  pub collect_def_refs : Schema → List Text
  collect_def_refs (schema ref d ps pps allof anyof oneof neg it tup ap ai defs xs g) =
      ref_keys ref
      ++ (collect_fields ps
          ++ (collect_fields pps
              ++ (collect_schemas allof
                  ++ (collect_schemas anyof
                      ++ (collect_schemas oneof
                          ++ (collect_opt neg
                              ++ (collect_opt it
                                  ++ (collect_schemas tup
                                      ++ (collect_additional ap
                                          ++ (collect_additional ai ++ collect_fields defs))))))))))

  pub collect_schemas : Schemas → List Text
  collect_schemas nil = []
  collect_schemas (cons s ss) = collect_def_refs s ++ collect_schemas ss

  pub collect_fields : Fields → List Text
  collect_fields end = []
  collect_fields (field k s fs) = collect_def_refs s ++ collect_fields fs

  pub collect_opt : OptSchema → List Text
  collect_opt null = []
  collect_opt (at s) = collect_def_refs s

  pub collect_additional : Additional → List Text
  collect_additional unset = []
  collect_additional (allows b o) = collect_opt o

-- `rewriteSchemaRefs` over a repoint function, `none` where it reports no change.
abbrev pub repoint_ref : (Text → Option Text) → Text → Text
repoint_ref repoint [] = []
repoint_ref repoint (c ∷ ref) = elim (repoint (c ∷ ref)) [ none ↦ c ∷ ref | some nref ↦ nref ]

module _ (repoint : Text → Option Text) where
  unfoldable mutual
    pub rewrite_schema_refs : Schema → Schema
    rewrite_schema_refs (schema ref d ps pps allof anyof oneof neg it tup ap ai defs xs g) =
        schema (repoint_ref repoint ref) d (rewrite_fields ps) (rewrite_fields pps)
          (rewrite_schemas allof) (rewrite_schemas anyof) (rewrite_schemas oneof) (rewrite_opt neg)
          (rewrite_opt it) (rewrite_schemas tup) (rewrite_additional ap) (rewrite_additional ai)
          (rewrite_fields defs) xs g

    pub rewrite_schemas : Schemas → Schemas
    rewrite_schemas nil = nil
    rewrite_schemas (cons s ss) = cons (rewrite_schema_refs s) (rewrite_schemas ss)

    pub rewrite_fields : Fields → Fields
    rewrite_fields end = end
    rewrite_fields (field k s fs) = field k (rewrite_schema_refs s) (rewrite_fields fs)

    pub rewrite_opt : OptSchema → OptSchema
    rewrite_opt null = null
    rewrite_opt (at s) = at (rewrite_schema_refs s)

    pub rewrite_additional : Additional → Additional
    rewrite_additional unset = unset
    rewrite_additional (allows b o) = allows b (rewrite_opt o)

-- `isDiscriminated` (subtypes.go): the discriminator of the schema or of an allOf member.
unfoldable mutual
  pub is_discriminated : Schema → Bool
  is_discriminated (schema ref d ps pps allof anyof oneof neg it tup ap ai defs xs g) =
      not (text_eq d []) || any_discriminated allof

  pub any_discriminated : Schemas → Bool
  any_discriminated nil = false
  any_discriminated (cons s ss) = is_discriminated s || any_discriminated ss
