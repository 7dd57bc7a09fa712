-- ===== src/Grammar/Keywords.antt =====
-- keywords.go: the table of keywords and its lookup.
use Prim.Native.String.{String}
use codescan.Prelude.{
  Text, codes, List, [], ◌∷◌, map, Option, none, some, Bool, true, false, ◌||◌, text_eq,
  if◌then◌else◌,
}
use codescan.Grammar.Strings.{Platform, equal_fold, trim_space}

pub data ValueShape : Type 0 where
  no_shape number int bool string comma_list enum_option raw_block raw_value : ValueShape

pub data KeywordContext : Type 0 where
  param header schema items route operation meta response : KeywordContext

pub record Keyword : Type 0 where
  pub name : Text
  pub aliases : List Text
  pub shape : ValueShape
  pub values : List Text
  pub contexts : List KeywordContext

abbrev entry : String → List Text → ValueShape → List Text → List KeywordContext → Keyword
entry n a s v c = record { name = codes n; aliases = a; shape = s; values = v; contexts = c }

unfoldable pub keywords : List Keyword
keywords =
    entry "maximum" (codes "max" ∷ []) number ([]) (param ∷ header ∷ schema ∷ items ∷ [])
    ∷ entry "minimum" (codes "min" ∷ []) number ([]) (param ∷ header ∷ schema ∷ items ∷ [])
    ∷ entry "multipleOf" (codes "multiple of" ∷ codes "multiple-of" ∷ []) number ([])
        (param ∷ header ∷ schema ∷ items ∷ [])
    ∷ entry "maxLength"
        (codes "max length"
          ∷ codes "max-length"
          ∷ codes "maxLen"
          ∷ codes "max len"
          ∷ codes "max-len"
          ∷ codes "maximum length"
          ∷ codes "maximum-length"
          ∷ codes "maximumLength"
          ∷ codes "maximum len"
          ∷ codes "maximum-len"
          ∷ [])
        int ([]) (param ∷ header ∷ schema ∷ items ∷ [])
    ∷ entry "minLength"
        (codes "min length"
          ∷ codes "min-length"
          ∷ codes "minLen"
          ∷ codes "min len"
          ∷ codes "min-len"
          ∷ codes "minimum length"
          ∷ codes "minimum-length"
          ∷ codes "minimumLength"
          ∷ codes "minimum len"
          ∷ codes "minimum-len"
          ∷ [])
        int ([]) (param ∷ header ∷ schema ∷ items ∷ [])
    ∷ entry "pattern" ([]) string ([]) (param ∷ header ∷ schema ∷ items ∷ [])
    ∷ entry "maxItems"
        (codes "max items"
          ∷ codes "max-items"
          ∷ codes "max.items"
          ∷ codes "maximum items"
          ∷ codes "maximum-items"
          ∷ codes "maximumItems"
          ∷ [])
        int ([]) (param ∷ header ∷ schema ∷ items ∷ [])
    ∷ entry "minItems"
        (codes "min items"
          ∷ codes "min-items"
          ∷ codes "min.items"
          ∷ codes "minimum items"
          ∷ codes "minimum-items"
          ∷ codes "minimumItems"
          ∷ [])
        int ([]) (param ∷ header ∷ schema ∷ items ∷ [])
    ∷ entry "unique" ([]) bool ([]) (param ∷ header ∷ schema ∷ items ∷ [])
    ∷ entry "collectionFormat" (codes "collection format" ∷ codes "collection-format" ∷ [])
        enum_option (codes "csv" ∷ codes "ssv" ∷ codes "tsv" ∷ codes "pipes" ∷ codes "multi" ∷ [])
        (param ∷ header ∷ items ∷ [])
    ∷ entry "maxProperties"
        (codes "max properties"
          ∷ codes "max-properties"
          ∷ codes "maximum properties"
          ∷ codes "maximum-properties"
          ∷ codes "maximumProperties"
          ∷ [])
        int ([]) (schema ∷ [])
    ∷ entry "minProperties"
        (codes "min properties"
          ∷ codes "min-properties"
          ∷ codes "minimum properties"
          ∷ codes "minimum-properties"
          ∷ codes "minimumProperties"
          ∷ [])
        int ([]) (schema ∷ [])
    ∷ entry "patternProperties" (codes "pattern properties" ∷ codes "pattern-properties" ∷ [])
        string ([]) (schema ∷ [])
    ∷ entry "additionalProperties"
        (codes "additional properties" ∷ codes "additional-properties" ∷ []) string ([])
        (schema ∷ [])
    ∷ entry "default" ([]) raw_value ([]) (param ∷ header ∷ schema ∷ items ∷ [])
    ∷ entry "example" ([]) raw_value ([]) (param ∷ header ∷ schema ∷ items ∷ [])
    ∷ entry "enum" ([]) raw_value ([]) (param ∷ header ∷ schema ∷ items ∷ [])
    ∷ entry "required" ([]) bool ([]) (param ∷ schema ∷ [])
    ∷ entry "readOnly" (codes "read only" ∷ codes "read-only" ∷ []) bool ([]) (schema ∷ [])
    ∷ entry "discriminator" ([]) bool ([]) (schema ∷ [])
    ∷ entry "deprecated" ([]) bool ([]) (operation ∷ route ∷ schema ∷ [])
    ∷ entry "in" ([]) enum_option
        (codes "query" ∷ codes "path" ∷ codes "header" ∷ codes "body" ∷ codes "formData" ∷ [])
        (param ∷ [])
    ∷ entry "name" ([]) string ([]) (param ∷ header ∷ schema ∷ [])
    ∷ entry "schemes" ([]) raw_block ([]) (meta ∷ route ∷ operation ∷ [])
    ∷ entry "version" ([]) string ([]) (meta ∷ [])
    ∷ entry "host" ([]) string ([]) (meta ∷ [])
    ∷ entry "basePath" (codes "base path" ∷ codes "base-path" ∷ []) string ([]) (meta ∷ [])
    ∷ entry "license" ([]) string ([]) (meta ∷ [])
    ∷ entry "contact" (codes "contact info" ∷ codes "contact-info" ∷ []) string ([]) (meta ∷ [])
    ∷ entry "consumes" ([]) raw_block ([]) (meta ∷ route ∷ operation ∷ [])
    ∷ entry "produces" ([]) raw_block ([]) (meta ∷ route ∷ operation ∷ [])
    ∷ entry "security" ([]) raw_block ([]) (meta ∷ route ∷ operation ∷ [])
    ∷ entry "securityDefinitions" (codes "security definitions" ∷ codes "security-definitions" ∷ [])
        raw_block ([]) (meta ∷ [])
    ∷ entry "responses" ([]) raw_block ([]) (route ∷ operation ∷ [])
    ∷ entry "parameters" ([]) raw_block ([]) (route ∷ operation ∷ [])
    ∷ entry "examples" ([]) raw_block ([]) (response ∷ [])
    ∷ entry "extensions" ([]) raw_block ([])
        (meta ∷ route ∷ operation ∷ schema ∷ param ∷ header ∷ [])
    ∷ entry "infoExtensions" (codes "info extensions" ∷ codes "info-extensions" ∷ []) raw_block ([])
        (meta ∷ [])
    ∷ entry "tos"
        (codes "terms of service" ∷ codes "terms-of-service" ∷ codes "termsOfService" ∷ [])
        raw_block ([]) (meta ∷ [])
    ∷ entry "externalDocs" (codes "external docs" ∷ codes "external-docs" ∷ []) raw_block ([])
        (meta ∷ route ∷ operation ∷ schema ∷ [])
    ∷ entry "tags" ([]) raw_block ([]) (meta ∷ route ∷ operation ∷ [])
    ∷ []

-- The zero Keyword that a failed lookup leaves behind.
abbrev pub no_keyword : Keyword
no_keyword = record { name = []; aliases = []; shape = no_shape; values = []; contexts = [] }

-- Some of the names folds to the needle.
abbrev matches : Text → List Text → Bool
matches needle [] = false
matches needle (n ∷ ns) = equal_fold n needle || matches needle ns

abbrev find : Text → List Keyword → Option Keyword
find needle [] = none
find needle (kw ∷ kws) =
    if equal_fold kw.name needle || matches needle kw.aliases then some kw else find needle kws

-- `Lookup`
unfoldable pub lookup_keyword : Platform → Text → Option Keyword
lookup_keyword u name =
    let needle = map u.to_lower (trim_space name) in
    if text_eq needle [] then none else find needle keywords

abbrev pub context_eq : KeywordContext → KeywordContext → Bool
context_eq param param = true
context_eq header header = true
context_eq schema schema = true
context_eq items items = true
context_eq route route = true
context_eq operation operation = true
context_eq meta meta = true
context_eq response response = true
context_eq _ _ = false

abbrev pub has_context : List KeywordContext → KeywordContext → Bool
has_context [] c = false
has_context (d ∷ ds) c = context_eq d c || has_context ds c

abbrev pub share : List KeywordContext → List KeywordContext → Bool
share [] ds = false
share (c ∷ cs) ds = has_context ds c || share cs ds

-- `isSiblingTerminatorFor`: every context is of one family or the other, so `familyOf` keeps all.
unfoldable pub is_sibling_terminator_for : Platform → Keyword → Text → Bool
is_sibling_terminator_for u kw next = elim (lookup_keyword u next) [
  | none ↦ false
  | some next_kw ↦ share kw.contexts next_kw.contexts
]
