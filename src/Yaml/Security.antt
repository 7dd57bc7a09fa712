-- ===== src/Yaml/Security.antt =====
-- internal/parsers/security/security.go. A requirement is a map from a scheme to its scopes; the
-- YAML decoder is the parameter `decode`, which gives the content of the document node.
pub mod Clean
use codescan.Prelude.{
  Text, codes, List, [], ◌∷◌, ◌++◌, map, Option, none, some, Bool, true, false, text_eq, split,
  join, insert, keys, if◌then◌else◌,
}
use codescan.Grammar.Strings.{trim_space}
use codescan.Yaml.Node.{
  Node, document, sequence, mapping, scalar, alias, Nodes, nil, cons, Pairs, end, pair, value_of,
}
use codescan.Yaml.Dedent.{remove_indent}

abbrev pub Requirement : Type 0
Requirement = List (Text × List Text)

-- The texts, trimmed, that are not empty then.
unfoldable pub trimmed : List Text → List Text
trimmed [] = []
trimmed (s ∷ ss) =
    let rest = trimmed ss in if text_eq (trim_space s) [] then rest else trim_space s ∷ rest

abbrev pub values_of : Nodes → List Text
values_of nil = []
values_of (cons n ns) = value_of n ∷ values_of ns

-- `coerceScopes`
unfoldable pub coerce_scopes : Node → List Text
coerce_scopes (sequence ns) = trimmed (values_of ns)
coerce_scopes (scalar v) = trimmed (split b',' v)
coerce_scopes _ = []

abbrev pub single : Text → List Text → Requirement
single name scopes = (name, scopes) ∷ []

-- The schemes of a mapping, the later of two with one name in the place of the first.
unfoldable pub add_schemes : Requirement → Pairs → Requirement
add_schemes req end = req
add_schemes req (pair k v ps) =
    let name = trim_space (value_of k) in
    add_schemes (if text_eq name [] then req else insert name (coerce_scopes v) req) ps

-- `requirementFromItem`
abbrev pub some_schemes : Requirement → Option Requirement
some_schemes [] = none
some_schemes (scheme ∷ schemes) = some (scheme ∷ schemes)

unfoldable pub requirement_from_item : Node → Option Requirement
requirement_from_item (scalar v) =
    if text_eq (trim_space v) [] then none else some (single (trim_space v) [])
requirement_from_item (mapping ps) = some_schemes (add_schemes [] ps)
requirement_from_item _ = none

abbrev pub add_requirement : Option Requirement → List Requirement → List Requirement
add_requirement none reqs = reqs
add_requirement (some req) reqs = req ∷ reqs

unfoldable pub from_items : Nodes → List Requirement
from_items nil = []
from_items (cons n ns) = add_requirement (requirement_from_item n) (from_items ns)

-- `legacyMapping`
unfoldable pub legacy_mapping : Pairs → List Requirement
legacy_mapping end = []
legacy_mapping (pair k v ps) =
    let rest = legacy_mapping ps in
    let name = trim_space (value_of k) in
    if text_eq name [] then rest else single name (coerce_scopes v) ∷ rest

-- A slice that is nil is none, an empty one is some [].
abbrev pub nil_if_empty : List Requirement → Option (List Requirement)
nil_if_empty [] = none
nil_if_empty (r ∷ rs) = some (r ∷ rs)

-- `fromRoot`
unfoldable pub from_root : Node → Option (List Requirement)
from_root (sequence ns) = some (from_items ns)
from_root (mapping ps) = nil_if_empty (legacy_mapping ps)
from_root (scalar v) =
    if text_eq (trim_space v) [] then none else some (single (trim_space v) [] ∷ [])
from_root _ = none

-- `Parse`; the document has its root as first content.
abbrev pub from_roots : Option (List Node) → Option (List Requirement)
from_roots none = none
from_roots (some []) = none
from_roots (some (root ∷ _)) = from_root root

unfoldable pub parse : (Text → Option (List Node)) → Text → Option (List Requirement)
parse decode body =
    if text_eq (trim_space body) []
    then none
    else from_roots (decode (join (codes "\n") (remove_indent (split 10 body))))
