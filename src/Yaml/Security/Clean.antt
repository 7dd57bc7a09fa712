-- ===== src/Yaml/Security/Clean.antt =====
-- Requirements name schemes and scopes: never an empty one.
use codescan.Prelude.{
  Text, ◌≡◌, refl, sym, subst, inl, inr, List, [], ◌∷◌, Option, none, some, Bool, true, false, not,
  ◌&&◌, text_eq, insert, if◌then◌else◌, Bool-cases, and-intro, arith, codes, split, join,
}
use codescan.Grammar.Strings.{trim_space}
use codescan.Yaml.Node.{
  Node, document, sequence, mapping, scalar, alias, Nodes, nil, cons, Pairs, end, pair, value_of,
}
use codescan.Yaml.Dedent.{remove_indent}
use codescan.Yaml.Security.{
  Requirement, trimmed, values_of, coerce_scopes, single, add_schemes, some_schemes,
  requirement_from_item, add_requirement, from_items, legacy_mapping, nil_if_empty, from_root,
  from_roots, parse,
}

abbrev pub filled : List Text → Bool
filled [] = true
filled (s ∷ ss) = not (text_eq s []) && filled ss

-- The names of the schemes and of their scopes are not empty.
abbrev pub clean : Requirement → Bool
clean [] = true
clean ((name, scopes) ∷ req) = (not (text_eq name []) && filled scopes) && clean req

-- A requirement has a scheme.
abbrev some_scheme : Requirement → Bool
some_scheme [] = false
some_scheme (s ∷ req) = true

abbrev pub clean_all : List Requirement → Bool
clean_all [] = true
clean_all (r ∷ rs) = (some_scheme r && clean r) && clean_all rs

abbrev pub Clean : Option (List Requirement) → Type 0
Clean none = Unit
Clean (some rs) = clean_all rs ≡ true

abbrev CleanOne : Option Requirement → Type 0
CleanOne none = Unit
CleanOne (some r) = (some_scheme r && clean r) ≡ true

trimmed-filled : (ss : List Text) → filled (trimmed ss) ≡ true
unfolding trimmed
trimmed-filled [] = refl
trimmed-filled (s ∷ ss) = ground (arith, trimmed-filled ss)

coerce_scopes-filled : (n : Node) → filled (coerce_scopes n) ≡ true
unfolding coerce_scopes
coerce_scopes-filled (sequence ns) = trimmed-filled (values_of ns)
coerce_scopes-filled (scalar v) = trimmed-filled (split b',' v)
coerce_scopes-filled (document ns) = refl
coerce_scopes-filled (mapping ps) = refl
coerce_scopes-filled (alias v) = refl

insert-clean :
    (name : Text) (scopes : List Text) (req : Requirement)
    → text_eq name [] ≡ false
    → filled scopes ≡ true
    → clean req ≡ true
    → clean (insert name scopes req) ≡ true
unfolding insert
insert-clean name scopes [] e f h = ground (arith, e, f)
insert-clean name scopes ((n, s) ∷ req) e f h =
    ground (arith, e, f, h, insert-clean name scopes req e f)

if-clean :
    (b : Bool) (x y : Requirement)
    → clean x ≡ true
    → (b ≡ false → clean y ≡ true)
    → clean (if b then x else y) ≡ true
if-clean true x y hx hy = hx
if-clean false x y hx hy = hy refl

add_schemes-clean :
    (req : Requirement) (ps : Pairs) → clean req ≡ true → clean (add_schemes req ps) ≡ true
unfolding add_schemes
add_schemes-clean req end h = h
add_schemes-clean req (pair k v ps) h =
    let name = trim_space (value_of k) in
    add_schemes-clean (if text_eq name [] then req else insert name (coerce_scopes v) req) ps (
      if-clean (text_eq name []) req (insert name (coerce_scopes v) req) h
        (λ e. insert-clean name (coerce_scopes v) req e (coerce_scopes-filled v) h))

some_schemes-CleanOne : (req : Requirement) → clean req ≡ true → CleanOne (some_schemes req)
some_schemes-CleanOne [] h = tt
some_schemes-CleanOne (s ∷ req) h = h

scalar-CleanOne : (name : Text) → CleanOne (if text_eq name [] then none else some (single name []))
scalar-CleanOne name = elim (Bool-cases (text_eq name [])) [
  | inl e ↦ subst (λ b. CleanOne (if b then none else some (single name []))) (sym e) tt
  | inr e ↦
      subst (λ b. CleanOne (if b then none else some (single name []))) (sym e) (ground (arith, e))
]

requirement-CleanOne : (n : Node) → CleanOne (requirement_from_item n)
unfolding requirement_from_item
requirement-CleanOne (scalar v) = scalar-CleanOne (trim_space v)
requirement-CleanOne (mapping ps) =
    some_schemes-CleanOne (add_schemes [] ps) (add_schemes-clean [] ps refl)
requirement-CleanOne (document ns) = tt
requirement-CleanOne (sequence ns) = tt
requirement-CleanOne (alias v) = tt

add_requirement-clean :
    (o : Option Requirement) (rs : List Requirement)
    → CleanOne o
    → clean_all rs ≡ true
    → clean_all (add_requirement o rs) ≡ true
add_requirement-clean none rs h k = k
add_requirement-clean (some r) rs h k = and-intro (some_scheme r && clean r) (clean_all rs) h k

from_items-clean : (ns : Nodes) → clean_all (from_items ns) ≡ true
unfolding from_items
from_items-clean nil = refl
from_items-clean (cons n ns) =
    add_requirement-clean (requirement_from_item n) (from_items ns) (requirement-CleanOne n)
      (from_items-clean ns)

legacy_mapping-clean : (ps : Pairs) → clean_all (legacy_mapping ps) ≡ true
unfolding legacy_mapping
legacy_mapping-clean end = refl
legacy_mapping-clean (pair k v ps) = ground (arith, legacy_mapping-clean ps, coerce_scopes-filled v)

nil_if_empty-Clean : (rs : List Requirement) → clean_all rs ≡ true → Clean (nil_if_empty rs)
nil_if_empty-Clean [] h = tt
nil_if_empty-Clean (r ∷ rs) h = h

one-Clean : (name : Text) → Clean (if text_eq name [] then none else some (single name [] ∷ []))
one-Clean name = elim (Bool-cases (text_eq name [])) [
  | inl e ↦ subst (λ b. Clean (if b then none else some (single name [] ∷ []))) (sym e) tt
  | inr e ↦
      subst (λ b. Clean (if b then none else some (single name [] ∷ []))) (sym e)
        (ground (arith, e))
]

from_root-Clean : (n : Node) → Clean (from_root n)
unfolding from_root
from_root-Clean (sequence ns) = from_items-clean ns
from_root-Clean (mapping ps) = nil_if_empty-Clean (legacy_mapping ps) (legacy_mapping-clean ps)
from_root-Clean (scalar v) = one-Clean (trim_space v)
from_root-Clean (document ns) = tt
from_root-Clean (alias v) = tt

from_roots-Clean : (o : Option (List Node)) → Clean (from_roots o)
from_roots-Clean none = tt
from_roots-Clean (some []) = tt
from_roots-Clean (some (root ∷ rest)) = from_root-Clean root

if-Clean : (b : Bool) (o : Option (List Requirement)) → Clean o → Clean (if b then none else o)
if-Clean true o h = tt
if-Clean false o h = h

-- What `Parse` gives, whatever the decoder makes of the body: each requirement has a scheme, and no
-- name of a scheme or of a scope is empty.
pub parse-Clean : (decode : Text → Option (List Node)) (body : Text) → Clean (parse decode body)
unfolding parse
parse-Clean decode body =
    if-Clean (text_eq (trim_space body) []) _
      (from_roots-Clean (decode (join (codes "\n") (remove_indent (split 10 body)))))
