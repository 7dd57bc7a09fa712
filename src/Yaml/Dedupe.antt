-- ===== src/Yaml/Dedupe.antt =====
-- internal/parsers/yaml/dedupe.go: the last of several equal keys wins.
pub mod LastWins
pub mod Unique
use codescan.Prelude.{
  Text, ℕ, suc, ◌+◌, List, [], ◌∷◌, Option, none, some, Bool, true, false, length, lookup, insert,
  keys, ltb, ◌==◌, if◌then◌else◌,
}
use codescan.Yaml.Node.{
  Node, document, sequence, mapping, scalar, alias, Nodes, nil, cons, Pairs, end, pair, value_of,
  kind_of,
}

-- The kind and the value of a key, as one text.
abbrev pub key_of : Node → Text
key_of k = kind_of k ∷ value_of k

abbrev pub size : Pairs → ℕ
size end = 0
size (pair k v ps) = suc (size ps)

-- The index of the latest occurrence of each key.
unfoldable pub latest : ℕ → List (Text × ℕ) → Pairs → List (Text × ℕ)
latest i m end = m
latest i m (pair k v ps) = latest (i + 1) (insert (key_of k) i m) ps

abbrev pub is_at : Option ℕ → ℕ → Bool
is_at none i = false
is_at (some j) i = j == i

unfoldable pub keep_latest : List (Text × ℕ) → ℕ → Pairs → Pairs
keep_latest m i end = end
keep_latest m i (pair k v ps) =
    let rest = keep_latest m (i + 1) ps in
    if is_at (lookup (key_of k) m) i then pair k v rest else rest

-- `dedupePairs`
unfoldable pub dedupe_pairs : Pairs → Pairs
dedupe_pairs ps =
    let m = latest 0 [] ps in
    if ltb (size ps) 2 then ps else if length m == size ps then ps else keep_latest m 0 ps

-- `dropDuplicateMappingKeys`. The source drops the pairs of a mapping before it walks the values that
-- are left; the walk changes no key, so that the values may be walked first.
unfoldable mutual
  pub drop_duplicates : Node → Node
  drop_duplicates (document ns) = document (drop_each ns)
  drop_duplicates (sequence ns) = sequence (drop_each ns)
  drop_duplicates (mapping ps) = mapping (dedupe_pairs (drop_values ps))
  drop_duplicates (scalar v) = scalar v
  drop_duplicates (alias v) = alias v

  pub drop_each : Nodes → Nodes
  drop_each nil = nil
  drop_each (cons n ns) = cons (drop_duplicates n) (drop_each ns)

  pub drop_values : Pairs → Pairs
  drop_values end = end
  drop_values (pair k v ps) = pair k (drop_duplicates v) (drop_values ps)
