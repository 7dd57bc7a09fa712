-- ===== src/Yaml/Dedupe/Unique.antt =====
-- After `dropDuplicateMappingKeys` no mapping of the tree has one key twice.
use codescan.Prelude.{
  Text, ◌≡◌, refl, ap, subst, ◌∙◌, inl, inr, Bool, true, false, not, ◌&&◌, ◌||◌, text_eq,
  text_eq_iff, if◌then◌else◌, Bool-cases, and-intro, and-elim, arith,
}
use codescan.Yaml.Node.{
  Node, document, sequence, mapping, scalar, alias, Nodes, nil, cons, Pairs, end, pair,
}
use codescan.Yaml.Dedupe.{key_of, drop_duplicates, drop_each, drop_values}
use codescan.Yaml.Dedupe.LastWins.{occurs, last_wins, dedupe_pairs-last_wins}

abbrev pub unique_keys : Pairs → Bool
unique_keys end = true
unique_keys (pair k v ps) = not (occurs (key_of k) ps) && unique_keys ps

-- In every mapping that is reached through values, elements and documents.
unfoldable mutual
  pub unique : Node → Bool
  unique (document ns) = unique_each ns
  unique (sequence ns) = unique_each ns
  unique (mapping ps) = unique_keys ps && unique_values ps
  unique (scalar v) = true
  unique (alias v) = true

  pub unique_each : Nodes → Bool
  unique_each nil = true
  unique_each (cons n ns) = unique n && unique_each ns

  pub unique_values : Pairs → Bool
  unique_values end = true
  unique_values (pair k v ps) = unique v && unique_values ps

last_wins-pair :
    (k v : Node) (ps : Pairs) (b : Bool)
    → occurs (key_of k) ps ≡ b
    → last_wins (pair k v ps) ≡ (if b then last_wins ps else pair k v (last_wins ps))
last_wins-pair k v ps b e = ap (λ c. if c then last_wins ps else pair k v (last_wins ps)) e

covered :
    (key : Text) (k : Node) (ps : Pairs)
    → occurs (key_of k) ps ≡ true
    → occurs key ps ≡ (text_eq (key_of k) key || occurs key ps)
covered key k ps e = elim (Bool-cases (text_eq (key_of k) key)) [
  | inl same ↦
      subst (λ x. occurs x ps ≡ (text_eq (key_of k) x || occurs x ps))
        ((text_eq_iff (key_of k) key).0 same) (ground (arith, e))
  | inr other ↦ ground (arith, other)
]

occurs-last_wins : (key : Text) (ps : Pairs) → occurs key (last_wins ps) ≡ occurs key ps
occurs-last_wins key end = refl
occurs-last_wins key (pair k v ps) = elim (Bool-cases (occurs (key_of k) ps)) [
  | inl e ↦
      ap (occurs key) (last_wins-pair k v ps true e) ∙ occurs-last_wins key ps ∙ covered key k ps e
  | inr e ↦
      ap (occurs key) (last_wins-pair k v ps false e)
      ∙ ap (λ b. text_eq (key_of k) key || b) (occurs-last_wins key ps)
]

unique_keys-last_wins : (ps : Pairs) → unique_keys (last_wins ps) ≡ true
unique_keys-last_wins end = refl
unique_keys-last_wins (pair k v ps) = elim (Bool-cases (occurs (key_of k) ps)) [
  | inl e ↦ ap unique_keys (last_wins-pair k v ps true e) ∙ unique_keys-last_wins ps
  | inr e ↦
      ap unique_keys (last_wins-pair k v ps false e)
      ∙ and-intro (not (occurs (key_of k) (last_wins ps))) (unique_keys (last_wins ps))
          (ap not (occurs-last_wins (key_of k) ps ∙ e)) (unique_keys-last_wins ps)
]

unique_values-last_wins :
    (ps : Pairs) → unique_values ps ≡ true → unique_values (last_wins ps) ≡ true
unfolding unique
unique_values-last_wins end h = refl
unique_values-last_wins (pair k v ps) h = elim (Bool-cases (occurs (key_of k) ps)) [
  | inl e ↦
      ap unique_values (last_wins-pair k v ps true e)
      ∙ unique_values-last_wins ps (and-elim (unique v) (unique_values ps) h).1
  | inr e ↦
      ap unique_values (last_wins-pair k v ps false e)
      ∙ and-intro (unique v) (unique_values (last_wins ps))
          (and-elim (unique v) (unique_values ps) h).0
          (unique_values-last_wins ps (and-elim (unique v) (unique_values ps) h).1)
]

mutual
  unfolding unique drop_duplicates

  drop_node_unique : (n : Node) → unique (drop_duplicates n) ≡ true
  drop_node_unique (document ns) = drop_each_unique ns
  drop_node_unique (sequence ns) = drop_each_unique ns
  drop_node_unique (mapping ps) =
      ap (λ qs. unique_keys qs && unique_values qs) (dedupe_pairs-last_wins (drop_values ps))
      ∙ and-intro (unique_keys (last_wins (drop_values ps)))
          (unique_values (last_wins (drop_values ps))) (unique_keys-last_wins (drop_values ps))
          (unique_values-last_wins (drop_values ps) (drop_values_unique ps))
  drop_node_unique (scalar v) = refl
  drop_node_unique (alias v) = refl

  drop_each_unique : (ns : Nodes) → unique_each (drop_each ns) ≡ true
  drop_each_unique nil = refl
  drop_each_unique (cons n ns) =
      and-intro (unique (drop_duplicates n)) (unique_each (drop_each ns)) (drop_node_unique n)
        (drop_each_unique ns)

  drop_values_unique : (ps : Pairs) → unique_values (drop_values ps) ≡ true
  drop_values_unique end = refl
  drop_values_unique (pair k v ps) =
      and-intro (unique (drop_duplicates v)) (unique_values (drop_values ps)) (drop_node_unique v)
        (drop_values_unique ps)

-- A tree whose duplicates are dropped has no key twice in any mapping that is reached through
-- documents, elements and values.
pub drop_duplicates-unique : (n : Node) → unique (drop_duplicates n) ≡ true
drop_duplicates-unique n = drop_node_unique n
