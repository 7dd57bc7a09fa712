-- ===== src/Spec/Reduce.antt =====
-- internal/builders/spec/reduce.go, the choice of names: `computeNameReductions` and what it calls.
-- `mangler.ToGoName` is the parameter `to_go_name`. Maps are association lists, and the order of
-- the definitions stands for the order in which Go ranges over the map. A score is a number of
-- 240ths, in which the weights and budgets of `concatScore` are whole: 0.5/24, 0.3/2 and 0.2/12.
pub mod Fresh
pub mod Groups
pub mod Distinct
pub mod Lifted
pub mod Targets
pub mod Depth
pub mod Numbered
use Prim.Native.Nat.{max, min}
use codescan.Prelude.Decimal.{itoa}
use codescan.Prelude.{
  Text, codes, ℕ, zero, suc, ◌+◌, ◌-◌, ◌*◌, ◌/◌, ◌%◌, List, [], ◌∷◌, ◌++◌, Option, none, some, Bool,
  true, false, ◌&&◌, ◌||◌, not, text_eq, split, join, cut_last, len, contains, keys, lookup, insert,
  sort, length, drop, foldl, ltb, leb, ◌==◌, if◌then◌else◌,
}

abbrev pub slash : ℕ
slash = b'/'

unfoldable pub leaf_name : Text → Text
leaf_name key = elim (cut_last slash key) [ none ↦ key | some (before, after) ↦ after ]

unfoldable pub package_of : Text → Text
package_of key = elim (cut_last slash key) [ none ↦ key | some (before, after) ↦ before ]

unfoldable pub segments : Text → List Text
segments = split slash

unfoldable pub concat_parts : List Text → ℕ → List Text
concat_parts segs d = drop (length segs - d - 1) segs

abbrev pub score_ceil : ℕ
score_ceil = 240

abbrev pub max_parts : ℕ
max_parts = 3

abbrev longest : ℕ → List Text → ℕ
longest w [] = w
longest w (p ∷ ps) = longest (max w (len p)) ps

unfoldable pub concat_score : Text → List Text → ℕ
concat_score concat parts =
    if length parts == 0
    then 0
    else if ltb max_parts (length parts)
    then score_ceil
    else min score_ceil (5 * len concat + 36 * (length parts - 1) + 4 * longest 0 parts)

-- 0.65
abbrev pub default_name_concat_budget : ℕ
default_name_concat_budget = 156

unfoldable pub concat_budget : ℕ → ℕ
concat_budget option = if option == 0 then default_name_concat_budget else option

-- A name for each key of a group, in the order of the keys.
abbrev pub Names : Type 0
Names = List (Text × Text)

-- The largest number of parents of a key in the group.
abbrev pub max_depth : ℕ → List Text → ℕ
max_depth m [] = m
max_depth m (k ∷ ks) = max_depth (max m (length (segments k) - 1)) ks

abbrev pub group_worst_score : Names → ℕ → ℕ → ℕ
group_worst_score [] d worst = worst
group_worst_score ((k, name) ∷ cand) d worst =
    group_worst_score cand d (max worst (concat_score name (concat_parts (segments k) d)))

-- The loop over `i` of the fallback: `name`, or the base with the first suffix that is free.
unfoldable pub first_free : List Text → List Text → Text → ℕ → ℕ → Text → Text
first_free taken seen base zero i name = name
first_free taken seen base (suc fuel) i name =
    let next = first_free taken seen base fuel (i + 1) (base ++ itoa i) in
    if contains taken name || contains seen name then next else name

module _ (to_go_name : Text → Text) where
  unfoldable pub concat_name : List Text → ℕ → Text
  concat_name segs d = to_go_name (join (codes " ") (concat_parts segs d))

  module _ (taken : List Text) where
    -- One round of the loop over the depth: no name, as soon as one clashes.
    unfoldable pub attempt : ℕ → List Text → List Text → Option Names
    attempt d seen [] = some []
    attempt d seen (k ∷ ks) =
        let name = concat_name (segments k) d in
        let rest = attempt d (name ∷ seen) ks in
        if contains taken name
        then none
        else if contains seen name
        then none
        else elim rest [ none ↦ none | some cand ↦ some ((k, name) ∷ cand) ]

    -- The depths from `d` on, `rounds` of them.
    unfoldable pub shallowest : ℕ → ℕ → List Text → Option (Names × ℕ)
    shallowest zero d ks = none
    shallowest (suc rounds) d ks = elim (attempt d [] ks) [
      | some cand ↦ some (cand, group_worst_score cand d 0)
      | none ↦ shallowest rounds (d + 1) ks
    ]

    -- The fallback: the full path with a numeric suffix. More names are tried than are in use.
    unfoldable pub suffixed : ℕ → List Text → List Text → Names
    suffixed d seen [] = []
    suffixed d seen (k ∷ ks) =
        let base = concat_name (segments k) d in
        let name = first_free taken seen base (suc (length taken + length seen)) 2 base in
        (k, name) ∷ suffixed d (name ∷ seen) ks

    unfoldable pub resolve_collision_group : List Text → Names × ℕ
    resolve_collision_group ks = elim (shallowest (max_depth 0 ks) 1 ks) [
      | some found ↦ found
      | none ↦
          let cand = suffixed (max_depth 0 ks) [] ks in
          (cand, group_worst_score cand (max_depth 0 ks) 0)
    ]

-- `resolveHierarchicalGroup`: the container path for each key.
abbrev pub Paths : Type 0
Paths = List (Text × List Text)

abbrev pub first_segment : List Text → Text
first_segment [] = []
first_segment (s ∷ ss) = s

unfoldable pub attempt_paths : List Text → List Text → ℕ → List Text → List Text → Option Paths
attempt_paths taken roots d seen [] = some []
attempt_paths taken roots d seen (k ∷ ks) =
    let path = concat_parts (segments k) d in
    let joined = join (codes "/") path in
    let rest = attempt_paths taken roots d (joined ∷ seen) ks in
    if contains taken (first_segment path) && not (contains roots (first_segment path))
    then none
    else if contains seen joined
    then none
    else elim rest [ none ↦ none | some cand ↦ some ((k, path) ∷ cand) ]

unfoldable pub shallowest_paths : List Text → List Text → ℕ → ℕ → List Text → Option Paths
shallowest_paths taken roots zero d ks = none
shallowest_paths taken roots (suc rounds) d ks = elim (attempt_paths taken roots d [] ks) [
  | some cand ↦ some cand
  | none ↦ shallowest_paths taken roots rounds (d + 1) ks
]

abbrev full_paths : List Text → Paths
full_paths [] = []
full_paths (k ∷ ks) = (k, segments k) ∷ full_paths ks

unfoldable pub resolve_hierarchical_group : List Text → List Text → List Text → Paths
resolve_hierarchical_group taken roots ks =
    elim (shallowest_paths taken roots (max_depth 0 ks) 1 ks) [
      | some cand ↦ cand
      | none ↦ full_paths ks
    ]

pub data Hint : Type 0 where
  colliding : (leaf : Text) (mappings : List (Text × Text)) → Hint
  hierarchical : (leaf : Text) (mappings : List (Text × Text)) → Hint

pub record Reduction : Type 0 where
  pub renames : List (Text × Text)
  pub taken : List Text
  pub container_roots : List Text
  pub collisions : List Text
  pub hints : List Hint

pub record Options : Type 0 where
  pub budget : ℕ
  pub hierarchical_names : Bool

-- `groups[leaf] = append(groups[leaf], key)`
abbrev pub group_of : Text → List (Text × List Text) → List Text
group_of leaf groups = elim (lookup leaf groups) [ none ↦ [] | some ks ↦ ks ]

unfoldable pub add_to_group : List (Text × List Text) → Text → List (Text × List Text)
add_to_group groups key =
    let leaf = leaf_name key in insert leaf (group_of leaf groups ++ key ∷ []) groups

-- Pass 1, for one group.
unfoldable pub reserve : Reduction → Text → List Text → Reduction
reserve s leaf (k ∷ []) = record s {
  taken = leaf ∷ s.taken;
  renames = if text_eq k leaf then s.renames else insert k leaf s.renames;
}
reserve s leaf _ = record s { collisions = s.collisions ++ leaf ∷ [] }

unfoldable pub rename_flat : Reduction → Names → Reduction
rename_flat s [] = s
rename_flat s ((k, name) ∷ cand) =
    rename_flat (record s { renames = insert k name s.renames; taken = name ∷ s.taken }) cand

unfoldable pub rename_nested : Reduction → Paths → Reduction
rename_nested s [] = s
rename_nested s ((k, path) ∷ cand) =
    rename_nested
      (record s {
        renames = insert k (join (codes "/") path) s.renames;
        taken = first_segment path ∷ s.taken;
        container_roots = first_segment path ∷ s.container_roots;
      })
      cand

abbrev flat_mappings : Names → List (Text × Text)
flat_mappings [] = []
flat_mappings ((k, name) ∷ cand) = (package_of k, name) ∷ flat_mappings cand

abbrev nested_mappings : Paths → List (Text × Text)
nested_mappings [] = []
nested_mappings ((k, path) ∷ cand) = (package_of k, join (codes "/") path) ∷ nested_mappings cand

abbrev pub tell : Hint → Reduction → Reduction
tell h s = record s { hints = s.hints ++ h ∷ [] }

-- Pass 2, for one colliding leaf.
unfoldable pub deconflict :
    (Text → Text) → Options → List (Text × List Text) → Reduction → Text → Reduction
deconflict to_go_name o groups s leaf =
    let ks = sort (group_of leaf groups) in
    let (chosen, score) = resolve_collision_group to_go_name s.taken ks in
    let paths = resolve_hierarchical_group s.taken s.container_roots ks in
    if o.hierarchical_names && ltb (concat_budget o.budget) score
    then tell (hierarchical leaf (nested_mappings paths)) (rename_nested s paths)
    else tell (colliding leaf (flat_mappings chosen)) (rename_flat s chosen)

abbrev pub no_reduction : Reduction
no_reduction = record {
  renames = [];
  taken = [];
  container_roots = [];
  collisions = [];
  hints = [];
}

unfoldable pub reserve_all : List (Text × List Text) → List Text → Reduction
reserve_all groups = foldl (λ s leaf. reserve s leaf (group_of leaf groups)) no_reduction

-- `computeNameReductions`, over the keys of the definitions.
unfoldable pub compute_name_reductions : (Text → Text) → Options → List Text → Reduction
compute_name_reductions to_go_name o ks =
    let groups = foldl add_to_group [] ks in
    let s = reserve_all groups (keys groups) in
    foldl (deconflict to_go_name o groups) s (sort s.collisions)
