-- ===== src/Spec/Reduce/Targets.antt =====
-- What a rename map holds, without hierarchical names: a rename leads from a key of the document
-- to a name without a slash, and no key is renamed twice.
use codescan.Prelude.{
  Text, ℕ, zero, suc, ◌+◌, ◌≡◌, refl, sym, ap, ◌∙◌, List, [], ◌∷◌, ◌++◌, none, some, true, false,
  contains, arith, Bool-cases, Option-cases, inl, inr, cut_last, has_code, has_code-append, keys,
  lookup, insert, has_key, lookup-insert, has_key-insert, text_eq, text_eq_iff, foldl,
  contains-cons, contains-sort, sort, length,
}
use codescan.Prelude.Decimal.{itoa, has_code-itoa}
use codescan.Spec.Reduce.{
  Names, Options, Reduction, leaf_name, slash, group_of, reserve, reserve_all, rename_flat,
  deconflict, resolve_collision_group, attempt, shallowest, suffixed, first_free, max_depth,
  segments, concat_name, compute_name_reductions, no_reduction,
}
use codescan.Spec.Reduce.Fresh.{resolve_collision_group-Fresh}
use codescan.Spec.Reduce.Groups.{groups_of, contains-group_of}

cut_last-none : (c : ℕ) (s : Text) → cut_last c s ≡ none → has_code c s ≡ false
unfolding cut_last has_code
cut_last-none c [] e = refl
cut_last-none c (x ∷ s) e = elim (Option-cases (cut_last c s)) [
  | inl deeper ↦ ground (arith, cut_last-none c s deeper, (rw (deeper, cut_last) at e))
  | inr ((b, a), found) ↦ absurd (ground (arith, (rw (found, cut_last) at e)))
]

cut_last-some : (c : ℕ) (s b a : Text) → cut_last c s ≡ some (b, a) → has_code c a ≡ false
unfolding cut_last
cut_last-some c [] b a e = absurd (ground arith)
cut_last-some c (x ∷ s) b a e = elim (Option-cases (cut_last c s)) [
  | inl deeper ↦ ground (arith, cut_last-none c s deeper, (rw (deeper, cut_last) at e))
  | inr ((b', a'), found) ↦
      ground (arith, cut_last-some c s b' a' found, (rw (found, cut_last) at e))
]

pub leaf_name-slash : (k : Text) → has_code slash (leaf_name k) ≡ false
unfolding leaf_name
leaf_name-slash k = elim (Option-cases (cut_last slash k)) [
  | inl whole ↦ rw (whole, leaf_name) (cut_last-none slash k whole)
  | inr ((b, a), found) ↦ rw (found, leaf_name) (cut_last-some slash k b a found)
]

-- No key is renamed twice.
abbrev pub DistinctKeys {ℓ} : {V : Type ℓ} → List (Text × V) → Type 0
DistinctKeys [] = Unit
DistinctKeys ((k, n) ∷ m) = (has_key k m ≡ false) × DistinctKeys m

pub DistinctKeys-insert {ℓ} :
    {V : Type ℓ} (k : Text) (v : V) (m : List (Text × V))
    → DistinctKeys m
    → DistinctKeys (insert k v m)
unfolding insert has_key
DistinctKeys-insert k v [] h = (refl, tt)
DistinctKeys-insert k v ((j, w) ∷ m) h =
    ground (
      arith,
      DistinctKeys-insert k v m h.1,
      has_key-insert k j v m,
      text_eq_iff j k,
      text_eq_iff k j,
    )

-- A rename leads from one of the keys to a name without a slash.
pub record Sound (ks : List Text) (renames : List (Text × Text)) : Type 0 where
  pub of_key : (k name : Text) → lookup k renames ≡ some name → contains ks k ≡ true
  pub to_plain : (k name : Text) → lookup k renames ≡ some name → has_code slash name ≡ false
  pub once : DistinctKeys renames

Sound-insert :
    (ks : List Text) (renames : List (Text × Text)) (k name : Text)
    → contains ks k ≡ true
    → has_code slash name ≡ false
    → Sound ks renames
    → Sound ks (insert k name renames)
Sound-insert ks renames k name hk hn h = record {
  of_key = λ j n e. ground (arith, lookup-insert k j name renames, h.of_key j n, text_eq_iff k j);
  to_plain = λ j n e. ground (arith, lookup-insert k j name renames, h.to_plain j n);
  once = DistinctKeys-insert k name renames h.once;
}

reserve-Sound :
    (ks : List Text) (s : Reduction) (leaf : Text) (g : List Text)
    → ((k : Text) → contains g k ≡ true → (contains ks k ≡ true) × (leaf_name k ≡ leaf))
    → Sound ks s.renames
    → Sound ks (reserve s leaf g).renames
unfolding reserve
reserve-Sound ks s leaf [] own h = h
reserve-Sound ks s leaf (x ∷ []) own h =
    let o = own x (ground (arith, contains-cons x [] x, text_eq_iff x x)) in
    elim (Bool-cases (text_eq x leaf)) [
      | inl same ↦ rw same h
      | inr other ↦ rw other (
          Sound-insert ks s.renames x leaf o.0 (ap (has_code slash) (sym o.1) ∙ leaf_name-slash x)
            h)
    ]
reserve-Sound ks s leaf (x ∷ y ∷ g) own h = h

module _ (to_go_name : Text → Text)
    (plain : (t : Text) → has_code slash (to_go_name t) ≡ false) where
  -- The names of a group have no slash.
  abbrev NoSlash : Names → Type 0
  NoSlash [] = Unit
  NoSlash ((k, name) ∷ cand) = (has_code slash name ≡ false) × NoSlash cand

  first_free-slash :
      (taken seen : List Text) (base : Text) (fuel i : ℕ) (name : Text)
      → has_code slash base ≡ false
      → has_code slash name ≡ false
      → has_code slash (first_free taken seen base fuel i name) ≡ false
  unfolding first_free
  first_free-slash taken seen base zero i name hb hn = hn
  first_free-slash taken seen base (suc fuel) i name hb hn = ground (
    arith,
    first_free-slash taken seen base fuel (i + 1) (base ++ itoa i),
    has_code-append slash base (itoa i),
    has_code-itoa slash i,
  )

  concat_name-slash :
      (segs : List Text) (d : ℕ) → has_code slash (concat_name to_go_name segs d) ≡ false
  unfolding concat_name
  concat_name-slash segs d = plain _

  module _ (taken : List Text) where
    attempt-slash :
        (d : ℕ) (seen ks : List Text) (cand : Names)
        → attempt to_go_name taken d seen ks ≡ some cand
        → NoSlash cand
    unfolding attempt
    attempt-slash d seen [] cand e = ground arith
    attempt-slash d seen (k ∷ ks) cand e =
        elim (Option-cases (attempt to_go_name taken d (name ∷ seen) ks)) [
          | inl stuck ↦ absurd (ground (arith, stuck))
          | inr (rest, e') ↦
              ground
                (arith, attempt-slash d (name ∷ seen) ks rest e', concat_name-slash (segments k) d)
        ]
      where
        name : Text
        name = concat_name to_go_name (segments k) d

    shallowest-slash :
        (rounds d : ℕ) (ks : List Text) (cand : Names) (score : ℕ)
        → shallowest to_go_name taken rounds d ks ≡ some (cand, score)
        → NoSlash cand
    unfolding shallowest
    shallowest-slash zero d ks cand score e = absurd (ground arith)
    shallowest-slash (suc rounds) d ks cand score e =
        elim (Option-cases (attempt to_go_name taken d [] ks)) [
          | inl none' ↦ shallowest-slash rounds (d + 1) ks cand score (rw (none', shallowest) at e)
          | inr (found, e') ↦
              ground (arith, attempt-slash d [] ks found e', (rw (e', shallowest) at e))
        ]

    suffixed-slash : (d : ℕ) (seen ks : List Text) → NoSlash (suffixed to_go_name taken d seen ks)
    unfolding suffixed
    suffixed-slash d seen [] = tt
    suffixed-slash d seen (k ∷ ks) =
        let base = concat_name to_go_name (segments k) d in
        let free = concat_name-slash (segments k) d in
        let name = first_free taken seen base (suc (length taken + length seen)) 2 base in
        (first_free-slash taken seen base _ 2 base free free, suffixed-slash d (name ∷ seen) ks)

    resolve-slash : (ks : List Text) → NoSlash (resolve_collision_group to_go_name taken ks).0
    unfolding resolve_collision_group
    resolve-slash ks = elim (Option-cases (shallowest to_go_name taken (max_depth 0 ks) 1 ks)) [
      | inl deep ↦ rw (deep, resolve_collision_group) (suffixed-slash (max_depth 0 ks) [] ks)
      | inr ((cand, score), e) ↦
          rw (e, resolve_collision_group) (shallowest-slash _ 1 ks cand score e)
    ]

  rename_flat-Sound :
      (ks : List Text) (s : Reduction) (cand : Names)
      → NoSlash cand
      → ((k : Text) → contains (keys cand) k ≡ true → contains ks k ≡ true)
      → Sound ks s.renames
      → Sound ks (rename_flat s cand).renames
  unfolding rename_flat keys
  rename_flat-Sound ks s [] n own h = h
  rename_flat-Sound ks s ((k, name) ∷ cand) n own h =
      rename_flat-Sound ks (record s { renames = insert k name s.renames; taken = name ∷ s.taken })
        cand n.1 (λ j m. own j (ground (arith, contains-cons k (keys cand) j)))
        (Sound-insert ks s.renames k name
          (own k (ground (arith, contains-cons k (keys cand) k, text_eq_iff k k))) n.0 h)

  module _ (o : Options) (flat : o.hierarchical_names ≡ false) (ks : List Text) where
    abbrev members : Text → List Text
    members leaf = group_of leaf (groups_of ks)

    deconflict-Sound :
        (s : Reduction) (leaf : Text)
        → Sound ks s.renames
        → Sound ks (deconflict to_go_name o (groups_of ks) s leaf).renames
    unfolding deconflict
    deconflict-Sound s leaf h = rw flat (
        rename_flat-Sound ks s (resolve_collision_group to_go_name s.taken (sort (members leaf))).0
          (resolve-slash s.taken (sort (members leaf)))
          (λ k m. ground (
            arith,
            ap (λ ns. contains ns k)
                (resolve_collision_group-Fresh to_go_name s.taken (sort (members leaf))).1,
            contains-sort (members leaf) k,
            contains-group_of ks leaf k,
          ))
          h)

    reserve_each-Sound :
        (s : Reduction) (leaves : List Text)
        → Sound ks s.renames
        → Sound ks (foldl (λ s leaf. reserve s leaf (members leaf)) s leaves).renames
    reserve_each-Sound s [] h = h
    reserve_each-Sound s (l ∷ leaves) h = reserve_each-Sound (reserve s l (members l)) leaves (
        reserve-Sound ks s l (members l)
          (λ k m. ground (arith, contains-group_of ks l k, text_eq_iff (leaf_name k) l)) h)

    resolve_each-Sound :
        (s : Reduction) (leaves : List Text)
        → Sound ks s.renames
        → Sound ks (foldl (deconflict to_go_name o (groups_of ks)) s leaves).renames
    resolve_each-Sound s [] h = h
    resolve_each-Sound s (l ∷ leaves) h =
        resolve_each-Sound (deconflict to_go_name o (groups_of ks) s l) leaves
          (deconflict-Sound s l h)

    abbrev reserved : Reduction
    reserved = reserve_all (groups_of ks) (keys (groups_of ks))

    pub compute_name_reductions-Sound : Sound ks (compute_name_reductions to_go_name o ks).renames
    unfolding compute_name_reductions reserve_all
    compute_name_reductions-Sound = resolve_each-Sound reserved (sort reserved.collisions) (
        reserve_each-Sound no_reduction (keys (groups_of ks)) (record {
          of_key = λ k n e. absurd (unfold lookup in cc e);
          to_plain = λ k n e. absurd (unfold lookup in cc e);
          once = tt;
        }))

    -- Without hierarchical names, and where `to_go_name` gives no slash, a rename leads from a key
    -- of the document to a name without a slash.
    pub rename-plain :
        (k name : Text)
        → lookup k (compute_name_reductions to_go_name o ks).renames ≡ some name
        → (contains ks k ≡ true) × (has_code slash name ≡ false)
    rename-plain k name e = (
      compute_name_reductions-Sound.of_key k name e,
      compute_name_reductions-Sound.to_plain k name e,
    )
