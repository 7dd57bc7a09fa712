-- ===== src/Spec/Rewrite/Collect.antt =====
-- The walk that rewrites references and the walk that collects them agree: the keys of the
-- rewritten schema are the renamed keys of the schema, in the same order.
use mathlib.Core.List.{map-append}
use codescan.Prelude.{
  Text, ℕ, ◌≡◌, refl, ◌∙◌, List, [], ◌∷◌, ◌++◌, map, Option, none, some, cut_prefix, lookup, arith,
  Option-cases, inl, inr,
}
use codescan.Spec.Document.{
  Schema, schema, Schemas, nil, cons, Fields, end, field, OptSchema, null, at, Additional, unset,
  allows, def_ref_prefix, ref_keys, collect_def_refs, collect_schemas, collect_fields, collect_opt,
  collect_additional, repoint_ref, rewrite_schema_refs, rewrite_schemas, rewrite_fields,
  rewrite_opt, rewrite_additional,
}
use codescan.Spec.Rewrite.{repointer}

-- The name that a key is renamed to.
abbrev pub renamed : List (Text × Text) → Text → Text
renamed renames k = elim (lookup k renames) [ none ↦ k | some name ↦ name ]

pub cut_prefix-append : (p s : Text) → cut_prefix p (p ++ s) ≡ some s
unfolding cut_prefix
cut_prefix-append [] s = refl
cut_prefix-append (c ∷ p) s = ground (arith, cut_prefix-append p s)

module _ (new_ref : Text → Option Text) (renames : List (Text × Text))
    (parses : (k name : Text)
      → lookup k renames ≡ some name
      → new_ref (def_ref_prefix ++ name) ≡ some (def_ref_prefix ++ name)) where
  repoint-other :
      (c : ℕ) (ref : Text)
      → cut_prefix def_ref_prefix (c ∷ ref) ≡ none
      → ref_keys (repoint_ref (repointer new_ref renames) (c ∷ ref)) ≡ []
  unfolding repointer
  repoint-other c ref e = rw (e, repoint_ref) (rw (e, ref_keys))

  repoint-key :
      (c : ℕ) (ref key : Text)
      → cut_prefix def_ref_prefix (c ∷ ref) ≡ some key
      → ref_keys (repoint_ref (repointer new_ref renames) (c ∷ ref)) ≡ renamed renames key ∷ []
  unfolding repointer
  repoint-key c ref key e = elim (Option-cases (lookup key renames)) [
    | inl plain ↦ rw (e, repoint_ref) (rw (plain, renamed) (rw (e, ref_keys)))
    | inr (name, found) ↦
        rw (e, repoint_ref)
          (rw (found, renamed)
            (rw (parses key name found, repoint_ref)
              (rw (cut_prefix-append def_ref_prefix name, ref_keys))))
  ]

  ref_keys-repoint :
      (ref : Text)
      → ref_keys (repoint_ref (repointer new_ref renames) ref)
        ≡ map (renamed renames) (ref_keys ref)
  ref_keys-repoint [] = unfold cut_prefix in refl
  ref_keys-repoint (c ∷ ref) = elim (Option-cases (cut_prefix def_ref_prefix (c ∷ ref))) [
    | inl other ↦ repoint-other c ref other ∙ rw (other, ref_keys)
    | inr (key, e) ↦ repoint-key c ref key e ∙ rw (e, ref_keys)
  ]

  abbrev rewrites : Text → Option Text
  rewrites = repointer new_ref renames

  mutual
    unfolding collect_def_refs rewrite_schema_refs

    collect-rewrite :
        (s : Schema)
        → collect_def_refs (rewrite_schema_refs rewrites s)
          ≡ map (renamed renames) (collect_def_refs s)
    collect-rewrite (schema ref d ps pps al an on nt it tu ap' ai defs xs g) = simp (
      ref_keys-repoint ref,
      collect-rewrite_fields ps,
      collect-rewrite_fields pps,
      collect-rewrite_schemas al,
      collect-rewrite_schemas an,
      collect-rewrite_schemas on,
      collect-rewrite_opt nt,
      collect-rewrite_opt it,
      collect-rewrite_schemas tu,
      collect-rewrite_additional ap',
      collect-rewrite_additional ai,
      collect-rewrite_fields defs,
      map-append,
    )

    collect-rewrite_schemas :
        (ss : Schemas)
        → collect_schemas (rewrite_schemas rewrites ss) ≡ map (renamed renames) (collect_schemas ss)
    collect-rewrite_schemas nil = refl
    collect-rewrite_schemas (cons s ss) =
        simp (collect-rewrite s, collect-rewrite_schemas ss, map-append)

    collect-rewrite_fields :
        (fs : Fields)
        → collect_fields (rewrite_fields rewrites fs) ≡ map (renamed renames) (collect_fields fs)
    collect-rewrite_fields end = refl
    collect-rewrite_fields (field k s fs) =
        simp (collect-rewrite s, collect-rewrite_fields fs, map-append)

    collect-rewrite_opt :
        (o : OptSchema)
        → collect_opt (rewrite_opt rewrites o) ≡ map (renamed renames) (collect_opt o)
    collect-rewrite_opt null = refl
    collect-rewrite_opt (at s) = collect-rewrite s

    collect-rewrite_additional :
        (o : Additional)
        → collect_additional (rewrite_additional rewrites o)
          ≡ map (renamed renames) (collect_additional o)
    collect-rewrite_additional unset = refl
    collect-rewrite_additional (allows b o) = collect-rewrite_opt o

  -- Where every new reference parses to itself, the keys that the rewritten schema refers to are the
  -- renamed keys of the schema, in order.
  pub collect-rewrite_schema_refs :
      (s : Schema)
      → collect_def_refs (rewrite_schema_refs rewrites s)
        ≡ map (renamed renames) (collect_def_refs s)
  collect-rewrite_schema_refs s = collect-rewrite s
