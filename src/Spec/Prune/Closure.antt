-- ===== src/Spec/Prune/Closure.antt =====
-- What it means that a definition is reachable, and that the worklist loop of
-- `pruneUnusedModels` marks exactly the reachable keys within the fuel it is given.
use mathlib.Core.List.{append-nil}
use codescan.Prelude.{
  Text, ℕ, zero, suc, ◌+◌, ◌≤◌, ◌≡◌, refl, ◌∙◌, ap, List, [], ◌∷◌, ◌++◌, Bool, true, false, ◌&&◌,
  ◌||◌, not, ◌⊎◌, inl, inr, ◌↔◌, text_eq, text_eq_iff, contains, keys, has_key, length,
  if◌then◌else◌, arith, contains-keys, contains-keep, not-contains-nil, Bool-cases, List-cases,
}
use codescan.Spec.Document.{Schema, collect_def_refs, is_discriminated}
use codescan.Spec.Prune.{
  Builder, Marks, mark, mark_all, subtype_keys_of, lookup_schema, expand, close, root_refs,
  overlay_keys, start, reach,
}
use codescan.Spec.Prune.Marking.{
  is_node, reachable-mark_all, queue-mark_all, unmarked, work-mark_all, unmarked-keys,
}

-- The keys that an expanded definition leads to: its references, and the subtypes of a
-- discriminated base.
abbrev pub targets : Builder → Text → List Text
targets b key =
    let sch = lookup_schema key b.input.definitions in
    collect_def_refs sch ++ (if is_discriminated sch then subtype_keys_of b key else [])

pub data Reachable (b : Builder) : Text → Type 0 where
  from_root :
      {k : Text}
      → contains (root_refs b) k ≡ true
      → is_node b.input.definitions k ≡ true
      → Reachable b k
  from_overlay :
      {k : Text} → contains b.built k ≡ false → is_node b.input.definitions k ≡ true → Reachable b k
  by_step :
      {j k : Text}
      → Reachable b j
      → contains (targets b j) k ≡ true
      → is_node b.input.definitions k ≡ true
      → Reachable b k

mark_all-append :
    (defs : List (Text × Schema)) (s : Marks) (ts us : List Text)
    → mark_all defs (mark_all defs s ts) us ≡ mark_all defs s (ts ++ us)
unfolding mark_all
mark_all-append defs s [] us = refl
mark_all-append defs s (t ∷ ts) us = mark_all-append defs (mark defs s t) ts us

module _ (b : Builder) where
  abbrev node : Text → Bool
  node = is_node b.input.definitions

  expand-targets :
      (s : Marks) (cur : Text) (rest : List Text)
      → expand b s cur rest
        ≡ mark_all b.input.definitions (record s { queue = rest }) (targets b cur)
  unfolding expand
  expand-targets s cur rest =
      elim (Bool-cases (is_discriminated (lookup_schema cur b.input.definitions))) [
        | inl yes' ↦ rw yes' (mark_all-append b.input.definitions _ _ _)
        | inr no' ↦ rw (no', append-nil)
      ]

  record Inv (s : Marks) : Type 0 where
    sound : (k : Text) → contains s.reachable k ≡ true → Reachable b k
    closed :
        (j k : Text)
        → contains s.reachable j ≡ true
        → contains (targets b j) k ≡ true
        → node k ≡ true
        → (contains s.queue j ≡ true) ⊎ (contains s.reachable k ≡ true)
    queued : (k : Text) → contains s.queue k ≡ true → contains s.reachable k ≡ true
    roots :
        (k : Text) → contains (root_refs b) k ≡ true → node k ≡ true → contains s.reachable k ≡ true
    overlays :
        (k : Text) → contains b.built k ≡ false → node k ≡ true → contains s.reachable k ≡ true

  Inv-expand :
      (s : Marks) (cur : Text) (rest : List Text)
      → s.queue ≡ cur ∷ rest
      → Inv s
      → Inv (expand b s cur rest)
  Inv-expand s cur rest e h = rw expand-targets (record {
    sound = λ k m.
        let split : (contains s.reachable k ≡ true)
            ⊎ ((contains (targets b cur) k ≡ true) × (node k ≡ true)) =
          ground (arith, flags k) in
        elim split [
          | inl old ↦ h.sound k old
          | inr new ↦
              by_step (h.sound cur (h.queued cur (ground (arith, front cur, text_eq_iff cur cur))))
                new.0 new.1
        ];
    closed = λ j k m t n.
        ground (arith, flags j, flags k, waits j, h.closed j k, front j, (text_eq_iff cur j).0);
    queued = λ k q. ground (arith, flags k, waits k, h.queued k, front k);
    roots = λ k r n. ground (arith, flags k, h.roots k r n);
    overlays = λ k o n. ground (arith, flags k, h.overlays k o n);
  })
    where
      s' : Marks
      s' = record s { queue = rest }

      flags :
          (k : Text)
          → contains (mark_all b.input.definitions s' (targets b cur)).reachable k
            ≡ (contains s.reachable k || contains (targets b cur) k && node k)
      flags k = reachable-mark_all b.input.definitions s' (targets b cur) k

      waits :
          (k : Text)
          → contains (mark_all b.input.definitions s' (targets b cur)).queue k ≡ (
              contains rest k
              || contains (mark_all b.input.definitions s' (targets b cur)).reachable k
                && not (contains s.reachable k))
      waits k = queue-mark_all b.input.definitions s' (targets b cur) k

      front : (k : Text) → contains s.queue k ≡ (text_eq cur k || contains rest k)
      front k = rw e (unfold contains in refl)

  contains-overlay_keys :
      (k : Text)
      → contains (overlay_keys b) k ≡ (has_key k b.input.definitions && not (contains b.built k))
  unfolding overlay_keys
  contains-overlay_keys k =
      contains-keep (λ key. not (contains b.built key)) (keys b.input.definitions) k
      ∙ rw (contains-keys k b.input.definitions)

  Inv-start : Inv (start b)
  unfolding start contains
  Inv-start = record {
    sound = λ k m.
        let split : ((contains (root_refs b) k ≡ true) × (node k ≡ true))
            ⊎ ((contains b.built k ≡ false) × (node k ≡ true)) =
          ground (arith, marks k, seeds k, contains-overlay_keys k) in
        elim split [ inl r ↦ from_root r.0 r.1 | inr o ↦ from_overlay o.0 o.1 ];
    closed = λ j k m t n. inl (ground (arith, waits j, seed_queue j, marks j, seeds j));
    queued = λ k q. ground (arith, waits k, seed_queue k, marks k, seeds k);
    roots = λ k r n. ground (arith, marks k, seeds k);
    overlays = λ k o n. ground (arith, marks k, contains-overlay_keys k);
  }
    where
      empty : Marks
      empty = record { reachable = []; queue = [] }

      seeded : Marks
      seeded = mark_all b.input.definitions empty (root_refs b)

      seeds :
          (k : Text)
          → contains seeded.reachable k ≡ (contains [] k || contains (root_refs b) k && node k)
      seeds k = reachable-mark_all b.input.definitions empty (root_refs b) k

      marks :
          (k : Text)
          → contains (mark_all b.input.definitions seeded (overlay_keys b)).reachable k
            ≡ (contains seeded.reachable k || contains (overlay_keys b) k && node k)
      marks k = reachable-mark_all b.input.definitions seeded (overlay_keys b) k

      seed_queue :
          (k : Text)
          → contains seeded.queue k
            ≡ (contains [] k || contains seeded.reachable k && not (contains [] k))
      seed_queue k = queue-mark_all b.input.definitions empty (root_refs b) k

      waits :
          (k : Text)
          → contains (mark_all b.input.definitions seeded (overlay_keys b)).queue k ≡ (
              contains seeded.queue k
              || contains (mark_all b.input.definitions seeded (overlay_keys b)).reachable k
                && not (contains seeded.reachable k))
      waits k = queue-mark_all b.input.definitions seeded (overlay_keys b) k

  Inv-close : (fuel : ℕ) (s : Marks) → Inv s → Inv (close b fuel s)
  unfolding close
  Inv-close zero s h = h
  Inv-close (suc fuel) s h = elim (List-cases s.queue) [
    | inl empty ↦ rw (empty, close) h
    | inr (cur, rest, e) ↦
        rw (e, close) (Inv-close fuel (expand b s cur rest) (Inv-expand s cur rest e h))
  ]

  abbrev work : Marks → ℕ
  work s = unmarked s.reachable (keys b.input.definitions) + length s.queue

  queue-close : (fuel : ℕ) (s : Marks) → work s ≤ fuel → (close b fuel s).queue ≡ []
  unfolding close
  queue-close zero s h = elim (List-cases s.queue) [
    | inl empty ↦ empty
    | inr (cur, rest, e) ↦ absurd (omega (arith, ap length e))
  ]
  queue-close (suc fuel) s h = elim (List-cases s.queue) [
    | inl empty ↦ rw (empty, close) empty
    | inr (cur, rest, e) ↦
        rw (e, close)
          (queue-close fuel (expand b s cur rest) (
            rw expand-targets (
              omega (
                arith,
                ap length e,
                work-mark_all b.input.definitions (record s { queue = rest }) (targets b cur),
              ))))
  ]

  work-start : work (start b) ≤ length b.input.definitions
  unfolding start
  work-start = omega (
    arith,
    unmarked-keys b.input.definitions,
    work-mark_all b.input.definitions (record { reachable = []; queue = [] }) (root_refs b),
    work-mark_all b.input.definitions
        (mark_all b.input.definitions (record { reachable = []; queue = [] }) (root_refs b))
        (overlay_keys b),
  )

  -- The worklist is empty after as many rounds as there are definitions.
  pub reach-queue : (reach b).queue ≡ []
  unfolding reach
  reach-queue = queue-close (length b.input.definitions) (start b) work-start

  Inv-reach : Inv (reach b)
  unfolding reach
  Inv-reach = Inv-close (length b.input.definitions) (start b) Inv-start

  complete : {k : Text} → Reachable b k → contains (reach b).reachable k ≡ true
  complete (from_root {k} r n) = Inv-reach.roots k r n
  complete (from_overlay {k} o n) = Inv-reach.overlays k o n
  complete (by_step {j} {k} r t n) = elim (Inv-reach.closed j k (complete r) t n) [
    | inl waiting ↦ cc (not-contains-nil j, ap (λ q. contains q j) reach-queue)
    | inr m ↦ m
  ]

  -- The worklist loop, run for as many rounds as there are definitions, marks exactly the keys that
  -- are reachable: from the paths and the shared objects, from the definitions of the overlay, and on
  -- along references and from a discriminated base to its subtypes.
  pub reach-Reachable : (k : Text) → (contains (reach b).reachable k ≡ true) ↔ Reachable b k
  reach-Reachable k = (Inv-reach.sound k, complete)
