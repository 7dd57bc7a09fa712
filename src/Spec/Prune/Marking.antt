-- ===== src/Spec/Prune/Marking.antt =====
-- What one call of `mark`, and a walk of them, does to the marks and to the queue.
use codescan.Prelude.{
  Text, ℕ, ◌+◌, ◌≤◌, ◌≡◌, refl, List, [], ◌∷◌, Bool, false, ◌&&◌, ◌||◌, not, text_eq, text_eq_iff,
  contains, keys, has_key, length, if◌then◌else◌, arith, length-append, contains-keys,
  contains-append, Bool-cases, inl, inr,
}
use codescan.Spec.Document.{Schema}
use codescan.Spec.Prune.{Marks, mark, mark_all}

-- A key that can be marked: not empty, and the key of a definition.
abbrev pub is_node : List (Text × Schema) → Text → Bool
is_node defs k = not (text_eq k []) && has_key k defs

module _ (defs : List (Text × Schema)) where
  pub reachable-mark :
      (s : Marks) (key k : Text)
      → contains (mark defs s key).reachable k
        ≡ (contains s.reachable k || text_eq key k && is_node defs k)
  unfolding mark contains
  reachable-mark s key k = elim (Bool-cases (text_eq key k)) [
    | inl same ↦ ground (arith, (text_eq_iff key k).0 same)
    | inr other ↦ ground arith
  ]

  pub queue-mark :
      (s : Marks) (key k : Text)
      → contains (mark defs s key).queue k ≡ (
          contains s.queue k
          || contains (mark defs s key).reachable k && not (contains s.reachable k))
  unfolding mark contains
  queue-mark s key k = elim (Bool-cases (text_eq key k)) [
    | inl same ↦ ground (arith, (text_eq_iff key k).0 same, contains-append s.queue (key ∷ []) k)
    | inr other ↦ ground (arith, contains-append s.queue (key ∷ []) k)
  ]

  pub reachable-mark_all :
      (s : Marks) (ts : List Text) (k : Text)
      → contains (mark_all defs s ts).reachable k
        ≡ (contains s.reachable k || contains ts k && is_node defs k)
  unfolding mark_all contains
  reachable-mark_all s [] k = ground arith
  reachable-mark_all s (t ∷ ts) k =
      ground (arith, reachable-mark_all (mark defs s t) ts k, reachable-mark s t k)

  pub queue-mark_all :
      (s : Marks) (ts : List Text) (k : Text)
      → contains (mark_all defs s ts).queue k ≡ (
          contains s.queue k
          || contains (mark_all defs s ts).reachable k && not (contains s.reachable k))
  unfolding mark_all contains
  queue-mark_all s [] k = ground arith
  queue-mark_all s (t ∷ ts) k = ground (
    arith,
    queue-mark_all (mark defs s t) ts k,
    reachable-mark_all (mark defs s t) ts k,
    reachable-mark s t k,
    queue-mark s t k,
  )

-- The number of keys that are not marked.
pub unmarked : List Text → List Text → ℕ
unmarked marked [] = 0
unmarked marked (k ∷ ks) = (if contains marked k then 0 else 1) + unmarked marked ks

unmarked-cons :
    (marked ks : List Text) (key : Text)
    → contains marked key ≡ false
    → unmarked (key ∷ marked) ks + (if contains ks key then 1 else 0) ≤ unmarked marked ks
unfolding unmarked contains
unmarked-cons marked [] key h = omega arith
unmarked-cons marked (k ∷ ks) key h =
    ground (arith, unmarked-cons marked ks key, text_eq_iff key k, text_eq_iff k key)

module _ (defs : List (Text × Schema)) where
  -- A mark that queues a key takes it from the unmarked ones.
  pub work-mark :
      (s : Marks) (key : Text)
      → unmarked (mark defs s key).reachable (keys defs) + length (mark defs s key).queue
        ≤ unmarked s.reachable (keys defs) + length s.queue
  unfolding mark
  work-mark s key = ground (
    arith,
    unmarked-cons s.reachable (keys defs) key,
    contains-keys key defs,
    length-append s.queue (key ∷ []),
  )

  pub work-mark_all :
      (s : Marks) (ts : List Text)
      → unmarked (mark_all defs s ts).reachable (keys defs) + length (mark_all defs s ts).queue
        ≤ unmarked s.reachable (keys defs) + length s.queue
  unfolding mark_all
  work-mark_all s [] = omega arith
  work-mark_all s (t ∷ ts) = omega (arith, work-mark s t, work-mark_all (mark defs s t) ts)

pub unmarked-keys : (defs : List (Text × Schema)) → unmarked [] (keys defs) ≡ length defs
unfolding unmarked keys contains
unmarked-keys [] = refl
unmarked-keys ((k, v) ∷ defs) = omega (arith, unmarked-keys defs)
