-- ===== src/Grammar/Walker/Visits.antt =====
-- Which properties of a block reach a callback, and in which order.
use codescan.Prelude.{
  Text, ◌≡◌, refl, sym, ap, ◌∙◌, List, [], ◌∷◌, ◌++◌, map, keep, Bool, true, false, ◌&&◌, text_eq,
  if◌then◌else◌, append-nil,
}
use codescan.Grammar.Keywords
use codescan.Grammar.Keywords.{ValueShape}
use codescan.Grammar.Block.{Property, Diagnostic, Extension, BaseBlock}
use codescan.Grammar.Walker.{
  Walker, Call, title_call, description_call, number_call, integer_call, bool_call, string_call,
  raw_call, unknown_call, extension_call, diagnostic_call, walker_accepts_depth, calling,
  calling_each, calling_text, dispatch_shape, walker_dispatch_property, walk_properties, walk,
}

-- Whether the callback of a shape is set.
abbrev listens_to : Walker → ValueShape → Bool
listens_to w Keywords.ValueShape.number = w.on_number
listens_to w Keywords.ValueShape.int = w.on_integer
listens_to w Keywords.ValueShape.bool = w.on_bool
listens_to w Keywords.ValueShape.string = w.on_string
listens_to w Keywords.ValueShape.enum_option = w.on_string
listens_to w _ = w.on_raw

module _ {F I : Type 0} where
  abbrev pub is_visited : Walker → Property F I → Bool
  is_visited w p =
      walker_accepts_depth w.depth p.items_depth
      && (if text_eq p.keyword.name [] then w.on_unknown else listens_to w p.keyword.shape)

module _ {F I : Type 0} where
  abbrev one_if : Bool → Property F I → List (Property F I)
  one_if b p = if b then p ∷ [] else []

module _ {F I V : Type 0} where
  -- The properties that callbacks are given.
  abbrev add_visited : Call F I V → List (Property F I) → List (Property F I)
  add_visited (number_call p n e) ps = p ∷ ps
  add_visited (integer_call p i) ps = p ∷ ps
  add_visited (bool_call p b) ps = p ∷ ps
  add_visited (string_call p s) ps = p ∷ ps
  add_visited (raw_call p) ps = p ∷ ps
  add_visited (unknown_call p) ps = p ∷ ps
  add_visited _ ps = ps

  abbrev pub visited : List (Call F I V) → List (Property F I)
  visited [] = []
  visited (c ∷ cs) = add_visited c (visited cs)

  add_visited-append :
      (c : Call F I V) (ps qs : List (Property F I))
      → add_visited c ps ++ qs ≡ add_visited c (ps ++ qs)
  add_visited-append (number_call p n e) ps qs = refl
  add_visited-append (integer_call p i) ps qs = refl
  add_visited-append (bool_call p b) ps qs = refl
  add_visited-append (string_call p s) ps qs = refl
  add_visited-append (raw_call p) ps qs = refl
  add_visited-append (unknown_call p) ps qs = refl
  add_visited-append (title_call s) ps qs = refl
  add_visited-append (description_call s) ps qs = refl
  add_visited-append (extension_call e) ps qs = refl
  add_visited-append (diagnostic_call d) ps qs = refl

  visited-append : (xs ys : List (Call F I V)) → visited (xs ++ ys) ≡ visited xs ++ visited ys
  visited-append [] ys = refl
  visited-append (c ∷ xs) ys =
      ap (add_visited c) (visited-append xs ys)
      ∙ sym (add_visited-append c (visited xs) (visited ys))

  calling-one :
      (on : Bool) (c : Call F I V) (p : Property F I)
      → add_visited c [] ≡ p ∷ []
      → visited (calling on c) ≡ one_if on p
  calling-one true c p h = h
  calling-one false c p h = refl

module _ {F I : Type 0} (V : Type 0) where
  visited-diagnostics :
      (on : Bool) (ds : List Diagnostic)
      → visited {F = F} {I = I} {V = V} (calling_each on (map (λ d. diagnostic_call d) ds)) ≡ []
  visited-diagnostics false ds = refl
  visited-diagnostics true [] = refl
  visited-diagnostics true (d ∷ ds) = visited-diagnostics true ds

  visited-extensions :
      (on : Bool) (es : List (Extension V))
      → visited {F = F} {I = I} {V = V} (calling_each on (map (λ e. extension_call e) es)) ≡ []
  visited-extensions false es = refl
  visited-extensions true [] = refl
  visited-extensions true (e ∷ es) = visited-extensions true es

  visited-title :
      (on : Bool) (s : Text)
      → visited {F = F} {I = I} {V = V} (calling_text on (λ t. title_call t) s) ≡ []
  visited-title on [] = refl
  visited-title true (c ∷ s) = refl
  visited-title false (c ∷ s) = refl

  visited-description :
      (on : Bool) (s : Text)
      → visited {F = F} {I = I} {V = V} (calling_text on (λ t. description_call t) s) ≡ []
  visited-description on [] = refl
  visited-description true (c ∷ s) = refl
  visited-description false (c ∷ s) = refl

module _ {F I : Type 0} (V : Type 0) (zero_number : F) (zero_integer : I) where
  visited-dispatch_shape :
      (w : Walker) (p : Property F I) (shape : ValueShape)
      → visited {V = V} (dispatch_shape zero_number zero_integer w p shape)
        ≡ one_if (listens_to w shape) p
  visited-dispatch_shape w p Keywords.ValueShape.number = calling-one w.on_number _ p refl
  visited-dispatch_shape w p Keywords.ValueShape.int = calling-one w.on_integer _ p refl
  visited-dispatch_shape w p Keywords.ValueShape.bool = calling-one w.on_bool _ p refl
  visited-dispatch_shape w p Keywords.ValueShape.string = calling-one w.on_string _ p refl
  visited-dispatch_shape w p Keywords.ValueShape.enum_option = calling-one w.on_string _ p refl
  visited-dispatch_shape w p _ = calling-one w.on_raw _ p refl

  abbrev Calls : Type 0
  Calls = List (Call F I V)

  if-visited :
      (c a b : Bool) (p : Property F I) (x y : Calls)
      → visited x ≡ one_if a p
      → visited y ≡ one_if b p
      → visited (if c then x else y) ≡ one_if (if c then a else b) p
  if-visited true a b p x y hx hy = hx
  if-visited false a b p x y hx hy = hy

  visited-dispatch :
      (w : Walker) (p : Property F I)
      → visited {V = V} (walker_dispatch_property zero_number zero_integer w p)
        ≡ one_if
            (if text_eq p.keyword.name [] then w.on_unknown else listens_to w p.keyword.shape)
            p
  unfolding walker_dispatch_property
  visited-dispatch w p =
      if-visited (text_eq p.keyword.name []) w.on_unknown (listens_to w p.keyword.shape) p
        (calling w.on_unknown (unknown_call p))
        (dispatch_shape zero_number zero_integer w p p.keyword.shape)
        (calling-one w.on_unknown (unknown_call p) p refl)
        (visited-dispatch_shape w p p.keyword.shape)

  -- A property that is accepted and heard is visited before the rest.
  join_one :
      (accepted heard : Bool) (p : Property F I) (calls rest : Calls) (qs : List (Property F I))
      → visited calls ≡ one_if heard p
      → visited rest ≡ qs
      → visited (if accepted then calls ++ rest else rest)
        ≡ (if accepted && heard then p ∷ qs else qs)
  join_one false heard p calls rest qs hc hr = hr
  join_one true true p calls rest qs hc hr =
      visited-append calls rest ∙ ap (λ ps. ps ++ visited rest) hc ∙ ap (λ ps. p ∷ ps) hr
  join_one true false p calls rest qs hc hr =
      visited-append calls rest ∙ ap (λ ps. ps ++ visited rest) hc ∙ hr

  visited-properties :
      (w : Walker) (ps : List (Property F I))
      → visited {V = V} (walk_properties zero_number zero_integer w ps) ≡ keep (is_visited w) ps
  unfolding walk_properties
  visited-properties w [] = refl
  visited-properties w (p ∷ ps) =
      join_one (walker_accepts_depth w.depth p.items_depth)
        (if text_eq p.keyword.name [] then w.on_unknown else listens_to w p.keyword.shape) p
        (walker_dispatch_property zero_number zero_integer w p)
        (walk_properties zero_number zero_integer w ps) (keep (is_visited w) ps)
        (visited-dispatch w p) (visited-properties w ps)

  drop_none : (xs ys : Calls) → visited xs ≡ [] → visited (xs ++ ys) ≡ visited ys
  drop_none xs ys h = visited-append xs ys ∙ ap (λ ps. ps ++ visited ys) h

  drop_after : (xs ys : Calls) → visited ys ≡ [] → visited (xs ++ ys) ≡ visited xs
  drop_after xs ys h =
      visited-append xs ys ∙ ap (λ ps. visited xs ++ ps) h ∙ append-nil (visited xs)

  -- `Walk` gives the properties of the block to callbacks in their order, each once: those at the
  -- depth of the walker for which the callback of the keyword's shape, or of unknown keywords, is set.
  pub visited-walk :
      (w : Walker) (b : BaseBlock F I V)
      → visited (walk zero_number zero_integer w b) ≡ keep (is_visited w) b.properties
  unfolding walk
  visited-walk w b =
      let ds : Calls = calling_each w.on_diagnostic (map (λ d. diagnostic_call d) b.diagnostics) in
      let ts : Calls = calling_text w.on_title (λ s. title_call s) b.title in
      let xs : Calls = calling_text w.on_description (λ s. description_call s) b.description in
      let ps : Calls = walk_properties zero_number zero_integer w b.properties in
      let es : Calls = calling_each w.on_extension (map (λ e. extension_call e) b.extensions) in
      drop_none ds (ts ++ (xs ++ (ps ++ es))) (visited-diagnostics V w.on_diagnostic b.diagnostics)
      ∙ drop_none ts (xs ++ (ps ++ es)) (visited-title V w.on_title b.title)
      ∙ drop_none xs (ps ++ es) (visited-description V w.on_description b.description)
      ∙ drop_after ps es (visited-extensions V w.on_extension b.extensions)
      ∙ visited-properties w b.properties
