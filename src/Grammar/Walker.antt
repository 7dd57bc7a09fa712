-- ===== src/Grammar/Walker.antt =====
-- walker.go: the callbacks that a block fires, as the list of their calls. A callback of a `Walker`
-- is a flag that says whether it is set; `depth` is none for AllDepths. The zero values of float64
-- and int64, which a property without a typed value has, are parameters.
pub mod Visits
use codescan.Prelude.{
  Text, codes, ℕ, List, [], ◌∷◌, ◌++◌, map, Option, none, some, Bool, true, false, ◌||◌, text_eq,
  ◌==◌, if◌then◌else◌,
}
use codescan.Grammar.Keywords
use codescan.Grammar.Keywords.{ValueShape}
use codescan.Grammar.Block.{
  Diagnostic, TypedValue, number, integer, boolean, option, Property, Extension, BaseBlock,
}

pub record Walker : Type 0 where
  pub on_title : Bool
  pub on_description : Bool
  pub on_number : Bool
  pub on_integer : Bool
  pub on_bool : Bool
  pub on_string : Bool
  pub on_raw : Bool
  pub on_unknown : Bool
  pub on_extension : Bool
  pub on_diagnostic : Bool
  pub depth : Option ℕ

-- A call of a callback with its arguments.
pub data Call (F I V : Type 0) : Type 0 where
  title_call : Text → Call F I V
  description_call : Text → Call F I V
  number_call : Property F I → F → (exclusive : Bool) → Call F I V
  integer_call : Property F I → I → Call F I V
  bool_call : Property F I → Bool → Call F I V
  string_call : Property F I → Text → Call F I V
  raw_call : Property F I → Call F I V
  unknown_call : Property F I → Call F I V
  extension_call : Extension V → Call F I V
  diagnostic_call : Diagnostic → Call F I V

-- `isExclusiveOp`
unfoldable pub is_exclusive_op : Text → Bool
is_exclusive_op op = text_eq op (codes "<") || text_eq op (codes ">")

-- `walkerAcceptsDepth`
unfoldable pub walker_accepts_depth : Option ℕ → ℕ → Bool
walker_accepts_depth none items_depth = true
walker_accepts_depth (some d) items_depth = d == items_depth

-- A call if the callback is set.
abbrev pub calling {ℓ} : {A : Type ℓ} → Bool → A → List A
calling true c = c ∷ []
calling false c = []

abbrev pub calling_each {ℓ} : {A : Type ℓ} → Bool → List A → List A
calling_each true cs = cs
calling_each false cs = []

-- Where the text is not empty.
abbrev pub calling_text {ℓ} : {A : Type ℓ} → Bool → (Text → A) → Text → List A
calling_text on f [] = []
calling_text on f (c ∷ s) = calling on (f (c ∷ s))

abbrev number_of : {F I : Type 0} → F → TypedValue F I → F
number_of zero_number (number op n) = n
number_of zero_number _ = zero_number

abbrev operator_of : {F I : Type 0} → TypedValue F I → Text
operator_of (number op n) = op
operator_of _ = []

abbrev integer_of : {F I : Type 0} → I → TypedValue F I → I
integer_of zero_integer (integer i) = i
integer_of zero_integer _ = zero_integer

abbrev boolean_of : {F I : Type 0} → TypedValue F I → Bool
boolean_of (boolean b) = b
boolean_of _ = false

abbrev string_of : {F I : Type 0} → TypedValue F I → Text
string_of (option s) = s
string_of _ = []

module _ {F I V : Type 0} (zero_number : F) (zero_integer : I) where
  -- `walkerDispatchProperty`, for a keyword with a name.
  abbrev pub dispatch_shape : Walker → Property F I → ValueShape → List (Call F I V)
  dispatch_shape w p Keywords.ValueShape.number =
      calling w.on_number
        (number_call p (number_of zero_number p.typed) (is_exclusive_op (operator_of p.typed)))
  dispatch_shape w p Keywords.ValueShape.int =
      calling w.on_integer (integer_call p (integer_of zero_integer p.typed))
  dispatch_shape w p Keywords.ValueShape.bool = calling w.on_bool (bool_call p (boolean_of p.typed))
  dispatch_shape w p Keywords.ValueShape.string = calling w.on_string (string_call p p.value)
  dispatch_shape w p Keywords.ValueShape.enum_option =
      calling w.on_string (string_call p (string_of p.typed))
  dispatch_shape w p _ = calling w.on_raw (raw_call p)

  unfoldable pub walker_dispatch_property : Walker → Property F I → List (Call F I V)
  walker_dispatch_property w p =
      if text_eq p.keyword.name []
      then calling w.on_unknown (unknown_call p)
      else dispatch_shape w p p.keyword.shape

  unfoldable pub walk_properties : Walker → List (Property F I) → List (Call F I V)
  walk_properties w [] = []
  walk_properties w (p ∷ ps) =
      let rest = walk_properties w ps in
      if walker_accepts_depth w.depth p.items_depth
      then walker_dispatch_property w p ++ rest
      else rest

  -- `Walk`
  unfoldable pub walk : Walker → BaseBlock F I V → List (Call F I V)
  walk w b =
      calling_each w.on_diagnostic (map (λ d. diagnostic_call d) b.diagnostics)
      ++ (calling_text w.on_title (λ s. title_call s) b.title
          ++ (calling_text w.on_description (λ s. description_call s) b.description
              ++ (walk_properties w b.properties
                  ++ calling_each w.on_extension (map (λ e. extension_call e) b.extensions))))
