-- ===== src/Route/Parameters/Locations.antt =====
-- A location that a chunk is given is one of the known ones.
use codescan.Prelude.{
  Text, codes, ◌≡◌, refl, ap, ◌∙◌, [], Option, none, some, Bool, true, false, ◌&&◌, ◌||◌, text_eq,
  contains, if◌then◌else◌, and-elim,
}
use codescan.Grammar.Strings.{Platform, trim_space, equal_fold}
use codescan.Grammar.Token.{Position}
use codescan.Grammar.Block.{Property}
use codescan.Grammar.Typing.{Services, match_option}
use codescan.Grammar.Typing.Sound.{Matched, match_option-Matched}
use codescan.Grammar.Keywords.{Keyword, lookup_keyword}
use codescan.Route.Parameters.{
  in_locations, normalize_in, or_form, Head, Key, name_key, in_key, type_key, format_key,
  description_key, required_key, empty_key, other_key, set_flag, set_location, add_property,
  known_line, apply_key, build_property,
}

-- The location is one of the known ones, if there is one.
abbrev pub located : Head → Bool
located h = text_eq h.location [] || contains in_locations h.location

abbrev Known : Option Text → Type 0
Known none = Unit
Known (some l) = contains in_locations l ≡ true

if-Known : (b : Bool) (o : Option Text) → Known o → Known (if b then o else none)
if-Known true o h = h
if-Known false o h = tt

if_not-Known : (b : Bool) (o : Option Text) → Known o → Known (if b then none else o)
if_not-Known true o h = tt
if_not-Known false o h = h

or_form-Known :
    (s : Text) (form : Bool) (o : Option Text) → Matched in_locations s o → Known (or_form s form o)
or_form-Known s form none h =
    if-Known (form && equal_fold s (codes "form")) (some (codes "formData"))
      (unfold contains text_eq in refl)
or_form-Known s form (some l) h = (and-elim (contains in_locations l) (equal_fold s l) h).0

normalize_in-Known : (raw : Text) (form : Bool) → Known (normalize_in raw form)
unfolding normalize_in
normalize_in-Known raw form =
    if_not-Known (text_eq (trim_space raw) [])
      (or_form (trim_space raw) form (match_option in_locations (trim_space raw)))
      (or_form-Known (trim_space raw) form (match_option in_locations (trim_space raw))
        (match_option-Matched in_locations (trim_space raw)))

or_located : (a b : Bool) → b ≡ true → (a || b) ≡ true
or_located true b h = refl
or_located false b h = h

module _ {F I V : Type 0} (sv : Services F I V) (u : Platform) where
  set_location-located :
      (h : Head) (p : Position) (o : Option Text)
      → Known o
      → located h ≡ true
      → located (set_location sv u h p o).0 ≡ true
  set_location-located h p none k e = e
  set_location-located h p (some l) k e = or_located (text_eq l []) (contains in_locations l) k

  set_flag-located :
      (h : Head) (p : Position) (f : Bool → Head) (o : Option Bool)
      → ((b : Bool) → located (f b) ≡ true)
      → located h ≡ true
      → located (set_flag sv u h p f o).0 ≡ true
  set_flag-located h p f none k e = e
  set_flag-located h p f (some b) k e = k b

  add_property-same :
      (h : Head) (p : Position) (o : Option (Property F I)) → (add_property sv u h p o).0 ≡ h
  add_property-same h p none = refl
  add_property-same h p (some prop) = refl

  known_line-same :
      (h : Head) (value : Text) (p : Position) (kw : Option Keyword)
      → (known_line sv u h value p kw).0 ≡ h
  known_line-same h value p none = refl
  known_line-same h value p (some kw) = add_property-same h p (build_property sv u kw value p)

  pub apply_key-located :
      (h : Head) (key value : Text) (p : Position) (k : Key)
      → located h ≡ true
      → located (apply_key sv u h key value p k).0 ≡ true
  apply_key-located h key value p name_key e = e
  apply_key-located h key value p in_key e =
      set_location-located h p (normalize_in value true) (normalize_in-Known value true) e
  apply_key-located h key value p type_key e = e
  apply_key-located h key value p format_key e = e
  apply_key-located h key value p description_key e = e
  apply_key-located h key value p required_key e =
      set_flag-located h p (λ b. record h { required = b }) (sv.parse_go_bool value) (λ b. e) e
  apply_key-located h key value p empty_key e =
      set_flag-located h p (λ b. record h { allow_empty = b }) (sv.parse_go_bool value) (λ b. e) e
  apply_key-located h key value p other_key e =
      ap located (known_line-same h value p (lookup_keyword u key)) ∙ e
