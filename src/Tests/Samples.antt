-- ===== src/Tests/Samples.antt =====
-- A small document, a builder and a platform of ASCII characters.
use codescan.Prelude.{
  Text, codes, ℕ, ◌+◌, [], ◌∷◌, ◌++◌, none, some, Bool, true, false, ◌&&◌, ◌||◌, leb, ◌==◌,
  if◌then◌else◌,
}
use codescan.Spec.Document.{
  Schema, schema, nil, end, field, null, at, unset, Operation, PathItem, Swagger,
}
use codescan.Spec.Prune.{Builder}
use codescan.Spec.Reduce.{Options}
use codescan.Grammar.Strings.{Platform}
use codescan.Grammar.Token.{Line}

-- A schema that is a reference to a definition.
abbrev pub ref_to : Text → Schema
ref_to key =
    schema (codes "#/definitions/" ++ key) [] end end nil nil nil null null nil unset unset end end
      none

-- An object with one property.
abbrev pub object : Text → Text → Schema → Schema
object discriminator name child =
    schema [] discriminator (field name child end) end nil nil nil null null nil unset unset end end
      none

abbrev pub pet : Text
pet = codes "a/Pet"

abbrev pub tag : Text
tag = codes "a/Tag"

abbrev pub dog : Text
dog = codes "a/Dog"

abbrev pub other_tag : Text
other_tag = codes "b/Tag"

abbrev pub limit : Text
limit = codes "limit"

abbrev pub junk : Text
junk = codes "junk"

abbrev pub pet_schema : Schema
pet_schema = object (codes "kind") (codes "tag") (ref_to tag)

abbrev pub get_pets : Operation
get_pets = record {
  parameters = record { ref = codes "#/parameters/limit"; body = null } ∷ [];
  responses = some (record {
    fallback = none;
    status_codes = (200, record { ref = []; body = at (ref_to pet) }) ∷ [];
  });
}

abbrev pub pets : PathItem
pets = record {
  parameters = [];
  get = some get_pets;
  put = none;
  post = none;
  delete = none;
  options = none;
  head = none;
  patch = none;
}

abbrev pub sample : Swagger
sample = record {
  definitions =
      (pet, pet_schema)
      ∷ (tag, object [] (codes "id") (ref_to tag))
      ∷ (dog, object [] (codes "pet") (ref_to pet))
      ∷ (other_tag, object [] (codes "id") (ref_to tag))
      ∷ [];
  parameters =
      (limit, record { ref = []; body = null })
      ∷ (junk, record { ref = []; body = at (ref_to other_tag) })
      ∷ [];
  responses = (codes "gone", record { ref = []; body = at (ref_to other_tag) }) ∷ [];
  paths = (codes "/pets", pets) ∷ [];
}

-- The builder after all models are built; a dog is a subtype of a pet.
abbrev pub sample_builder : Builder
sample_builder = record {
  prune_unused = true;
  scan_models = true;
  listening = true;
  input = sample;
  built = pet ∷ tag ∷ dog ∷ other_tag ∷ [];
  decl_identity = (pet, codes "pkg.Pet") ∷ (dog, codes "pkg.Dog") ∷ [];
  subtype_index = (codes "pkg.Pet", dog ∷ []) ∷ [];
  pinned_params = [];
  pinned_responses = [];
  hints = [];
  dropped_definitions = [];
  dropped_responses = [];
}

-- A name without blanks and slashes.
abbrev pub to_name : Text → Text
to_name [] = []
to_name (c ∷ s) = let rest = to_name s in if c == b'/' || c == b' ' then rest else c ∷ rest

abbrev pub flat_options : Options
flat_options = record { budget = 0; hierarchical_names = false }

abbrev is_ascii_upper : ℕ → Bool
is_ascii_upper c = leb b'A' c && leb c b'Z'

abbrev pub ascii : Platform
ascii = record {
  is_letter = λ c. is_ascii_upper c || leb b'a' c && leb c b'z';
  is_digit = λ c. leb b'0' c && leb c b'9';
  is_upper = is_ascii_upper;
  to_lower = λ c. if is_ascii_upper c then c + 32 else c;
  is_other_punct = λ c. c == b'.' || c == b'!' || c == b'?' || c == b',';
  is_json = λ s. false;
}

-- A line of a file, at an offset in it.
abbrev pub line_at : ℕ → Text → Line
line_at n s = record {
  text = s;
  raw = s;
  pos = record { filename = codes "a.go"; offset = n; line = n; column = 1 };
}
