-- ===== src/Grammar/MetaInfo.antt =====
-- meta_info.go: the contact and the license of a swagger:meta block. net/mail.ParseAddress is the
-- parameter `parse_address`, which gives the name and the address.
use Prim.Native.Nat.{min}
use codescan.Prelude.{
  Text, codes, ℕ, suc, List, [], ◌∷◌, Option, none, some, text_eq, has_prefix, take, drop,
  if◌then◌else◌,
}
use codescan.Grammar.Strings.{trim_space}
use codescan.Grammar.Block.{Property}

pub record Contact : Type 0 where
  pub name : Text
  pub email : Text
  pub url : Text

pub record License : Type 0 where
  pub name : Text
  pub url : Text

abbrev pub url_schemes : List Text
url_schemes =
    codes "https://"
    ∷ codes "http://"
    ∷ codes "ftps://"
    ∷ codes "ftp://"
    ∷ codes "wss://"
    ∷ codes "ws://"
    ∷ []

-- strings.Index, in characters.
abbrev one_later : Option ℕ → Option ℕ
one_later none = none
one_later (some i) = some (suc i)

unfoldable pub index : Text → Text → Option ℕ
index scheme [] = none
index scheme (c ∷ s) =
    let later = one_later (index scheme s) in if has_prefix scheme (c ∷ s) then some 0 else later

abbrev earlier : Option ℕ → Option ℕ → Option ℕ
earlier none j = j
earlier (some i) none = some i
earlier (some i) (some j) = some (min i j)

abbrev first_scheme : List Text → Text → Option ℕ
first_scheme [] s = none
first_scheme (scheme ∷ schemes) s = earlier (index scheme s) (first_scheme schemes s)

-- `splitURL`
abbrev split_at : Text → Option ℕ → Text × Text
split_at s none = (s, [])
split_at s (some i) = (trim_space (take i s), trim_space (drop i s))

unfoldable pub split_url : Text → Text × Text
split_url line = let s = trim_space line in split_at s (first_scheme url_schemes s)

-- `parseContact`: an error is none.
abbrev no_contact : Contact
no_contact = record { name = []; email = []; url = [] }

abbrev addressed : Text → Option (Text × Text) → Option Contact
addressed url none = none
addressed url (some (name, email)) = some (record { name = name; email = email; url = url })

unfoldable pub parse_contact : (Text → Option (Text × Text)) → Text → Option Contact
parse_contact parse_address line =
    let s = trim_space line in
    let (name_email, url) = split_url s in
    if text_eq s []
    then some no_contact
    else if text_eq name_email []
    then some (record no_contact { url = url })
    else addressed url (parse_address name_email)

-- `parseLicense`
unfoldable pub parse_license : Text → Option License
parse_license line =
    let s = trim_space line in
    let (name, url) = split_url s in
    if text_eq s [] then none else some (record { name = name; url = url })

module _ {F I : Type 0} where
  -- `Contact` and `License` of a block, on its properties.
  unfoldable pub contact_of : (Text → Option (Text × Text)) → List (Property F I) → Option Contact
  contact_of parse_address [] = some no_contact
  contact_of parse_address (p ∷ ps) =
      let rest = contact_of parse_address ps in
      if text_eq p.keyword.name (codes "contact") then parse_contact parse_address p.value else rest

  unfoldable pub license_of : List (Property F I) → Option License
  license_of [] = none
  license_of (p ∷ ps) =
      let rest = license_of ps in
      if text_eq p.keyword.name (codes "license") then parse_license p.value else rest
