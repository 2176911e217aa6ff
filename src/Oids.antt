-- ===== src/Oids.antt =====
-- lib/oids.go, and the names that lib/encoder.go and lib/display.go make with it.
pub mod Objects
use certigo.Base.{
  List, [], ◌∷◌, ◌++◌, Option, none, some, Bool, true, false, Bytes, str, Outcome, ok, err, panic,
  if◌then◌else◌,
}
use certigo.Base.Dict.{Dict, lookup, insert}
use certigo.Jceks.Crypto.{Oid}
use certigo.X509.{Attribute, Name}
use certigo.Certs.Texts.{oid_text}
use certigo.Encoder.{hexify}

pub record OidDescription : Type 0 where
  pub name : Bytes
  pub short : Bytes
  pub slug : Bytes
  pub multiple : Bool

abbrev about : Bytes → Bytes → Bytes → Bool → OidDescription
about name short slug multiple = record {
  name = name;
  short = short;
  slug = slug;
  multiple = multiple;
}

abbrev pub oid_names : Dict OidDescription
oid_names =
    (str "2.5.4.3", about (str "CommonName") (str "CN") (str "common_name") false)
    ∷ (
      str "2.5.4.5",
      about (str "EV Incorporation Registration Number") [] (str "ev_registration_number") false,
    )
    ∷ (str "2.5.4.6", about (str "Country") (str "C") (str "country") true)
    ∷ (str "2.5.4.7", about (str "Locality") (str "L") (str "locality") true)
    ∷ (str "2.5.4.8", about (str "Province") (str "ST") (str "province") true)
    ∷ (str "2.5.4.9", about (str "Street") [] (str "street") true)
    ∷ (str "2.5.4.10", about (str "Organization") (str "O") (str "organization") true)
    ∷ (
      str "2.5.4.11",
      about (str "Organizational Unit") (str "OU") (str "organizational_unit") true,
    )
    ∷ (str "2.5.4.15", about (str "Business Category") [] (str "business_category") true)
    ∷ (str "2.5.4.17", about (str "Postal Code") [] (str "postalcode") true)
    ∷ (str "1.2.840.113549.1.9.1", about (str "Email Address") [] (str "email_address") true)
    ∷ (
      str "1.3.6.1.4.1.311.60.2.1.1",
      about (str "EV Incorporation Locality") [] (str "ev_locality") true,
    )
    ∷ (
      str "1.3.6.1.4.1.311.60.2.1.2",
      about (str "EV Incorporation Province") [] (str "ev_province") true,
    )
    ∷ (
      str "1.3.6.1.4.1.311.60.2.1.3",
      about (str "EV Incorporation Country") [] (str "ev_country") true,
    )
    ∷ (str "0.9.2342.19200300.100.1.1", about (str "User ID") (str "UID") (str "user_id") true)
    ∷ (
      str "0.9.2342.19200300.100.1.25",
      about (str "Domain Component") (str "DC") (str "domain_component") true,
    )
    ∷ []

abbrev described : Bytes → Option OidDescription → OidDescription
described raw (some description) = description
described raw none = about raw [] raw true

unfoldable pub describe_oid : Oid → OidDescription
describe_oid oid = described (oid_text oid) (lookup (oid_text oid) oid_names)

abbrev pub oid_short : Oid → Bytes
oid_short oid = (describe_oid oid).short

abbrev pub oid_name : Oid → Bytes
oid_name oid = (describe_oid oid).name

-- What a name's object holds: one value, or several.
pub data Json : Type 0 where
  one : Bytes → Json
  many : List Bytes → Json

-- Appending to a value that is no list panics.
abbrev pub add_value : Bytes → Option Json → Outcome Bytes Json
add_value text none = ok (many (text ∷ []))
add_value text (some (many texts)) = ok (many (texts ++ text ∷ []))
add_value text (some (one _)) = panic

unfoldable pub put_attribute : Attribute → Dict Json → Outcome Bytes (Dict Json)
unfolding describe_oid
put_attribute attribute out =
    let description = describe_oid attribute.oid in
    if description.multiple
    then elim (add_value attribute.text (lookup description.slug out)) [
      | ok json ↦ ok (insert description.slug json out)
      | err e ↦ err e
      | panic ↦ panic
    ]
    else ok (insert description.slug (one attribute.text) out)

unfoldable pub put_attributes : List Attribute → Dict Json → Outcome Bytes (Dict Json)
put_attributes [] out = ok out
put_attributes (attribute ∷ attributes) out = elim (put_attribute attribute out) [
  | ok more ↦ put_attributes attributes more
  | err e ↦ err e
  | panic ↦ panic
]

abbrev pub put_key_id : Bytes → Dict Json → Dict Json
put_key_id [] out = out
put_key_id (b ∷ bs) out = insert (str "key_id") (one (hexify (b ∷ bs))) out

-- The object that `MarshalJSON` of a name hands to the encoder.
unfoldable pub name_object : Name → Bytes → Outcome Bytes (Dict Json)
unfolding put_attributes
name_object name key_id = elim (put_attributes name.names []) [
  | ok out ↦ ok (put_key_id key_id out)
  | err e ↦ err e
  | panic ↦ panic
]

unfoldable pub short_name_loop : List Attribute → Bool → Bytes → Bytes
short_name_loop [] printed out = out
short_name_loop (attribute ∷ attributes) printed out = elim (oid_short attribute.oid) [
  | [] ↦ short_name_loop attributes printed out
  | c ∷ cs ↦
      short_name_loop attributes true
        ((if printed then out ++ str ", " else out) ++ ((c ∷ cs) ++ (str "=" ++ attribute.text)))
]

unfoldable pub print_short_name : Name → Bytes
unfolding short_name_loop
print_short_name name = short_name_loop name.names false []

unfoldable pub print_common_name : Name → Bytes
unfolding print_short_name
print_common_name name = elim name.common_name [
  | [] ↦ print_short_name name
  | c ∷ cs ↦ str "CN=" ++ (c ∷ cs)
]
