-- ===== src/Tests/Schemas.antt =====
-- The bootstrap schema, and an attribute installed on top of it.
use ramose.Base.{ℕ, ◌≡◌, ◌≢◌, refl, false, none, some, List, [], ◌==◌}
use ramose.Base.Dict.{lookup}
use ramose.Datom.{Datom, literal}
use ramose.Schema.Names.{string_type, identity, many, name_of_type}
use ramose.Schema.{AttributeSpec, by_tag, attribute_datoms, type_of_form}
use ramose.Schema.Projection.{empty_schema, apply, attr, entid}
use ramose.Schema.Projection.RoundTrip.{specified}
use ramose.Schema.Projection.Specified.{apply-attribute_datoms}

abbrev email : AttributeSpec
email = record {
  ident = literal ":user/email";
  value_type = by_tag string_type;
  cardinality = some many;
  unique = some identity;
  index = false;
  is_component = false;
  doc = none;
}

no_partial : lookup (λ x y. x == y) 1000 empty_schema.partials ≡ none
unfolding lookup
no_partial = refl

email_type : type_of_form email.value_type ≡ some string_type
unfolding type_of_form
email_type = refl

email_name : name_of_type string_type ≡ some (literal ":db.type/string")
unfolding name_of_type
email_name = refl

email_ident : email.ident ≢ []
unfolding literal
email_ident h = cc

apply-attribute_datoms_example :
    (ds : List Datom) × (attribute_datoms 1000 email 2 ≡ some ds)
    × (attr 1000 (apply ds empty_schema) ≡ some (specified 1000 string_type email))
    × (entid email.ident (apply ds empty_schema) ≡ some 1000)
    × ((j : ℕ) → (1000 == j) ≡ false → attr j (apply ds empty_schema) ≡ attr j empty_schema)
apply-attribute_datoms_example =
    apply-attribute_datoms 1000 2 email string_type (literal ":db.type/string") empty_schema
      no_partial email_ident email_type email_name
