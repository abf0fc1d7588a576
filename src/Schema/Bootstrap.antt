-- ===== src/Schema/Bootstrap.antt =====
-- `BOOTSTRAP_SPECS`, `bootstrapDatoms` and `Schema.bootstrap` of schema.ts.
use Prim.Native.String.{String}
use ramose.Base.{
  length, ◌<◌, arith, refl, ap, ◌≡◌, ℕ, Bool, true, false, Option, none, some, List, [], ◌∷◌, ◌++◌,
}
use ramose.Base.Int.{pos}
use ramose.Datom.{strings_equal, CodeUnit, literal, inst, Datom}
use ramose.Schema.Names.{
  name_of_type, value_type_of, is_named, name_of_cardinality, name_of_unique, Uniqueness, one,
  identity,
}
use ramose.Schema.{
  cardinality_or_one, doc_datom, if_flag, unique_datom, type_of_form, AttributeSpec, by_name,
  attribute_datoms, asserted, tx_eid, db_ident, db_value_type, db_cardinality, db_unique,
  db_is_component, db_index, db_tx_instant, db_doc,
}
use ramose.Schema.Projection.{Schema, empty_schema, apply}

-- A system attribute: cardinality one, no component.
unfoldable pub system_spec :
    String → String → Option Uniqueness → Bool → Option (List CodeUnit) → AttributeSpec
unfolding literal
system_spec name type_name q indexed text =
    let spec : AttributeSpec = record {
      ident = literal name;
      value_type = by_name (literal type_name);
      cardinality = some one;
      unique = q;
      index = indexed;
      is_component = false;
      doc = text;
    } in
    spec

-- The id of each attribute, and its specification.
unfoldable pub bootstrap_specs : List (ℕ × AttributeSpec)
unfolding system_spec
bootstrap_specs =
    (
      db_ident,
      system_spec ":db/ident" ":db.type/string" (some identity) false
          (some (literal "Unique name of an entity")),
    )
    ∷ (db_value_type, system_spec ":db/valueType" ":db.type/string" none false none)
    ∷ (db_cardinality, system_spec ":db/cardinality" ":db.type/string" none false none)
    ∷ (db_unique, system_spec ":db/unique" ":db.type/string" none false none)
    ∷ (db_is_component, system_spec ":db/isComponent" ":db.type/boolean" none false none)
    ∷ (db_index, system_spec ":db/index" ":db.type/boolean" none false none)
    ∷ (db_tx_instant, system_spec ":db/txInstant" ":db.type/instant" none true none)
    ∷ (db_doc, system_spec ":db/doc" ":db.type/string" none false none)
    ∷ []

unfoldable pub describe_all : List (ℕ × AttributeSpec) → ℕ → Option (List Datom)
unfolding attribute_datoms
describe_all [] t = some []
describe_all ((id, spec) ∷ specs) t = elim (attribute_datoms id spec t) [
  | none ↦ none
  | some ds ↦ elim (describe_all specs t) [ none ↦ none | some rest ↦ some (ds ++ rest) ]
]

-- The transaction with number 1.
unfoldable pub bootstrap_datoms : Option (List Datom)
unfolding describe_all bootstrap_specs tx_eid
bootstrap_datoms = elim (describe_all bootstrap_specs 1) [
  | none ↦ none
  | some ds ↦ some (ds ++ asserted (tx_eid 1) db_tx_instant (inst (pos 0)) 1 ∷ [])
]

unfoldable pub bootstrap : Option Schema
unfolding bootstrap_datoms apply
bootstrap = elim bootstrap_datoms [ none ↦ none | some ds ↦ some (apply ds empty_schema) ]

-- The bootstrap succeeds.
pub bootstrap_some : (boot : List Datom) × (bootstrap_datoms ≡ some boot) × (length boot < 100)
unfolding bootstrap_datoms bootstrap_specs describe_all attribute_datoms type_of_form value_type_of
    name_of_type unique_datom if_flag doc_datom system_spec literal is_named strings_equal
    cardinality_or_one name_of_cardinality name_of_unique
bootstrap_some = (_, refl, omega arith)

pub bootstrap_schema :
    (boot : List Datom) → bootstrap_datoms ≡ some boot → bootstrap ≡ some (apply boot empty_schema)
unfolding bootstrap
bootstrap_schema boot h =
    ap
      (λ o. elim o as (λ o. Option Schema) [ none ↦ none | some ds ↦ some (apply ds empty_schema) ])
      h
