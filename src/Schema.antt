-- ===== src/Schema.antt =====
-- packages/ramose/src/internal/core/schema.ts: attributes, the datoms that describe them, and the
-- schema as a projection of those datoms. The schema attributes have values of their types, as
-- `coerce` of db.ts leaves them, so that a cast to a string is `text_of` and one to a boolean
-- `truth_of`.
pub mod Names
pub mod Partials
pub mod Projection
pub mod Bootstrap
use ramose.Base.{
  ℕ, ◌+◌, ◌-◌, ◌^◌, Bool, true, false, ◌&&◌, ◌||◌, not, Option, none, some, List, [], ◌∷◌, ◌++◌,
  ltb, leb, ◌==◌, length, if◌then◌else◌,
}
use ramose.Base.Dict.{lookup, set_key, remove_key}
use ramose.Datom.{CodeUnit, literal, strings_equal, Value, str, bool, inst, Datom}
use ramose.Schema.Names.{
  ValueType, ref_type, Cardinality, one, many, Uniqueness, identity, value, value_type_of,
  name_of_type, unique_of, name_of_unique, cardinality_of, name_of_cardinality,
}

abbrev pub db_ident : ℕ
db_ident = 10

abbrev pub db_value_type : ℕ
db_value_type = 40

abbrev pub db_cardinality : ℕ
db_cardinality = 41

abbrev pub db_unique : ℕ
db_unique = 42

abbrev pub db_is_component : ℕ
db_is_component = 43

abbrev pub db_index : ℕ
db_index = 44

abbrev pub db_tx_instant : ℕ
db_tx_instant = 50

abbrev pub db_doc : ℕ
db_doc = 62

abbrev pub first_user_eid : ℕ
first_user_eid = 1000

abbrev pub tx_base : ℕ
tx_base = 2 ^ 42

unfoldable pub tx_eid : ℕ → ℕ
tx_eid t = tx_base + t

pub record Attribute : Type 0 where
  pub id : ℕ
  pub ident : List CodeUnit
  pub value_type : ValueType
  pub cardinality : Cardinality
  pub unique : Option Uniqueness
  pub index : Bool
  pub is_component : Bool
  pub doc : Option (List CodeUnit)

-- An absent Boolean is false. The type is a number or its name.
pub data TypeForm : Type 0 where
  by_tag : ValueType → TypeForm
  by_name : List CodeUnit → TypeForm

pub record AttributeSpec : Type 0 where
  pub ident : List CodeUnit
  pub value_type : TypeForm
  pub cardinality : Option Cardinality
  pub unique : Option Uniqueness
  pub index : Bool
  pub is_component : Bool
  pub doc : Option (List CodeUnit)

unfoldable pub type_of_form : TypeForm → Option ValueType
unfolding value_type_of
type_of_form (by_tag v) = some v
type_of_form (by_name u) = value_type_of u

unfoldable pub cardinality_or_one : Option Cardinality → Cardinality
cardinality_or_one none = one
cardinality_or_one (some c) = c

-- An assertion about the attribute entity.
abbrev pub asserted : ℕ → ℕ → Value → ℕ → Datom
asserted e a v t = record { e = e; a = a; v = v; t = t; op = true }

unfoldable pub if_flag : Bool → Datom → List Datom
if_flag b d = if b then d ∷ [] else []

unfoldable pub unique_datom : ℕ → ℕ → Option Uniqueness → List Datom
unfolding name_of_unique
unique_datom e t none = []
unique_datom e t (some q) = asserted e db_unique (str (name_of_unique q)) t ∷ []

-- An empty text is falsy.
unfoldable pub doc_datom : ℕ → ℕ → Option (List CodeUnit) → List Datom
doc_datom e t none = []
doc_datom e t (some []) = []
doc_datom e t (some (c ∷ u)) = asserted e db_doc (str (c ∷ u)) t ∷ []

-- None is the error on an unknown type. An inherited function would give a value that is `undefined`,
-- which is none as well.
unfoldable pub attribute_datoms : ℕ → AttributeSpec → ℕ → Option (List Datom)
unfolding type_of_form name_of_type name_of_cardinality cardinality_or_one if_flag unique_datom
    doc_datom
attribute_datoms e spec t = elim (type_of_form spec.value_type) [
  | none ↦ none
  | some v ↦ elim (name_of_type v) [
    | none ↦ none
    | some name ↦ some (
        asserted e db_ident (str spec.ident) t
        ∷ asserted e db_value_type (str name) t
        ∷ asserted e db_cardinality
            (str (name_of_cardinality (cardinality_or_one spec.cardinality))) t
        ∷ (unique_datom e t spec.unique
            ++ (if_flag spec.index (asserted e db_index (bool true) t)
                ++ (if_flag spec.is_component (asserted e db_is_component (bool true) t)
                    ++ doc_datom e t spec.doc))))
  ]
]
