-- ===== src/Schema/Names.antt =====
-- The names of value types, cardinalities and kinds of uniqueness in schema.ts.
use ramose.Base.{Bool, Option, none, some, List, ◌||◌, if◌then◌else◌, refl, ◌≡◌, subst}
use Prim.Native.String.{String}
use ramose.Datom.{CodeUnit, literal, strings_equal}

-- `inherited` stands for what `VALUE_TYPE_IDENTS`, a plain object, has from `Object.prototype`.
pub data ValueType : Type 0 where
  long_type double_type string_type boolean_type ref_type uuid_type instant_type bytes_type
        inherited :
      ValueType

pub data Cardinality : Type 0 where
  one many : Cardinality

pub data Uniqueness : Type 0 where
  identity value : Uniqueness

unfoldable pub is_named : String → List CodeUnit → Bool
unfolding literal strings_equal
is_named s u = strings_equal u (literal s)

unfoldable pub inherited_name : List CodeUnit → Bool
unfolding is_named
inherited_name u =
    is_named "constructor" u
    || is_named "__defineGetter__" u
    || is_named "__defineSetter__" u
    || is_named "hasOwnProperty" u
    || is_named "__lookupGetter__" u
    || is_named "__lookupSetter__" u
    || is_named "isPrototypeOf" u
    || is_named "propertyIsEnumerable" u
    || is_named "toString" u
    || is_named "valueOf" u
    || is_named "__proto__" u
    || is_named "toLocaleString" u

-- `VALUE_TYPE_IDENTS[name]`
unfoldable pub value_type_of : List CodeUnit → Option ValueType
unfolding is_named inherited_name
value_type_of u =
    if is_named ":db.type/long" u
    then some long_type
    else if is_named ":db.type/double" u
    then some double_type
    else if is_named ":db.type/string" u
    then some string_type
    else if is_named ":db.type/boolean" u
    then some boolean_type
    else if is_named ":db.type/ref" u
    then some ref_type
    else if is_named ":db.type/uuid" u
    then some uuid_type
    else if is_named ":db.type/instant" u
    then some instant_type
    else if is_named ":db.type/bytes" u
    then some bytes_type
    else if inherited_name u
    then some inherited
    else none

-- `VALUE_TYPE_NAMES[vt]`; an inherited function is no key of it.
unfoldable pub name_of_type : ValueType → Option (List CodeUnit)
unfolding literal
name_of_type long_type = some (literal ":db.type/long")
name_of_type double_type = some (literal ":db.type/double")
name_of_type string_type = some (literal ":db.type/string")
name_of_type boolean_type = some (literal ":db.type/boolean")
name_of_type ref_type = some (literal ":db.type/ref")
name_of_type uuid_type = some (literal ":db.type/uuid")
name_of_type instant_type = some (literal ":db.type/instant")
name_of_type bytes_type = some (literal ":db.type/bytes")
name_of_type inherited = none

unfoldable pub name_of_cardinality : Cardinality → List CodeUnit
unfolding literal
name_of_cardinality one = literal ":db.cardinality/one"
name_of_cardinality many = literal ":db.cardinality/many"

unfoldable pub cardinality_of : Option (List CodeUnit) → Cardinality
unfolding is_named
cardinality_of none = one
cardinality_of (some u) = if is_named ":db.cardinality/many" u then many else one

unfoldable pub name_of_unique : Uniqueness → List CodeUnit
unfolding literal
name_of_unique identity = literal ":db.unique/identity"
name_of_unique value = literal ":db.unique/value"

unfoldable pub unique_of : Option (List CodeUnit) → Option Uniqueness
unfolding is_named
unique_of none = none
unique_of (some u) =
    if is_named ":db.unique/identity" u
    then some identity
    else if is_named ":db.unique/value" u
    then some value
    else none

pub cardinality_of-name : (c : Cardinality) → cardinality_of (some (name_of_cardinality c)) ≡ c
unfolding cardinality_of name_of_cardinality
cardinality_of-name one = refl
cardinality_of-name many = refl

pub unique_of-name : (q : Uniqueness) → unique_of (some (name_of_unique q)) ≡ some q
unfolding unique_of name_of_unique
unique_of-name identity = refl
unique_of-name value = refl

some_inj : {A : Type 0} (x y : A) → some x ≡ some y → x ≡ y
some_inj x y h = cc

pub value_type_of-name :
    (v : ValueType) (u : List CodeUnit) → name_of_type v ≡ some u → value_type_of u ≡ some v
unfolding value_type_of name_of_type
value_type_of-name long_type u h =
    subst (λ w. value_type_of w ≡ some long_type) (some_inj _ u h) refl
value_type_of-name double_type u h =
    subst (λ w. value_type_of w ≡ some double_type) (some_inj _ u h) refl
value_type_of-name string_type u h =
    subst (λ w. value_type_of w ≡ some string_type) (some_inj _ u h) refl
value_type_of-name boolean_type u h =
    subst (λ w. value_type_of w ≡ some boolean_type) (some_inj _ u h) refl
value_type_of-name ref_type u h = subst (λ w. value_type_of w ≡ some ref_type) (some_inj _ u h) refl
value_type_of-name uuid_type u h =
    subst (λ w. value_type_of w ≡ some uuid_type) (some_inj _ u h) refl
value_type_of-name instant_type u h =
    subst (λ w. value_type_of w ≡ some instant_type) (some_inj _ u h) refl
value_type_of-name bytes_type u h =
    subst (λ w. value_type_of w ≡ some bytes_type) (some_inj _ u h) refl
value_type_of-name inherited u h = absurd (clash h)
  where
    clash : none ≡ some u → ⊥
    clash k = cc
