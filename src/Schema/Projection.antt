-- ===== src/Schema/Projection.antt =====
-- The class `Schema` of schema.ts: its maps, `apply`, `rebuild` and the look-ups.
pub mod Described
pub mod RoundTrip
pub mod Specified
use ramose.Base.{
  ℕ, Bool, true, false, ◌&&◌, ◌||◌, not, Option, none, some, List, [], ◌∷◌, ◌++◌, ltb, ◌==◌,
  if◌then◌else◌,
}
use ramose.Base.Dict.{lookup, set_key, remove_key}
use ramose.Datom.{CodeUnit, strings_equal, Value, str, bool, Datom}
use ramose.Schema.Names.{
  ValueType, ref_type, Cardinality, Uniqueness, value_type_of, unique_of, cardinality_of,
}
use ramose.Schema.{
  Attribute, AttributeSpec, db_ident, db_value_type, db_cardinality, db_unique, db_is_component,
  db_index, db_doc,
}
use ramose.Schema.Partials.{Partial, new_partial, text_of, is_field, set_field, same_text}

pub record Schema : Type 0 where
  pub by_id : List (ℕ × Attribute)
  pub by_ident : List (List CodeUnit × Attribute)
  pub idents : List (List CodeUnit × ℕ)
  pub ident_of : List (ℕ × List CodeUnit)
  pub partials : List (ℕ × Partial)

abbrev pub empty_schema : Schema
empty_schema = record { by_id = []; by_ident = []; idents = []; ident_of = []; partials = [] }

-- `let p = this.partials.get(d.e)`, or a new one
unfoldable pub partial_of : ℕ → Schema → Partial
unfolding lookup
partial_of e s = elim (lookup (λ x y. x == y) e s.partials) [ none ↦ new_partial | some p ↦ p ]

unfoldable pub set_partial : ℕ → Partial → Schema → Schema
unfolding set_key
set_partial e p s = record s { partials = set_key (λ x y. x == y) e p s.partials }

unfoldable pub assert_ident : ℕ → List CodeUnit → Schema → Schema
unfolding partial_of set_partial set_key
assert_ident e u s =
    let s' = set_partial e (record (partial_of e s) { ident = some u }) s in
    record s' {
      idents = set_key strings_equal u e s.idents;
      ident_of = set_key (λ x y. x == y) e u s.ident_of;
    }

unfoldable pub retract_ident : ℕ → List CodeUnit → Schema → Schema
unfolding partial_of set_partial lookup remove_key same_text
retract_ident e u s =
    let p = partial_of e s in
    let mine : Bool = elim (lookup strings_equal u s.idents) [ none ↦ false | some x ↦ x == e ] in
    let s' = set_partial e (if same_text p.ident u then record p { ident = none } else p) s in
    record s' {
      idents = if mine then remove_key strings_equal u s.idents else s.idents;
      ident_of = remove_key (λ x y. x == y) e s.ident_of;
    }

-- The body of the loop of `apply`.
unfoldable pub apply_datom : Datom → Schema → Schema
unfolding assert_ident retract_ident text_of is_field set_field partial_of set_partial
apply_datom d s =
    if ltb db_doc d.a
    then s
    else if d.a == db_ident
    then (if d.op then assert_ident d.e (text_of d.v) s else retract_ident d.e (text_of d.v) s)
    else if is_field d.a
    then set_partial d.e (set_field d (partial_of d.e s)) s
    else s

unfoldable pub apply_all : List Datom → Schema → Schema
unfolding apply_datom
apply_all [] s = s
apply_all (d ∷ ds) s = apply_all ds (apply_datom d s)

unfoldable pub is_member : ℕ → List ℕ → Bool
is_member e [] = false
is_member e (x ∷ xs) = x == e || is_member e xs

-- The set `touched`, in the order of insertion.
unfoldable pub touch : List ℕ → List Datom → List ℕ
unfolding is_field is_member
touch seen [] = seen
touch seen (d ∷ ds) =
    touch
      (if (d.a == db_ident || is_field d.a) && not (is_member d.e seen)
        then seen ++ d.e ∷ []
        else seen)
      ds

unfoldable pub forget : ℕ → Schema → Schema
unfolding lookup remove_key
forget e s = elim (lookup (λ x y. x == y) e s.by_id) [
  | none ↦ s
  | some old ↦ record s {
    by_id = remove_key (λ x y. x == y) e s.by_id;
    by_ident = remove_key strings_equal old.ident s.by_ident;
  }
]

-- `!!b`
unfoldable pub is_true : Option Bool → Bool
is_true none = false
is_true (some b) = b

unfoldable pub is_some : {A : Type 0} → Option A → Bool
is_some none = false
is_some (some x) = true

unfoldable pub attribute_from : ℕ → List CodeUnit → ValueType → Partial → Attribute
unfolding unique_of cardinality_of is_true is_some
attribute_from e ident v p =
    let q = unique_of p.unique in
    record {
      id = e;
      ident = ident;
      value_type = v;
      cardinality = cardinality_of p.cardinality;
      unique = q;
      index = is_true p.index || is_some q;
      is_component = is_true p.is_component;
      doc = p.doc;
    }

-- An ident or a value type that is absent or empty is falsy.
unfoldable pub complete : ℕ → Partial → Option Attribute
unfolding value_type_of attribute_from
complete e p = elim p.ident [
  | none ↦ none
  | some ident ↦ elim ident [
    | [] ↦ none
    | c ∷ u ↦ elim p.value_type [
      | none ↦ none
      | some w ↦ elim (value_type_of w) [
        | none ↦ none
        | some v ↦ some (attribute_from e (c ∷ u) v p)
      ]
    ]
  ]
]

unfoldable pub install : Option Attribute → Schema → Schema
unfolding set_key
install none s = s
install (some x) s = record s {
  by_id = set_key (λ x y. x == y) x.id x s.by_id;
  by_ident = set_key strings_equal x.ident x s.by_ident;
}

unfoldable pub rebuild : ℕ → Schema → Schema
unfolding forget complete install lookup
rebuild e s = elim (lookup (λ x y. x == y) e s.partials) [
  | none ↦ forget e s
  | some p ↦ install (complete e p) (forget e s)
]

unfoldable pub rebuild_all : List ℕ → Schema → Schema
unfolding rebuild
rebuild_all [] s = s
rebuild_all (e ∷ es) s = rebuild_all es (rebuild e s)

unfoldable pub apply : List Datom → Schema → Schema
unfolding apply_all touch rebuild_all
apply ds s = rebuild_all (touch [] ds) (apply_all ds s)

unfoldable pub attr : ℕ → Schema → Option Attribute
unfolding lookup
attr a s = lookup (λ x y. x == y) a s.by_id

unfoldable pub attr_by_ident : List CodeUnit → Schema → Option Attribute
unfolding lookup
attr_by_ident u s = lookup strings_equal u s.by_ident

unfoldable pub entid : List CodeUnit → Schema → Option ℕ
unfolding lookup
entid u s = lookup strings_equal u s.idents

unfoldable pub ident : ℕ → Schema → Option (List CodeUnit)
unfolding lookup
ident e s = lookup (λ x y. x == y) e s.ident_of

unfoldable pub is_avet : Schema → ℕ → Bool
unfolding attr
is_avet s a = elim (attr a s) [ none ↦ false | some x ↦ x.index ]

unfoldable pub is_ref : ValueType → Bool
is_ref ref_type = true
is_ref _ = false

unfoldable pub is_vaet : Schema → ℕ → Bool
unfolding attr is_ref
is_vaet s a = elim (attr a s) [ none ↦ false | some x ↦ is_ref x.value_type ]
