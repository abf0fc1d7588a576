-- ===== src/Schema/Projection/RoundTrip.antt =====
-- The schema gets back the attribute that `attributeDatoms` describes.
use ramose.Base.{
  Option-cases, ℕ, Bool, true, false, ◌||◌, Option, none, some, List, [], ◌∷◌, ◌++◌, All,
  All-append, ltb, ◌==◌, ◌≡◌, ◌∙◌, refl, ap, inl, inr,
}
use ramose.Base.Dict.{lookup, lookup-remove_other}
use ramose.Datom.{CodeUnit, str, bool, Datom}
use ramose.Schema.Names.{
  ValueType, Uniqueness, value_type_of, unique_of, name_of_unique, name_of_cardinality,
  unique_of-name, cardinality_of-name,
}
use ramose.Schema.{
  Attribute, AttributeSpec, cardinality_or_one, unique_datom, if_flag, doc_datom, asserted,
  db_ident, db_value_type, db_cardinality, db_index, db_is_component, db_doc,
}
use ramose.Schema.Projection.{
  Schema, forget, is_true, is_some, attribute_from, complete, install, rebuild, attr,
}
use ramose.Schema.Partials.{
  Partial, new_partial, text_of, text_if, truth_of, truth_if, is_field, set_field,
}
use ramose.Schema.Projection.Described.{number-IsEquality, IsFieldOf, fields, fields-append}

-- A doc that is empty is left out.
abbrev pub kept_doc : Option (List CodeUnit) → Option (List CodeUnit)
kept_doc none = none
kept_doc (some []) = none
kept_doc (some (c ∷ u)) = some (c ∷ u)

-- What a specification asks for.
abbrev pub specified : ℕ → ValueType → AttributeSpec → Attribute
specified e v spec = record {
  id = e;
  ident = spec.ident;
  value_type = v;
  cardinality = cardinality_or_one spec.cardinality;
  unique = spec.unique;
  index = spec.index || is_some spec.unique;
  is_component = spec.is_component;
  doc = kept_doc spec.doc;
}

abbrev pub flag_field : Bool → Option Bool
flag_field true = some true
flag_field false = none

abbrev pub unique_name : Option Uniqueness → Option (List CodeUnit)
unique_name none = none
unique_name (some q) = some (name_of_unique q)

module _ (e t : ℕ) where
  unique_fields : (q : Option Uniqueness) → All (IsFieldOf e) (unique_datom e t q)
  unfolding unique_datom is_field
  unique_fields none = tt
  unique_fields (some q) =
      (record { same_entity = refl; low = refl; no_ident = refl; field = refl }, tt)

  flag_fields :
      (b : Bool) (a : ℕ)
      → ltb db_doc a ≡ false
      → (a == db_ident) ≡ false
      → is_field a ≡ true
      → All (IsFieldOf e) (if_flag b (asserted e a (bool true) t))
  unfolding if_flag
  flag_fields true a h k f = (record { same_entity = refl; low = h; no_ident = k; field = f }, tt)
  flag_fields false a h k f = tt

  doc_fields : (d : Option (List CodeUnit)) → All (IsFieldOf e) (doc_datom e t d)
  unfolding doc_datom is_field
  doc_fields none = tt
  doc_fields (some []) = tt
  doc_fields (some (c ∷ u)) =
      (record { same_entity = refl; low = refl; no_ident = refl; field = refl }, tt)

  unique_set :
      (q : Option Uniqueness) (p : Partial)
      → p.unique ≡ none
      → fields (unique_datom e t q) p ≡ record p { unique = unique_name q }
  unfolding unique_datom set_field text_if text_of
  unique_set none p h = ap (λ z. record p { unique = z }) h
  unique_set (some q) p h = refl

  index_set :
      (b : Bool) (p : Partial)
      → p.index ≡ none
      → fields (if_flag b (asserted e db_index (bool true) t)) p ≡ record p { index = flag_field b }
  unfolding if_flag set_field truth_if truth_of
  index_set true p h = refl
  index_set false p h = ap (λ z. record p { index = z }) h

  component_set :
      (b : Bool) (p : Partial)
      → p.is_component ≡ none
      → fields (if_flag b (asserted e db_is_component (bool true) t)) p
        ≡ record p { is_component = flag_field b }
  unfolding if_flag set_field truth_if truth_of
  component_set true p h = refl
  component_set false p h = ap (λ z. record p { is_component = z }) h

  doc_set :
      (d : Option (List CodeUnit)) (p : Partial)
      → p.doc ≡ none
      → fields (doc_datom e t d) p ≡ record p { doc = kept_doc d }
  unfolding doc_datom set_field text_if text_of
  doc_set none p h = ap (λ z. record p { doc = z }) h
  doc_set (some []) p h = ap (λ z. record p { doc = z }) h
  doc_set (some (c ∷ u)) p h = refl

  -- Everything that is described behind the ident.
  abbrev pub described : List CodeUnit → AttributeSpec → List Datom
  described name spec =
      asserted e db_value_type (str name) t
      ∷ asserted e db_cardinality (str (name_of_cardinality (cardinality_or_one spec.cardinality)))
          t
      ∷ (unique_datom e t spec.unique
          ++ (if_flag spec.index (asserted e db_index (bool true) t)
              ++ (if_flag spec.is_component (asserted e db_is_component (bool true) t)
                  ++ doc_datom e t spec.doc)))

  pub described_fields :
      (name : List CodeUnit) (spec : AttributeSpec) → All (IsFieldOf e) (described name spec)
  unfolding is_field
  described_fields name spec = (
    record { same_entity = refl; low = refl; no_ident = refl; field = refl },
    (
      record { same_entity = refl; low = refl; no_ident = refl; field = refl },
      All-append (IsFieldOf e) _ _ (unique_fields spec.unique) (
          All-append (IsFieldOf e) _ _ (flag_fields spec.index db_index refl refl refl) (
            All-append (IsFieldOf e) _ _
              (flag_fields spec.is_component db_is_component refl refl refl)
              (doc_fields spec.doc))),
    ),
  )

  abbrev pub described_partial : List CodeUnit → AttributeSpec → Partial
  described_partial name spec = record {
    ident = some spec.ident;
    value_type = some name;
    cardinality = some (name_of_cardinality (cardinality_or_one spec.cardinality));
    unique = unique_name spec.unique;
    index = flag_field spec.index;
    is_component = flag_field spec.is_component;
    doc = kept_doc spec.doc;
  }

  pub described_set :
      (name : List CodeUnit) (spec : AttributeSpec)
      → fields (described name spec) (record new_partial { ident = some spec.ident })
        ≡ described_partial name spec
  unfolding set_field text_if text_of
  described_set name spec =
      let card = name_of_cardinality (cardinality_or_one spec.cardinality) in
      let p : Partial = record new_partial {
        ident = some spec.ident;
        value_type = some name;
        cardinality = some card;
      } in
      let us = unique_datom e t spec.unique in
      let is = if_flag spec.index (asserted e db_index (bool true) t) in
      let cs = if_flag spec.is_component (asserted e db_is_component (bool true) t) in
      let ds = doc_datom e t spec.doc in
      fields-append us (is ++ (cs ++ ds)) p
      ∙ (ap (fields (is ++ (cs ++ ds))) (unique_set spec.unique p refl)
          ∙ (fields-append is (cs ++ ds) _
              ∙ (ap (fields (cs ++ ds)) (index_set spec.index _ refl)
                  ∙ (fields-append cs ds _
                      ∙ (ap (fields ds) (component_set spec.is_component _ refl)
                          ∙ doc_set spec.doc _ refl)))))

is_true-flag : (b : Bool) → is_true (flag_field b) ≡ b
unfolding is_true
is_true-flag true = refl
is_true-flag false = refl

unique_of-unique_name : (q : Option Uniqueness) → unique_of (unique_name q) ≡ q
unique_of-unique_name none = unfold unique_of in refl
unique_of-unique_name (some q) = unique_of-name q

pub attribute_lem :
    (e t : ℕ) (name : List CodeUnit) (v : ValueType) (spec : AttributeSpec)
    → attribute_from e spec.ident v (described_partial e t name spec) ≡ specified e v spec
unfolding attribute_from
attribute_lem e t name v spec =
    rw
      (
        unique_of-unique_name spec.unique,
        is_true-flag spec.index,
        is_true-flag spec.is_component,
        cardinality_of-name (cardinality_or_one spec.cardinality),
      )
      refl

pub complete_lem :
    (e : ℕ) (c : CodeUnit) (u name : List CodeUnit) (v : ValueType) (p : Partial)
    → p.ident ≡ some (c ∷ u)
    → p.value_type ≡ some name
    → value_type_of name ≡ some v
    → complete e p ≡ some (attribute_from e (c ∷ u) v p)
unfolding complete
complete_lem e c u name v p h k l = rw (h, complete) (rw (k, complete) (rw (l, complete) refl))

pub rebuild_lem :
    (e : ℕ) (p : Partial) (s : Schema)
    → lookup (λ x y. x == y) e s.partials ≡ some p
    → rebuild e s ≡ install (complete e p) (forget e s)
unfolding rebuild
rebuild_lem e p s h = rw (h, rebuild) refl

module _ (e : ℕ) (s : Schema) where
  pub idents-forget : (forget e s).idents ≡ s.idents
  unfolding forget
  idents-forget = elim (Option-cases (lookup (λ x y. x == y) e s.by_id)) [
    | inl h ↦ rw (h, forget) refl
    | inr (old, h) ↦ rw (h, forget) refl
  ]

  pub attr-forget_other : (j : ℕ) → (e == j) ≡ false → attr j (forget e s) ≡ attr j s
  unfolding forget attr
  attr-forget_other j n = elim (Option-cases (lookup (λ x y. x == y) e s.by_id)) [
    | inl h ↦ rw (h, forget) refl
    | inr (old, h) ↦
        rw (h, forget) (lookup-remove_other (λ x y. x == y) number-IsEquality e j s.by_id n)
  ]
