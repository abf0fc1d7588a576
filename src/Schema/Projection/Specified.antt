-- ===== src/Schema/Projection/Specified.antt =====
-- `apply` of the datoms of `attributeDatoms` installs the attribute that was specified.
use ramose.Base.{◌≢◌, ℕ, false, none, some, List, [], ◌∷◌, All, ◌==◌, ◌≡◌, ◌∙◌, refl, sym, ap}
use ramose.Base.Dict.{lookup, set_key, lookup-set_key, lookup-set_other}
use ramose.Datom.{CodeUnit, strings_equal, str, Datom}
use ramose.Schema.Names.{ValueType, value_type_of, name_of_type, value_type_of-name}
use ramose.Schema.{AttributeSpec, type_of_form, attribute_datoms, asserted, db_ident}
use ramose.Schema.Projection.{
  Schema, partial_of, set_partial, assert_ident, apply_datom, apply_all, touch, forget,
  attribute_from, complete, install, rebuild, rebuild_all, apply, attr, entid, is_member,
}
use ramose.Schema.Partials.{Partial, new_partial, text_of}
use ramose.Schema.Projection.Described.{
  number-IsEquality, text-IsEquality, IsFieldOf, fields_lem, touch_same,
}
use ramose.Schema.Projection.RoundTrip.{
  specified, described, described_partial, described_fields, described_set, attribute_lem,
  complete_lem, rebuild_lem, idents-forget, attr-forget_other,
}

attribute_datoms_lem :
    (e t : ℕ) (spec : AttributeSpec) (v : ValueType) (name : List CodeUnit)
    → type_of_form spec.value_type ≡ some v
    → name_of_type v ≡ some name
    → attribute_datoms e spec t
      ≡ some (asserted e db_ident (str spec.ident) t ∷ described e t name spec)
unfolding attribute_datoms
attribute_datoms_lem e t spec v name h k = rw (h, attribute_datoms) (rw (k, attribute_datoms) refl)

same_entities : (e : ℕ) (ds : List Datom) → All (IsFieldOf e) ds → All (λ d. d.e ≡ e) ds
same_entities e [] a = tt
same_entities e (d ∷ ds) a = (a.0.same_entity, same_entities e ds a.1)

module _ (e t : ℕ) (spec : AttributeSpec) (name : List CodeUnit) (s : Schema) where
  abbrev all_datoms : List Datom
  all_datoms = asserted e db_ident (str spec.ident) t ∷ described e t name spec

  touch_lem : touch [] all_datoms ≡ e ∷ []
  unfolding touch is_member
  touch_lem =
      touch_same e (described e t name spec)
        (same_entities e (described e t name spec) (described_fields e t name spec))

  abbrev new_partials : List (ℕ × Partial)
  new_partials =
      set_key (λ x y. x == y) e (record new_partial { ident = some spec.ident }) s.partials

  abbrev with_ident : Schema
  with_ident = record s {
    partials = new_partials;
    idents = set_key strings_equal spec.ident e s.idents;
    ident_of = set_key (λ x y. x == y) e spec.ident s.ident_of;
  }

  partial_new : lookup (λ x y. x == y) e s.partials ≡ none → partial_of e s ≡ new_partial
  unfolding partial_of
  partial_new h = rw (h, partial_of) refl

  apply_ident :
      lookup (λ x y. x == y) e s.partials ≡ none
      → apply_datom (asserted e db_ident (str spec.ident) t) s ≡ with_ident
  unfolding apply_datom assert_ident text_of set_partial
  apply_ident h =
      ap
        (λ (p : Partial).
          let next : Partial = record p { ident = some spec.ident } in
          let s' : Schema = record s {
            partials = set_key (λ x y. x == y) e next s.partials;
            idents = set_key strings_equal spec.ident e s.idents;
            ident_of = set_key (λ x y. x == y) e spec.ident s.ident_of;
          } in
          s')
        (partial_new h)

  applied :
      lookup (λ x y. x == y) e s.partials ≡ none
      → (q : List (ℕ × Partial)) × (apply all_datoms s
          ≡ rebuild e (record with_ident { partials = q }))
        × (lookup (λ x y. x == y) e q ≡ some (described_partial e t name spec))
  unfolding apply rebuild_all apply_all
  applied h =
      let here =
        lookup-set_key (λ x y. x == y) number-IsEquality e
          (record new_partial { ident = some spec.ident }) s.partials in
      let (q, c, l) =
        fields_lem e (described e t name spec) (record new_partial { ident = some spec.ident })
          with_ident (described_fields e t name spec) here in
      (
        q,
        ap (λ z. rebuild_all z (apply_all all_datoms s)) touch_lem
            ∙ ap (rebuild e) (ap (apply_all (described e t name spec)) (apply_ident h) ∙ c),
        l ∙ ap some (described_set e t name spec),
      )

  installed :
      (c : CodeUnit) (u : List CodeUnit) (v : ValueType)
      → lookup (λ x y. x == y) e s.partials ≡ none
      → spec.ident ≡ c ∷ u
      → value_type_of name ≡ some v
      → (q : List (ℕ × Partial)) × (apply all_datoms s
          ≡ install (some (specified e v spec)) (forget e (record with_ident { partials = q })))
  installed c u v h k w =
      let (q, a, l) = applied h in
      let p = described_partial e t name spec in
      let full : complete e p ≡ some (specified e v spec) =
        complete_lem e c u name v p (ap some k) refl w
        ∙ ap some (ap (λ z. attribute_from e z v p) (sym k) ∙ attribute_lem e t name v spec) in
      (
        q,
        a
            ∙ (rebuild_lem e p (record with_ident { partials = q }) l
                ∙ ap (λ z. install z (forget e (record with_ident { partials = q }))) full),
      )

nonempty : (u : List CodeUnit) → u ≢ [] → (c : CodeUnit) × (w : List CodeUnit) × (u ≡ c ∷ w)
nonempty [] h = absurd (h refl)
nonempty (c ∷ w) h = (c, w, refl)

-- For a specification with an ident that is not empty and one of the eight value types, given by
-- its number or its name, and an entity of which the schema knows nothing, `attributeDatoms`
-- succeeds, and `apply` of its datoms gives a schema whose attribute of that id is the specified
-- one (cardinality one by default, indexed where it is unique, an empty doc left out), which
-- resolves the ident to the entity, and whose other attributes, by id, are as they were.
pub apply-attribute_datoms :
    (e t : ℕ) (spec : AttributeSpec) (v : ValueType) (name : List CodeUnit) (s : Schema)
    → lookup (λ x y. x == y) e s.partials ≡ none
    → spec.ident ≢ []
    → type_of_form spec.value_type ≡ some v
    → name_of_type v ≡ some name
    → (ds : List Datom) × (attribute_datoms e spec t ≡ some ds)
      × (attr e (apply ds s) ≡ some (specified e v spec))
      × (entid spec.ident (apply ds s) ≡ some e)
      × ((j : ℕ) → (e == j) ≡ false → attr j (apply ds s) ≡ attr j s)
unfolding attr entid install
apply-attribute_datoms e t spec v name s h ne w n =
    let (c, u, k) = nonempty spec.ident ne in
    let (q, a) = installed e t spec name s c u v h k (value_type_of-name v name n) in
    let base = record (with_ident e t spec name s) { partials = q } in
    let x = specified e v spec in
    (
      all_datoms e t spec name s,
      attribute_datoms_lem e t spec v name w n,
      ap (attr e) a ∙ lookup-set_key (λ x y. x == y) number-IsEquality e x (forget e base).by_id,
      ap (entid spec.ident) a
          ∙ (ap (lookup strings_equal spec.ident) (idents-forget e base)
              ∙ lookup-set_key strings_equal text-IsEquality spec.ident e s.idents),
      λ j m.
          ap (attr j) a
          ∙ (lookup-set_other (λ x y. x == y) number-IsEquality e j x (forget e base).by_id m
              ∙ attr-forget_other e base j m),
    )
