-- ===== src/Schema/Projection/Described.antt =====
-- Applying the datoms of one attribute entity.
use ramose.Base.{
  ℕ, Bool, true, false, ◌&&◌, ◌||◌, not, some, List, [], ◌∷◌, ◌++◌, All, ltb, ◌==◌, ◌≡◌, ◌∙◌, refl,
  ap, arith,
}
use ramose.Base.Dict.{IsEquality, lookup, lookup-set_key}
use ramose.Datom.{strings_equal, Datom}
use ramose.Datom.Text.{strings_equal_sound, strings_equal_refl}
use ramose.Schema.{db_ident, db_doc}
use ramose.Schema.Projection.{
  Schema, partial_of, set_partial, apply_datom, apply_all, is_member, touch,
}
use ramose.Schema.Partials.{Partial, is_field, set_field}

pub number-IsEquality : IsEquality (λ (x : ℕ) (y : ℕ). x == y)
number-IsEquality = record { same = λ x y h. ground (arith, h); self = λ x. ground arith }

pub text-IsEquality : IsEquality strings_equal
text-IsEquality = record { same = strings_equal_sound; self = strings_equal_refl }

-- A datom about the entity `e` that sets a field of its partial.
pub record IsFieldOf (e : ℕ) (d : Datom) : Type 0 where
  pub same_entity : d.e ≡ e
  pub low : ltb db_doc d.a ≡ false
  pub no_ident : (d.a == db_ident) ≡ false
  pub field : is_field d.a ≡ true

abbrev pub fields : List Datom → Partial → Partial
fields [] p = p
fields (d ∷ ds) p = fields ds (set_field d p)

pub fields-append :
    (us vs : List Datom) (p : Partial) → fields (us ++ vs) p ≡ fields vs (fields us p)
fields-append [] vs p = refl
fields-append (u ∷ us) vs p = fields-append us vs (set_field u p)

partial_here :
    (e : ℕ) (p : Partial) (s : Schema)
    → lookup (λ x y. x == y) e s.partials ≡ some p
    → partial_of e s ≡ p
unfolding partial_of
partial_here e p s h = rw (h, partial_of) refl

apply_field :
    (e : ℕ) (d : Datom) (p : Partial) (s : Schema)
    → IsFieldOf e d
    → lookup (λ x y. x == y) e s.partials ≡ some p
    → apply_datom d s ≡ set_partial e (set_field d p) s
unfolding apply_datom
apply_field e d p s f h = rw f.low (
    rw f.no_ident (
      rw f.field
        (rw f.same_entity (ap (λ q. set_partial e (set_field d q) s) (partial_here e p s h)))))

-- Only the partial of the entity changes.
pub fields_lem :
    (e : ℕ) (ds : List Datom) (p : Partial) (s : Schema)
    → All (IsFieldOf e) ds
    → lookup (λ x y. x == y) e s.partials ≡ some p
    → (q : List (ℕ × Partial)) × (apply_all ds s ≡ record s { partials = q })
      × (lookup (λ x y. x == y) e q ≡ some (fields ds p))
unfolding apply_all
fields_lem e [] p s a h = (s.partials, refl, h)
fields_lem e (d ∷ ds) p s a h =
    let s' = set_partial e (set_field d p) s in
    let (q, c, l) = fields_lem e ds (set_field d p) s' a.1 (
      unfold set_partial in
      lookup-set_key (λ x y. x == y) number-IsEquality e (set_field d p) s.partials) in
    (q, ap (apply_all ds) (apply_field e d p s a.0 h) ∙ (c ∙ (unfold set_partial in refl)), l)

touched_already : (b : Bool) (e x : ℕ) → x ≡ e → (b && not (is_member x (e ∷ []))) ≡ false
unfolding is_member
touched_already b e x h = ground (arith, h)

pub touch_same : (e : ℕ) (ds : List Datom) → All (λ d. d.e ≡ e) ds → touch (e ∷ []) ds ≡ e ∷ []
unfolding touch
touch_same e [] a = refl
touch_same e (d ∷ ds) a =
    rw (touched_already (d.a == db_ident || is_field d.a) e d.e a.0) (touch_same e ds a.1)
