-- ===== src/Base/Dict.antt =====
-- A `Map` of JavaScript: its entries in the order of insertion, under an equality of keys.
use ramose.Base.{
  ap, ◌∙◌, ◌≡◌, refl, Bool, true, false, Option, none, some, List, [], ◌∷◌, if◌then◌else◌,
  Bool-cases, inl, inr, keep, not,
}

-- A test for equality.
pub record IsEquality {K : Type 0} (eq : K → K → Bool) : Type 0 where
  pub same : (x y : K) → eq x y ≡ true → x ≡ y
  pub self : (x : K) → eq x x ≡ true

other_key :
    {K : Type 0} (eq : K → K → Bool) (law : IsEquality eq) (i k j : K)
    → eq i k ≡ true
    → eq k j ≡ false
    → eq i j ≡ false
other_key eq law i k j e h = ap (λ x. eq x j) (law.same i k e) ∙ h

module _ {K V : Type 0} (eq : K → K → Bool) where
  unfoldable pub lookup : K → List (K × V) → Option V
  lookup k [] = none
  lookup k ((j, v) ∷ d) = let rest = lookup k d in if eq j k then some v else rest

  -- A key that is there keeps its place.
  unfoldable pub set_key : K → V → List (K × V) → List (K × V)
  set_key k v [] = (k, v) ∷ []
  set_key k v ((j, u) ∷ d) =
      let rest = set_key k v d in if eq j k then (j, v) ∷ d else (j, u) ∷ rest

  unfoldable pub remove_key : K → List (K × V) → List (K × V)
  unfolding keep
  remove_key k d = keep (λ p. not (eq p.0 k)) d

  pub lookup-set_key :
      IsEquality eq → (k : K) (v : V) (d : List (K × V)) → lookup k (set_key k v d) ≡ some v
  unfolding lookup set_key
  lookup-set_key law k v [] = rw (law.self k) refl
  lookup-set_key law k v ((j, u) ∷ d) = elim (Bool-cases (eq j k)) [
    | inl e ↦ rw e (rw e refl)
    | inr e ↦ rw e (rw e (lookup-set_key law k v d))
  ]

  pub lookup-set_other :
      IsEquality eq
      → (k j : K) (v : V) (d : List (K × V)) → eq k j ≡ false
      → lookup j (set_key k v d) ≡ lookup j d
  unfolding lookup set_key
  lookup-set_other law k j v [] h = rw h refl
  lookup-set_other law k j v ((i, u) ∷ d) h = elim (Bool-cases (eq i k)) [
    | inl e ↦ let q = other_key eq law i k j e h in rw e (rw q refl)
    | inr e ↦ elim (Bool-cases (eq i j)) [
      | inl f ↦ rw e (rw f refl)
      | inr f ↦ rw e (rw f (lookup-set_other law k j v d h))
    ]
  ]

  pub lookup-remove : (k : K) (d : List (K × V)) → lookup k (remove_key k d) ≡ none
  unfolding lookup remove_key keep
  lookup-remove k [] = refl
  lookup-remove k ((j, u) ∷ d) = elim (Bool-cases (eq j k)) [
    | inl e ↦ rw e (lookup-remove k d)
    | inr e ↦ rw e (rw e (lookup-remove k d))
  ]

  pub lookup-remove_other :
      IsEquality eq
      → (k j : K) (d : List (K × V)) → eq k j ≡ false
      → lookup j (remove_key k d) ≡ lookup j d
  unfolding lookup remove_key keep
  lookup-remove_other law k j [] h = refl
  lookup-remove_other law k j ((i, u) ∷ d) h = elim (Bool-cases (eq i k)) [
    | inl e ↦ let q = other_key eq law i k j e h in rw e (rw q (lookup-remove_other law k j d h))
    | inr e ↦ elim (Bool-cases (eq i j)) [
      | inl f ↦ rw e (rw f refl)
      | inr f ↦ rw e (rw f (lookup-remove_other law k j d h))
    ]
  ]
